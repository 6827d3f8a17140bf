-- ===== src/Network/Connections.antt =====
-- components/endpoint/network/connection.rs: `ConnectionRegistry`, which several tasks share. Its
-- methods are split at their accesses to what is shared: a task is at a point of its method, and
-- each move is one access.
pub mod Counting
pub mod Invariant
pub mod Settled
pub mod Race
use mathlib.Core.List.{Perm}
use jackfield.Common.{
  ℕ, ◌+◌, ◌-◌, ◌%◌, ◌^◌, ◌≡◌, List, [], ◌∷◌, ◌++◌, Bool, true, false, Option, none, some, length,
  ltb, ◌==◌, if◌then◌else◌,
}

-- What the clones of a registry share. `usize` has 64 bits; locked tells whether the mutex around
-- the connections is held across moves.
pub record Shared (Tx : Type 0) : Type 0 where
  pub connections : List (ℕ × Tx)
  pub next_id : ℕ
  pub active : ℕ
  pub locked : Bool

module _ {Tx : Type 0} where
  -- `HashMap::remove`, and whether there was something to remove.
  unfoldable pub remove : ℕ → List (ℕ × Tx) → List (ℕ × Tx)
  remove id [] = []
  remove id ((key, tx) ∷ rest) =
      let others = remove id rest in if key == id then others else (key, tx) ∷ others

  unfoldable pub holds : ℕ → List (ℕ × Tx) → Bool
  holds id [] = false
  holds id ((key, tx) ∷ rest) = let later = holds id rest in if key == id then true else later

  -- `ConnectionRegistry::new` and `available`
  unfoldable pub new : Shared Tx
  new = record { connections = []; next_id = 0; active = 0; locked = false }

  unfoldable pub available : Shared Tx → Bool
  available m = ltb 0 m.active

  -- The atomic accesses: `next_id.fetch_add(1)`, `insert`, `active.fetch_add(1)`, `remove` and
  -- `active.fetch_sub(1)`
  unfoldable pub fetch_id : Shared Tx → Shared Tx
  fetch_id m = record m { next_id = (m.next_id + 1) % 2 ^ 64 }

  unfoldable pub insert : ℕ → Tx → Shared Tx → Shared Tx
  unfolding remove
  insert id tx m = record m { connections = (id, tx) ∷ remove id m.connections }

  unfoldable pub count_up : Shared Tx → Shared Tx
  count_up m = record m { active = (m.active + 1) % 2 ^ 64 }

  unfoldable pub take_out : ℕ → Shared Tx → Shared Tx
  unfolding remove
  take_out id m = record m { connections = remove id m.connections }

  unfoldable pub count_down : Shared Tx → Shared Tx
  count_down m = record m { active = (m.active + (2 ^ 64 - 1)) % 2 ^ 64 }

-- The points of the methods. `connect tx` is at its start, then has its id, then has inserted it;
-- `disconnect` has removed its id; `broadcast` goes over its snapshot with the dead ids so far,
-- and then over the dead ids, of which one may be removed and not yet counted.
pub data Point (Tx : Type 0) : Type 0 where
  connect : Tx → Point Tx
  inserting : ℕ → Tx → Point Tx
  joining : ℕ → Point Tx
  disconnect : ℕ → Point Tx
  leaving : Point Tx
  broadcast : Point Tx
  sending : List (ℕ × Tx) → List ℕ → Point Tx
  sweeping : List ℕ → Point Tx
  swept : List ℕ → Point Tx
  finished : Point Tx

-- One access of one task.
pub data Move {Tx : Type 0} : Shared Tx → Point Tx → Shared Tx → Point Tx → Type 0 where
  get_id : {m : Shared Tx} {tx : Tx} → Move m (connect tx) (fetch_id m) (inserting m.next_id tx)
  put_in :
      {m : Shared Tx} {id : ℕ} {tx : Tx}
      → m.locked ≡ false
      → Move m (inserting id tx) (insert id tx m) (joining id)
  join : {m : Shared Tx} {id : ℕ} → Move m (joining id) (count_up m) finished
  find_none :
      {m : Shared Tx} {id : ℕ}
      → m.locked ≡ false
      → holds id m.connections ≡ false
      → Move m (disconnect id) m finished
  find_one :
      {m : Shared Tx} {id : ℕ}
      → m.locked ≡ false
      → holds id m.connections ≡ true
      → Move m (disconnect id) (take_out id m) leaving
  leave : {m : Shared Tx} → Move m leaving (count_down m) finished
  -- The snapshot may come in any order, as the iteration of a `HashMap` does.
  look :
      {m : Shared Tx} (snapshot : List (ℕ × Tx))
      → m.locked ≡ false
      → Perm snapshot m.connections
      → Move m broadcast m (sending snapshot [])
  -- `send` to one connection, which succeeds or finds its receiver gone.
  send_ok :
      {m : Shared Tx} {c : ℕ × Tx} {rest : List (ℕ × Tx)} {dead : List ℕ}
      → Move m (sending (c ∷ rest) dead) m (sending rest dead)
  send_fails :
      {m : Shared Tx} {c : ℕ × Tx} {rest : List (ℕ × Tx)} {dead : List ℕ}
      → Move m (sending (c ∷ rest) dead) m (sending rest (dead ++ c.0 ∷ []))
  all_alive : {m : Shared Tx} → Move m (sending [] []) m finished
  lock :
      {m : Shared Tx} {id : ℕ} {dead : List ℕ}
      → m.locked ≡ false
      → Move m (sending [] (id ∷ dead)) (record m { locked = true }) (sweeping (id ∷ dead))
  skip :
      {m : Shared Tx} {id : ℕ} {dead : List ℕ}
      → holds id m.connections ≡ false
      → Move m (sweeping (id ∷ dead)) m (sweeping dead)
  sweep :
      {m : Shared Tx} {id : ℕ} {dead : List ℕ}
      → holds id m.connections ≡ true
      → Move m (sweeping (id ∷ dead)) (take_out id m) (swept dead)
  drop : {m : Shared Tx} {dead : List ℕ} → Move m (swept dead) (count_down m) (sweeping dead)
  unlock : {m : Shared Tx} → Move m (sweeping []) (record m { locked = false }) finished

pub record System (Tx : Type 0) : Type 0 where
  pub shared : Shared Tx
  pub tasks : List (Point Tx)

abbrev pub is_start : {Tx : Type 0} → Point Tx → Bool
is_start (connect tx) = true
is_start (disconnect id) = true
is_start broadcast = true
is_start _ = false

-- Tasks begin a method and move in any order.
pub data Runs {Tx : Type 0} (start : System Tx) : System Tx → Type 0 where
  here : Runs start start
  begin :
      {m : Shared Tx} {tasks : List (Point Tx)} (p : Point Tx)
      → is_start p ≡ true
      → Runs start (record { shared = m; tasks = tasks })
      → Runs start (record { shared = m; tasks = p ∷ tasks })
  move :
      {m m' : Shared Tx} {p p' : Point Tx} (before after : List (Point Tx))
      → Runs start (record { shared = m; tasks = before ++ p ∷ after })
      → Move m p m' p'
      → Runs start (record { shared = m'; tasks = before ++ p' ∷ after })

module _ {Tx : Type 0} where
  -- How many ids are fetched.
  abbrev pub fetches : {m m' : Shared Tx} {p p' : Point Tx} → Move m p m' p' → ℕ
  fetches get_id = 1
  fetches _ = 0

  abbrev pub fetched : {start s : System Tx} → Runs start s → ℕ
  fetched here = 0
  fetched (begin p h r) = fetched r
  fetched (move before after r mv) = fetched r + fetches mv
