-- ===== src/Network/Connections/Invariant.antt =====
-- components/endpoint/network/connection.rs: what holds of a registry in use, between any two moves.
use jackfield.Common.{
  total, total-move, ℕ, ◌+◌, ◌%◌, ◌^◌, ◌≤◌, ◌<◌, ◌≡◌, refl, List, [], ◌∷◌, ◌++◌, true, length, ◌==◌,
  arith, if◌then◌else◌,
}
use jackfield.Network.Connections.{
  Shared, Point, inserting, finished, Move, get_id, put_in, join, find_none, find_one, leave, look,
  send_ok, send_fails, all_alive, lock, skip, sweep, drop, unlock, fetch_id, insert, count_up,
  take_out, count_down, new, System, Runs, here, begin, move, fetches, fetched, is_start,
}
use jackfield.Network.Connections.Counting.{
  joins, leaves, waits, claims, uses, length-remove, uses-remove, holds-uses,
}

-- Every id has at most one connection, or one task that is about to insert it, and none from the
-- counter on; there are no more of these than fetched ids; active and the connections differ by what tasks have not counted yet.
pub record Inv {Tx : Type 0} (m : Shared Tx) (tasks : List (Point Tx)) : Type 0 where
  pub single : (i : ℕ) → uses i m.connections + total (claims i) tasks ≤ 1
  pub fresh : (i : ℕ) → m.next_id ≤ i → uses i m.connections + total (claims i) tasks ≡ 0
  pub counted :
      (m.active + total joins tasks) % 2 ^ 64 ≡ (length m.connections + total leaves tasks) % 2 ^ 64
  pub small : m.active < 2 ^ 64
  pub few : length m.connections + total waits tasks ≤ m.next_id

module _ {Tx : Type 0} where
  -- A move makes at most one new claim to an id, the one that it fetches.
  Move-uses :
      {m m' : Shared Tx} {p p' : Point Tx} (mv : Move m p m' p') (i : ℕ)
      → uses i m'.connections + claims i p'
        ≤ uses i m.connections + claims i p + (if m.next_id == i then fetches mv else 0)
  unfolding fetch_id insert count_up take_out count_down
  Move-uses get_id i = ground arith
  Move-uses {m} (put_in {id} h) i = ground (arith, uses-remove i id m.connections)
  Move-uses join i = ground arith
  Move-uses (find_none h k) i = ground arith
  Move-uses {m} (find_one {id} h k) i = ground (arith, uses-remove i id m.connections)
  Move-uses leave i = ground arith
  Move-uses (look snapshot h k) i = ground arith
  Move-uses send_ok i = ground arith
  Move-uses send_fails i = ground arith
  Move-uses all_alive i = ground arith
  Move-uses (lock h) i = ground arith
  Move-uses (skip h) i = ground arith
  Move-uses {m} (sweep {id} h) i = ground (arith, uses-remove i id m.connections)
  Move-uses drop i = ground arith
  Move-uses unlock i = ground arith

  fetches_le : {m m' : Shared Tx} {p p' : Point Tx} (mv : Move m p m' p') → fetches mv ≤ 1
  fetches_le get_id = omega arith
  fetches_le mv = ground arith

  -- The counter counts the fetched ids while it does not wrap.
  Move-next_id :
      {m m' : Shared Tx} {p p' : Point Tx} (mv : Move m p m' p')
      → m.next_id + fetches mv < 2 ^ 64
      → m'.next_id ≡ m.next_id + fetches mv
  unfolding fetch_id insert count_up take_out count_down
  Move-next_id get_id h = omega arith
  Move-next_id mv h = ground arith

  Move-few :
      {m m' : Shared Tx} {p p' : Point Tx} (mv : Move m p m' p')
      → length m'.connections + waits p' ≤ length m.connections + waits p + fetches mv
  unfolding fetch_id insert count_up take_out count_down
  Move-few {m} (put_in {id} h) = ground (arith, length-remove id m.connections)
  Move-few {m} (find_one {id} h k) = ground (arith, length-remove id m.connections)
  Move-few {m} (sweep {id} h) = ground (arith, length-remove id m.connections)
  Move-few mv = ground arith

  -- What a move does to the sizes, in terms of the uses of an id that is inserted or removed.
  Move-counted :
      {m m' : Shared Tx} {p p' : Point Tx}
      → Move m p m' p'
      → ((i : ℕ) → claims i p ≡ 1 → uses i m.connections ≡ 0)
      → ((i : ℕ) → uses i m.connections ≤ 1)
      → m.active < 2 ^ 64
      → ((m'.active + joins p' + length m.connections + leaves p) % 2 ^ 64
          ≡ (m.active + joins p + length m'.connections + leaves p') % 2 ^ 64)
        × (m'.active < 2 ^ 64)
  unfolding fetch_id insert count_up take_out count_down
  Move-counted {m} (put_in {id} h) own one small =
      ground (arith, own id (ground arith), length-remove id m.connections)
  Move-counted {m} (find_one {id} h k) own one small =
      ground (arith, one id, holds-uses id m.connections k, length-remove id m.connections)
  Move-counted {m} (sweep {id} h) own one small =
      ground (arith, one id, holds-uses id m.connections h, length-remove id m.connections)
  Move-counted mv own one small = ground arith

module _ {Tx : Type 0} (before after : List (Point Tx)) where
  -- A move of one task keeps the invariant, if it does not use up the counter.
  pub Move-Inv :
      {m m' : Shared Tx} {p p' : Point Tx}
      → Inv m (before ++ p ∷ after)
      → (mv : Move m p m' p') → m.next_id + fetches mv < 2 ^ 64
      → Inv m' (before ++ p' ∷ after)
  Move-Inv {m} {m'} {p} {p'} inv mv h =
      let own : (i : ℕ) → claims i p ≡ 1 → uses i m.connections ≡ 0 =
        λ i c. omega (arith, c, inv.single i, total-move (claims i) before p finished after) in
      let one : (i : ℕ) → uses i m.connections ≤ 1 = λ i. omega (arith, inv.single i) in
      let (sizes, small') = Move-counted mv own one inv.small in
      let next = Move-next_id mv h in
      record {
        single = λ i. ground (
          arith,
          inv.single i,
          inv.fresh i,
          Move-uses mv i,
          total-move (claims i) before p p' after,
          fetches_le mv,
        );
        fresh = λ i le.
            ground
              (arith, inv.fresh i, Move-uses mv i, total-move (claims i) before p p' after, next);
        counted = omega (
          arith,
          inv.counted,
          sizes,
          total-move joins before p p' after,
          total-move leaves before p p' after,
        );
        small = small';
        few = omega (arith, inv.few, next, Move-few mv, total-move waits before p p' after);
      }

module _ {Tx : Type 0} where
  start-claims : (p : Point Tx) (i : ℕ) → is_start p ≡ true → claims i p ≡ 0
  start-claims (inserting id tx) i h = cc
  start-claims p i h = ground arith

  begin-Inv :
      (m : Shared Tx) (p : Point Tx) (tasks : List (Point Tx))
      → is_start p ≡ true
      → Inv m tasks
      → Inv m (p ∷ tasks)
  begin-Inv m p tasks h inv =
      let quiet : (joins p ≡ 0) × (leaves p ≡ 0) × (waits p ≡ 0) = ground arith in
      record {
        single = λ i. omega (arith, inv.single i, start-claims p i h);
        fresh = λ i le. omega (arith, inv.fresh i le, start-claims p i h);
        counted = omega (arith, inv.counted, quiet);
        small = inv.small;
        few = omega (arith, inv.few, quiet);
      }

  new-Inv : Inv (new {Tx = Tx}) []
  unfolding new
  new-Inv = record {
    single = λ i. omega arith;
    fresh = λ i le. omega arith;
    counted = refl;
    small = omega arith;
    few = omega arith;
  }

  -- The counter of a run.
  pub next_id-Runs :
      {s : System Tx} (r : Runs (record { shared = new; tasks = [] }) s)
      → fetched r < 2 ^ 64
      → s.shared.next_id ≡ fetched r
  unfolding new
  next_id-Runs here h = refl
  next_id-Runs (begin p b r) h = next_id-Runs r h
  next_id-Runs (move before after r mv) h =
      let ih = next_id-Runs r (omega arith) in
      omega (arith, ih, Move-next_id mv (omega (arith, ih)))

  -- Whatever tasks do, in whatever order, the invariant holds, if fewer than 2^64 ids are fetched.
  pub Runs-Inv :
      {s : System Tx} (r : Runs (record { shared = new; tasks = [] }) s)
      → fetched r < 2 ^ 64
      → Inv s.shared s.tasks
  Runs-Inv here h = new-Inv
  Runs-Inv (begin {m} {tasks} p b r) h = begin-Inv m p tasks b (Runs-Inv r h)
  Runs-Inv (move before after r mv) h =
      let ih = Runs-Inv r (omega arith) in
      Move-Inv before after ih mv (omega (arith, next_id-Runs r (omega arith)))
