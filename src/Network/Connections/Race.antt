-- ===== src/Network/Connections/Race.antt =====
-- components/endpoint/network/connection.rs: a broadcast that overtakes a connect.
use mathlib.Core.List.Perm
use jackfield.Common.{ℕ, ◌+◌, ◌-◌, ◌%◌, ◌^◌, ◌≡◌, refl, List, [], ◌∷◌, true, false, arith}
use jackfield.Network.Connections.{
  Shared, connect, joining, broadcast, sweeping, get_id, put_in, look, send_fails, lock, sweep,
  drop, available, fetch_id, insert, take_out, count_down, remove, holds, System, Runs, here, begin,
  move,
}

module _ {Tx : Type 0} where
  -- A registry without connections.
  abbrev pub empty_at : ℕ → Shared Tx
  empty_at n = record { connections = []; next_id = n; active = 0; locked = false }

  remove_last : (n : ℕ) (tx : Tx) → remove n ((n, tx) ∷ []) ≡ []
  unfolding remove
  remove_last n tx = ground arith

  holds_last : (n : ℕ) (tx : Tx) → holds n ((n, tx) ∷ []) ≡ true
  unfolding holds
  holds_last n tx = ground arith

  abbrev overtaken : ℕ → List (ℕ × Tx) → Shared Tx
  overtaken n conns = record {
    connections = conns;
    next_id = (n + 1) % 2 ^ 64;
    active = 2 ^ 64 - 1;
    locked = true;
  }

  overtakes :
      (n : ℕ) (tx : Tx)
      → Runs
          (record { shared = empty_at n; tasks = [] })
          (record {
            shared = overtaken n (remove n ((n, tx) ∷ []));
            tasks = sweeping [] ∷ joining n ∷ [];
          })
  unfolding fetch_id insert take_out count_down remove
  overtakes n tx =
      let connected = move [] [] (move [] [] (begin (connect tx) refl here) get_id) (put_in refl) in
      let seen =
        move [] (joining n ∷ []) (begin broadcast refl connected)
          (look ((n, tx) ∷ []) refl (Perm.refl ((n, tx) ∷ []))) in
      let locked =
        move [] (joining n ∷ []) (move [] (joining n ∷ []) seen send_fails) (lock refl) in
      move [] (joining n ∷ []) (move [] (joining n ∷ []) locked (sweep (holds_last n tx))) drop

  -- When `connect` has inserted its connection and not counted it, a `broadcast` that finds the
  -- receiver gone removes and counts it first: then `active` has wrapped, and `available` is true
  -- of a registry without connections.
  pub available_empty :
      (n : ℕ) (tx : Tx)
      → (s : System Tx) × Runs (record { shared = empty_at n; tasks = [] }) s
        × (s.shared.connections ≡ [])
        × (s.shared.active ≡ 2 ^ 64 - 1)
        × (available s.shared ≡ true)
  unfolding available
  available_empty n tx = (
    record { shared = overtaken n (remove n ((n, tx) ∷ [])); tasks = sweeping [] ∷ joining n ∷ [] },
    overtakes n tx,
    remove_last n tx,
    refl,
    refl,
  )
