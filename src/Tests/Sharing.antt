-- ===== src/Tests/Sharing.antt =====
-- components/endpoint/network/connection.rs: runs of tasks that share a `ConnectionRegistry`.
use mathlib.Core.List.Perm
use jackfield.Common.{ℕ, ◌-◌, ◌^◌, ◌≡◌, ◌≢◌, ◌↔◌, refl, [], ◌∷◌, true, false, length, arith}
use jackfield.Network.Connections.{
  connect, joining, finished, broadcast, inserting, get_id, put_in, join, look, send_ok, send_fails,
  lock, sweep, drop, unlock, new, available, fetch_id, insert, count_up, take_out, count_down,
  remove, holds, System, Runs, here, begin, move,
}
use jackfield.Network.Connections.Settled.{Runs-available}
use jackfield.Network.Connections.Race.{empty_at, available_empty}

abbrev start : System ℕ
start = record { shared = new; tasks = [] }

-- Two tasks connect, and a third finds the first receiver gone: one connection is left.
abbrev one_left : System ℕ
one_left = record {
  shared = record { connections = (1, 8) ∷ []; next_id = 2; active = 1; locked = false };
  tasks = finished ∷ finished ∷ finished ∷ [];
}

abbrev left_run : Runs start one_left
unfolding new fetch_id insert count_up take_out count_down remove holds
left_run =
    let first = move [] [] (move [] [] (begin (connect 7) refl here) get_id) (put_in refl) in
    let second = move [] (joining 0 ∷ []) (begin (connect 8) refl first) get_id in
    let joined = move (inserting 1 8 ∷ []) [] second join in
    let both = move [] (finished ∷ []) (move [] (finished ∷ []) joined (put_in refl)) join in
    let others = finished ∷ finished ∷ [] in
    let seen = move [] others (begin broadcast refl both) (look _ refl (Perm.refl _)) in
    let sent = move [] others (move [] others seen send_ok) send_fails in
    let dead = move [] others (move [] others sent (lock refl)) (sweep refl) in
    move [] others (move [] others dead drop) unlock

Runs-available_example :
    (1 ≡ length {A = ℕ × ℕ} ((1, 8) ∷ []))
    × ((available one_left.shared ≡ true) ↔ (one_left.shared.connections ≢ []))
unfolding left_run
Runs-available_example = Runs-available left_run (omega arith) (refl, refl)

available_empty_example :
    (s : System ℕ) × Runs (record { shared = empty_at 3; tasks = [] }) s
    × (s.shared.connections ≡ [])
    × (s.shared.active ≡ 2 ^ 64 - 1)
    × (available s.shared ≡ true)
available_empty_example = available_empty 3 7
