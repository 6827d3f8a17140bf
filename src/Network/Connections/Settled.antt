-- ===== src/Network/Connections/Settled.antt =====
-- components/endpoint/network/connection.rs: `active` and `available` where nothing is left to count.
use jackfield.Common.{
  total, ℕ, ◌^◌, ◌<◌, ◌≡◌, ◌≢◌, ◌↔◌, refl, List, [], ◌∷◌, true, length, ltb, arith,
}
use jackfield.Network.Connections.{Point, new, available, System, Runs, fetched}
use jackfield.Network.Connections.Counting.{joins, leaves}
use jackfield.Network.Connections.Invariant.{Runs-Inv, next_id-Runs}

-- No task has inserted or removed a connection and not counted it yet.
abbrev pub IsSettled : {Tx : Type 0} → List (Point Tx) → Type 0
IsSettled tasks = (total joins tasks ≡ 0) × (total leaves tasks ≡ 0)

some_left : {A : Type 0} (l : List A) → (0 < length l) ↔ (l ≢ [])
some_left [] = (λ h. absurd (omega arith), λ h. absurd (h refl))
some_left (x ∷ l) = (λ h e. cc, λ h. omega arith)

ltb_iff : (a b : ℕ) → (ltb a b ≡ true) ↔ (a < b)
ltb_iff a b = (λ h. ground arith, λ h. ground arith)

module _ {Tx : Type 0} where
  -- However the methods of the clones of a registry interleave, whenever no task is between a
  -- change of the table and its count, `active` is the number of connections, and `available`
  -- tells whether there are any, if fewer than 2^64 connections were ever made.
  pub Runs-available :
      {s : System Tx} (r : Runs (record { shared = new; tasks = [] }) s)
      → fetched r < 2 ^ 64
      → IsSettled s.tasks
      → (s.shared.active ≡ length s.shared.connections)
        × ((available s.shared ≡ true) ↔ (s.shared.connections ≢ []))
  unfolding available
  Runs-available {s} r h q =
      let inv = Runs-Inv r h in
      let exact : s.shared.active ≡ length s.shared.connections =
        omega (arith, inv.counted, inv.small, inv.few, next_id-Runs r h, q, h) in
      let (some_of, left_of) = some_left s.shared.connections in
      let (lt_of, of_lt) = ltb_iff 0 s.shared.active in
      (
        exact,
        (
          λ a. some_of (omega (arith, lt_of a, exact)),
          λ n. of_lt (omega (arith, left_of n, exact)),
        ),
      )
