-- ===== src/Network/Connections/Counting.antt =====
-- components/endpoint/network/connection.rs: sums over the tasks, and the sizes of the table.
use jackfield.Common.{
  ℕ, suc, ◌+◌, ◌<◌, ◌≡◌, List, [], ◌∷◌, true, length, ◌==◌, arith, if◌then◌else◌,
}
use jackfield.Network.Connections.{Point, inserting, joining, leaving, swept, remove, holds}

module _ {Tx : Type 0} where
  -- The tasks that have inserted a connection and not counted it, that have removed one and not
  -- counted that, that are about to insert one, and to insert it under the id i.
  abbrev pub joins : Point Tx → ℕ
  joins (joining id) = 1
  joins _ = 0

  abbrev pub leaves : Point Tx → ℕ
  leaves leaving = 1
  leaves (swept dead) = 1
  leaves _ = 0

  abbrev pub waits : Point Tx → ℕ
  waits (inserting id tx) = 1
  waits _ = 0

  abbrev pub claims : ℕ → Point Tx → ℕ
  claims i (inserting id tx) = if id == i then 1 else 0
  claims i _ = 0

  -- The connections under the id i.
  abbrev pub uses : ℕ → List (ℕ × Tx) → ℕ
  uses i [] = 0
  uses i ((key, tx) ∷ rest) = if key == i then suc (uses i rest) else uses i rest

  pub length-remove :
      (id : ℕ) (conns : List (ℕ × Tx)) → length (remove id conns) + uses id conns ≡ length conns
  unfolding remove
  length-remove id [] = omega arith
  length-remove id ((key, tx) ∷ rest) = ground (arith, length-remove id rest)

  pub uses-remove :
      (i id : ℕ) (conns : List (ℕ × Tx))
      → uses i (remove id conns) ≡ (if id == i then 0 else uses i conns)
  unfolding remove
  uses-remove i id [] = ground arith
  uses-remove i id ((key, tx) ∷ rest) = ground (arith, uses-remove i id rest)

  pub holds-uses : (id : ℕ) (conns : List (ℕ × Tx)) → holds id conns ≡ true → 0 < uses id conns
  unfolding holds
  holds-uses id [] h = cc
  holds-uses id ((key, tx) ∷ rest) h = ground (arith, holds-uses id rest)
