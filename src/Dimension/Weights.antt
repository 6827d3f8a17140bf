-- ===== src/Dimension/Weights.antt =====
-- components/router/dimensions/dimension.rs: the bounds of `adjust_weight`.
use jackfield.Common.{ℕ, ◌≤◌, ◌<◌, arith}
use jackfield.Platform.{Platform}
use jackfield.Dimension.{DimState, DispatchEvent, vetoed, consumed, busy, skipped, adjust_weight}

module _ ⦃p : Platform⦄ where
  -- The order of `total_cmp`
  infix 50 ◌≼◌
  abbrev pub ◌≼◌ : p.Float → p.Float → Type 0
  x ≼ y = p.rank x ≤ p.rank y

  -- A weight between the floor 0.001 and the cap 100.0.
  pub record IsWithin (w : p.Float) : Type 0 where
    pub floor : p.milli 1 ≼ w
    pub cap : w ≼ p.milli 100_000

  grown : (w : p.Float) (k : ℕ) → IsWithin w → 1000 ≤ k → w ≼ p.fmul w (p.milli k)
  grown w k v h = p.fmul_grows w 1 100_000 k v.floor v.cap h

  shrunk : (w : p.Float) (k : ℕ) → IsWithin w → k ≤ 1000 → p.fmul w (p.milli k) ≼ w
  shrunk w k v h = p.fmul_shrinks w 1 100_000 k v.floor v.cap h

  reward-IsWithin :
      (w : p.Float) → IsWithin w → IsWithin (p.fmin (p.fmul w (p.milli 1100)) (p.milli 100_000))
  reward-IsWithin w v = record {
    floor =
        p.le-fmin (p.fmul w (p.milli 1100)) 1 100_000 (omega arith)
          (omega (arith, grown w 1100 v (omega arith)));
    cap = p.fmin-le (p.fmul w (p.milli 1100)) 100_000 (omega arith);
  }

  penalty-IsWithin :
      (w : p.Float) (k : ℕ)
      → k ≤ 1000
      → IsWithin w
      → IsWithin (p.fmax (p.fmul w (p.milli k)) (p.milli 1))
  penalty-IsWithin w k h v = record {
    floor = p.le-fmax (p.fmul w (p.milli k)) 1 (omega arith);
    cap = p.fmax-le (p.fmul w (p.milli k)) 1 100_000 (omega arith) (omega (arith, shrunk w k v h));
  }

  -- Whatever the event, a weight between the floor and the cap stays between them.
  pub adjust_weight-IsWithin :
      (event : DispatchEvent) (state : DimState)
      → IsWithin state.weight
      → IsWithin (adjust_weight event state).weight
  unfolding adjust_weight
  adjust_weight-IsWithin (consumed meta latency) state v = reward-IsWithin state.weight v
  adjust_weight-IsWithin (busy meta) state v = penalty-IsWithin state.weight 800 (omega arith) v
  adjust_weight-IsWithin (vetoed meta) state v = penalty-IsWithin state.weight 900 (omega arith) v
  adjust_weight-IsWithin (skipped meta) state v = v

  milli-le : (m n : ℕ) → m ≤ n → 0 < n → p.milli m ≼ p.milli n
  milli-le m n h pos =
      omega (arith, p.le-fmin (p.milli m) m n h (omega arith), p.fmin-le (p.milli m) n pos)

  -- The weight of a required dimension.
  pub one-IsWithin : IsWithin (p.milli 1000)
  one-IsWithin = record {
    floor = milli-le 1 1000 (omega arith) (omega arith);
    cap = milli-le 1000 100_000 (omega arith) (omega arith);
  }
