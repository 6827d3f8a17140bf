-- ===== src/Registry/Scoring.antt =====
-- components/registry/registry.rs: what `plan` computes for one consumer.
use jackfield.Common.{ℕ, ◌≡◌, refl, List, [], ◌∷◌, true, none, some, if◌then◌else◌, arith}
use jackfield.Platform.{Platform}
use jackfield.Message.{Envelope}
use jackfield.Dimension.{Verdict, reject, score}
use jackfield.Registry.{DimEntry, RegistrationEntry, Slot, score_dims, hard_rejected, clamp}

module _ ⦃p : Platform⦄ where
  -- The reference: the weighted scores of the dimensions that do not reject, added up in order.
  abbrev pub add_verdict : p.Float → p.Float → Verdict → p.Float
  add_verdict total weight reject = total
  add_verdict total weight (score s) = p.fadd total (p.fmul weight s)

  unfoldable pub soft_total : Envelope → p.Float → List DimEntry → p.Float
  soft_total env total [] = total
  soft_total env total (de ∷ rest) =
      soft_total env (add_verdict total de.state.weight (de.dim.evaluate env de.state)) rest

  -- The loop with its `break` is the filter of the other router, and the reference sum: a
  -- required dimension that rejects disqualifies, a preferred one that rejects adds nothing.
  pub score_dims-eq :
      (env : Envelope) (total : p.Float) (dims : List DimEntry)
      → score_dims env total dims
        ≡ (if hard_rejected env dims then none else some (soft_total env total dims))
  unfolding score_dims hard_rejected soft_total
  score_dims-eq env total [] = refl
  score_dims-eq env total (de ∷ rest) = ground (
    arith,
    score_dims-eq env total rest,
    score_dims-eq env (add_verdict total de.state.weight (de.dim.evaluate env de.state)) rest,
  )

  -- A score is finite, whatever the dimensions return.
  pub clamp_finite : (total : p.Float) → p.is_finite (clamp total) ≡ true
  unfolding clamp
  clamp_finite total = ground (arith, p.milli_finite 0)

module _ ⦃p : Platform⦄ {S : Type 0} where
  -- The score of an entry, and its slot at an index.
  abbrev pub entry_slot : Envelope → ℕ → RegistrationEntry S → Slot
  entry_slot env i entry = record {
    score = clamp (soft_total env (p.milli 0) entry.dims);
    id = entry.id;
    idx = i;
  }
