-- ===== src/Registry/Plan.antt =====
-- components/registry/registry.rs: what `Registry::plan` returns.
use Prim.Native.Nat.{Ordering}
use mathlib.Core.List.{Perm}
use mathlib.Core.Path.{subst₂}
use jackfield.Common.{
  ℕ, zero, suc, ◌+◌, ◌≤◌, ◌<◌, ◌≡◌, refl, ap, ◌≢◌, ◌⊎◌, inl, inr, List, [], ◌∷◌, Memᴰ, true, false,
  some, Bool-cases, get_elem?, arith,
}
use jackfield.Common.Sort.{sort_by-perm, sort_by-IsSorted, of_sort_by, mem-sort_by, IsSorted}
use jackfield.Platform.{Platform}
use jackfield.Message.{Envelope}
use jackfield.Registry.{RegistrationEntry, Registry, Slot, hard_rejected, slot_cmp, qualify, plan}
use jackfield.Registry.Scoring.{score_dims-eq, entry_slot}

module _ ⦃p : Platform⦄ where
  -- The order of the plan: a higher score first, and of equal scores the older registration.
  abbrev pub Precedes : Slot → Slot → Type 0
  Precedes a b =
      (p.rank b.score < p.rank a.score) ⊎ ((p.rank a.score ≡ p.rank b.score) × (a.id ≤ b.id))

  slot_cmp-before : (a b : Slot) → slot_cmp a b ≢ Ordering.gt → Precedes a b
  unfolding slot_cmp
  slot_cmp-before a b h = ground arith

  slot_cmp-after : (a b : Slot) → slot_cmp a b ≡ Ordering.gt → Precedes b a
  unfolding slot_cmp
  slot_cmp-after a b h = ground arith

  Precedes-trans : (a b c : Slot) → Precedes a b → Precedes b c → Precedes a c
  Precedes-trans a b c h k = omega arith

  pub Precedes-refl : (a : Slot) → Precedes a a
  Precedes-refl a = inr (refl, omega arith)

module _ ⦃p : Platform⦄ {S : Type 0} where
  -- `plan` rearranges the slots that the loop over the entries collects.
  pub plan-perm :
      (r : Registry S) (env : Envelope) → Perm (plan r env).qualified (qualify env 0 r.entries)
  unfolding plan
  plan-perm r env = sort_by-perm slot_cmp (qualify env 0 r.entries)

  -- In a plan every slot precedes all later ones.
  pub plan-IsSorted : (r : Registry S) (env : Envelope) → IsSorted Precedes (plan r env).qualified
  unfolding plan
  plan-IsSorted r env =
      sort_by-IsSorted slot_cmp Precedes slot_cmp-before slot_cmp-after Precedes-trans
        (qualify env 0 r.entries)

  pub qualify_hard :
      (env : Envelope) (i : ℕ) (entry : RegistrationEntry S) (rest : List (RegistrationEntry S))
      → hard_rejected env entry.dims ≡ true
      → qualify env i (entry ∷ rest) ≡ qualify env (suc i) rest
  unfolding qualify
  qualify_hard env i entry rest h = ground (arith, score_dims-eq env (p.milli 0) entry.dims)

  pub qualify_soft :
      (env : Envelope) (i : ℕ) (entry : RegistrationEntry S) (rest : List (RegistrationEntry S))
      → hard_rejected env entry.dims ≡ false
      → qualify env i (entry ∷ rest) ≡ entry_slot env i entry ∷ qualify env (suc i) rest
  unfolding qualify
  qualify_soft env i entry rest h = ground (arith, score_dims-eq env (p.milli 0) entry.dims)

  not-mem-qualify :
      (env : Envelope) (k : ℕ) (slot : Slot) (entries : List (RegistrationEntry S))
      → entries ≡ []
      → ¬ Memᴰ slot (qualify env k entries)
  unfolding qualify
  not-mem-qualify env k slot [] e m = elim m [ ]
  not-mem-qualify env k slot (x ∷ xs) e m = cc

  -- The entry behind a slot.
  pub record Behind (env : Envelope) (entries : List (RegistrationEntry S)) (k : ℕ) (slot : Slot)
      : Type 0 where
    pub at : ℕ
    pub entry : RegistrationEntry S
    pub found : get_elem? entries at ≡ some entry
    pub passes : hard_rejected env entry.dims ≡ false
    pub shown : slot ≡ entry_slot env slot.idx entry
    pub placed : slot.idx ≡ k + at

  of_qualify :
      (env : Envelope) (k : ℕ) (entries : List (RegistrationEntry S)) (slot : Slot)
      → Memᴰ slot (qualify env k entries)
      → Behind env entries k slot
  of_qualify env k [] slot m = absurd (not-mem-qualify env k slot [] refl m)
  of_qualify env k (e ∷ rest) slot m = elim (Bool-cases (hard_rejected env e.dims)) [
    | inl h ↦ deeper (of_qualify env (suc k) rest slot (rw (qualify_hard env k e rest h) at m))
    | inr h ↦ split h (rw (qualify_soft env k e rest h) at m) (of_qualify env (suc k) rest slot)
  ]
    where
      deeper : Behind env rest (suc k) slot → Behind env (e ∷ rest) k slot
      deeper b = record {
        at = suc b.at;
        entry = b.entry;
        found = b.found;
        passes = b.passes;
        shown = b.shown;
        placed = omega (arith, b.placed);
      }

      split :
          hard_rejected env e.dims ≡ false
          → Memᴰ slot (entry_slot env k e ∷ qualify env (suc k) rest)
          → (Memᴰ slot (qualify env (suc k) rest) → Behind env rest (suc k) slot)
          → Behind env (e ∷ rest) k slot
      split h (Memᴰ.head eq) ih = record {
        at = 0;
        entry = e;
        found = refl;
        passes = h;
        shown = rw eq;
        placed = omega (arith, ap (λ (s : Slot). s.idx) eq);
      }
      split h (Memᴰ.tail n) ih = deeper (ih n)

  mem-qualify :
      (env : Envelope) (k j i : ℕ) (entries : List (RegistrationEntry S))
      {entry : RegistrationEntry S}
      → get_elem? entries j ≡ some entry
      → hard_rejected env entry.dims ≡ false
      → k + j ≡ i
      → Memᴰ (entry_slot env i entry) (qualify env k entries)
  mem-qualify env k j i [] f h e = absurd (cc)
  mem-qualify env k zero i (x ∷ rest) {entry} f h e =
      let same : x ≡ entry = ground arith in
      let there : k ≡ i = omega arith in
      subst₂ (λ c n. Memᴰ (entry_slot env n c) (qualify env k (x ∷ rest))) same there
        (rw (qualify_soft env k x rest (rw same h)) (Memᴰ.head refl))
  mem-qualify env k (suc j) i (x ∷ rest) f h e =
      let deep = mem-qualify env (suc k) j i rest f h (omega arith) in
      elim (Bool-cases (hard_rejected env x.dims)) [
        | inl out ↦ rw (qualify_hard env k x rest out) deep
        | inr in_plan ↦ rw (qualify_soft env k x rest in_plan) (Memᴰ.tail deep)
      ]

  -- A slot of the plan stands for an entry that no required dimension rejects, with its id, its
  -- index, which is in range, and the clamped reference sum for its score.
  pub plan-Behind :
      (r : Registry S) (env : Envelope) (slot : Slot)
      → Memᴰ slot (plan r env).qualified
      → (entry : RegistrationEntry S) × (get_elem? r.entries slot.idx ≡ some entry)
        × (hard_rejected env entry.dims ≡ false)
        × (slot ≡ entry_slot env slot.idx entry)
  unfolding plan
  plan-Behind r env slot m =
      let b = of_qualify env 0 r.entries slot (of_sort_by slot_cmp (qualify env 0 r.entries) m) in
      let e : slot.idx ≡ b.at = omega (arith, b.placed) in
      (b.entry, rw e b.found, b.passes, b.shown)

  -- and every such entry has its slot in the plan.
  pub mem-plan :
      (r : Registry S) (env : Envelope) (i : ℕ) (entry : RegistrationEntry S)
      → get_elem? r.entries i ≡ some entry
      → hard_rejected env entry.dims ≡ false
      → Memᴰ (entry_slot env i entry) (plan r env).qualified
  unfolding plan
  mem-plan r env i entry f h =
      mem-sort_by slot_cmp (qualify env 0 r.entries)
        (mem-qualify env 0 i i r.entries f h (omega arith))

  -- A plan ranks exactly the entries that no required dimension rejects: every slot precedes all
  -- later ones (its score is higher in the total order of floats, or the scores are equal and its id
  -- is no larger); each stands for such an entry, with its id, its index, which is in range, and the
  -- clamped reference sum for its score; and each such entry has its slot.
  pub plan_lem :
      (r : Registry S) (env : Envelope)
      → IsSorted Precedes (plan r env).qualified
        × ((slot : Slot)
            → Memᴰ slot (plan r env).qualified
            → (entry : RegistrationEntry S) × (get_elem? r.entries slot.idx ≡ some entry)
              × (hard_rejected env entry.dims ≡ false)
              × (slot ≡ entry_slot env slot.idx entry))
        × ((i : ℕ) (entry : RegistrationEntry S)
            → get_elem? r.entries i ≡ some entry
            → hard_rejected env entry.dims ≡ false
            → Memᴰ (entry_slot env i entry) (plan r env).qualified)
  plan_lem r env = (plan-IsSorted r env, plan-Behind r env, mem-plan r env)
