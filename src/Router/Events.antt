-- ===== src/Router/Events.antt =====
-- components/router/router.rs and registry.rs: what the dimensions observe of a routing.
use jackfield.Common.{
  ℕ, zero, suc, ◌+◌, ◌≢◌, ◌<◌, ◌≡◌, refl, ap, ◌∙◌, inl, inr, List, [], ◌∷◌, ◌++◌, map, Memᴰ, true,
  false, Option, none, some, Bool-cases, Option-cases, get_elem?, drop, ◌==◌, if◌then◌else◌, arith,
}
use jackfield.Common.Sort.{insert_by, sort_by}
use jackfield.Platform.{Platform}
use jackfield.Message.{Envelope}
use jackfield.Registry.{
  RegistrationEntry, Registry, Slot, hard_rejected, slot_cmp, qualify, plan, position,
}
use jackfield.Registry.Plan.{qualify_hard, qualify_soft}
use jackfield.Router.{scan}
use jackfield.Router.Outcome.{ready}
use jackfield.Router.Choice.{scan-ready, scan_pass, InRange, InRange-tail, scan-Chosen}

abbrev pub occurs : ℕ → List ℕ → ℕ
occurs i [] = 0
occurs i (j ∷ js) = if j == i then suc (occurs i js) else occurs i js

pub occurs-append : (i : ℕ) (xs ys : List ℕ) → occurs i (xs ++ ys) ≡ occurs i xs + occurs i ys
occurs-append i [] ys = omega arith
occurs-append i (x ∷ xs) ys = ground (arith, occurs-append i xs ys)

abbrev pub targets : {A : Type 0} → List (ℕ × A) → List ℕ
targets = map λ x. x.0

module _ ⦃p : Platform⦄ where
  abbrev pub places : List Slot → List ℕ
  places = map λ slot. slot.idx

  occurs-insert_by :
      (i : ℕ) (x : Slot) (ys : List Slot)
      → occurs i (places (insert_by slot_cmp x ys)) ≡ occurs i (places (x ∷ ys))
  unfolding insert_by
  occurs-insert_by i x [] = refl
  occurs-insert_by i x (y ∷ ys) = ground (arith, occurs-insert_by i x ys)

  occurs-sort_by :
      (i : ℕ) (xs : List Slot) → occurs i (places (sort_by slot_cmp xs)) ≡ occurs i (places xs)
  unfolding sort_by
  occurs-sort_by i [] = refl
  occurs-sort_by i (x ∷ xs) =
      occurs-insert_by i x (sort_by slot_cmp xs) ∙ ground (arith, occurs-sort_by i xs)

module _ ⦃p : Platform⦄ where
  -- The slots behind the winner.
  abbrev pub skipped_slots : ℕ → List Slot → List Slot
  skipped_slots winner slots = elim (position winner slots) [
    | none ↦ []
    | some pos ↦ drop (pos + 1) slots
  ]

  skipped_slots_here :
      (slot : Slot) (rest : List Slot) → skipped_slots slot.idx (slot ∷ rest) ≡ rest
  skipped_slots_here slot rest = unfold position in ground arith

  skipped_slots_later :
      (winner : ℕ) (slot : Slot) (rest : List Slot)
      → slot.idx ≢ winner
      → skipped_slots winner (slot ∷ rest) ≡ skipped_slots winner rest
  skipped_slots_later winner slot rest ne =
      unfold position in
      elim (Option-cases (position winner rest)) [
        | inl gone ↦ ground arith
        | inr (pos, at) ↦ ground arith
      ]

module _ ⦃p : Platform⦄ {S : Type 0} where
  -- One event for an entry that no required dimension rejects, and none for another.
  abbrev pub due : Envelope → Option (RegistrationEntry S) → ℕ
  due env none = 0
  due env (some entry) = if hard_rejected env entry.dims then 0 else 1

  occurs_below :
      (env : Envelope) (i k : ℕ) (entries : List (RegistrationEntry S))
      → i < k
      → occurs i (places (qualify env k entries)) ≡ 0
  occurs_below env i k [] h = unfold qualify in refl
  occurs_below env i k (e ∷ es) h = elim (Bool-cases (hard_rejected env e.dims)) [
    | inl hard ↦ rw (qualify_hard env k e es hard) (occurs_below env i (suc k) es (omega arith))
    | inr soft ↦ rw (qualify_soft env k e es soft) (ground (arith, occurs_below env i (suc k) es))
  ]

  occurs-qualify :
      (env : Envelope) (j k i : ℕ) (entries : List (RegistrationEntry S))
      → k + j ≡ i
      → occurs i (places (qualify env k entries)) ≡ due env (get_elem? entries j)
  occurs-qualify env j k i [] h = unfold qualify in refl
  occurs-qualify env zero k i (e ∷ es) h = elim (Bool-cases (hard_rejected env e.dims)) [
    | inl hard ↦
        rw (qualify_hard env k e es hard, hard) (occurs_below env i (suc k) es (omega arith))
    | inr soft ↦
        rw (qualify_soft env k e es soft, soft)
          (ground (arith, occurs_below env i (suc k) es (omega arith)))
  ]
  occurs-qualify env (suc j) k i (e ∷ es) h = elim (Bool-cases (hard_rejected env e.dims)) [
    | inl hard ↦ rw (qualify_hard env k e es hard) (occurs-qualify env j (suc k) i es (omega arith))
    | inr soft ↦
        rw (qualify_soft env k e es soft)
          (ground (arith, occurs-qualify env j (suc k) i es (omega arith)))
  ]

  pub occurs-plan :
      (r : Registry S) (env : Envelope) (i : ℕ)
      → occurs i (places (plan r env).qualified) ≡ due env (get_elem? r.entries i)
  unfolding plan
  occurs-plan r env i =
      occurs-sort_by i (qualify env 0 r.entries) ∙ occurs-qualify env i 0 i r.entries (omega arith)

module _ ⦃p : Platform⦄ {S : Type 0} where
  pub scan-passed :
      (entries : List (RegistrationEntry S)) (env : Envelope) (s : S) (slots : List Slot)
      → InRange entries slots
      → (scan entries env s slots).winner_idx ≡ none
      → targets (scan entries env s slots).pre_winner ≡ places slots
  scan-passed entries env s [] r h = unfold scan in refl
  scan-passed entries env s (slot ∷ rest) r h =
      let (e, f) = r slot (Memᴰ.head refl) in
      elim (Bool-cases (ready env s e)) [
        | inl can ↦ absurd (cc (rw (scan-ready entries env s slot rest e f can) at h))
        | inr wait ↦
            let step = scan_pass entries env s slot rest e f wait in
            let ih =
              scan-passed entries env s rest (InRange-tail entries slot rest r) (rw step at h) in
            rw step (ap (λ l. slot.idx ∷ l) ih)
      ]

  -- A slot whose entry cannot take the call is not the winner's.
  apart :
      (entries : List (RegistrationEntry S)) (env : Envelope) (s : S) (slot : Slot) (idx : ℕ)
      {e o : RegistrationEntry S}
      → get_elem? entries slot.idx ≡ some e
      → ready env s e ≡ false
      → get_elem? entries idx ≡ some o
      → ready env s o ≡ true
      → slot.idx ≢ idx
  apart entries env s slot idx {e} {o} f wait g can same =
      let joined : e ≡ o = ground (arith, same) in absurd (cc (ap (ready env s) joined))

  pub scan-split :
      (entries : List (RegistrationEntry S)) (env : Envelope) (s : S) (slots : List Slot)
      (idx i : ℕ)
      → InRange entries slots
      → (scan entries env s slots).winner_idx ≡ some idx
      → occurs i (targets (scan entries env s slots).pre_winner)
          + occurs i (idx ∷ places (skipped_slots idx slots))
        ≡ occurs i (places slots)
  scan-split entries env s [] idx i r h = absurd (unfold scan in cc)
  scan-split entries env s (slot ∷ rest) idx i r h =
      let (e, f) = r slot (Memᴰ.head refl) in
      elim (Bool-cases (ready env s e)) [
        | inl can ↦
            let step = scan-ready entries env s slot rest e f can in
            let here : slot.idx ≡ idx = ground (arith, rw step at h) in
            rw (step, ← here, skipped_slots_here slot rest) (omega arith)
        | inr wait ↦
            let step = scan_pass entries env s slot rest e f wait in
            let r' = InRange-tail entries slot rest r in
            let h' = rw step at h in
            let c = scan-Chosen entries env s rest idx r' h' in
            let ne = apart entries env s slot idx f wait c.found c.can in
            let ih = scan-split entries env s rest idx i r' h' in
            rw (step, skipped_slots_later idx slot rest ne) (ground (arith, ih))
      ]
