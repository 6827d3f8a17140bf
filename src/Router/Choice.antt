-- ===== src/Router/Choice.antt =====
-- components/router/router.rs: the loop of `AffinityRouter::route` over the qualified slots.
use jackfield.Common.{
  ℕ, ◌≡◌, refl, sym, ap, subst, inl, inr, List, [], ◌∷◌, Memᴰ, Bool, true, false, not, none, some,
  Bool-cases, get_elem?, arith,
}
use jackfield.Common.Sort.{IsSorted}
use jackfield.Platform.{Platform}
use jackfield.Message.{Envelope}
use jackfield.Registry.{RegistrationEntry, Slot}
use jackfield.Registry.Plan.{Precedes, Precedes-refl}
use jackfield.Router.{scan, passed_over}
use jackfield.Router.Outcome.{ready}

module _ ⦃p : Platform⦄ {S : Type 0} where
  -- One round of the loop.
  pub scan-ready :
      (entries : List (RegistrationEntry S)) (env : Envelope) (s : S) (slot : Slot)
      (rest : List Slot) (e : RegistrationEntry S)
      → get_elem? entries slot.idx ≡ some e
      → ready env s e ≡ true
      → scan entries env s (slot ∷ rest) ≡ record { pre_winner = []; winner_idx = some slot.idx }
  unfolding scan
  scan-ready entries env s slot rest e f h = ground arith

  pub scan_pass :
      (entries : List (RegistrationEntry S)) (env : Envelope) (s : S) (slot : Slot)
      (rest : List Slot) (e : RegistrationEntry S)
      → get_elem? entries slot.idx ≡ some e
      → ready env s e ≡ false
      → scan entries env s (slot ∷ rest)
        ≡ passed_over slot.idx (not (e.consumer.available s)) (scan entries env s rest)
  unfolding scan
  scan_pass entries env s slot rest e f h = ground arith

  -- Every slot points at an entry.
  abbrev pub InRange : List (RegistrationEntry S) → List Slot → Type 0
  InRange entries slots =
      (slot : Slot)
      → Memᴰ slot slots
      → (entry : RegistrationEntry S) × (get_elem? entries slot.idx ≡ some entry)

  -- A slot whose entry is ready, and that comes before all other such slots.
  pub record Chosen (entries : List (RegistrationEntry S)) (env : Envelope) (s : S)
      (slots : List Slot) (idx : ℕ) : Type 0 where
    pub slot : Slot
    pub entry : RegistrationEntry S
    pub listed : Memᴰ slot slots
    pub here : slot.idx ≡ idx
    pub found : get_elem? entries idx ≡ some entry
    pub can : ready env s entry ≡ true
    pub first :
        IsSorted Precedes slots
        → (other : Slot) (o : RegistrationEntry S) → Memᴰ other slots
        → get_elem? entries other.idx ≡ some o
        → ready env s o ≡ true
        → Precedes slot other

  pub InRange-tail :
      (entries : List (RegistrationEntry S)) (slot : Slot) (rest : List Slot)
      → InRange entries (slot ∷ rest)
      → InRange entries rest
  InRange-tail entries slot rest r other m = r other (Memᴰ.tail m)

  -- The entries at one index are one entry, ready or not.
  pub same_ready :
      (entries : List (RegistrationEntry S)) (env : Envelope) (s : S) (a b : Slot)
      {e o : RegistrationEntry S} {v : Bool}
      → a ≡ b
      → get_elem? entries b.idx ≡ some e
      → get_elem? entries a.idx ≡ some o
      → ready env s e ≡ v
      → ready env s o ≡ v
  same_ready entries env s a b {e} {o} same f g can =
      let joined : o ≡ e = ground (arith, ap (λ (x : Slot). x.idx) same) in rw joined can

  pub scan-Chosen :
      (entries : List (RegistrationEntry S)) (env : Envelope) (s : S) (slots : List Slot) (idx : ℕ)
      → InRange entries slots
      → (scan entries env s slots).winner_idx ≡ some idx
      → Chosen entries env s slots idx
  scan-Chosen entries env s [] idx r h = absurd (unfold scan in cc)
  scan-Chosen entries env s (slot ∷ rest) idx r h =
      let (e, f) = r slot (Memᴰ.head refl) in
      elim (Bool-cases (ready env s e)) [
        | inl can ↦ now e f can (rw (scan-ready entries env s slot rest e f can) at h)
        | inr not_yet ↦ later e f not_yet (
            scan-Chosen entries env s rest idx (InRange-tail entries slot rest r)
              (rw (scan_pass entries env s slot rest e f not_yet) at h))
      ]
    where
      now :
          (e : RegistrationEntry S)
          → get_elem? entries slot.idx ≡ some e
          → ready env s e ≡ true
          → some slot.idx ≡ some idx
          → Chosen entries env s (slot ∷ rest) idx
      now e f can h =
          let here : slot.idx ≡ idx = cc in
          record {
            slot = slot;
            entry = e;
            listed = Memᴰ.head refl;
            here = here;
            found = rw (← here) f;
            can = can;
            first = ahead;
          }
        where
          ahead :
              IsSorted Precedes (slot ∷ rest)
              → (other : Slot) (o : RegistrationEntry S) → Memᴰ other (slot ∷ rest)
              → get_elem? entries other.idx ≡ some o
              → ready env s o ≡ true
              → Precedes slot other
          ahead sorted other o (Memᴰ.head same) g can' =
              subst (Precedes slot) (sym same) (Precedes-refl slot)
          ahead sorted other o (Memᴰ.tail m) g can' = sorted.0 other m

      later :
          (e : RegistrationEntry S)
          → get_elem? entries slot.idx ≡ some e
          → ready env s e ≡ false
          → Chosen entries env s rest idx
          → Chosen entries env s (slot ∷ rest) idx
      later e f not_yet c = record {
        slot = c.slot;
        entry = c.entry;
        listed = Memᴰ.tail c.listed;
        here = c.here;
        found = c.found;
        can = c.can;
        first = behind;
      }
        where
          behind :
              IsSorted Precedes (slot ∷ rest)
              → (other : Slot) (o : RegistrationEntry S) → Memᴰ other (slot ∷ rest)
              → get_elem? entries other.idx ≡ some o
              → ready env s o ≡ true
              → Precedes c.slot other
          behind sorted other o (Memᴰ.head same) g can =
              absurd (cc (same_ready entries env s other slot same f g not_yet))
          behind sorted other o (Memᴰ.tail m) g can = c.first sorted.1 other o m g can

  pub scan-none :
      (entries : List (RegistrationEntry S)) (env : Envelope) (s : S) (slots : List Slot)
      → InRange entries slots
      → (scan entries env s slots).winner_idx ≡ none
      → (slot : Slot) (o : RegistrationEntry S) → Memᴰ slot slots
      → get_elem? entries slot.idx ≡ some o
      → ready env s o ≡ false
  scan-none entries env s [] r h other o m g = elim m [ ]
  scan-none entries env s (slot ∷ rest) r h other o m g =
      let (e, f) = r slot (Memᴰ.head refl) in
      elim (Bool-cases (ready env s e)) [
        | inl can ↦ absurd (cc (rw (scan-ready entries env s slot rest e f can) at h))
        | inr not_yet ↦ split e f not_yet m (
            scan-none entries env s rest (InRange-tail entries slot rest r)
              (rw (scan_pass entries env s slot rest e f not_yet) at h) other o)
      ]
    where
      split :
          (e : RegistrationEntry S)
          → get_elem? entries slot.idx ≡ some e
          → ready env s e ≡ false
          → Memᴰ other (slot ∷ rest)
          → (Memᴰ other rest → get_elem? entries other.idx ≡ some o → ready env s o ≡ false)
          → ready env s o ≡ false
      split e f not_yet (Memᴰ.head same) ih = same_ready entries env s other slot same f g not_yet
      split e f not_yet (Memᴰ.tail n) ih = ih n g
