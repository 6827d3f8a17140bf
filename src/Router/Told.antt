-- ===== src/Router/Told.antt =====
-- components/router/router.rs and registry.rs: what each event of a routing says.
use jackfield.Common.{
  ℕ, zero, suc, ◌+◌, ◌-◌, ◌≡◌, refl, sym, ap, subst, inl, inr, List, [], ◌∷◌, ◌++◌, Memᴰ, Bool,
  true, false, not, none, some, Bool-cases, Option-cases, if◌then◌else◌, get_elem?, drop, arith,
}
use mathlib.Core.List.Memᴰ
use jackfield.Platform.{Platform}
use jackfield.Message.{Envelope}
use jackfield.Dimension.{EventMeta, DispatchEvent, vetoed, consumed, busy, skipped, from_envelope}
use jackfield.Registry.{
  RegistrationEntry, Registry, Slot, plan, pre_events, skipped_events, observe_events, observe_all,
  position, RoutePlan,
}
use jackfield.Router.{Routed, scan}
use jackfield.Router.Outcome.{ready}
use jackfield.Router.Choice.{scan-ready, scan_pass, InRange, InRange-tail}
use jackfield.Router.Affinity.{plan-InRange}
use jackfield.Router.Events.{occurs, targets, places, skipped_slots, due}

module _ {ℓ} {A : Type ℓ} where
  mem-drop : (n : ℕ) (x : A) (xs : List A) → Memᴰ x (drop n xs) → Memᴰ x xs
  mem-drop zero x xs m = m
  mem-drop (suc n) x [] m = m
  mem-drop (suc n) x (y ∷ ys) m = Memᴰ.tail (mem-drop n x ys m)

pub targets-append :
    {A : Type 0} (xs ys : List (ℕ × A)) → targets (xs ++ ys) ≡ targets xs ++ targets ys
targets-append [] ys = refl
targets-append (x ∷ xs) ys = ap (λ l. x.0 ∷ l) (targets-append xs ys)

module _ ⦃p : Platform⦄ where
  pub targets-pre_events :
      (meta : EventMeta) (pre : List (ℕ × Bool)) → targets (pre_events meta pre) ≡ targets pre
  unfolding pre_events
  targets-pre_events meta [] = refl
  targets-pre_events meta (x ∷ xs) = ap (λ l. x.0 ∷ l) (targets-pre_events meta xs)

  pub targets-skipped_events :
      (meta : EventMeta) (slots : List Slot) → targets (skipped_events meta slots) ≡ places slots
  unfolding skipped_events
  targets-skipped_events meta [] = refl
  targets-skipped_events meta (x ∷ xs) = ap (λ l. x.idx ∷ l) (targets-skipped_events meta xs)

  pub mem-skipped_slots :
      (winner : ℕ) (slot : Slot) (slots : List Slot)
      → Memᴰ slot (skipped_slots winner slots)
      → Memᴰ slot slots
  mem-skipped_slots winner slot slots m = elim (Option-cases (position winner slots)) [
    | inl gone ↦ elim (rw (skipped_slots, gone) at m) [ ]
    | inr (pos, at) ↦ mem-drop (pos + 1) slot slots (rw (skipped_slots, at) at m)
  ]

  pub observe_events-some :
      (pl : RoutePlan) (winner : ℕ) (pre : List (ℕ × Bool))
      → observe_events pl (some winner) pre
        ≡ pre_events pl.meta pre ++ skipped_events pl.meta (skipped_slots winner pl.qualified)
  unfolding observe_events skipped_events
  observe_events-some pl winner pre = elim (Option-cases (position winner pl.qualified)) [
    | inl gone ↦ rw (skipped_slots, gone)
    | inr (pos, at) ↦ rw (skipped_slots, at)
  ]

module _ ⦃p : Platform⦄ {S : Type 0} where
  pub observe_all-append :
      (xs ys : List (ℕ × DispatchEvent)) (entries : List (RegistrationEntry S))
      → observe_all (xs ++ ys) entries ≡ observe_all ys (observe_all xs entries)
  unfolding observe_all
  observe_all-append [] ys entries = refl
  observe_all-append (x ∷ xs) ys entries = observe_all-append xs ys _

  -- What an event for a consumer says of the call.
  abbrev pub Fits :
      {R : Type 0}
      → (S → ℕ)
      → Envelope
      → S
      → Routed R S
      → RegistrationEntry S
      → DispatchEvent
      → Type 0
  Fits now env s out entry (vetoed meta) =
      (meta ≡ from_envelope env)
      × (entry.consumer.available s ≡ true)
      × (entry.consumer.validate env s ≡ false)
  Fits now env s out entry (busy meta) =
      (meta ≡ from_envelope env) × (entry.consumer.available s ≡ false)
  Fits now env s out entry (consumed meta latency) =
      (meta ≡ from_envelope env)
      × (ready env s entry ≡ true)
      × (out.unhandled ≡ none)
      × (out.world ≡ entry.consumer.consume env.message s)
      × (latency ≡ now out.world - now s)
  Fits now env s out entry (skipped meta) = (meta ≡ from_envelope env) × (out.unhandled ≡ none)

  -- The events of a call.
  pub record Observed {R : Type 0} (now : S → ℕ) (r : Registry S) (env : Envelope) (s : S)
      (out : Routed R S) : Type 0 where
    pub events : List (ℕ × DispatchEvent)
    pub applied : out.registry ≡ record r { entries = observe_all events r.entries }
    pub once : (i : ℕ) → occurs i (targets events) ≡ due env (get_elem? r.entries i)
    pub fits :
        (i : ℕ) (event : DispatchEvent)
        → Memᴰ (i, event) events
        → (entry : RegistrationEntry S) × (get_elem? r.entries i ≡ some entry)
          × Fits now env s out entry event

  -- `pre_winner` tells which of the two tests a slot failed.
  abbrev Failed : List (RegistrationEntry S) → Envelope → S → ℕ → Bool → Type 0
  Failed entries env s i is_busy =
      (entry : RegistrationEntry S) × (get_elem? entries i ≡ some entry)
      × (entry.consumer.available s ≡ not is_busy)
      × (ready env s entry ≡ false)

  scan-Failed :
      (entries : List (RegistrationEntry S)) (env : Envelope) (s : S) (slots : List Slot)
      → InRange entries slots
      → (x : ℕ × Bool) → Memᴰ x (scan entries env s slots).pre_winner
      → Failed entries env s x.0 x.1
  scan-Failed entries env s [] r x m = unfold scan in elim m [ ]
  scan-Failed entries env s (slot ∷ rest) r x m =
      let (e, f) = r slot (Memᴰ.head refl) in
      elim (Bool-cases (ready env s e)) [
        | inl can ↦ elim (rw (scan-ready entries env s slot rest e f can) at m) [ ]
        | inr wait ↦ elim (Memᴰ.cases_cons (rw (scan_pass entries env s slot rest e f wait) at m)) [
          | inl here ↦
              subst (λ y. Failed entries env s y.0 y.1) (sym here) (e, f, ground arith, wait)
          | inr deep ↦ scan-Failed entries env s rest (InRange-tail entries slot rest r) x deep
        ]
      ]

  -- The event for a slot that the loop passed over.
  Failed-Fits :
      {R : Type 0} (now : S → ℕ) (env : Envelope) (s : S) (out : Routed R S)
      (entries : List (RegistrationEntry S)) (i : ℕ) (is_busy : Bool)
      → Failed entries env s i is_busy
      → (entry : RegistrationEntry S) × (get_elem? entries i ≡ some entry)
        × Fits now env s out entry
            (if is_busy then busy (from_envelope env) else vetoed (from_envelope env))
  Failed-Fits now env s out entries i true (e, f, unavailable, wait) = (e, f, (refl, unavailable))
  Failed-Fits now env s out entries i false (e, f, available, wait) =
      (e, f, (refl, available, ground arith))

  pub pre_events-Fits :
      {R : Type 0} (now : S → ℕ) (r : Registry S) (env : Envelope) (s : S) (out : Routed R S)
      (i : ℕ) (event : DispatchEvent)
      → let pl = plan r env in
        Memᴰ (i, event) (pre_events pl.meta (scan r.entries env s pl.qualified).pre_winner)
        → (entry : RegistrationEntry S) × (get_elem? r.entries i ≡ some entry)
          × Fits now env s out entry event
  unfolding plan pre_events
  pre_events-Fits now r env s out i event m =
      let ((j, is_busy), n, same) = Memᴰ.of_map _ _ m in
      let failed = scan-Failed r.entries env s _ (plan-InRange r env) (j, is_busy) n in
      subst
        (λ (x : ℕ × DispatchEvent).
          (entry : RegistrationEntry S) × (get_elem? r.entries x.0 ≡ some entry)
          × Fits now env s out entry x.1)
        same (Failed-Fits now env s out r.entries j is_busy failed)

  pub skipped_events-Fits :
      {R : Type 0} (now : S → ℕ) (r : Registry S) (env : Envelope) (s : S) (out : Routed R S)
      (idx i : ℕ) (event : DispatchEvent)
      → out.unhandled ≡ none
      → let pl = plan r env in
        Memᴰ (i, event) (skipped_events pl.meta (skipped_slots idx pl.qualified))
        → (entry : RegistrationEntry S) × (get_elem? r.entries i ≡ some entry)
          × Fits now env s out entry event
  unfolding skipped_events plan
  skipped_events-Fits now r env s out idx i event gone m =
      let pl = plan r env in
      let (slot, n, same) = Memᴰ.of_map _ _ m in
      let (entry, found) = plan-InRange r env slot (mem-skipped_slots idx slot pl.qualified n) in
      subst
        (λ (x : ℕ × DispatchEvent).
          (entry : RegistrationEntry S) × (get_elem? r.entries x.0 ≡ some entry)
          × Fits now env s out entry x.1)
        same (entry, found, (refl, gone))
