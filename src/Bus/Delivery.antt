-- ===== src/Bus/Delivery.antt =====
-- components/bus/bus.rs with components/router/router.rs: a bus with an AffinityRouter and a
-- consumer that takes every envelope of a kind.
use jackfield.Common.{
  ℕ, zero, suc, ◌<◌, ◌≡◌, refl, sym, ap, ◌∙◌, subst, inl, inr, List, [], ◌∷◌, ◌++◌, map, Memᴰ, drop,
  Bool-cases, Bool, true, false, ◌&&◌, modify, get_elem?, some, Some, Some-modify, length,
}
use mathlib.Core.List.Memᴰ
use jackfield.Platform.{Platform}
use jackfield.Message.{Envelope}
use jackfield.Dimension.{DimState, DispatchEvent}
use jackfield.Registry.{
  is_reject, DimEntry, RegistrationEntry, Registry, hard_rejected, observe_dim, observe_entry,
  observe_all,
}
use jackfield.Router.{AffinityRouter, affinity, affinity_route}
use jackfield.Router.Outcome.{eligible}
use jackfield.Router.Affinity.{affinity_route-outcome}
use jackfield.Router.Observed.{affinity_route-Observed}
use jackfield.Router.Contract.{affinity-RouterContract}
use jackfield.Bus.{Bus, Channels, Run, handle, drain}
use jackfield.Bus.Handling.{Handles, done, taken, kept, AllQuiet, handle-registry}
use jackfield.Bus.Drain.{drain_lem, AllQuietCmds, applied_all}

of_drop : {A : Type 0} {x : A} (k : ℕ) (xs : List A) → Memᴰ x (drop k xs) → Memᴰ x xs
of_drop zero xs m = m
of_drop (suc k) [] m = m
of_drop (suc k) (y ∷ ys) m = Memᴰ.tail (of_drop k ys m)

module _ ⦃p : Platform⦄ where
  -- Whether a required dimension rejects an envelope does not hang on its state, as with the
  -- built-in ones.
  abbrev pub Steady : List DimEntry → Type 0
  Steady [] = Unit
  Steady (de ∷ dims) =
      (de.reject_on_miss ≡ true
        → (env : Envelope) (st st' : DimState)
        → is_reject (de.dim.evaluate env st) ≡ is_reject (de.dim.evaluate env st'))
      × Steady dims

  Steady-observe :
      (event : DispatchEvent) (dims : List DimEntry)
      → Steady dims
      → Steady (map (observe_dim event) dims)
  unfolding observe_dim
  Steady-observe event [] h = tt
  Steady-observe event (de ∷ dims) h = (h.0, Steady-observe event dims h.1)

  hard_rejected-observe :
      (event : DispatchEvent) (env : Envelope) (dims : List DimEntry)
      → Steady dims
      → hard_rejected env (map (observe_dim event) dims) ≡ hard_rejected env dims
  unfolding hard_rejected observe_dim
  hard_rejected-observe event env [] h = refl
  hard_rejected-observe event env (de ∷ dims) h = elim (Bool-cases de.reject_on_miss) [
    | inl hard ↦
        let same = h.0 hard env (de.dim.observe event de.state) de.state in
        rw (same, hard_rejected-observe event env dims h.1) refl
    | inr soft ↦ rw soft (hard_rejected-observe event env dims h.1)
  ]

module _ ⦃p : Platform⦄ (P : Envelope → Bool) where
  -- No envelope of the kind P.
  abbrev pub Without : List Envelope → Type 0
  Without es = (e : Envelope) → Memᴰ e es → P e ≡ false

  pub with_first :
      {e : Envelope} {left : List Envelope} → P e ≡ false → Without left → Without (e ∷ left)
  with_first h ih x (Memᴰ.head same) = ap P same ∙ h
  with_first h ih x (Memᴰ.tail m) = ih x m

module _ ⦃p : Platform⦄ {S : Type 0} (P : Envelope → Bool) where
  -- A consumer whose required dimensions are steady and reject no envelope of the kind P, and that
  -- is available for each of them and validates it.
  abbrev pub Serves : RegistrationEntry S → Type 0
  Serves entry =
      Steady entry.dims
      × ((env : Envelope) → P env ≡ true → hard_rejected env entry.dims ≡ false)
      × ((env : Envelope) (s : S)
          → P env ≡ true
          → (entry.consumer.available s && entry.consumer.validate env s) ≡ true)

  abbrev pub SomeServes : List (RegistrationEntry S) → Type 0
  SomeServes = Some Serves

  eligible-Serves :
      (entry : RegistrationEntry S) (env : Envelope) (s : S)
      → Serves entry
      → P env ≡ true
      → eligible env s entry ≡ true
  eligible-Serves entry env s (_, soft, takes) h = rw (soft env h) (takes env s h)

  find-Serves :
      (entries : List (RegistrationEntry S))
      → SomeServes entries
      → (i : ℕ) × (entry : RegistrationEntry S) × (get_elem? entries i ≡ some entry) × Serves entry
  find-Serves [] h = absurd h
  find-Serves (entry ∷ rest) (inl t) = (0, entry, refl, t)
  find-Serves (entry ∷ rest) (inr later) =
      let (i, e, f, t) = find-Serves rest later in (suc i, e, f, t)

  pub observe_entry-Serves :
      (event : DispatchEvent) (entry : RegistrationEntry S)
      → Serves entry
      → Serves (observe_entry event entry)
  unfolding observe_entry
  observe_entry-Serves event entry (steady, soft, takes) = (
    Steady-observe event entry.dims steady,
    λ env h. hard_rejected-observe event env entry.dims steady ∙ soft env h,
    takes,
  )

module _ ⦃p : Platform⦄ {S : Type 0} (Q : RegistrationEntry S → Type 0)
    (keeps : (event : DispatchEvent) (entry : RegistrationEntry S)
      → Q entry
      → Q (observe_entry event entry)) where
  -- What an entry keeps while its dimensions observe, some entry keeps.
  observe_all-Some :
      (events : List (ℕ × DispatchEvent)) (entries : List (RegistrationEntry S))
      → Some Q entries
      → Some Q (observe_all events entries)
  unfolding observe_all
  observe_all-Some [] entries h = h
  observe_all-Some ((i, event) ∷ events) entries h =
      observe_all-Some events (modify entries i (observe_entry event))
        (Some-modify entries i (observe_entry event) (keeps event) h)

  pub handle-Some :
      (now : S → ℕ) (ch : Channels S) (b : Bus AffinityRouter S) (e : Envelope) (s : S)
      → Some Q b.registry.entries
      → Some Q (handle (affinity now) b e s).bus.registry.entries
  handle-Some now ch b e s h =
      let seen = affinity_route-Observed now b.router b.registry e s in
      subst (λ (x : Registry S). Some Q x.entries)
        (sym (handle-registry ch (affinity now) (affinity-RouterContract now) b e s ∙ seen.applied))
        (observe_all-Some seen.events b.registry.entries h)

module _ ⦃p : Platform⦄ {S : Type 0} (now : S → ℕ) (P : Envelope → Bool) where
  -- What is given back is not of the kind P.
  pub unhandled-other :
      (self : AffinityRouter) (r : Registry S) (env : Envelope) (s : S)
      → SomeServes P r.entries
      → (affinity_route now self r env s).unhandled ≡ some env
      → P env ≡ false
  unhandled-other self r env s h back = elim (affinity_route-outcome now self r env s) [
    | inl (t, _) ↦ absurd (cc (back, t.gone))
    | inr refused ↦ elim (Bool-cases (P env)) [
      | inl served ↦
          let (i, entry, f, serves) = find-Serves P r.entries h in
          absurd (cc (refused.nobody i entry f, eligible-Serves P entry env s serves served))
      | inr other ↦ other
    ]
  ]

  pub Handles-SomeServes :
      (ch : Channels S) {Get : S → Envelope → S → Type 0} {run run' : Run AffinityRouter S}
      {es left : List Envelope}
      → Handles (affinity now) Get run es left run'
      → SomeServes P run.bus.registry.entries
      → Without P left × SomeServes P run'.bus.registry.entries
  Handles-SomeServes ch done h = (λ e m. elim m [ ], h)
  Handles-SomeServes ch {run = run} (taken {e = e} s got gone rest) h =
      Handles-SomeServes ch rest
        (handle-Some (Serves P) (observe_entry-Serves P) now ch run.bus e s h)
  Handles-SomeServes ch {run = run} (kept {e = e} {left = left} s got back rest) h =
      let other = unhandled-other run.bus.router run.bus.registry e s h back in
      let (ih, still) =
        Handles-SomeServes ch rest
          (handle-Some (Serves P) (observe_entry-Serves P) now ch run.bus e s h) in
      (with_first P other ih, still)

  -- If, once the waiting commands are applied, some consumer serves the envelopes of the kind P (it
  -- is always available for them and validates them, and its required dimensions do not reject
  -- them, whatever their states), and the consumers send nothing to this bus, then with more fuel
  -- than waiting envelopes and commands `drain` of a bus with an AffinityRouter ends, no envelope
  -- of the kind P stays pending, and none waits.
  pub drain_delivers :
      (ch : Channels S) (fuel : ℕ) (run : Run AffinityRouter S)
      → length (ch.envelopes run.world) < fuel
      → length (ch.commands run.world) < fuel
      → AllQuiet ch run.bus.registry
      → AllQuietCmds ch (ch.commands run.world)
      → SomeServes P (applied_all run.bus.registry (ch.commands run.world)).entries
      → (run' : Run AffinityRouter S) × (drain ch (affinity now) fuel run ≡ some run')
        × Without P run'.bus.pending
        × (ch.envelopes run'.world ≡ [])
  drain_delivers ch fuel run fe fc q qc h =
      let (run', ends, d) =
        drain_lem ch (affinity now) (affinity-RouterContract now) fuel run fe fc q qc in
      let start = subst (λ es. SomeServes P es) (sym (ap (λ b. b.registry.entries) d.applies)) h in
      let (none_back, mid) = Handles-SomeServes ch d.retries start in
      let (none_left, end) = Handles-SomeServes ch d.receives mid in
      let kept_of : (e : Envelope) → Memᴰ e run'.bus.pending → Memᴰ e (d.retried ++ d.received) =
        λ e m. of_drop _ _ (subst (Memᴰ e) d.buffer m) in
      (
        run',
        ends,
        λ e m. elim (Memᴰ.append_cases d.retried (kept_of e m)) [
          | inl n ↦ none_back e n
          | inr n ↦ none_left e n
        ],
        d.no_envelopes,
      )
