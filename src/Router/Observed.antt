-- ===== src/Router/Observed.antt =====
-- components/router/router.rs and registry.rs: `AffinityRouter::route` changes the registry only
-- by the events that the dimensions observe.
use jackfield.Common.{
  ℕ, ◌-◌, ◌≡◌, refl, sym, ap, ◌∙◌, subst, inl, inr, List, [], ◌∷◌, ◌++◌, Bool, true, none, some,
  Option-cases, get_elem?, arith,
}
use mathlib.Core.List.Memᴰ
use jackfield.Platform.{Platform}
use jackfield.Message.{Envelope}
use jackfield.Dimension.{DispatchEvent, consumed}
use jackfield.Registry.{
  RegistrationEntry, Registry, plan, pre_events, skipped_events, observe_events, observe_all,
  observe, observe_consumed,
}
use jackfield.Router.{AffinityRouter, scan, affinity_route, deliver, give_back}
use jackfield.Router.Outcome.{ready}
use jackfield.Router.Choice.{scan-Chosen}
use jackfield.Router.Affinity.{affinity_gives_back, affinity_delivers, plan-InRange}
use jackfield.Router.Events.{
  occurs, occurs-append, targets, skipped_slots, due, occurs-plan, scan-passed, scan-split,
}
use jackfield.Router.Told.{
  Fits, Observed, observe_all-append, pre_events-Fits, skipped_events-Fits, targets-append,
  targets-pre_events, targets-skipped_events, observe_events-some,
}

module _ ⦃p : Platform⦄ {S : Type 0} where
  give_back-Observed :
      (now : S → ℕ) (r : Registry S) (env : Envelope) (s : S)
      → let pl = plan r env in
        let found = scan r.entries env s pl.qualified in
        found.winner_idx ≡ none → Observed now r env s (give_back r env s pl found.pre_winner)
  give_back-Observed now r env s h =
      let pl = plan r env in
      let found = scan r.entries env s pl.qualified in
      let out = give_back r env s pl found.pre_winner in
      record {
        events = pre_events pl.meta found.pre_winner;
        applied = unfold give_back observe observe_events in refl;
        once = λ i.
            ap (occurs i) (
              targets-pre_events pl.meta found.pre_winner
              ∙ scan-passed r.entries env s pl.qualified (plan-InRange r env) h)
            ∙ occurs-plan r env i;
        fits = pre_events-Fits now r env s out;
      }

  deliver-applied :
      (now : S → ℕ) (r : Registry S) (env : Envelope) (s : S) (idx : ℕ) (pre : List (ℕ × Bool))
      (entry : RegistrationEntry S)
      → let pl = plan r env in
        let out = deliver now r env s pl pre idx entry in
        out.registry ≡ record r {
          entries =
              observe_all
                ((pre_events pl.meta pre ++ skipped_events pl.meta (skipped_slots idx pl.qualified))
                  ++ (idx, consumed pl.meta (now out.world - now s)) ∷ [])
                r.entries;
        }
  unfolding deliver observe observe_consumed observe_all
  deliver-applied now r env s idx pre entry =
      let pl = plan r env in
      let before =
        pre_events pl.meta pre ++ skipped_events pl.meta (skipped_slots idx pl.qualified) in
      let last =
        (idx, consumed pl.meta (now (entry.consumer.consume env.message s) - now s)) ∷ [] in
      ap (λ es. record r { entries = es })
        (ap (λ events. observe_all last (observe_all events r.entries))
            (observe_events-some pl idx pre)
          ∙ sym (observe_all-append before last r.entries))

  deliver-once :
      (r : Registry S) (env : Envelope) (s : S) (idx i : ℕ) (event : DispatchEvent)
      → let pl = plan r env in
        let found = scan r.entries env s pl.qualified in
        found.winner_idx ≡ some idx
        → occurs i (
            targets (
              (pre_events pl.meta found.pre_winner
                ++ skipped_events pl.meta (skipped_slots idx pl.qualified))
              ++ (idx, event) ∷ []))
          ≡ due env (get_elem? r.entries i)
  deliver-once r env s idx i event h =
      let pl = plan r env in
      let split = scan-split r.entries env s pl.qualified idx i (plan-InRange r env) h in
      rw
        (
          targets-append, targets-append, occurs-append, occurs-append, targets-pre_events,
          targets-skipped_events,
        )
        (ground (arith, split, occurs-plan r env i))

  deliver-Observed :
      (now : S → ℕ) (r : Registry S) (env : Envelope) (s : S) (idx : ℕ)
      (entry : RegistrationEntry S)
      → let pl = plan r env in
        let found = scan r.entries env s pl.qualified in
        found.winner_idx ≡ some idx
        → get_elem? r.entries idx ≡ some entry
        → ready env s entry ≡ true
        → Observed now r env s (deliver now r env s pl found.pre_winner idx entry)
  deliver-Observed now r env s idx entry h f can =
      let pl = plan r env in
      let found = scan r.entries env s pl.qualified in
      let out = deliver now r env s pl found.pre_winner idx entry in
      let latency = now out.world - now s in
      let before = pre_events pl.meta found.pre_winner in
      let after = skipped_events pl.meta (skipped_slots idx pl.qualified) in
      record {
        events = (before ++ after) ++ (idx, consumed pl.meta latency) ∷ [];
        applied = deliver-applied now r env s idx found.pre_winner entry;
        once = λ i. deliver-once r env s idx i (consumed pl.meta latency) h;
        fits = λ i event m. elim (Memᴰ.append_cases (before ++ after) m) [
          | inl n ↦ elim (Memᴰ.append_cases before n) [
            | inl o ↦ pre_events-Fits now r env s out i event o
            | inr o ↦ skipped_events-Fits now r env s out idx i event (unfold deliver in refl) o
          ]
          | inr n ↦
              subst
                (λ (x : ℕ × DispatchEvent).
                  (entry : RegistrationEntry S) × (get_elem? r.entries x.0 ≡ some entry)
                  × Fits now env s out entry x.1)
                (sym (Memᴰ.eq_of_singleton n))
                (
                  entry,
                  f,
                  (unfold plan in refl, can, unfold deliver in refl, unfold deliver in refl, refl),
                )
        ];
      }

  -- `AffinityRouter::route` changes the registry only by what the dimensions observe: one event
  -- for each consumer that no required dimension rejects, none for another. `Busy` tells that the
  -- consumer was not available, `Vetoed` that it was and did not validate the envelope, `Consumed`
  -- that it consumed the message, in the time told, and `Skipped` that somebody did.
  pub affinity_route-Observed :
      (now : S → ℕ) (self : AffinityRouter) (r : Registry S) (env : Envelope) (s : S)
      → Observed now r env s (affinity_route now self r env s)
  affinity_route-Observed now self r env s =
      let pl = plan r env in
      let found = scan r.entries env s pl.qualified in
      elim (Option-cases found.winner_idx) [
        | inl h ↦
            subst (Observed now r env s) (sym (affinity_gives_back now self r env s h))
              (give_back-Observed now r env s h)
        | inr (idx, h) ↦
            let c = scan-Chosen r.entries env s pl.qualified idx (plan-InRange r env) h in
            subst (Observed now r env s)
              (sym (affinity_delivers now self r env s idx c.entry h c.found))
              (deliver-Observed now r env s idx c.entry h c.found c.can)
      ]
