-- ===== src/Router/Affinity.antt =====
-- components/router/router.rs: `AffinityRouter::route` hands the message to the best consumer.
use jackfield.Common.{
  ℕ, ◌≡◌, refl, subst, ◌⊎◌, inl, inr, true, false, none, some, Bool-cases, Option-cases, get_elem?,
  arith,
}
use mathlib.Core.Path.{subst₂}
use jackfield.Platform.{Platform}
use jackfield.Message.{Envelope}
use jackfield.Registry.{RegistrationEntry, Registry, hard_rejected, plan}
use jackfield.Registry.Scoring.{entry_slot}
use jackfield.Registry.Plan.{Precedes, plan-IsSorted, plan-Behind, mem-plan}
use jackfield.Router.{AffinityRouter, scan, affinity_route, deliver, give_back}
use jackfield.Router.Outcome.{eligible, Taken, Refused, eligible_soft, eligible_of}
use jackfield.Router.Choice.{InRange, Chosen, scan-Chosen, scan-none}

module _ ⦃p : Platform⦄ {S : Type 0} where
  -- No eligible consumer has a higher score, nor the same score and an older registration.
  abbrev pub IsBest : Registry S → Envelope → S → ℕ → RegistrationEntry S → Type 0
  IsBest r env s idx entry =
      (j : ℕ) (other : RegistrationEntry S)
      → get_elem? r.entries j ≡ some other
      → eligible env s other ≡ true
      → Precedes (entry_slot env idx entry) (entry_slot env j other)

  pub plan-InRange : (r : Registry S) (env : Envelope) → InRange r.entries (plan r env).qualified
  plan-InRange r env slot m = let b = plan-Behind r env slot m in (b.0, b.1)

  -- The two ends of the loop.
  pub affinity_gives_back :
      (now : S → ℕ) (self : AffinityRouter) (r : Registry S) (env : Envelope) (s : S)
      → let pl = plan r env in
        let found = scan r.entries env s pl.qualified in
        found.winner_idx ≡ none
        → affinity_route now self r env s ≡ give_back r env s pl found.pre_winner
  unfolding affinity_route give_back
  affinity_gives_back now self r env s h = rw (affinity_route, h)

  pub affinity_delivers :
      (now : S → ℕ) (self : AffinityRouter) (r : Registry S) (env : Envelope) (s : S) (idx : ℕ)
      (entry : RegistrationEntry S)
      → let pl = plan r env in
        let found = scan r.entries env s pl.qualified in
        found.winner_idx ≡ some idx
        → get_elem? r.entries idx ≡ some entry
        → affinity_route now self r env s ≡ deliver now r env s pl found.pre_winner idx entry
  unfolding affinity_route deliver
  affinity_delivers now self r env s idx entry h f = rw (affinity_route, h, f)

  nobody_ready :
      (r : Registry S) (env : Envelope) (s : S)
      → (scan r.entries env s (plan r env).qualified).winner_idx ≡ none
      → (j : ℕ) (other : RegistrationEntry S) → get_elem? r.entries j ≡ some other
      → eligible env s other ≡ false
  nobody_ready r env s h j other f = elim (Bool-cases (hard_rejected env other.dims)) [
    | inl hard ↦ rw hard
    | inr soft ↦ eligible_of env s other soft (
        scan-none r.entries env s (plan r env).qualified (plan-InRange r env) h
          (entry_slot env j other) other (mem-plan r env j other f soft) f)
  ]

  Chosen-IsBest :
      (r : Registry S) (env : Envelope) (s : S) (idx : ℕ)
      → (c : Chosen r.entries env s (plan r env).qualified idx)
      → (eligible env s c.entry ≡ true) × IsBest r env s idx c.entry
  Chosen-IsBest r env s idx c =
      let (entry, found, soft, shown) = plan-Behind r env c.slot c.listed in
      let one : entry ≡ c.entry = ground (arith, c.found, c.here) in
      (
        eligible_of env s c.entry (rw one at soft) c.can,
        λ j other f can.
            let (o_soft, o_can) = eligible_soft env s other can in
            subst₂ (λ i e. Precedes (entry_slot env i e) (entry_slot env j other)) c.here one
              (subst (λ x. Precedes x (entry_slot env j other)) shown
                (c.first (plan-IsSorted r env) (entry_slot env j other) other
                  (mem-plan r env j other f o_soft) f o_can)),
      )

  -- Every call ends in one of the two ways.
  pub affinity_ends :
      (now : S → ℕ) (self : AffinityRouter) (r : Registry S) (env : Envelope) (s : S)
      → let pl = plan r env in
        let found = scan r.entries env s pl.qualified in
        (affinity_route now self r env s ≡ give_back r env s pl found.pre_winner)
        ⊎ ((idx : ℕ) × (entry : RegistrationEntry S) × (affinity_route now self r env s
              ≡ deliver now r env s pl found.pre_winner idx entry))
  affinity_ends now self r env s =
      let pl = plan r env in
      let found = scan r.entries env s pl.qualified in
      elim (Option-cases found.winner_idx) [
        | inl h ↦ inl (affinity_gives_back now self r env s h)
        | inr (idx, h) ↦
            let c = scan-Chosen r.entries env s pl.qualified idx (plan-InRange r env) h in
            inr (idx, c.entry, affinity_delivers now self r env s idx c.entry h c.found)
      ]

  -- `AffinityRouter::route` has exactly two outcomes. Either one eligible consumer, the best one,
  -- has consumed the message and nothing is left of the envelope; or no consumer is eligible, and
  -- the envelope comes back with the world unchanged.
  pub affinity_route-outcome :
      (now : S → ℕ) (self : AffinityRouter) (r : Registry S) (env : Envelope) (s : S)
      → let out = affinity_route now self r env s in
        ((t : Taken r env s out) × IsBest r env s t.idx t.entry) ⊎ Refused r env s out
  affinity_route-outcome now self r env s =
      let pl = plan r env in
      let found = scan r.entries env s pl.qualified in
      elim (Option-cases found.winner_idx) [
        | inl h ↦ rw (affinity_gives_back now self r env s h) (
            inr (
              unfold give_back in
              record { nobody = nobody_ready r env s h; back = refl; same = refl }))
        | inr (idx, h) ↦
            let c = scan-Chosen r.entries env s pl.qualified idx (plan-InRange r env) h in
            let (can, best) = Chosen-IsBest r env s idx c in
            rw (affinity_delivers now self r env s idx c.entry h c.found) (
              inl (
                unfold deliver in
                (
                  record {
                    idx = idx;
                    entry = c.entry;
                    found = c.found;
                    can = can;
                    gone = refl;
                    consumed = refl;
                  },
                  best,
                )))
      ]
