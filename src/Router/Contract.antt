-- ===== src/Router/Contract.antt =====
-- components/router/router.rs: what the bus needs of a `Router`, and that both routers give it.
use jackfield.Common.{
  ℕ, zero, suc, ◌≡◌, refl, ◌∙◌, ◌⊎◌, inl, inr, List, [], ◌∷◌, map, Memᴰ, none, some, get_elem?,
  arith,
}
use jackfield.Platform.{Platform}
use jackfield.Message.{Envelope}
use jackfield.Consumer.{Consumer}
use jackfield.Registry.{RegistrationEntry, Registry, plan, observe}
use jackfield.Registry.Ids.{roster, roster-observe, roster-observe_consumed}
use jackfield.Router.{
  AffinityRouter, Routed, Router, scan, affinity, affinity_route, give_back, deliver, blind,
  blind_route,
}
use jackfield.Router.Affinity.{affinity_route-outcome, affinity_ends}
use jackfield.Router.Blind.{blind_route-outcome}

module _ ⦃p : Platform⦄ {S : Type 0} where
  abbrev pub consumers : List (RegistrationEntry S) → List (Consumer S)
  consumers = map λ e. e.consumer

module _ ⦃p : Platform⦄ {R S : Type 0} where
  -- Either the envelope comes back and the world is as it was, or one registered consumer has
  -- consumed its message.
  abbrev pub Acts : Registry S → Envelope → S → Routed R S → Type 0
  Acts r env s out =
      ((out.unhandled ≡ some env) × (out.world ≡ s))
      ⊎ ((c : Consumer S) × Memᴰ c (consumers r.entries)
          × (out.unhandled ≡ none)
          × (out.world ≡ c.consume env.message s))

  pub record RouterContract (router : Router R S) : Type 0 where
    pub acts :
        (self : R) (r : Registry S) (env : Envelope) (s : S)
        → Acts r env s (router.route self r env s)
    -- Routing changes no registration.
    pub keeps :
        (self : R) (r : Registry S) (env : Envelope) (s : S)
        → let r' = (router.route self r env s).registry in
          (roster r'.entries ≡ roster r.entries) × (r'.next_id ≡ r.next_id)

module _ ⦃p : Platform⦄ {S : Type 0} where
  mem-consumers :
      (entries : List (RegistrationEntry S)) (i : ℕ) (e : RegistrationEntry S)
      → get_elem? entries i ≡ some e
      → Memᴰ e.consumer (consumers entries)
  mem-consumers [] i e f = absurd (cc)
  mem-consumers (x ∷ xs) zero e f = Memᴰ.head (ground arith)
  mem-consumers (x ∷ xs) (suc i) e f = Memᴰ.tail (mem-consumers xs i e f)

  affinity-keeps :
      (now : S → ℕ) (self : AffinityRouter) (r : Registry S) (env : Envelope) (s : S)
      → let r' = (affinity_route now self r env s).registry in
        (roster r'.entries ≡ roster r.entries) × (r'.next_id ≡ r.next_id)
  affinity-keeps now self r env s =
      let pl = plan r env in
      let found = scan r.entries env s pl.qualified in
      elim (affinity_ends now self r env s) [
        | inl h ↦ rw h (unfold give_back in (roster-observe r pl none found.pre_winner, refl))
        | inr (idx, entry, h) ↦ rw h (
            unfold deliver in
            (
              roster-observe_consumed (observe r pl (some idx) found.pre_winner) idx pl.meta _
                  ∙ roster-observe r pl (some idx) found.pre_winner,
              refl,
            ))
      ]

  -- `AffinityRouter` and `BlindRouter` both meet the contract.
  pub affinity-RouterContract : (now : S → ℕ) → RouterContract (affinity now)
  affinity-RouterContract now = record {
    acts = λ self r env s. elim (affinity_route-outcome now self r env s) [
      | inl (t, _) ↦
          inr (t.entry.consumer, mem-consumers r.entries t.idx t.entry t.found, t.gone, t.consumed)
      | inr b ↦ inl (b.back, b.same)
    ];
    keeps = affinity-keeps now;
  }

  pub blind-RouterContract : RouterContract (blind {S = S})
  blind-RouterContract = record {
    acts = λ self r env s. elim (blind_route-outcome self r env s) [
      | inl (t, _) ↦
          inr (t.entry.consumer, mem-consumers r.entries t.idx t.entry t.found, t.gone, t.consumed)
      | inr b ↦ inl (b.back, b.same)
    ];
    keeps = λ self r env s. unfold blind_route in (refl, refl);
  }
