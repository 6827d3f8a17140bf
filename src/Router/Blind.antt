-- ===== src/Router/Blind.antt =====
-- components/router/router.rs: `BlindRouter::route` hands the message to the first eligible
-- consumer, and agrees with `AffinityRouter::route` on whether there is one.
use jackfield.Common.{
  ℕ, zero, suc, ◌<◌, ◌≡◌, refl, ◌⊎◌, inl, inr, List, [], ◌∷◌, true, false, none, some, Bool-cases,
  get_elem?, arith,
}
use jackfield.Platform.{Platform}
use jackfield.Message.{Envelope}
use jackfield.Registry.{RegistrationEntry, Registry}
use jackfield.Router.{AffinityRouter, BlindRouter, affinity_route, blind_loop, blind_route}
use jackfield.Router.Outcome.{eligible, Taken, Refused}
use jackfield.Router.Affinity.{affinity_route-outcome}

module _ ⦃p : Platform⦄ {S : Type 0} where
  loop_eligible :
      (env : Envelope) (s : S) (entry : RegistrationEntry S) (rest : List (RegistrationEntry S))
      → eligible env s entry ≡ true
      → blind_loop env s (entry ∷ rest) ≡ (none, entry.consumer.consume env.message s)
  unfolding blind_loop
  loop_eligible env s entry rest h = ground arith

  loop_skip :
      (env : Envelope) (s : S) (entry : RegistrationEntry S) (rest : List (RegistrationEntry S))
      → eligible env s entry ≡ false
      → blind_loop env s (entry ∷ rest) ≡ blind_loop env s rest
  unfolding blind_loop
  loop_skip env s entry rest h = ground arith

  -- No consumer that was registered earlier is eligible.
  abbrev pub IsFirst : List (RegistrationEntry S) → Envelope → S → ℕ → Type 0
  IsFirst entries env s idx =
      (j : ℕ) (other : RegistrationEntry S)
      → j < idx
      → get_elem? entries j ≡ some other
      → eligible env s other ≡ false

  record Served (entries : List (RegistrationEntry S)) (env : Envelope) (s : S) : Type 0 where
    idx : ℕ
    entry : RegistrationEntry S
    found : get_elem? entries idx ≡ some entry
    can : eligible env s entry ≡ true
    result : blind_loop env s entries ≡ (none, entry.consumer.consume env.message s)
    first : IsFirst entries env s idx

  record Unserved (entries : List (RegistrationEntry S)) (env : Envelope) (s : S) : Type 0 where
    nobody :
        (j : ℕ) (other : RegistrationEntry S)
        → get_elem? entries j ≡ some other
        → eligible env s other ≡ false
    result : blind_loop env s entries ≡ (some env, s)

  blind_loop-outcome :
      (env : Envelope) (s : S) (entries : List (RegistrationEntry S))
      → Served entries env s ⊎ Unserved entries env s
  blind_loop-outcome env s [] =
      inr (unfold blind_loop in record { nobody = λ j o f. cc; result = refl })
  blind_loop-outcome env s (entry ∷ rest) = elim (Bool-cases (eligible env s entry)) [
    | inl can ↦ inl (record {
      idx = 0;
      entry = entry;
      found = refl;
      can = can;
      result = loop_eligible env s entry rest can;
      first = λ j o lt f. absurd (omega arith);
    })
    | inr cannot ↦ deeper cannot (blind_loop-outcome env s rest)
  ]
    where
      before :
          {idx : ℕ}
          → eligible env s entry ≡ false
          → IsFirst rest env s idx
          → IsFirst (entry ∷ rest) env s (suc idx)
      before cannot first zero o lt f = let one : entry ≡ o = ground arith in rw one at cannot
      before cannot first (suc j) o lt f = first j o (omega arith) f

      none_of :
          eligible env s entry ≡ false
          → ((j : ℕ) (other : RegistrationEntry S)
              → get_elem? rest j ≡ some other
              → eligible env s other ≡ false)
          → (j : ℕ) (other : RegistrationEntry S) → get_elem? (entry ∷ rest) j ≡ some other
          → eligible env s other ≡ false
      none_of cannot ih zero o f = let one : entry ≡ o = ground arith in rw one at cannot
      none_of cannot ih (suc j) o f = ih j o f

      deeper :
          eligible env s entry ≡ false
          → Served rest env s ⊎ Unserved rest env s
          → Served (entry ∷ rest) env s ⊎ Unserved (entry ∷ rest) env s
      deeper cannot (inl b) = inl (record {
        idx = suc b.idx;
        entry = b.entry;
        found = b.found;
        can = b.can;
        result = rw (loop_skip env s entry rest cannot) b.result;
        first = before cannot b.first;
      })
      deeper cannot (inr b) = inr (record {
        nobody = none_of cannot b.nobody;
        result = rw (loop_skip env s entry rest cannot) b.result;
      })

  -- `BlindRouter::route` has exactly two outcomes. Either the first eligible consumer in the order
  -- of registration has consumed the message and nothing is left of the envelope; or no consumer
  -- is eligible, and the envelope comes back with the world unchanged.
  pub blind_route-outcome :
      (self : BlindRouter) (r : Registry S) (env : Envelope) (s : S)
      → let out = blind_route self r env s in
        ((t : Taken r env s out) × IsFirst r.entries env s t.idx) ⊎ Refused r env s out
  unfolding blind_route
  blind_route-outcome self r env s = elim (blind_loop-outcome env s r.entries) [
    | inl b ↦ inl (
      record {
        idx = b.idx;
        entry = b.entry;
        found = b.found;
        can = b.can;
        gone = rw b.result;
        consumed = rw b.result;
      },
      b.first,
    )
    | inr b ↦ inr (record { nobody = b.nobody; back = rw b.result; same = rw b.result })
  ]

  -- The routers agree on whether a message is consumed, though not on by whom.
  pub affinity_route-blind_route :
      (now : S → ℕ) (self : AffinityRouter) (other : BlindRouter) (r : Registry S) (env : Envelope)
      (s : S)
      → (affinity_route now self r env s).unhandled ≡ (blind_route other r env s).unhandled
  affinity_route-blind_route now self other r env s =
      elim (affinity_route-outcome now self r env s) [
        | inl (a, best) ↦ elim (blind_route-outcome other r env s) [
          | inl (b, first) ↦ rw (a.gone, b.gone)
          | inr b ↦ absurd (cc (b.nobody a.idx a.entry a.found))
        ]
        | inr a ↦ elim (blind_route-outcome other r env s) [
          | inl (b, first) ↦ absurd (cc (a.nobody b.idx b.entry b.found))
          | inr b ↦ rw (a.back, b.back)
        ]
      ]
