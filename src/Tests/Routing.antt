-- ===== src/Tests/Routing.antt =====
-- components/registry and components/router: the tests of router.rs, and the results at inputs.
use jackfield.Common.{ℕ, ◌≡◌, refl, ◌⊎◌, [], ◌∷◌, some, Memᴰ, get_elem?, false}
use jackfield.Common.Sort.{IsSorted}
use jackfield.Platform.Sample.{fin, sample}
use jackfield.Message.{Envelope}
use jackfield.Dimension.Builtin.{producer_only, producer_dimension, label_any_of, label_dimension}
use jackfield.Registry.{
  Registry, RegistrationEntry, Slot, hard_rejected, register, require_boxed, prefer_boxed, plan,
  new,
}
use jackfield.Registry.Plan.{Precedes, plan_lem}
use jackfield.Registry.Scoring.{entry_slot}
use jackfield.Router.{affinity_router, blind_router, affinity_route, blind_route}
use jackfield.Router.Outcome.{Taken, Refused}
use jackfield.Router.Affinity.{IsBest, affinity_route-outcome}
use jackfield.Router.Blind.{IsFirst, blind_route-outcome, affinity_route-blind_route}
use jackfield.Router.Told.{Observed}
use jackfield.Router.Observed.{affinity_route-Observed}
use jackfield.Tests.Desk.{Desk, empty_desk, recorder, from}

-- One consumer that requires the producer "sensor", and one that prefers the label "hot".
abbrev first_consumer : Registry Desk
unfolding register require_boxed producer_only producer_dimension
first_consumer =
    let (r, b) = register new (recorder 1) in
    require_boxed b (producer_dimension (producer_only "sensor")) r

abbrev two_consumers : Registry Desk
unfolding first_consumer register prefer_boxed label_any_of label_dimension
two_consumers =
    let (r, b) = register first_consumer (recorder 2) in
    prefer_boxed b (label_dimension (label_any_of ("hot" ∷ []))) (fin 2000) r

abbrev sent : Envelope
sent = from "sensor" ("hot" ∷ [])

abbrev clock : Desk → ℕ
clock s = s.clock

-- `affinity_router_returns_unhandled`
unhandled_test :
    (affinity_route clock affinity_router first_consumer (from "other" []) empty_desk).unhandled
    ≡ some (from "other" [])
unfolding affinity_route first_consumer
unhandled_test = refl

-- The preference for the label outweighs the requirement.
preferred_test :
    (affinity_route clock affinity_router two_consumers sent empty_desk).world.delivered
    ≡ (2, sent.message) ∷ []
unfolding affinity_route two_consumers
preferred_test = refl

-- The blind router takes the older consumer.
blind_test :
    (blind_route blind_router two_consumers sent empty_desk).world.delivered
    ≡ (1, sent.message) ∷ []
unfolding blind_route two_consumers
blind_test = refl

affinity_route-outcome_example :
    let out = affinity_route clock affinity_router two_consumers sent empty_desk in
    ((t : Taken two_consumers sent empty_desk out) × IsBest two_consumers sent empty_desk t.idx
        t.entry)
    ⊎ Refused two_consumers sent empty_desk out
affinity_route-outcome_example =
    affinity_route-outcome clock affinity_router two_consumers sent empty_desk

blind_route-outcome_example :
    let out = blind_route blind_router two_consumers sent empty_desk in
    ((t : Taken two_consumers sent empty_desk out) × IsFirst two_consumers.entries sent empty_desk
        t.idx)
    ⊎ Refused two_consumers sent empty_desk out
blind_route-outcome_example = blind_route-outcome blind_router two_consumers sent empty_desk

affinity_route-blind_route_example :
    (affinity_route clock affinity_router two_consumers sent empty_desk).unhandled
    ≡ (blind_route blind_router two_consumers sent empty_desk).unhandled
affinity_route-blind_route_example =
    affinity_route-blind_route clock affinity_router blind_router two_consumers sent empty_desk

plan_lem_example :
    IsSorted Precedes (plan two_consumers sent).qualified
    × ((slot : Slot)
        → Memᴰ slot (plan two_consumers sent).qualified
        → (entry : RegistrationEntry Desk) × (get_elem? two_consumers.entries slot.idx ≡ some entry)
          × (hard_rejected sent entry.dims ≡ false)
          × (slot ≡ entry_slot sent slot.idx entry))
    × ((i : ℕ) (entry : RegistrationEntry Desk)
        → get_elem? two_consumers.entries i ≡ some entry
        → hard_rejected sent entry.dims ≡ false
        → Memᴰ (entry_slot sent i entry) (plan two_consumers sent).qualified)
plan_lem_example = plan_lem two_consumers sent

affinity_route-Observed_example :
    Observed clock two_consumers sent empty_desk
      (affinity_route clock affinity_router two_consumers sent empty_desk)
affinity_route-Observed_example =
    affinity_route-Observed clock affinity_router two_consumers sent empty_desk
