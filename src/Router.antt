-- ===== src/Router.antt =====
-- components/router/router.rs: the trait `Router`, `AffinityRouter`, and `BlindRouter`.
pub mod Outcome
pub mod Choice
pub mod Affinity
pub mod Blind
pub mod Contract
pub mod Events
pub mod Told
pub mod Observed
use jackfield.Common.{
  ℕ, ◌-◌, List, [], ◌∷◌, Bool, true, false, not, ◌&&◌, Option, none, some, any, get_elem?,
  if◌then◌else◌,
}
use jackfield.Platform.{Platform}
use jackfield.Message.{Envelope}
use jackfield.Dimension.{Verdict, reject, score}
use jackfield.Registry.{
  DimEntry, RegistrationEntry, Registry, Slot, RoutePlan, hard_rejected, plan, observe,
  observe_consumed,
}

-- The routers have no fields.
pub data AffinityRouter : Type 0 where
  affinity_router : AffinityRouter

pub data BlindRouter : Type 0 where
  blind_router : BlindRouter

module _ ⦃p : Platform⦄ where
  -- What a call of `route` leaves: the envelope that nobody took, and what it changed.
  pub record Routed (R S : Type 0) : Type 0 where
    pub unhandled : Option Envelope
    pub router : R
    pub registry : Registry S
    pub world : S

  -- The trait `Router`
  pub record Router (R S : Type 0) : Type 0 where
    pub route : R → Registry S → Envelope → S → Routed R S

  -- The variables of the loop of `AffinityRouter::route`; a busy consumer is marked `true`.
  pub record Scan : Type 0 where
    pub pre_winner : List (ℕ × Bool)
    pub winner_idx : Option ℕ

  abbrev pub passed_over : ℕ → Bool → Scan → Scan
  passed_over idx is_busy found = record found { pre_winner = (idx, is_busy) ∷ found.pre_winner }

module _ ⦃p : Platform⦄ {S : Type 0} where
  -- The loop over the qualified slots. An index out of range, where Rust panics, ends it.
  unfoldable pub scan : List (RegistrationEntry S) → Envelope → S → List Slot → Scan
  scan entries env s [] = record { pre_winner = []; winner_idx = none }
  scan entries env s (slot ∷ rest) =
      let later = scan entries env s rest in
      elim (get_elem? entries slot.idx) [
        | none ↦ record { pre_winner = []; winner_idx = none }
        | some entry ↦
            if not (entry.consumer.available s)
            then passed_over slot.idx true later
            else if not (entry.consumer.validate env s)
            then passed_over slot.idx false later
            else record { pre_winner = []; winner_idx = some slot.idx }
      ]

  -- `now` is `Instant::now`, in nanoseconds.
  unfoldable pub deliver :
      (S → ℕ)
      → Registry S
      → Envelope
      → S
      → RoutePlan
      → List (ℕ × Bool)
      → ℕ
      → RegistrationEntry S
      → Routed AffinityRouter S
  unfolding observe observe_consumed
  deliver now r env s pl pre_winner idx entry =
      let s' = entry.consumer.consume env.message s in
      let latency = now s' - now s in
      record {
        unhandled = none;
        router = affinity_router;
        registry = observe_consumed (observe r pl (some idx) pre_winner) idx pl.meta latency;
        world = s';
      }

  unfoldable pub give_back :
      Registry S → Envelope → S → RoutePlan → List (ℕ × Bool) → Routed AffinityRouter S
  unfolding observe
  give_back r env s pl pre_winner = record {
    unhandled = some env;
    router = affinity_router;
    registry = observe r pl none pre_winner;
    world = s;
  }

  unfoldable pub affinity_route :
      (S → ℕ) → AffinityRouter → Registry S → Envelope → S → Routed AffinityRouter S
  unfolding plan scan deliver give_back
  affinity_route now self r env s =
      let pl = plan r env in
      let found = scan r.entries env s pl.qualified in
      elim found.winner_idx [
        | none ↦ give_back r env s pl found.pre_winner
        | some idx ↦ elim (get_elem? r.entries idx) [
          | none ↦ give_back r env s pl found.pre_winner
          | some entry ↦ deliver now r env s pl found.pre_winner idx entry
        ]
      ]

  abbrev pub affinity : (S → ℕ) → Router AffinityRouter S
  affinity now = record { route = affinity_route now }

module _ ⦃p : Platform⦄ {S : Type 0} where
  -- The loop of `BlindRouter::route`: what is left of the envelope, and the world.
  unfoldable pub blind_loop : Envelope → S → List (RegistrationEntry S) → Option Envelope × S
  unfolding hard_rejected
  blind_loop env s [] = (some env, s)
  blind_loop env s (entry ∷ rest) =
      let later = blind_loop env s rest in
      if hard_rejected env entry.dims
      then later
      else if not (entry.consumer.available s)
      then later
      else if not (entry.consumer.validate env s)
      then later
      else (none, entry.consumer.consume env.message s)

  unfoldable pub blind_route : BlindRouter → Registry S → Envelope → S → Routed BlindRouter S
  unfolding blind_loop
  blind_route self r env s =
      let (left, s') = blind_loop env s r.entries in
      record { unhandled = left; router = self; registry = r; world = s' }

  abbrev pub blind : Router BlindRouter S
  blind = record { route = blind_route }
