-- ===== src/Bus/Directory.antt =====
-- components/bus/bus.rs: who is registered with a dispatching bus. A directory is what a client
-- may know of the registry: the next id, and who is registered under which id.
use mathlib.Core.List.{map-append}
use mathlib.Core.Path.{ap₂}
use jackfield.Common.{
  ℕ, suc, ◌+◌, ◌<◌, ◌≤◌, ◌^◌, ◌≡◌, refl, ap, ◌∙◌, inl, inr, List, [], ◌∷◌, ◌++◌, Bool-cases, ◌==◌,
  if◌then◌else◌, arith,
}
use jackfield.Platform.{Platform}
use jackfield.Message.{Envelope}
use jackfield.Consumer.{Consumer}
use jackfield.Registry.{RegistrationEntry, Registry, retain}
use jackfield.Registry
use jackfield.Registry.Ids.{roster}
use jackfield.Router.{Router}
use jackfield.Router.Contract.{RouterContract}
use jackfield.Bus.{BusCmd, register, deregister, Channels, Bus, Run, handle, apply_cmd}
use jackfield.Bus.Handling.{handle-registry}
use jackfield.Bus.Drain.{roster-add_dims}
use jackfield.Bus.Dispatch.{Dispatches, stop, outside, envelope, command, applied, next_id-add_dims}

module _ ⦃p : Platform⦄ where
  pub record Directory (S : Type 0) : Type 0 where
    pub next : ℕ
    pub members : List (ℕ × Consumer S)

module _ ⦃p : Platform⦄ {S : Type 0} where
  abbrev pub directory : Registry S → Directory S
  directory r = record { next = r.next_id; members = roster r.entries }

  abbrev pub without : ℕ → List (ℕ × Consumer S) → List (ℕ × Consumer S)
  without id [] = []
  without id (x ∷ xs) = let others = without id xs in if x.0 == id then others else x ∷ others

  -- What a command means.
  abbrev pub enter : BusCmd S → Directory S → Directory S
  enter (register consumer dims reply) d = record {
    next = suc d.next;
    members = d.members ++ (d.next, consumer) ∷ [];
  }
  enter (deregister id) d = record d { members = without id d.members }

  abbrev pub enter_all : List (BusCmd S) → Directory S → Directory S
  enter_all [] d = d
  enter_all (cmd ∷ cmds) d = enter_all cmds (enter cmd d)

  next-enter : (cmd : BusCmd S) (d : Directory S) → (enter cmd d).next ≤ suc d.next
  next-enter (register consumer dims reply) d = omega arith
  next-enter (deregister id) d = omega arith

  same_directory : (d d' : Directory S) → d.next ≡ d'.next → d.members ≡ d'.members → d ≡ d'
  same_directory d d' h k = ap₂ (λ m l. record { next = m; members = l }) h k

  roster-retain :
      (id : ℕ) (es : List (RegistrationEntry S)) → roster (retain id es) ≡ without id (roster es)
  unfolding retain
  roster-retain id [] = refl
  roster-retain id (e ∷ es) = elim (Bool-cases (e.id == id)) [
    | inl same ↦ rw (retain, without, same) (roster-retain id es)
    | inr other ↦
        rw (retain, without, other) (ap (λ l. (e.id, e.consumer) ∷ l) (roster-retain id es))
  ]

module _ ⦃p : Platform⦄ {R S : Type 0} where
  pub directory-apply_cmd :
      (b : Bus R S) (cmd : BusCmd S) (s : S)
      → b.registry.next_id + 1 < 2 ^ 64
      → directory (apply_cmd b cmd s).bus.registry ≡ enter cmd (directory b.registry)
  unfolding apply_cmd Registry.register Registry.deregister
  directory-apply_cmd b (register consumer dims reply) s h =
      let (r, builder) = Registry.register b.registry consumer in
      let e : RegistrationEntry S = record {
        id = b.registry.next_id;
        consumer = consumer;
        dims = [];
      } in
      same_directory _ _ (next_id-add_dims builder dims r ∙ omega arith) (
        roster-add_dims builder dims r
        ∙ map-append (λ x. (x.id, x.consumer)) b.registry.entries (e ∷ []))
  directory-apply_cmd b (deregister id) s h =
      ap (λ l. record { next = b.registry.next_id; members = l })
        (roster-retain id b.registry.entries)

module _ ⦃p : Platform⦄ where
  -- The commands that a stretch of the loop applies, in order.
  abbrev pub handled :
      {R S : Type 0} {ch : Channels S} {router : Router R S} {run run' : Run R S}
      {left : List Envelope}
      → Dispatches ch router run left run'
      → List (BusCmd S)
  handled stop = []
  handled (outside s steps) = handled steps
  handled (envelope e s got steps) = handled steps
  handled (command cmd s got steps) = cmd ∷ handled steps

module _ ⦃p : Platform⦄ {R S : Type 0} (ch : Channels S) (router : Router R S)
    (contract : RouterContract router) where
  pub directory-handle :
      (b : Bus R S) (e : Envelope) (s : S)
      → directory (handle router b e s).bus.registry ≡ directory b.registry
  directory-handle b e s =
      let (same, next) = contract.keeps b.router b.registry e s in
      ap directory (handle-registry ch router contract b e s) ∙ same_directory _ _ next same

  -- With a router that meets the contract, and as long as there are not so many commands that the
  -- counter may wrap, what a dispatching bus does with its directory is what the commands mean that
  -- it applies: no envelope, no routing and no dimension changes it.
  pub dispatch-directory :
      {run run' : Run R S} {left : List Envelope} (steps : Dispatches ch router run left run')
      → run.bus.registry.next_id + applied steps < 2 ^ 64
      → directory run'.bus.registry ≡ enter_all (handled steps) (directory run.bus.registry)
  dispatch-directory stop h = refl
  dispatch-directory (outside s steps) h = dispatch-directory steps h
  dispatch-directory {run} (envelope e s got steps) h =
      let same = directory-handle run.bus e s in
      dispatch-directory steps (omega (arith, h, ap (λ (d : Directory S). d.next) same))
      ∙ ap (enter_all (handled steps)) same
  dispatch-directory {run} (command cmd s got steps) h =
      let entered = directory-apply_cmd run.bus cmd s (omega (arith, h)) in
      dispatch-directory steps (
        omega (
          arith,
          h,
          ap (λ (d : Directory S). d.next) entered,
          next-enter cmd (directory run.bus.registry),
        ))
      ∙ ap (enter_all (handled steps)) entered
