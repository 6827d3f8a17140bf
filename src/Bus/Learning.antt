-- ===== src/Bus/Learning.antt =====
-- components/bus/bus.rs with the AffinityRouter: the weights of a dispatching bus.
use jackfield.Common.{ℕ, sym, subst, inl, inr, List, [], ◌∷◌, Bool, true, false, All, none, some}
use jackfield.Platform.{Platform}
use jackfield.Message.{Envelope}
use jackfield.Dimension.{Dimension}
use jackfield.Dimension.Weights.{IsWithin}
use jackfield.Registry.{Registry, RegistrationBuilder, plan, observe}
use jackfield.Registry
use jackfield.Registry.Learning.{
  AllLearned, IsBuiltin, observe-AllLearned, observe_consumed-AllLearned, require_boxed-AllLearned,
  prefer_boxed-AllLearned, register-AllLearned, retain-AllLearned,
}
use jackfield.Router.{AffinityRouter, affinity, affinity_route, scan, give_back, deliver}
use jackfield.Router.Affinity.{affinity_ends}
use jackfield.Router.Contract.{affinity-RouterContract}
use jackfield.Bus.{BusCmd, register, deregister, Channels, Bus, Run, handle, apply_cmd, add_dims}
use jackfield.Bus.Handling.{handle-registry}
use jackfield.Bus.Dispatch.{Dispatches, stop, outside, envelope, command}
use jackfield.Bus.Directory.{handled}

module _ ⦃p : Platform⦄ where
  -- If a dimension that comes with a command is built in and a preferred one, its weight lies
  -- between the floor and the cap. A custom dimension may bring any weight.
  abbrev pub Fits : Dimension × Bool × p.Float → Type 0
  Fits (dim, true, weight) = Unit
  Fits (dim, false, weight) = IsBuiltin dim → IsWithin weight

module _ ⦃p : Platform⦄ {S : Type 0} where
  abbrev pub FitsCmd : BusCmd S → Type 0
  FitsCmd (register consumer dims reply) = All Fits dims
  FitsCmd (deregister id) = Unit

  affinity_route-AllLearned :
      (now : S → ℕ) (self : AffinityRouter) (r : Registry S) (env : Envelope) (s : S)
      → AllLearned r.entries
      → AllLearned (affinity_route now self r env s).registry.entries
  affinity_route-AllLearned now self r env s h =
      let pl = plan r env in
      let found = scan r.entries env s pl.qualified in
      elim (affinity_ends now self r env s) [
        | inl e ↦ rw e (unfold give_back in observe-AllLearned r pl none found.pre_winner h)
        | inr (idx, entry, e) ↦ rw e (
            unfold deliver in
            observe_consumed-AllLearned (observe r pl (some idx) found.pre_winner) idx pl.meta _
              (observe-AllLearned r pl (some idx) found.pre_winner h))
      ]

  add_dims-AllLearned :
      (b : RegistrationBuilder) (dims : List (Dimension × Bool × p.Float)) (r : Registry S)
      → All Fits dims
      → AllLearned r.entries
      → AllLearned (add_dims b dims r).entries
  unfolding add_dims
  add_dims-AllLearned b [] r f h = h
  add_dims-AllLearned b ((dim, true, weight) ∷ dims) r f h =
      add_dims-AllLearned b dims _ f.1 (require_boxed-AllLearned b dim r h)
  add_dims-AllLearned b ((dim, false, weight) ∷ dims) r f h =
      add_dims-AllLearned b dims _ f.1 (prefer_boxed-AllLearned b dim weight r f.0 h)

module _ ⦃p : Platform⦄ {S : Type 0} (now : S → ℕ) (ch : Channels S) where
  apply_cmd-AllLearned :
      (b : Bus AffinityRouter S) (cmd : BusCmd S) (s : S)
      → FitsCmd cmd
      → AllLearned b.registry.entries
      → AllLearned (apply_cmd b cmd s).bus.registry.entries
  unfolding apply_cmd Registry.deregister
  apply_cmd-AllLearned b (register consumer dims reply) s f h =
      let (r, builder) = Registry.register b.registry consumer in
      add_dims-AllLearned builder dims r f (register-AllLearned b.registry consumer h)
  apply_cmd-AllLearned b (deregister id) s f h = retain-AllLearned id b.registry.entries h

  handle-AllLearned :
      (b : Bus AffinityRouter S) (e : Envelope) (s : S)
      → AllLearned b.registry.entries
      → AllLearned (handle (affinity now) b e s).bus.registry.entries
  handle-AllLearned b e s h =
      subst (λ (r : Registry S). AllLearned r.entries)
        (sym (handle-registry ch (affinity now) (affinity-RouterContract now) b e s))
        (affinity_route-AllLearned now b.router b.registry e s h)

  -- Whatever a dispatching bus with an AffinityRouter delivers or gives back, and whoever comes and
  -- goes, with whatever custom dimensions beside the built-in ones, the weights of the built-in
  -- dimensions stay between 0.001 and 100.0, if they begin there: those of the registry, and those of
  -- the preferred built-in dimensions that commands bring.
  pub dispatch-AllLearned :
      {run run' : Run AffinityRouter S} {left : List Envelope}
      (steps : Dispatches ch (affinity now) run left run')
      → AllLearned run.bus.registry.entries
      → All FitsCmd (handled steps)
      → AllLearned run'.bus.registry.entries
  dispatch-AllLearned stop h f = h
  dispatch-AllLearned (outside s steps) h f = dispatch-AllLearned steps h f
  dispatch-AllLearned {run} (envelope e s got steps) h f =
      dispatch-AllLearned steps (handle-AllLearned run.bus e s h) f
  dispatch-AllLearned {run} (command cmd s got steps) h f =
      dispatch-AllLearned steps (apply_cmd-AllLearned run.bus cmd s f.0 h) f.1
