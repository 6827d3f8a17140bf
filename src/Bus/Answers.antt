-- ===== src/Bus/Answers.antt =====
-- components/bus/bus.rs: the ids that a dispatching bus answers.
use jackfield.Common.{ℕ, ◌+◌, ◌<◌, ◌^◌, ◌≡◌, refl, sym, ap, ◌∙◌, List, [], ◌∷◌, ◌++◌, arith}
use jackfield.Platform.{Platform}
use jackfield.Message.{Envelope}
use jackfield.Consumer.{Consumer}
use jackfield.Registry
use jackfield.Router.{Router}
use jackfield.Router.Contract.{RouterContract}
use jackfield.Bus.{BusCmd, register, deregister, Channels, Bus, Run, apply_cmd}
use jackfield.Bus.Dispatch.{Dispatches, stop, outside, envelope, command, applied}
use jackfield.Bus.Directory.{
  Directory, directory, enter, handled, dispatch-directory, directory-handle, directory-apply_cmd,
}
use mathlib.Core.Path.{subst₂}
use jackfield.Bus.Accounts.{answers, IsAccounted, enter_all-IsAccounted}

module _ ⦃p : Platform⦄ {R S : Type 0} where
  next-apply_cmd :
      (b : Bus R S) (cmd : BusCmd S) (s : S)
      → b.registry.next_id + 1 < 2 ^ 64
      → (apply_cmd b cmd s).bus.registry.next_id ≡ (enter cmd (directory b.registry)).next
  next-apply_cmd b cmd s h = ap (λ (d : Directory S). d.next) (directory-apply_cmd b cmd s h)

module _ ⦃p : Platform⦄ where
  -- What a command is answered, `reply.send(b.id)`, and for whom.
  abbrev pub replied : {R S : Type 0} → Bus R S → BusCmd S → List (ℕ × Consumer S)
  unfolding Registry.register
  replied b (register consumer dims reply) =
      ((Registry.register b.registry consumer).1.id, consumer) ∷ []
  replied b (deregister id) = []

  -- The answers in a stretch of the loop.
  abbrev pub replies :
      {R S : Type 0} {ch : Channels S} {router : Router R S} {run run' : Run R S}
      {left : List Envelope}
      → Dispatches ch router run left run'
      → List (ℕ × Consumer S)
  replies stop = []
  replies (outside s steps) = replies steps
  replies (envelope e s got steps) = replies steps
  replies {run} (command cmd s got steps) = replied run.bus cmd ++ replies steps

module _ ⦃p : Platform⦄ {R S : Type 0} (ch : Channels S) (router : Router R S)
    (contract : RouterContract router) where
  replies-answers :
      {run run' : Run R S} {left : List Envelope} (steps : Dispatches ch router run left run')
      → run.bus.registry.next_id + applied steps < 2 ^ 64
      → replies steps ≡ answers (handled steps) run.bus.registry.next_id
  unfolding replied
  replies-answers stop h = refl
  replies-answers (outside s steps) h = replies-answers steps h
  replies-answers {run} (envelope e s got steps) h =
      let same =
        ap (λ (d : Directory S). d.next) (directory-handle ch router contract run.bus e s) in
      replies-answers steps (omega (arith, h, same)) ∙ ap (answers (handled steps)) same
  replies-answers {run} (command (register consumer dims reply) s got steps) h =
      let next = next-apply_cmd run.bus (register consumer dims reply) s (omega (arith, h)) in
      ap (λ l. (run.bus.registry.next_id, consumer) ∷ l)
        (replies-answers steps (omega (arith, h, next)) ∙ ap (answers (handled steps)) next)
  replies-answers {run} (command (deregister id) s got steps) h =
      let next = next-apply_cmd run.bus (deregister id) s (omega (arith, h)) in
      replies-answers steps (omega (arith, h, next)) ∙ ap (answers (handled steps)) next

  -- With a router that meets the contract, and as long as there are not so many commands that the
  -- counter may wrap: the ids that a dispatching bus answers ascend from its counter on, so none is
  -- answered twice; who is registered in the end was so before or was answered; whoever was, and
  -- whose id no command ended, is; and whose id a command ended, if it was given before, is not.
  pub dispatch-replies :
      {run run' : Run R S} {left : List Envelope} (steps : Dispatches ch router run left run')
      → run.bus.registry.next_id + applied steps < 2 ^ 64
      → IsAccounted
          (directory run.bus.registry)
          (handled steps)
          (replies steps)
          (directory run'.bus.registry)
  dispatch-replies {run} {run'} steps h =
      subst₂ (IsAccounted (directory run.bus.registry) (handled steps))
        (sym (replies-answers steps h)) (sym (dispatch-directory ch router contract steps h))
        (enter_all-IsAccounted (handled steps) (directory run.bus.registry))
