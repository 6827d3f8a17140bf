-- ===== src/Bus/Handling/Journal.antt =====
-- components/bus/bus.rs: what a loop of `Bus::drain` over envelopes does, as a journal.
use jackfield.Common.{
  ◌≤◌, ◌≡◌, refl, ap, ◌∙◌, sym, List, [], ◌∷◌, ◌++◌, map, Memᴰ, none, some, length, arith,
}
use jackfield.Platform.{Platform}
use jackfield.Message.{Message, Envelope}
use jackfield.Consumer.{Consumer}
use jackfield.Registry.{RegistrationEntry, Registry}
use jackfield.Registry.Ids.{roster}
use jackfield.Router.{Router}
use jackfield.Router.Contract.{consumers}
use jackfield.Bus.{Channels, Run, handle}
use jackfield.Bus.Pending.{last, room}

module _ ⦃p : Platform⦄ {S : Type 0} where
  consumers-roster :
      (entries : List (RegistrationEntry S)) → map (λ x. x.1) (roster entries) ≡ consumers entries
  consumers-roster [] = refl
  consumers-roster (e ∷ es) = ap (◌∷◌ e.consumer) (consumers-roster es)

  pub same_consumers :
      (es es' : List (RegistrationEntry S)) → roster es ≡ roster es' → consumers es ≡ consumers es'
  same_consumers es es' h = sym (consumers-roster es) ∙ ap (map (λ x. x.1)) h ∙ consumers-roster es'

-- The journal of a loop: of the envelopes in turn, each got from the world by `Get`, a consumer
-- has taken the message, or it is kept with the envelopes that are left.
pub data Handles ⦃p : Platform⦄ {R S : Type 0} (router : Router R S)
    (Get : S → Envelope → S → Type 0)
    : Run R S → List Envelope → List Envelope → Run R S → Type 0 where
  done : {run : Run R S} → Handles router Get run [] [] run
  taken :
      {run run' : Run R S} {e : Envelope} {es left : List Envelope} (s : S)
      → Get run.world e s
      → (router.route run.bus.router run.bus.registry e s).unhandled ≡ none
      → Handles router Get (handle router run.bus e s) es left run'
      → Handles router Get run (e ∷ es) left run'
  kept :
      {run run' : Run R S} {e : Envelope} {es left : List Envelope} (s : S)
      → Get run.world e s
      → (router.route run.bus.router run.bus.registry e s).unhandled ≡ some e
      → Handles router Get (handle router run.bus e s) es left run'
      → Handles router Get run (e ∷ es) (e ∷ left) run'

module _ ⦃p : Platform⦄ {R S : Type 0} {router : Router R S} {Get : S → Envelope → S → Type 0} where
  pub Handles-length :
      {run run' : Run R S} {es left : List Envelope}
      → Handles router Get run es left run'
      → length left ≤ length es
  Handles-length done = omega arith
  Handles-length (taken s got gone rest) = omega (arith, Handles-length rest)
  Handles-length (kept s got back rest) = omega (arith, Handles-length rest)

module _ ⦃p : Platform⦄ {S : Type 0} (ch : Channels S) where
  -- Consuming sends nothing to this bus.
  pub record IsQuiet (c : Consumer S) : Type 0 where
    pub envelopes : (m : Message) (s : S) → ch.envelopes (c.consume m s) ≡ ch.envelopes s
    pub commands : (m : Message) (s : S) → ch.commands (c.consume m s) ≡ ch.commands s

  abbrev pub AllQuiet : Registry S → Type 0
  AllQuiet r = (c : Consumer S) → Memᴰ c (consumers r.entries) → IsQuiet c

-- What a loop changes, beside the routers: the envelopes that are left have been pushed, in order.
pub record Kept ⦃p : Platform⦄ {R S : Type 0} (ch : Channels S) (run run' : Run R S)
    (left : List Envelope) : Type 0 where
  pub buffer : run'.bus.pending ≡ last (room run.bus) (run.bus.pending ++ left)
  pub same_room : room run'.bus ≡ room run.bus
  pub quiet : AllQuiet ch run'.bus.registry
  pub commands : ch.commands run'.world ≡ ch.commands run.world
