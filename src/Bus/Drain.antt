-- ===== src/Bus/Drain.antt =====
-- components/bus/bus.rs: `Bus::drain` as a whole.
mod Commands
pub use Commands.*
use mathlib.Core.Path.{subst₂}
use mathlib.Core.List.{map-append}
use jackfield.Common.{
  ℕ, zero, suc, ◌<◌, ◌≡◌, refl, ap, ◌∙◌, sym, subst, ◌⊎◌, inl, inr, List, [], ◌∷◌, ◌++◌, Memᴰ, Bool,
  true, false, Bool-cases, ◌==◌, none, some, length, arith,
}
use jackfield.Platform.{Platform}
use jackfield.Message.{Envelope}
use jackfield.Dimension.{Dimension}
use jackfield.Consumer.{Consumer}
use jackfield.Registry.{
  RegistrationEntry, Registry, RegistrationBuilder, push_dim, require_boxed, prefer_boxed, retain,
}
use jackfield.Registry
use jackfield.Registry.Ids.{roster, roster-push_dim}
use jackfield.Router.{Router}
use jackfield.Router.Contract.{consumers, RouterContract}
use jackfield.Bus.{
  BusCmd, register, deregister, Channels, Bus, Run, add_dims, apply_cmd, apply_cmds, handle_all,
  retry_pending, receive_all, drain,
}
use jackfield.Bus.Pending.{last, last-append, room, IsBounded}
use jackfield.Bus.Handling.{
  same_consumers, Handles, IsQuiet, AllQuiet, handle_all_lem, receive_all_lem,
}

-- What a drain has done. First all waiting commands were applied, in order; then each pending
-- envelope was routed, then each that waited in the channel, oldest first, and every one was
-- taken by a consumer or is left; what is left makes up the buffer, the latest ones if there is
-- not room for all. The channels are empty.
pub record Drained ⦃p : Platform⦄ {R S : Type 0} (ch : Channels S) (router : Router R S)
    (run run' : Run R S) : Type 0 where
  pub commanded : Run R S
  pub retried : List Envelope
  pub between : Run R S
  pub received : List Envelope
  pub applies :
      commanded.bus
      ≡ record run.bus { registry = applied_all run.bus.registry (ch.commands run.world) }
  pub retries :
      Handles router
        (λ s e s'. s' ≡ s)
        (record commanded { bus = record commanded.bus { pending = [] } })
        run.bus.pending
        retried
        between
  pub receives :
      Handles router
        (λ s e s'. ch.recv_envelope s ≡ some (e, s'))
        between
        (ch.envelopes run.world)
        received
        run'
  pub buffer : run'.bus.pending ≡ last (room run.bus) (retried ++ received)
  pub no_envelopes : ch.envelopes run'.world ≡ []
  pub no_commands : ch.commands run'.world ≡ []
  pub bounded : IsBounded run'.bus

module _ ⦃p : Platform⦄ {R S : Type 0} (ch : Channels S) (router : Router R S)
    (contract : RouterContract router) where
  pub drain_next :
      (fuel : ℕ) (run mid run' : Run R S)
      → apply_cmds ch fuel run ≡ some mid
      → receive_all ch router fuel (retry_pending router mid) ≡ some run'
      → drain ch router fuel run ≡ some run'
  unfolding drain
  drain_next fuel run mid run' h k = rw (drain, h) k

  abbrev pub emptied : Run R S → Run R S
  emptied mid = record mid { bus = record mid.bus { pending = [] } }

  -- The two loops over envelopes, from the point where the commands have been applied.
  drain_rest :
      (fuel : ℕ) (run mid : Run R S)
      → length (ch.envelopes run.world) < fuel
      → mid.bus ≡ record run.bus { registry = applied_all run.bus.registry (ch.commands run.world) }
      → AllQuiet ch mid.bus.registry
      → ch.commands mid.world ≡ []
      → ch.envelopes mid.world ≡ ch.envelopes run.world
      → (run' : Run R S) × (receive_all ch router fuel (retry_pending router mid) ≡ some run')
        × Drained ch router run run'
  drain_rest fuel run mid fe bus quiet cmds envs =
      let waiting = mid.bus.pending in
      let (left, steps, k, envs', bd) =
        handle_all_lem ch router contract waiting (emptied mid) quiet (omega arith) in
      let between = handle_all router waiting (emptied mid) in
      let (run', left', ends, steps', k', none_left, bd') =
        receive_all_lem ch router contract (ch.envelopes run.world) fuel between (envs' ∙ envs) fe
          k.quiet bd in
      let same_room : room between.bus ≡ room run.bus =
        k.same_room ∙ ap (λ (b : Bus R S). room b) bus in
      let n = room run.bus in
      (
        run',
        unfold retry_pending in ends,
        record {
          commanded = mid;
          retried = left;
          between = between;
          received = left';
          applies = bus;
          retries =
              subst (λ es. Handles router (λ s e s'. s' ≡ s) (emptied mid) es left between)
                (ap (λ (b : Bus R S). b.pending) bus) steps;
          receives = steps';
          buffer =
              subst₂ (λ m xs. run'.bus.pending ≡ last m (xs ++ left')) same_room
                (subst (λ m. between.bus.pending ≡ last m left) (ap (λ (b : Bus R S). room b) bus)
                  k.buffer)
                k'.buffer
              ∙ last-append n left left';
          no_envelopes = none_left;
          no_commands = k'.commands ∙ k.commands ∙ cmds;
          bounded = bd';
        },
      )

  -- If the registered consumers, those that waiting commands register, and their replies send
  -- nothing to this bus, then with more fuel than there are waiting envelopes and commands `drain`
  -- ends, for any router that meets the contract, and has done what `Drained` says.
  pub drain_lem :
      (fuel : ℕ) (run : Run R S)
      → length (ch.envelopes run.world) < fuel
      → length (ch.commands run.world) < fuel
      → AllQuiet ch run.bus.registry
      → AllQuietCmds ch (ch.commands run.world)
      → (run' : Run R S) × (drain ch router fuel run ≡ some run') × Drained ch router run run'
  drain_lem fuel run fe fc q qc =
      let (mid, applied_now, bus, quiet, cmds, envs) =
        apply_cmds_lem ch (ch.commands run.world) fuel run refl fc q qc in
      let (run', ends, drained) = drain_rest fuel run mid fe bus quiet cmds envs in
      (run', drain_next fuel run mid run' applied_now ends, drained)
