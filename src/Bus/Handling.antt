-- ===== src/Bus/Handling.antt =====
-- components/bus/bus.rs: the loops of `Bus::drain` over envelopes.
mod Journal
pub use Journal.*
use jackfield.Common.{
  ℕ, zero, suc, ◌<◌, ◌≤◌, ◌≡◌, refl, ap, ◌∙◌, sym, subst, inl, inr, List, [], ◌∷◌, ◌++◌, map, Memᴰ,
  none, some, length, arith,
}
use mathlib.Core.Path.{subst₂}
use mathlib.Core.List.{append_assoc, append-nil}
use jackfield.Platform.{Platform}
use jackfield.Message.{Message, Envelope}
use jackfield.Consumer.{Consumer}
use jackfield.Registry.{RegistrationEntry, Registry}
use jackfield.Registry.Ids.{roster}
use jackfield.Router.{Router}
use jackfield.Router.Contract.{consumers, RouterContract}
use jackfield.Bus.{Channels, Bus, Run, push_pending, handle, handle_all, receive_all}
use jackfield.Bus.Pending.{
  last, last-append, last_short, room, IsBounded, room-push_pending, push_pending_lem,
  push_pending-IsBounded,
}

module _ ⦃p : Platform⦄ {R S : Type 0} (ch : Channels S) (router : Router R S)
    (contract : RouterContract router) where
  pub handle-registry :
      (b : Bus R S) (e : Envelope) (s : S)
      → (handle router b e s).bus.registry ≡ (router.route b.router b.registry e s).registry
  unfolding handle
  handle-registry b e s = ground arith

  pub handle-consumers :
      (b : Bus R S) (e : Envelope) (s : S) (c : Consumer S)
      → Memᴰ c (consumers (handle router b e s).bus.registry.entries)
      → Memᴰ c (consumers b.registry.entries)
  handle-consumers b e s c m =
      let out = router.route b.router b.registry e s in
      let same =
        same_consumers out.registry.entries b.registry.entries
          (contract.keeps b.router b.registry e s).0 in
      subst (Memᴰ c) (ap (λ (r : Registry S). consumers r.entries) (handle-registry b e s) ∙ same) m

  handle-quiet :
      (b : Bus R S) (e : Envelope) (s : S)
      → AllQuiet ch b.registry
      → AllQuiet ch (handle router b e s).bus.registry
  handle-quiet b e s q c m = q c (handle-consumers b e s c m)

  handle-channels :
      (b : Bus R S) (e : Envelope) (s : S)
      → AllQuiet ch b.registry
      → (ch.envelopes (handle router b e s).world ≡ ch.envelopes s)
        × (ch.commands (handle router b e s).world ≡ ch.commands s)
  unfolding handle
  handle-channels b e s q = elim (contract.acts b.router b.registry e s) [
    | inl (_, same) ↦ (ap ch.envelopes same, ap ch.commands same)
    | inr (c, m, _, consumed) ↦ (
      ap ch.envelopes consumed ∙ (q c m).envelopes e.message s,
      ap ch.commands consumed ∙ (q c m).commands e.message s,
    )
  ]

  handle-pending :
      (b : Bus R S) (e : Envelope) (s : S)
      → ((router.route b.router b.registry e s).unhandled ≡ none
          → (handle router b e s).bus.pending ≡ b.pending)
        × ((router.route b.router b.registry e s).unhandled ≡ some e
            → (handle router b e s).bus.pending ≡ (push_pending b e).pending)
        × (room (handle router b e s).bus ≡ room b)
  unfolding handle
  handle-pending b e s = (λ h. ground arith, λ h. ground arith, ground arith)

  -- One round.
  gone-Kept :
      (run run' : Run R S) (e : Envelope) (s : S) (left : List Envelope)
      → AllQuiet ch run.bus.registry
      → ch.commands s ≡ ch.commands run.world
      → (router.route run.bus.router run.bus.registry e s).unhandled ≡ none
      → Kept ch (handle router run.bus e s) run' left
      → Kept ch run run' left
  gone-Kept run run' e s left q c h k =
      let (gone, _, same) = handle-pending run.bus e s in
      record {
        buffer = subst₂ (λ n l. run'.bus.pending ≡ last n (l ++ left)) same (gone h) k.buffer;
        same_room = k.same_room ∙ same;
        quiet = k.quiet;
        commands = k.commands ∙ (handle-channels run.bus e s q).1 ∙ c;
      }

  left-Kept :
      (run run' : Run R S) (e : Envelope) (s : S) (left : List Envelope)
      → AllQuiet ch run.bus.registry
      → IsBounded run.bus
      → ch.commands s ≡ ch.commands run.world
      → (router.route run.bus.router run.bus.registry e s).unhandled ≡ some e
      → Kept ch (handle router run.bus e s) run' left
      → Kept ch run run' (e ∷ left)
  left-Kept run run' e s left q bd c h k =
      let (_, pushed, same) = handle-pending run.bus e s in
      let n = room run.bus in
      let xs = run.bus.pending in
      record {
        buffer =
            subst₂ (λ n l. run'.bus.pending ≡ last n (l ++ left)) same
              (pushed h ∙ push_pending_lem run.bus e bd) k.buffer
            ∙ last-append n (xs ++ e ∷ []) left
            ∙ ap (last n) (append_assoc xs (e ∷ []) left);
        same_room = k.same_room ∙ same;
        quiet = k.quiet;
        commands = k.commands ∙ (handle-channels run.bus e s q).1 ∙ c;
      }

  done-Kept :
      (run : Run R S) → IsBounded run.bus → AllQuiet ch run.bus.registry → Kept ch run run []
  done-Kept run bd q = record {
    buffer = sym (ap (last (room run.bus)) (append-nil run.bus.pending) ∙ last_short _ _ bd);
    same_room = refl;
    quiet = q;
    commands = refl;
  }

  handle-IsBounded :
      (b : Bus R S) (e : Envelope) (s : S) → IsBounded b → IsBounded (handle router b e s).bus
  handle-IsBounded b e s bd =
      let (gone, pushed, same) = handle-pending b e s in
      elim (contract.acts b.router b.registry e s) [
        | inl (back, _) ↦ omega (
          arith,
          ap length (pushed back),
          push_pending-IsBounded b e bd,
          room-push_pending b e,
          same,
        )
        | inr (c, _, h, _) ↦ omega (arith, ap length (gone h), same)
      ]

  -- `handle_all` gets each envelope from the list, and leaves the channels alone.
  pub handle_all_lem :
      (es : List Envelope) (run : Run R S)
      → AllQuiet ch run.bus.registry
      → IsBounded run.bus
      → let run' = handle_all router es run in
        (left : List Envelope) × Handles router (λ s e s'. s' ≡ s) run es left run'
        × Kept ch run run' left
        × (ch.envelopes run'.world ≡ ch.envelopes run.world)
        × IsBounded run'.bus
  unfolding handle_all
  handle_all_lem [] run q bd = ([], done, done-Kept run bd q, refl, bd)
  handle_all_lem (e ∷ es) run q bd =
      let next = handle router run.bus e run.world in
      let same = (handle-channels run.bus e run.world q).0 in
      let (left, steps, k, envs, bd') =
        handle_all_lem es next (handle-quiet run.bus e run.world q)
          (handle-IsBounded run.bus e run.world bd) in
      elim (contract.acts run.bus.router run.bus.registry e run.world) [
        | inl (h, _) ↦ (
          e ∷ left,
          kept run.world refl h steps,
          left-Kept run _ e run.world left q bd refl h k,
          envs ∙ same,
          bd',
        )
        | inr (_, _, h, _) ↦ (
          left,
          taken run.world refl h steps,
          gone-Kept run _ e run.world left q refl h k,
          envs ∙ same,
          bd',
        )
      ]

  receive_all_stop :
      (fuel : ℕ) (run : Run R S)
      → ch.recv_envelope run.world ≡ none
      → receive_all ch router (suc fuel) run ≡ some run
  unfolding receive_all
  receive_all_stop fuel run h = rw (receive_all, h)

  receive_all_next :
      (fuel : ℕ) (run : Run R S) (e : Envelope) (s : S)
      → ch.recv_envelope run.world ≡ some (e, s)
      → receive_all ch router (suc fuel) run
        ≡ receive_all ch router fuel (handle router run.bus e s)
  unfolding receive_all
  receive_all_next fuel run e s h = rw (receive_all, h)

  -- With fuel for each waiting envelope `receive_all` ends, having got each from the channel, in
  -- order, and the channel is empty.
  pub receive_all_lem :
      (es : List Envelope) (fuel : ℕ) (run : Run R S)
      → ch.envelopes run.world ≡ es
      → length es < fuel
      → AllQuiet ch run.bus.registry
      → IsBounded run.bus
      → (run' : Run R S) × (left : List Envelope) × (receive_all ch router fuel run ≡ some run')
        × Handles router (λ s e s'. ch.recv_envelope s ≡ some (e, s')) run es left run'
        × Kept ch run run' left
        × (ch.envelopes run'.world ≡ [])
        × IsBounded run'.bus
  receive_all_lem es zero run w f q bd = absurd (omega arith)
  receive_all_lem [] (suc fuel) run w f q bd =
      let e = ch.recv_envelope_none run.world w in
      (run, [], receive_all_stop fuel run e, done, done-Kept run bd q, w, bd)
  receive_all_lem (e ∷ es) (suc fuel) run w f q bd =
      let (s, got, ws, cs) = ch.recv_envelope_some run.world e es w in
      let next = handle router run.bus e s in
      let (same, _) = handle-channels run.bus e s q in
      let (run', left, ends, steps, k, empty, bd') =
        receive_all_lem es fuel next (same ∙ ws) (omega arith) (handle-quiet run.bus e s q)
          (handle-IsBounded run.bus e s bd) in
      let result : receive_all ch router (suc fuel) run ≡ some run' =
        receive_all_next fuel run e s got ∙ ends in
      elim (contract.acts run.bus.router run.bus.registry e s) [
        | inl (h, _) ↦ (
          run',
          e ∷ left,
          result,
          kept s got h steps,
          left-Kept run run' e s left q bd cs h k,
          empty,
          bd',
        )
        | inr (_, _, h, _) ↦ (
          run',
          left,
          result,
          taken s got h steps,
          gone-Kept run run' e s left q cs h k,
          empty,
          bd',
        )
      ]
