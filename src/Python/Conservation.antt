-- ===== src/Python/Conservation.antt =====
-- integrations/python/integration.rs over components/bus/bus.rs: no message is lost or doubled.
use mathlib.Core.List.{map-append}
use mathlib.Mathlib.Data.Multiset.Defs.{Multiset, of_list}
use mathlib.Mathlib.Data.Multiset.AddSub.{add, add_assoc}
use jackfield.Common.{
  ℕ, zero, suc, ◌+◌, ◌<◌, ◌≤◌, ◌≡◌, refl, sym, ap, ◌∙◌, subst, inl, inr, List, [], ◌∷◌, ◌++◌, Memᴰ,
  none, some, length, length-append, arith,
}
use jackfield.Platform.{Platform}
use jackfield.Message.{Envelope}
use jackfield.Consumer.{Consumer}
use jackfield.Registry.{Registry}
use jackfield.Router.{Router}
use jackfield.Router.Contract.{consumers, RouterContract}
use jackfield.Bus.{Bus, Channels, Run, handle, handle_all, retry_pending, drain}
use jackfield.Bus.Pending.{last, last_short, room}
use jackfield.Bus.Handling.{
  Handles, done, taken, kept, AllQuiet, IsQuiet, handle-consumers, handle_all_lem, receive_all_lem,
  Handles-length,
}
use jackfield.Bus.Drain.{apply_cmds_stop, drain_next, emptied}
use jackfield.Python.{Held, hold, Queue, py_consumer, py_drain}
use jackfield.Python.Delivery.{exceptions, head?, all_drained, drain_queues-first}
use jackfield.Python.Passing.{held_of, IsApart}
use jackfield.Python.Stock.{queued, Separate, queued-Unseen, queued-behind, swap_left, add-chain}
use jackfield.Python.Callbacks.{Outside, passed_all, all_drained-queued}

module _ ⦃p : Platform⦄ {Error R S : Type 0} (ch : Channels S) (router : Router R S)
    (contract : RouterContract router) (qs : List (Queue Error S)) (sep : Separate qs)
    (apart : (q : Queue Error S) → Memᴰ q qs → IsApart ch q.pending) where
  -- Every consumer of the bus puts what it gets into one of the queues.
  abbrev pub Served : Registry S → Type 0
  Served r =
      (c : Consumer S)
      → Memᴰ c (consumers r.entries)
      → (q : Queue Error S) × Memᴰ q qs × (c ≡ py_consumer q.pending)

  Served-AllQuiet : (r : Registry S) → Served r → AllQuiet ch r
  unfolding py_consumer
  Served-AllQuiet r served c m =
      let (q, n, same) = served c m in
      subst (IsQuiet ch) (sym same) (record {
        envelopes = λ x s. (apart q n).envelopes-put _ s;
        commands = λ x s. (apart q n).commands-put _ s;
      })

  -- A message that is taken is in the queues.
  handle-taken :
      (b : Bus R S) (e : Envelope) (s : S)
      → Served b.registry
      → (router.route b.router b.registry e s).unhandled ≡ none
      → queued qs (handle router b e s).world ≡ add (of_list (hold e.message ∷ [])) (queued qs s)
  unfolding handle py_consumer
  handle-taken b e s served gone = elim (contract.acts b.router b.registry e s) [
    | inl (back, _) ↦ absurd (cc)
    | inr (c, m, _, consumed) ↦
        let (q, n, same) = served c m in
        ap (queued qs) (consumed ∙ ap (λ (x : Consumer S). x.consume e.message s) same)
        ∙ queued-behind qs q (hold e.message ∷ []) s sep n
  ]

  handle-kept :
      (b : Bus R S) (e : Envelope) (s : S)
      → (router.route b.router b.registry e s).unhandled ≡ some e
      → queued qs (handle router b e s).world ≡ queued qs s
  unfolding handle
  handle-kept b e s back = elim (contract.acts b.router b.registry e s) [
    | inl (_, same) ↦ ap (queued qs) same
    | inr (c, m, gone, _) ↦ absurd (cc)
  ]

  Handles-queued :
      {Get : S → Envelope → S → Type 0} {run run' : Run R S} {es left : List Envelope}
      → ((s s' : S) (e : Envelope) → Get s e s' → queued qs s' ≡ queued qs s)
      → Handles router Get run es left run'
      → Served run.bus.registry
      → (add (of_list (held_of left)) (queued qs run'.world)
          ≡ add (of_list (held_of es)) (queued qs run.world))
        × Served run'.bus.registry
  Handles-queued keeps done served = (refl, served)
  Handles-queued {run = run} {run' = run'} keeps
        (taken {e = e} {es = es} {left = left} s got gone rest) served =
      let (ih, served') =
        Handles-queued keeps rest
          (λ c m. served c (handle-consumers ch router contract run.bus e s c m)) in
      let new : Multiset Held = of_list (hold e.message ∷ []) in
      let rest' : Multiset Held = of_list (held_of es) in
      (
        ih
            ∙ ap (add rest') (handle-taken run.bus e s served gone)
            ∙ swap_left rest' new (queued qs s)
            ∙ sym (add_assoc new rest' (queued qs s))
            ∙ ap (add (of_list (held_of (e ∷ es)))) (keeps run.world s e got),
        served',
      )
  Handles-queued {run = run} {run' = run'} keeps
        (kept {e = e} {es = es} {left = left} s got back rest) served =
      let (ih, served') =
        Handles-queued keeps rest
          (λ c m. served c (handle-consumers ch router contract run.bus e s c m)) in
      let new : Multiset Held = of_list (hold e.message ∷ []) in
      let rest' : Multiset Held = of_list (held_of es) in
      (
        add_assoc new (of_list (held_of left)) (queued qs run'.world)
            ∙ ap (add new)
                (ih ∙ ap (add rest') (handle-kept run.bus e s back ∙ keeps run.world s e got))
            ∙ sym (add_assoc new rest' (queued qs run.world)),
        served',
      )

  -- The bus alone.
  drain-queued :
      (fuel : ℕ) (run : Run R S)
      → Served run.bus.registry
      → ch.commands run.world ≡ []
      → length run.bus.pending + length (ch.envelopes run.world) ≤ room run.bus
      → length (ch.envelopes run.world) < fuel
      → (run' : Run R S) × (drain ch router fuel run ≡ some run')
        × (add (of_list (held_of run'.bus.pending)) (queued qs run'.world)
            ≡ add
                (of_list (held_of (run.bus.pending ++ ch.envelopes run.world)))
                (queued qs run.world))
  drain-queued zero run served idle fits f = absurd (omega arith)
  drain-queued (suc fuel) run served idle fits f =
      let start = emptied ch router contract run in
      let (left, retries, k, envs, bd) =
        handle_all_lem ch router contract run.bus.pending start
          (Served-AllQuiet run.bus.registry served) (omega arith) in
      let between = handle_all router run.bus.pending start in
      let (run', left', ends, receives, k', _, _) =
        receive_all_lem ch router contract (ch.envelopes run.world) (suc fuel) between envs f
          k.quiet bd in
      let (retried, mid) = Handles-queued (λ s s' e h. ap (queued qs) h) retries served in
      let (received, _) =
        Handles-queued (λ s s' e h. queued-Unseen qs s s' (λ q m. (apart q m).get-recv s s' e h))
          receives mid in
      let stopped = apply_cmds_stop ch fuel run (ch.recv_command_none run.world idle) in
      let left_all : run'.bus.pending ≡ left ++ left' =
        k'.buffer
        ∙ ap (λ l. last (room between.bus) (l ++ left'))
            (k.buffer
              ∙ last_short (room start.bus) left (omega (arith, fits, Handles-length retries)))
        ∙ last_short (room between.bus) (left ++ left') (
            omega (
              arith,
              fits,
              Handles-length retries,
              Handles-length receives,
              length-append left left',
              k.same_room,
            )) in
      let waits = ch.envelopes run.world in
      (
        run',
        drain_next ch router contract (suc fuel) run run run' stopped
            (unfold retry_pending in ends),
        ap (λ l. add (of_list l) (queued qs run'.world))
              (ap held_of left_all ∙ map-append (λ e. hold e.message) left left')
            ∙ add-chain (held_of left) (held_of left') (held_of run.bus.pending) (held_of waits)
                (queued qs run.world) (queued qs between.world) (queued qs run'.world) retried
                received
            ∙ ap (λ l. add (of_list l) (queued qs run.world))
                (sym (map-append (λ e. hold e.message) run.bus.pending waits)),
      )

  -- On a Python bus with room for what waits, whose consumers are those of its queues, and whose
  -- callbacks may send to it but do not reach into its queues, `drain` ends, with the first of the
  -- exceptions, and every message that waited, be it pending in the bus, in its channel or in a
  -- queue, has been given to a callback that returned, or waits in the bus or in a queue: none is
  -- lost and none is doubled.
  pub py_drain-conserves :
      (fuel : ℕ) (run : Run R S)
      → Served run.bus.registry
      → ((q : Queue Error S) → Memᴰ q qs → Outside qs q)
      → ch.commands run.world ≡ []
      → length run.bus.pending + length (ch.envelopes run.world) ≤ room run.bus
      → length (ch.envelopes run.world) < fuel
      → (run' : Run R S) × (py_drain ch router fuel qs run
          ≡ some
              (head? (exceptions qs run'.world), record run' { world = all_drained qs run'.world }))
        × (add
              (of_list (passed_all qs run'.world))
              (add (of_list (held_of run'.bus.pending)) (queued qs (all_drained qs run'.world)))
            ≡ add
                (of_list (held_of (run.bus.pending ++ ch.envelopes run.world)))
                (queued qs run.world))
  unfolding py_drain
  py_drain-conserves fuel run served outside idle fits f =
      let (run', ends, same) = drain-queued fuel run served idle fits f in
      let given = of_list (passed_all qs run'.world) in
      let pending = of_list (held_of run'.bus.pending) in
      (
        run',
        rw (py_drain, ends, drain_queues-first none qs run'.world) refl,
        swap_left given pending (queued qs (all_drained qs run'.world))
            ∙ ap (add pending) (all_drained-queued qs qs run'.world sep (λ q m. (m, outside q m)))
            ∙ same,
      )
