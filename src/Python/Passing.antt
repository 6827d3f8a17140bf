-- ===== src/Python/Passing.antt =====
-- integrations/python/integration.rs over components/bus/bus.rs: what waits for the bus reaches the
-- one callback.
use mathlib.Core.List.{append_assoc, append-nil, map-append}
use mathlib.Core.List.Memᴰ
use jackfield.Common.{
  true, Bool, any, ℕ, zero, suc, ◌<◌, ◌≡◌, refl, sym, ap, ◌∙◌, subst, inl, inr, List, [], ◌∷◌, ◌++◌,
  map, Memᴰ, false, Option, none, some, length, arith,
}
use jackfield.Platform.{Platform}
use jackfield.Message.{Envelope}
use jackfield.Consumer.{Consumer}
use jackfield.Registry.{hard_rejected, DimEntry, RegistrationEntry, Registry}
use jackfield.Router.{AffinityRouter, affinity}
use jackfield.Router.Contract.{consumers, affinity-RouterContract}
use jackfield.Bus.{Channels, Run, handle, handle_all, retry_pending, drain}
use jackfield.Bus.Handling.{
  Handles, done, taken, kept, AllQuiet, IsQuiet, handle-consumers, handle_all_lem, receive_all_lem,
}
use jackfield.Bus.Drain.{apply_cmds_stop, drain_next, emptied}
use jackfield.Bus.Delivery.{Steady, SomeServes, Handles-SomeServes, Without}
use jackfield.Python.{Held, hold, Pending, Queue, py_consumer, drain_queue, drain_queues, py_drain}
use jackfield.Python.Delivery.{Worked, drain_queue-Worked}

module _ ⦃p : Platform⦄ where
  -- Some dimension is required.
  abbrev pub requires : List DimEntry → Bool
  requires = any λ de. de.reject_on_miss

  not-hard_rejected :
      (env : Envelope) (dims : List DimEntry)
      → requires dims ≡ false
      → hard_rejected env dims ≡ false
  unfolding hard_rejected
  not-hard_rejected env [] h = refl
  not-hard_rejected env (de ∷ dims) h = ground (arith, not-hard_rejected env dims)

  Steady-requires : (dims : List DimEntry) → requires dims ≡ false → Steady dims
  Steady-requires [] h = tt
  Steady-requires (de ∷ dims) h =
      (λ hard env st st'. absurd (ground (arith, hard, h)), Steady-requires dims (ground arith))

  nothing_left : (es : List Envelope) → Without (λ e. true) es → es ≡ []
  nothing_left [] h = refl
  nothing_left (e ∷ es) h = absurd (cc (h e (Memᴰ.head refl)))

  abbrev pub held_of : List Envelope → List Held
  held_of = map λ e. hold e.message

-- A queue is a place of its own in the world: it holds what was put there, and is apart from the
-- channels of the bus.
pub record IsApart ⦃p : Platform⦄ {S : Type 0} (ch : Channels S) (q : Pending S) : Type 0 where
  pub get-put : (l : List Held) (s : S) → q.get (q.put l s) ≡ l
  pub envelopes-put : (l : List Held) (s : S) → ch.envelopes (q.put l s) ≡ ch.envelopes s
  pub commands-put : (l : List Held) (s : S) → ch.commands (q.put l s) ≡ ch.commands s
  pub get-recv : (s s' : S) (e : Envelope) → ch.recv_envelope s ≡ some (e, s') → q.get s' ≡ q.get s

module _ ⦃p : Platform⦄ {S : Type 0} (now : S → ℕ) (ch : Channels S) (q : Pending S)
    (apart : IsApart ch q) where
  -- No other consumer is registered.
  abbrev Only : Registry S → Type 0
  Only r = (c : Consumer S) → Memᴰ c (consumers r.entries) → c ≡ py_consumer q

  handle-Only :
      (run : Run AffinityRouter S) (e : Envelope) (s : S)
      → Only run.bus.registry
      → Only (handle (affinity now) run.bus e s).bus.registry
  handle-Only run e s only c m =
      only c (handle-consumers ch (affinity now) (affinity-RouterContract now) run.bus e s c m)

  -- A message that is taken lies last in the queue.
  handle-get :
      (run : Run AffinityRouter S) (e : Envelope) (s : S)
      → Only run.bus.registry
      → ((affinity now).route run.bus.router run.bus.registry e s).unhandled ≡ none
      → q.get (handle (affinity now) run.bus e s).world ≡ q.get s ++ hold e.message ∷ []
  unfolding handle py_consumer
  handle-get run e s only gone =
      let contract = affinity-RouterContract now in
      elim (contract.acts run.bus.router run.bus.registry e s) [
        | inl (back, _) ↦ absurd (cc)
        | inr (c, m, _, consumed) ↦
            ap q.get (consumed ∙ ap (λ (x : Consumer S). x.consume e.message s) (only c m))
            ∙ apart.get-put _ _
      ]

  Handles-get :
      {Get : S → Envelope → S → Type 0} {run run' : Run AffinityRouter S} {es left : List Envelope}
      → ((s s' : S) (e : Envelope) → Get s e s' → q.get s' ≡ q.get s)
      → Handles (affinity now) Get run es left run'
      → left ≡ []
      → Only run.bus.registry
      → (q.get run'.world ≡ q.get run.world ++ held_of es) × Only run'.bus.registry
  Handles-get {run = run} keeps done h only = (sym (append-nil (q.get run.world)), only)
  Handles-get {run = run} keeps (taken {e = e} {es = es} s got gone rest) h only =
      let (ih, only') = Handles-get keeps rest h (handle-Only run e s only) in
      (
        ih
            ∙ ap (λ l. l ++ held_of es)
                (handle-get run e s only gone
                  ∙ ap (λ l. l ++ hold e.message ∷ []) (keeps run.world s e got))
            ∙ append_assoc (q.get run.world) (hold e.message ∷ []) (held_of es),
        only',
      )
  Handles-get keeps (kept s got back rest) h only = absurd (cc)

module _ ⦃p : Platform⦄ {Error S : Type 0} (now : S → ℕ) (ch : Channels S) (q : Queue Error S)
    (apart : IsApart ch q.pending) where
  py_consumer-IsQuiet : IsQuiet ch (py_consumer q.pending)
  unfolding py_consumer
  py_consumer-IsQuiet = record {
    envelopes = λ m s. apart.envelopes-put _ s;
    commands = λ m s. apart.commands-put _ s;
  }

  abbrev Sole : List DimEntry → ℕ → RegistrationEntry S
  Sole dims id = record { id = id; consumer = py_consumer q.pending; dims = dims }

  -- The bus alone: all that waits ends up in the queue.
  drain-get :
      (fuel id : ℕ) (dims : List DimEntry) (run : Run AffinityRouter S)
      → run.bus.registry.entries ≡ Sole dims id ∷ []
      → requires dims ≡ false
      → ch.commands run.world ≡ []
      → length (ch.envelopes run.world) < fuel
      → (run' : Run AffinityRouter S) × (drain ch (affinity now) fuel run ≡ some run')
        × (q.pending.get run'.world
            ≡ q.pending.get run.world ++ held_of (run.bus.pending ++ ch.envelopes run.world))
  drain-get zero id dims run sole soft idle f = absurd (omega arith)
  drain-get (suc fuel) id dims run sole soft idle f =
      let router = affinity now in
      let contract = affinity-RouterContract now in
      let only : (c : Consumer S)
          → Memᴰ c (consumers run.bus.registry.entries)
          → c ≡ py_consumer q.pending =
        λ c m. Memᴰ.eq_of_singleton (subst (λ es. Memᴰ c (consumers es)) sole m) in
      let quiet : AllQuiet ch run.bus.registry =
        λ c m. subst (IsQuiet ch) (sym (only c m)) py_consumer-IsQuiet in
      let all : Envelope → Bool = λ e. true in
      let serves : SomeServes all run.bus.registry.entries = subst (SomeServes all) (sym sole) (
        inl (
          Steady-requires dims soft,
          (λ env h. not-hard_rejected env dims soft),
          unfold py_consumer in λ env s h. refl,
        )) in
      let start = emptied ch router contract run in
      let (left, retries, k, envs, bd) =
        handle_all_lem ch router contract run.bus.pending start quiet (omega arith) in
      let between = handle_all router run.bus.pending start in
      let (run', left', ends, receives, _, _, _) =
        receive_all_lem ch router contract (ch.envelopes run.world) (suc fuel) between envs f
          k.quiet bd in
      let (back, mid) = Handles-SomeServes now all ch retries serves in
      let (not_left, _) = Handles-SomeServes now all ch receives mid in
      let none_back = nothing_left left back in
      let none_left = nothing_left left' not_left in
      let (got, only') =
        Handles-get now ch q.pending apart (λ s s' e h. ap q.pending.get h) retries none_back
          only in
      let (got', _) = Handles-get now ch q.pending apart apart.get-recv receives none_left only' in
      let stopped = apply_cmds_stop ch fuel run (ch.recv_command_none run.world idle) in
      (
        run',
        drain_next ch router contract (suc fuel) run run run' stopped
            (unfold retry_pending in ends),
        got'
            ∙ ap (λ l. l ++ held_of (ch.envelopes run.world)) got
            ∙ append_assoc (q.pending.get run.world) (held_of run.bus.pending)
                (held_of (ch.envelopes run.world))
            ∙ ap (λ l. q.pending.get run.world ++ l)
                (sym (map-append (λ e. hold e.message) run.bus.pending (ch.envelopes run.world))),
      )

  -- On a Python bus whose one consumer has no required filter, `drain` ends and gives the callback
  -- the messages that wait: those put back earlier, then those pending in the bus, then those sent
  -- since, each with its uuid, labels and bytes, in order. Either all are delivered, or the
  -- callback raises at one: then this one and all behind it wait for the next `drain`.
  pub py_drain-Worked :
      (fuel id : ℕ) (dims : List DimEntry) (run : Run AffinityRouter S)
      → run.bus.registry.entries ≡ Sole dims id ∷ []
      → requires dims ≡ false
      → ch.commands run.world ≡ []
      → length (ch.envelopes run.world) < fuel
      → (run' : Run AffinityRouter S) × (result : Option Error × S) × (py_drain ch
            (affinity now)
            fuel
            (q ∷ [])
            run
          ≡ some (result.0, record run' { world = result.1 }))
        × Worked q
            (q.pending.get run.world ++ held_of (run.bus.pending ++ ch.envelopes run.world))
            (q.pending.put [] run'.world)
            result
  unfolding py_drain drain_queues
  py_drain-Worked fuel id dims run sole soft idle f =
      let (run', ends, got) = drain-get fuel id dims run sole soft idle f in
      let result = drain_queue q run'.world in
      (
        run',
        result,
        rw (py_drain, ends) refl,
        subst (λ ms. Worked q ms (q.pending.put [] run'.world) result) got
            (drain_queue-Worked q run'.world),
      )
