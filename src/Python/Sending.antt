-- ===== src/Python/Sending.antt =====
-- integrations/python/integration.rs over components/bus/bus.rs: what is sent through a Python bus
-- is what comes out of it.
use mathlib.Core.List.{append_assoc, append-nil}
use mathlib.Mathlib.Data.Multiset.Defs.{of_list}
use mathlib.Mathlib.Data.Multiset.AddSub.{add}
use jackfield.Common.{
  ℕ, ◌+◌, ◌<◌, ◌≤◌, ◌≡◌, refl, sym, ap, ◌∙◌, subst, List, [], ◌∷◌, ◌++◌, Memᴰ, String, some, length,
  arith,
}
use jackfield.Platform.{Platform}
use jackfield.Platform.Double.{Double}
use jackfield.Message.{Message, Envelope}
use jackfield.Router.{Router}
use jackfield.Router.Contract.{RouterContract}
use jackfield.Bus.{Channels, Run}
use jackfield.Bus.Pending.{room}
use jackfield.Producer.{
  Sender, ProducerHandle, Sent, ok, err, TrySent, delivered, full, closed, report, try_make_send,
  make_handle,
}
use jackfield.Producer.Sending.{Tried, is_closed, is_full, is_queued, try_make_send-Tried}
use jackfield.Python.{Queue, py_send, py_drain}
use jackfield.Python.Delivery.{AllMade, py_send_lem, exceptions, head?, all_drained}
use jackfield.Python.Passing.{held_of, IsApart}
use jackfield.Python.Stock.{queued, Separate, queued-Unseen}
use jackfield.Python.Callbacks.{Outside, passed_all}
use jackfield.Python.Conservation.{Served, py_drain-conserves}

module _ ⦃p : Platform⦄ where
  -- The envelope of a message that was sent, if it was.
  abbrev pub sent_of : String → Message → Sent → List Envelope
  sent_of name msg ok = record { origin = record { as_str = name }; message = msg } ∷ []
  sent_of name msg (err e) = []

module _ ⦃p : Platform⦄ ⦃d : Double⦄ {S : Type 0} where
  -- Calls of `send`, one after the other: the envelopes of those that return, in order, and the
  -- world afterwards.
  abbrev pub py_send_each :
      Sender S → List (String × ProducerHandle S) → List (String × Message) → S → List Envelope × S
  py_send_each tx handles [] s = ([], s)
  py_send_each tx handles ((name, msg) ∷ rest) s =
      let ((result, s'), handles') = py_send tx handles name msg s in
      let (later, s'') = py_send_each tx handles' rest s' in (sent_of name msg result ++ later, s'')

  -- The sender is that of the channel of the bus, and touches nothing else of it.
  pub record IsSender {Error : Type 0} (ch : Channels S) (qs : List (Queue Error S)) (tx : Sender S)
      : Type 0 where
    pub same : (s : S) → tx.queued s ≡ ch.envelopes s
    pub commands : (e : Envelope) (s : S) → ch.commands (tx.try_send e s).1 ≡ ch.commands s
    pub queues :
        (e : Envelope) (s : S) (q : Queue Error S)
        → Memᴰ q qs
        → q.pending.get (tx.try_send e s).1 ≡ q.pending.get s

  report-world : (x : TrySent × S) → (report x).1 ≡ x.1
  report-world (delivered, s) = refl
  report-world (full, s) = refl
  report-world (closed, s) = refl

  Tried-queued :
      (h : ProducerHandle S) (msg : Message) (s : S) (x : Sent × S)
      → Tried h msg s x
      → h.sender.queued x.1 ≡ h.sender.queued s ++ sent_of h.origin.as_str msg x.0
  Tried-queued h msg s x (is_closed shut) = sym (append-nil (h.sender.queued s))
  Tried-queued h msg s x (is_full usable no_room) = sym (append-nil (h.sender.queued s))
  Tried-queued h msg s x (is_queued usable has_room there) = there

  -- A send changes the channel, by its envelope, and no more.
  pub record Sends {Error : Type 0} (ch : Channels S) (qs : List (Queue Error S)) (s s' : S)
      (sent : List Envelope) : Type 0 where
    pub envelopes : ch.envelopes s' ≡ ch.envelopes s ++ sent
    pub commands : ch.commands s' ≡ ch.commands s
    pub queues : (q : Queue Error S) → Memᴰ q qs → q.pending.get s' ≡ q.pending.get s

  try_make_send-Sends :
      {Error : Type 0} (ch : Channels S) (qs : List (Queue Error S)) (tx : Sender S) (name : String)
      (msg : Message) (s : S)
      → IsSender ch qs tx
      → let (result, s') = try_make_send (make_handle tx name) msg s in
        Sends ch qs s s' (sent_of name msg result)
  unfolding make_handle try_make_send
  try_make_send-Sends ch qs tx name msg s is =
      let h = make_handle tx name in
      let world = report-world (tx.try_send (record { origin = h.origin; message = msg }) s) in
      let (result, s') = try_make_send h msg s in
      record {
        envelopes =
            sym (is.same s')
            ∙ Tried-queued h msg s (result, s') (try_make_send-Tried h msg s)
            ∙ ap (λ l. l ++ sent_of name msg result) (is.same s);
        commands = ap ch.commands world ∙ is.commands _ s;
        queues = λ q m. ap q.pending.get world ∙ is.queues _ s q m;
      }

  py_send_each-Sends :
      {Error : Type 0} (ch : Channels S) (qs : List (Queue Error S)) (tx : Sender S)
      (handles : List (String × ProducerHandle S)) (msgs : List (String × Message)) (s : S)
      → IsSender ch qs tx
      → AllMade tx handles
      → let (sent, s') = py_send_each tx handles msgs s in Sends ch qs s s' sent
  py_send_each-Sends ch qs tx handles [] s is made = record {
    envelopes = sym (append-nil (ch.envelopes s));
    commands = refl;
    queues = λ q m. refl;
  }
  py_send_each-Sends ch qs tx handles ((name, msg) ∷ rest) s is made =
      let ((result, s'), handles') = py_send tx handles name msg s in
      let (same, made') = py_send_lem tx handles name msg s made in
      let first : Sends ch qs s s' (sent_of name msg result) =
        subst (λ (x : Sent × S). Sends ch qs s x.1 (sent_of name msg x.0)) (sym same)
          (try_make_send-Sends ch qs tx name msg s is) in
      let later = py_send_each-Sends ch qs tx handles' rest s' is made' in
      let sent = (py_send_each tx handles' rest s').0 in
      record {
        envelopes =
            later.envelopes
            ∙ ap (λ l. l ++ sent) first.envelopes
            ∙ append_assoc (ch.envelopes s) (sent_of name msg result) sent;
        commands = later.commands ∙ first.commands;
        queues = λ q m. later.queues q m ∙ first.queues q m;
      }

module _ ⦃p : Platform⦄ ⦃d : Double⦄ {Error R S : Type 0} (ch : Channels S) (router : Router R S)
    (contract : RouterContract router) (qs : List (Queue Error S)) (sep : Separate qs)
    (apart : (q : Queue Error S) → Memᴰ q qs → IsApart ch q.pending) (tx : Sender S)
    (is : IsSender ch qs tx) where
  -- Messages sent in turn through a Python bus with room for them and with handles of its own, whose
  -- consumers are those of its queues, and whose callbacks may send to it but do not reach into its
  -- queues, and then a `drain`, with no command waiting and with enough fuel: it ends, with the first
  -- of the exceptions, and what the callbacks got and returned from, with what waits in the bus and
  -- in its queues, is as a multiset what waited before and the messages for which `send` returned.
  -- None of these is lost or doubled, and none for which it raised is delivered.
  pub py_send-py_drain :
      (fuel : ℕ) (handles : List (String × ProducerHandle S)) (msgs : List (String × Message))
      (run : Run R S)
      → AllMade tx handles
      → Served ch router contract qs sep apart run.bus.registry
      → ((q : Queue Error S) → Memᴰ q qs → Outside qs q)
      → ch.commands run.world ≡ []
      → length run.bus.pending
          + length (ch.envelopes run.world ++ (py_send_each tx handles msgs run.world).0)
        ≤ room run.bus
      → length (ch.envelopes run.world ++ (py_send_each tx handles msgs run.world).0) < fuel
      → let (sent, s) = py_send_each tx handles msgs run.world in
        (run' : Run R S) × (py_drain ch router fuel qs (record run { world = s })
          ≡ some
              (head? (exceptions qs run'.world), record run' { world = all_drained qs run'.world }))
        × (add
              (of_list (passed_all qs run'.world))
              (add (of_list (held_of run'.bus.pending)) (queued qs (all_drained qs run'.world)))
            ≡ add
                (of_list (held_of (run.bus.pending ++ (ch.envelopes run.world ++ sent))))
                (queued qs run.world))
  py_send-py_drain fuel handles msgs run made served outside idle fits enough =
      let (sent, s) = py_send_each tx handles msgs run.world in
      let sends = py_send_each-Sends ch qs tx handles msgs run.world is made in
      let more = ap length sends.envelopes in
      let (run', ends, same) =
        py_drain-conserves ch router contract qs sep apart fuel (record run { world = s }) served
          outside (sends.commands ∙ idle) (omega (arith, more, fits))
          (omega (arith, more, enough)) in
      (
        run',
        ends,
        same
            ∙ ap (λ l. add (of_list (held_of (run.bus.pending ++ l))) (queued qs s)) sends.envelopes
            ∙ ap (add (of_list (held_of (run.bus.pending ++ (ch.envelopes run.world ++ sent)))))
                (queued-Unseen qs run.world s sends.queues),
      )
