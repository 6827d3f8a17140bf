-- ===== src/Tests/Sending.antt =====
-- integrations/python/integration.rs: a Python bus with two callbacks.
use jackfield.Common.{
  true, false, ltb, length, ◌≡◌, refl, sym, subst, ◌++◌, Memᴰ, List, [], ◌∷◌, none, some, String,
  arith, if◌then◌else◌,
}
use jackfield.Platform.Sample.{sample}
use jackfield.Message.{Message, Envelope}
use jackfield.Bus.{Run, default_bus}
use jackfield.Consumer.{Consumer}
use jackfield.Router.{AffinityRouter, affinity}
use jackfield.Python.{hold, py_consumer, py_send, Queue, py_drain, py_register_consumer}
use jackfield.Python.Passing.{held_of, IsApart}
use jackfield.Python.Delivery.{exceptions, head?, all_drained}
use jackfield.Python.Stock.{queued, Separate, IsOther}
use jackfield.Python.Callbacks.{Outside, passed_all}
use jackfield.Python.Conservation.{Served}
use jackfield.Python.Sending.{IsSender, py_send_each, py_send-py_drain}
use jackfield.Producer.{Sender, TrySent, delivered, full}
use jackfield.Platform.SampleDouble.{sample_double}
use jackfield.Router.Contract.{affinity-RouterContract}
use mathlib.Mathlib.Data.Multiset.Defs.{of_list}
use mathlib.Mathlib.Data.Multiset.AddSub.{add}
use jackfield.Tests.Desk.{from, message}
use jackfield.Tests.Passing.{Office, next_of, office_channels, office_queue, office-IsApart}

same_aside :
    (s s' : Office) (w : List Envelope) (e : Envelope)
    → next_of s w ≡ some (e, s')
    → s'.aside ≡ s.aside
same_aside s s' [] e h = absurd (cc)
same_aside s s' (x ∷ xs) e h = ground arith

-- The callback of another queue sends each message that it gets to the bus once more.
abbrev back_queue : Queue String Office
back_queue = record {
  callback = λ m s. (
    none,
    record s {
      inbox = s.inbox ++ record { origin = record { as_str = "back" }; message = m } ∷ [];
    },
  );
  pending = record { get = λ s. s.aside; put = λ l s. record s { aside = l } };
}

-- A bus with both queues, in one of which a message waits.
abbrev queues : List (Queue String Office)
queues = office_queue ∷ back_queue ∷ []

abbrev busy_run : Run AffinityRouter Office
unfolding default_bus py_register_consumer
busy_run = record {
  bus =
      let first = (py_register_consumer default_bus [] office_queue none none none).0 in
      (py_register_consumer first (office_queue ∷ []) back_queue none none none).0;
  world = record {
    inbox = from "a" [] ∷ from "b" [] ∷ [];
    waiting = [];
    aside = hold (message ("old" ∷ [])) ∷ [];
    calls = 0;
  };
}

queues-Separate : Separate queues
queues-Separate = (λ l s. refl, λ q m. apart q m, (λ l s. refl, (λ q m. elim m [ ]), tt))
  where
    apart : (q : Queue String Office) → Memᴰ q (back_queue ∷ []) → IsOther office_queue q
    apart q (Memᴰ.head e) =
        subst (IsOther office_queue) (sym e) (record { left = λ l s. refl; right = λ l s. refl })
    apart q (Memᴰ.tail m) = elim m [ ]

queues-IsApart : (q : Queue String Office) → Memᴰ q queues → IsApart office_channels q.pending
queues-IsApart q (Memᴰ.head e) =
    subst (λ x. IsApart office_channels x.pending) (sym e) office-IsApart
queues-IsApart q (Memᴰ.tail (Memᴰ.head e)) =
    subst (λ x. IsApart office_channels x.pending) (sym e)
      (record {
        get-put = λ l s. refl;
        envelopes-put = λ l s. refl;
        commands-put = λ l s. refl;
        get-recv = λ s s' e h. same_aside s s' s.inbox e h;
      })
queues-IsApart q (Memᴰ.tail (Memᴰ.tail m)) = elim m [ ]

queues_kept :
    (s s' : Office)
    → s'.waiting ≡ s.waiting
    → s'.aside ≡ s.aside
    → (q : Queue String Office) → Memᴰ q queues
    → q.pending.get s' ≡ q.pending.get s
queues_kept s s' h k q (Memᴰ.head e) = subst (λ x. x.pending.get s' ≡ x.pending.get s) (sym e) h
queues_kept s s' h k q (Memᴰ.tail (Memᴰ.head e)) =
    subst (λ x. x.pending.get s' ≡ x.pending.get s) (sym e) k
queues_kept s s' h k q (Memᴰ.tail (Memᴰ.tail m)) = elim m [ ]

queues-Outside : (q : Queue String Office) → Memᴰ q queues → Outside queues q
queues-Outside q (Memᴰ.head e) =
    subst (Outside queues) (sym e) (λ m s q' n. queues_kept s _ refl refl q' n)
queues-Outside q (Memᴰ.tail (Memᴰ.head e)) =
    subst (Outside queues) (sym e) (λ m s q' n. queues_kept s _ refl refl q' n)
queues-Outside q (Memᴰ.tail (Memᴰ.tail m)) = elim m [ ]

of_queues :
    (c : Consumer Office)
    → Memᴰ c (py_consumer office_queue.pending ∷ py_consumer back_queue.pending ∷ [])
    → (q : Queue String Office) × Memᴰ q queues × (c ≡ py_consumer q.pending)
of_queues c (Memᴰ.head e) = (office_queue, Memᴰ.head refl, e)
of_queues c (Memᴰ.tail (Memᴰ.head e)) = (back_queue, Memᴰ.tail (Memᴰ.head refl), e)
of_queues c (Memᴰ.tail (Memᴰ.tail m)) = elim m [ ]

busy_run-Served :
    Served office_channels
      (affinity (λ s. 0))
      (affinity-RouterContract (λ s. 0))
      queues
      queues-Separate
      queues-IsApart
      busy_run.bus.registry
unfolding busy_run
busy_run-Served c m = of_queues c m

abbrev office_send : Envelope → Office → TrySent × Office
office_send e s =
    if ltb (length s.inbox) 3
    then (delivered, record s { inbox = s.inbox ++ e ∷ [] })
    else (full, s)

office_send_kept :
    (e : Envelope) (s : Office)
    → ((office_send e s).1.waiting ≡ s.waiting) × ((office_send e s).1.aside ≡ s.aside)
office_send_kept e s = ground arith

-- The channel of the bus has three places.
abbrev office_sender : Sender Office
office_sender = record {
  capacity = 3;
  queued = λ s. s.inbox;
  is_closed = λ s. false;
  try_send = λ e s. office_send e s;
  send = λ e s. (true, record s { inbox = s.inbox ++ e ∷ [] });
  try_send_closed = λ e s h. absurd (cc h);
  try_send_full = λ e s h k. rw k;
  try_send_room = λ e s h k. (record s { inbox = s.inbox ++ e ∷ [] }, rw k, refl);
  send_closed = λ e s h. absurd (cc h);
  send_room = λ e s h k. (record s { inbox = s.inbox ++ e ∷ [] }, refl, refl);
}

office_sender-IsSender : IsSender office_channels queues office_sender
office_sender-IsSender = record {
  same = λ s. refl;
  commands = λ e s. refl;
  queues = λ e s q m.
      let (waiting, aside) = office_send_kept e s in
      queues_kept s (office_send e s).1 waiting aside q m;
}

-- Two messages wait in the channel, and one in a queue; of two more the channel takes one.
abbrev letters : List (String × Message)
letters = ("c", message ("new" ∷ [])) ∷ ("d", message []) ∷ []

sent_test : (py_send_each office_sender [] letters busy_run.world).0 ≡ from "c" ("new" ∷ []) ∷ []
unfolding busy_run py_send
sent_test = refl

py_send-py_drain_example :
    let s = (py_send_each office_sender [] letters busy_run.world).1 in
    (run : Run AffinityRouter Office) × (py_drain office_channels
        (affinity (λ s. 0))
        4
        queues
        (record busy_run { world = s })
      ≡ some (
        head? (exceptions queues run.world),
        record run { world = all_drained queues run.world },
      ))
    × (add
          (of_list (passed_all queues run.world))
          (add (of_list (held_of run.bus.pending)) (queued queues (all_drained queues run.world)))
        ≡ add
            (of_list (held_of (from "a" [] ∷ from "b" [] ∷ from "c" ("new" ∷ []) ∷ [])))
            (queued queues busy_run.world))
unfolding busy_run py_send
py_send-py_drain_example =
    py_send-py_drain office_channels (affinity (λ s. 0)) (affinity-RouterContract (λ s. 0)) queues
      queues-Separate queues-IsApart office_sender office_sender-IsSender 4 [] letters busy_run tt
      busy_run-Served queues-Outside refl (omega arith) (omega arith)
