-- ===== src/Tests/Passing.antt =====
-- integrations/python/integration.rs: a Python bus with one callback.
use jackfield.Common.{
  ℕ, ◌+◌, ◌≡◌, refl, List, [], ◌∷◌, Option, none, some, String, ◌==◌, arith, if◌then◌else◌,
}
use jackfield.Platform.Sample.{sample}
use jackfield.Message.{Envelope}
use jackfield.Bus.{BusCmd, Channels, Run, default_bus}
use jackfield.Router.{AffinityRouter, affinity}
use jackfield.Python.{Held, Queue, py_drain, py_register_consumer}
use jackfield.Python.Delivery.{Worked}
use jackfield.Python.Passing.{held_of, IsApart, py_drain-Worked}
use jackfield.Platform.SampleDouble.{sample_double}
use jackfield.Tests.Desk.{from, is_nil}

pub record Office : Type 0 where
  pub inbox : List Envelope
  pub waiting : List Held
  pub aside : List Held
  pub calls : ℕ

abbrev pub next_of : Office → List Envelope → Option (Envelope × Office)
next_of s [] = none
next_of s (e ∷ es) = some (e, record s { inbox = es })

pub no_next : (s : Office) (w : List Envelope) → w ≡ [] → next_of s w ≡ none
no_next s [] h = refl
no_next s (x ∷ xs) h = cc

pub a_next :
    (s : Office) (w : List Envelope) (e : Envelope) (es : List Envelope)
    → w ≡ e ∷ es
    → (s' : Office) × (next_of s w ≡ some (e, s'))
      × (s'.inbox ≡ es)
      × (Path (List (BusCmd Office)) [] [])
a_next s [] e es h = absurd (cc)
a_next s (x ∷ xs) e es h = (record s { inbox = xs }, ground arith, ground arith, refl)

pub same_waiting :
    (s s' : Office) (w : List Envelope) (e : Envelope)
    → next_of s w ≡ some (e, s')
    → s'.waiting ≡ s.waiting
same_waiting s s' [] e h = absurd (cc)
same_waiting s s' (x ∷ xs) e h = ground arith

abbrev pub office_channels : Channels Office
office_channels = record {
  envelopes = λ s. s.inbox;
  commands = λ s. [];
  recv_envelope = λ s. next_of s s.inbox;
  recv_command = λ s. none;
  envelopes_empty = λ s. is_nil s.inbox;
  recv_envelope_none = λ s h. no_next s s.inbox h;
  recv_envelope_some = λ s e es h. a_next s s.inbox e es h;
  recv_command_none = λ s h. refl;
  recv_command_some = λ s c cs h. absurd (cc);
}

-- The callback raises on its second call.
abbrev pub office_queue : Queue String Office
office_queue = record {
  callback =
      λ m s. (if s.calls == 1 then some "raised" else none, record s { calls = s.calls + 1 });
  pending = record { get = λ s. s.waiting; put = λ l s. record s { waiting = l } };
}

pub office-IsApart : IsApart office_channels office_queue.pending
office-IsApart = record {
  get-put = λ l s. refl;
  envelopes-put = λ l s. refl;
  commands-put = λ l s. refl;
  get-recv = λ s s' e h. same_waiting s s' s.inbox e h;
}

abbrev office_run : Run AffinityRouter Office
unfolding default_bus py_register_consumer
office_run = record {
  bus = (py_register_consumer default_bus [] office_queue none none none).0;
  world = record { inbox = from "a" [] ∷ from "b" [] ∷ []; waiting = []; aside = []; calls = 0 };
}

py_drain-Worked_example :
    (run : Run AffinityRouter Office) × (result : Option String × Office) × (py_drain
        office_channels
        (affinity (λ s. 0))
        3
        (office_queue ∷ [])
        office_run
      ≡ some (result.0, record run { world = result.1 }))
    × Worked office_queue
        (held_of (from "a" [] ∷ from "b" [] ∷ []))
        (office_queue.pending.put [] run.world)
        result
unfolding office_run
py_drain-Worked_example =
    py_drain-Worked (λ s. 0) office_channels office_queue office-IsApart 3 0 [] office_run refl refl
      refl (omega arith)
