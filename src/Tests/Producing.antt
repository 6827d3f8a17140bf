-- ===== src/Tests/Producing.antt =====
-- components/router/envelope.rs and components/endpoint: the sending side at inputs.
use jackfield.Common.{
  inr, ℕ, ◌+◌, ◌*◌, ◌≤◌, ◌≡◌, refl, List, [], ◌∷◌, ◌++◌, Bool, true, false, ltb, length, drop,
  arith, if◌then◌else◌,
}
use jackfield.Platform.Sample.{sample}
use jackfield.Platform.SampleDouble.{sample_double}
use jackfield.Message.{Envelope}
use jackfield.Throttle.{TokenBucket, try_acquire, panicked}
use jackfield.Throttle
use jackfield.Throttle.Burst.{
  is_granted, drained, rate_zero_panics, IsCapped, acquire_all, acquire_all-IsCapped,
}
use jackfield.Throttle.Rate.{
  total, counting, number_granted, answers, after, answers-new, granted_again,
}
use jackfield.Producer.{
  Sender, register_producer, delivered, full, ProducerHandle, Runtime, try_make_send, err,
  channel_full, make_handle,
}
use jackfield.Producer.Registered.{Ended, send_bus-register_producer}
use jackfield.Producer.Sending.{Tried, try_make_send-Tried}
use jackfield.Producer.Direct.{
  EndpointType, contains, producer_flag, endpoint_producer, send_bus, attach, set_consumer,
  endpoint_consumer,
}
use jackfield.Producer.Direct
use jackfield.Tests.Desk.{Desk, empty_desk, message}

-- The inbox, of two places, as a channel; a send that waits has the oldest envelope received.
abbrev put_last : Envelope → Desk → Desk
put_last e s = record s { inbox = s.inbox ++ e ∷ [] }

abbrev has_room : Desk → Bool
has_room s = ltb (length s.inbox) 2

abbrev pub desk_sender : Sender Desk
desk_sender = record {
  capacity = 2;
  queued = λ s. s.inbox;
  is_closed = λ s. false;
  try_send = λ e s. if has_room s then (delivered, put_last e s) else (full, s);
  send = λ e s.
      if has_room s
      then (true, put_last e s)
      else (true, put_last e (record s { inbox = drop 1 s.inbox }));
  try_send_closed = λ e s h. absurd (cc h);
  try_send_full = λ e s h k. rw k;
  try_send_room = λ e s h k. (put_last e s, rw k, refl);
  send_closed = λ e s h. absurd (cc h);
  send_room = λ e s h k. (put_last e s, rw k, refl);
}

abbrev pub desk_runtime : Runtime Desk
desk_runtime = record {
  now = λ s. s.clock;
  sleep = λ t s. record s { clock = s.clock + t };
  new_bucket = λ b s. (record { get = λ s'. b; put = λ b' s'. s' }, s);
}

abbrev sensor : ProducerHandle Desk
unfolding make_handle
sensor = make_handle desk_sender "sensor"

try_make_send-Tried_example :
    Tried sensor (message []) empty_desk (try_make_send sensor (message []) empty_desk)
try_make_send-Tried_example = try_make_send-Tried sensor (message []) empty_desk

-- The channel is full after two messages.
full_test :
    let s = (try_make_send sensor (message []) empty_desk).1 in
    let s' = (try_make_send sensor (message []) s).1 in
    try_make_send sensor (message []) s' ≡ (err channel_full, s')
unfolding try_make_send sensor
full_test = refl

both : EndpointType
both = record { bits = 3 }

send_bus-register_producer_example :
    Ended desk_sender "local" (message []) (contains both producer_flag) empty_desk (
      send_bus desk_runtime 1
        (message [])
        (register_producer (endpoint_producer desk_runtime) desk_sender (Direct.new "local" both))
        empty_desk)
unfolding Direct.new both
send_bus-register_producer_example =
    send_bus-register_producer desk_runtime desk_sender 1 (message []) (Direct.new "local" both)
      empty_desk (inr (refl, refl))

-- With the rate 2 and the burst 3: four calls at once, one after a second, and one at once.
abbrev gaps : List ℕ
gaps = 0 ∷ 0 ∷ 0 ∷ 0 ∷ 1 ∷ 0 ∷ 0 ∷ []

counted_test : counting 2 3 gaps 3 ≡ true ∷ true ∷ true ∷ false ∷ true ∷ true ∷ false ∷ []
counted_test = refl

answers-new_example :
    (answers gaps 7 (Throttle.new 7 2 3) ≡ counting 2 3 gaps 3)
    × (number_granted (answers gaps 7 (Throttle.new 7 2 3)) ≤ 3 + total gaps * 2)
answers-new_example = answers-new gaps 7 2 3 (omega arith) (omega arith) (omega arith)

granted_again_example :
    let (time, b) = after gaps 7 (Throttle.new 7 2 3) in
    is_granted (try_acquire (time + 1 * 1_000_000_000) b).0 ≡ true
granted_again_example =
    granted_again gaps 1 7 2 3 (omega arith) (omega arith) (omega arith) (omega arith) (omega arith)
      (omega arith)

rate_zero_panics_example : (try_acquire 0 (drained 2 0 (Throttle.new 0 0 2))).0 ≡ panicked
rate_zero_panics_example = rate_zero_panics 0 2 (omega arith)

acquire_all-IsCapped_example :
    IsCapped 10 3 (acquire_all (7 ∷ 2_000_000_000 ∷ 5 ∷ []) (Throttle.new 0 10 3))
acquire_all-IsCapped_example =
    acquire_all-IsCapped (7 ∷ 2_000_000_000 ∷ 5 ∷ []) 0 10 3 (omega arith)
