-- ===== src/Tests/Waiting.antt =====
-- components/router/envelope.rs: a send that waits, in a world with a clock, a bucket and a channel.
use jackfield.Common.{
  ℕ, ◌+◌, ◌≡◌, refl, List, [], ◌∷◌, ◌++◌, Bool, true, false, some, ltb, length, drop, arith,
  if◌then◌else◌,
}
use jackfield.Platform.Sample.{sample}
use jackfield.Platform.SampleDouble.{sample_double}
use jackfield.Message.{Envelope}
use jackfield.Throttle.{TokenBucket}
use jackfield.Throttle.Refill.{IsMade}
use jackfield.Producer.{
  Sender, Bucket, Runtime, delivered, full, make_send, make_handle, done, sent_or_closed,
}
use jackfield.Producer.Waiting.{IsTimed, Served, make_send_ends}
use jackfield.Tests.Desk.{message}

record Tap : Type 0 where
  clock : ℕ
  bucket : TokenBucket
  queue : List Envelope

abbrev put_last : Envelope → Tap → Tap
put_last e s = record s { queue = s.queue ++ e ∷ [] }

abbrev has_room : Tap → Bool
has_room s = ltb (length s.queue) 2

abbrev tap_sender : Sender Tap
tap_sender = record {
  capacity = 2;
  queued = λ s. s.queue;
  is_closed = λ s. false;
  try_send = λ e s. if has_room s then (delivered, put_last e s) else (full, s);
  send = λ e s.
      if has_room s
      then (true, put_last e s)
      else (true, put_last e (record s { queue = drop 1 s.queue }));
  try_send_closed = λ e s h. absurd (cc h);
  try_send_full = λ e s h k. rw k;
  try_send_room = λ e s h k. (put_last e s, rw k, refl);
  send_closed = λ e s h. absurd (cc h);
  send_room = λ e s h k. (put_last e s, rw k, refl);
}

abbrev tap_bucket : Bucket Tap
tap_bucket = record { get = λ s. s.bucket; put = λ b s. record s { bucket = b } }

-- A sleep lasts two nanoseconds longer than asked.
abbrev tap_runtime : Runtime Tap
tap_runtime = record {
  now = λ s. s.clock;
  sleep = λ t s. record s { clock = s.clock + t + 2 };
  new_bucket = λ b s. (tap_bucket, record s { bucket = b });
}

tap-IsTimed : IsTimed tap_runtime tap_bucket
tap-IsTimed = record {
  get-put = λ b s. refl;
  now-put = λ b s. refl;
  get-sleep = λ t s. refl;
  now-sleep = λ t s. omega arith;
}

-- A bucket of the rate 1 and the burst 2, without a token.
abbrev tap : Tap
tap = record {
  clock = 0;
  bucket = record {
    capacity = sample_double.of_nat 2;
    tokens = sample_double.of_nat 0;
    rate = sample_double.of_nat 1;
    last_refill = 0;
  };
  queue = [];
}

tap-IsMade : IsMade 1 2 tap.bucket
tap-IsMade = record { capped = refl; runs = refl; stocked = refl }

make_send_ends_example :
    (s : Tap) × (make_send tap_runtime
        (record (make_handle tap_sender "tap") { throttle = some tap_bucket })
        2
        (message [])
        tap
      ≡ done (
          sent_or_closed (
            tap_sender.send
              (record { origin = record { as_str = "tap" }; message = message [] })
              s)))
    × Served tap_runtime tap_bucket 1 tap s
    × IsMade 1 2 s.bucket
unfolding make_handle
make_send_ends_example =
    make_send_ends tap_runtime tap_bucket tap-IsTimed 1 2 (omega arith) (omega arith) (omega arith)
      (omega arith) (make_handle tap_sender "tap") 0 (message []) tap tap-IsMade
