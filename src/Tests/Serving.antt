-- ===== src/Tests/Serving.antt =====
-- components/endpoint/network/grpc.rs: a registration at the desk, from first to last.
use jackfield.Common.{
  is_some, true, ℕ, ◌≡◌, ◌↔◌, refl, [], ◌∷◌, true, false, none, some, ◌==◌, arith,
}
use jackfield.Platform.Sample.{sample}
use jackfield.Platform.SampleDouble.{sample_double}
use jackfield.Network.{parse_dimensions}
use jackfield.Bus.Handle
use jackfield.Network.Grpc.{
  Grpc, Service, Taken, response, status, not_found, failed_precondition, consumer_task_ends,
  register, deregister, stream,
}
use jackfield.Network.Grpc.Tasks.{stale_task}
use jackfield.Network.Grpc.Streams.{stream_ends, stream_ends-register}
use jackfield.Tests.Desk.{Desk, empty_desk, leave}
use jackfield.Tests.Documents.{documents}
use jackfield.Tests.Connecting.{registration, desk_commands}

pub same_number : (u v : ℕ) → ((u == v) ≡ true) ↔ (u ≡ v)
same_number u v = (λ h. ground arith, λ h. ground arith)

-- The receiver of a channel is the unit value.
abbrev pub desk_grpc : Grpc Unit Desk
desk_grpc = record {
  new_uuid = λ s. (5, s);
  print = λ u. "5";
  same = λ u v. u == v;
  channel = λ s. ((record { is_closed = λ s'. false; send = λ item s'. s' }, tt), s);
  same_iff = same_number;
}

abbrev pub idle : Service Unit Desk
idle = record { endpoints = []; world = empty_desk }

abbrev registered : Service Unit Desk
unfolding register parse_dimensions Handle.register
registered = (register desk_grpc desk_commands "grpc" (some "10.0.0.1:99") registration idle).1

-- The bus is told to deregister the consumer.
left_test :
    (deregister desk_grpc desk_commands (some "10.0.0.1:99") (5 ∷ []) registered).1.world.orders
    ≡ leave 7 ∷ []
unfolding deregister registered
left_test = refl

abbrev pub listening : Service Unit Desk
listening = record {
  endpoints =
      (
        "10.0.0.2:7",
        record {
          uuid = 3;
          consumer_reg_id = some 4;
          consumer_rx = some tt;
          producer_handle = none;
        },
      )
      ∷ [];
  world = empty_desk;
}

-- What the stream takes for its tasks.
abbrev old_tasks : Taken Unit Desk
old_tasks = record { consumer_rx = some tt; consumer_reg_id = some 4; producer_handle = none }

abbrev freed : Service Unit Desk
unfolding stream deregister
freed =
    (deregister desk_grpc desk_commands (some "10.0.0.2:7") (3 ∷ [])
      (stream (some "10.0.0.2:7") listening).1).1

streamed_test : (stream (some "10.0.0.2:7") listening).0 ≡ response old_tasks
unfolding stream
streamed_test = refl

abbrev again : Service Unit Desk
unfolding register parse_dimensions Handle.register freed
again = (register desk_grpc desk_commands "grpc" (some "10.0.0.2:7") registration freed).1

stale_task_example :
    let v = consumer_task_ends desk_commands "10.0.0.2:7" old_tasks again in
    (v.endpoints ≡ freed.endpoints)
    × (v.world ≡ Handle.deregister desk_commands 4 again.world)
    × (deregister desk_grpc desk_commands (some "10.0.0.2:7") (5 ∷ []) v
        ≡ (status (not_found "not registered"), v))
    × (stream (some "10.0.0.2:7") v
        ≡ (status (failed_precondition "not registered; call Register first"), v))
unfolding register parse_dimensions Handle.register again freed
stale_task_example =
    stale_task desk_grpc desk_commands "grpc" "10.0.0.2:7" registration old_tasks 4 freed again
      (5 ∷ []) refl refl refl

stream_ends-register_example :
    let (answer, w) = stream (some "10.0.0.1:99") registered in
    (t : Taken Unit Desk) × (answer ≡ response t)
    × ((stream (some "10.0.0.1:99") w).0
        ≡ response (record t { consumer_rx = none; producer_handle = none }))
    × (is_some t.consumer_rx ≡ true)
    × (is_some t.producer_handle ≡ true)
    × ((stream_ends desk_commands "10.0.0.1:99" t w).endpoints ≡ [])
unfolding register parse_dimensions Handle.register registered
stream_ends-register_example =
    stream_ends-register desk_grpc desk_commands "grpc" "10.0.0.1:99" registration idle registered
      (5 ∷ []) refl refl
