-- ===== src/Tests/Interleaving.antt =====
-- components/endpoint/network/grpc.rs: two addresses at the desk, with their calls interleaved.
use jackfield.Common.{true, arith, ◌≡◌, ◌≤◌, refl, List, [], ◌∷◌, none, some}
use jackfield.Platform.Sample.{sample}
use jackfield.Platform.SampleDouble.{sample_double}
use jackfield.Network.{parse_dimensions}
use jackfield.Bus.Handle
use jackfield.Bus.Handle.{make_producer_handle}
use jackfield.Network.Socket.{RegisterData}
use jackfield.Network.Grpc.{
  Service, response, status, not_found, lookup, register, deregister, stream,
}
use jackfield.Network.Grpc.Calls.{
  Job, Server, opened, streaming, forwarding, reading, registering, deregistering, prepare,
  prepared, inserted, taken_out, told, streamed, Runs, here, call, move, take_out, tell, spawned,
}
use jackfield.Network.Grpc.Isolation.{deregister_later}
use jackfield.Network.Grpc.Once.{told-given, told_by_calls, told_by_tasks, given_in}
use jackfield.Network.Grpc.Orphans.{register_again}
use jackfield.Tests.Desk.{Desk, empty_desk}
use jackfield.Tests.Documents.{documents}
use jackfield.Tests.Connecting.{registration, desk_commands}
use jackfield.Tests.Serving.{desk_grpc, idle, listening}

-- A registration while another address is registered.
abbrev joined : Service Unit Desk
unfolding register parse_dimensions Handle.register
joined = (register desk_grpc desk_commands "grpc" (some "10.0.0.1:99") registration listening).1

-- The stream of the other address begins, and its task is spawned.
abbrev streaming_on : Server Unit Desk
unfolding joined stream spawned
streaming_on = record {
  service = (stream (some "10.0.0.2:7") joined).1;
  jobs = forwarding "10.0.0.2:7" (some 4) ∷ [];
}

abbrev begins :
    Runs desk_grpc desk_commands "grpc" (record { service = joined; jobs = [] }) streaming_on
unfolding streaming_on joined stream spawned
begins = move [] [] (call (streaming "10.0.0.2:7") refl here) (streamed refl)

deregister_later_example :
    let (answer, v') =
      deregister desk_grpc desk_commands (some "10.0.0.1:99") (5 ∷ []) streaming_on.service in
    (answer ≡ response tt)
    × (lookup "10.0.0.1:99" v'.endpoints ≡ none)
    × (lookup "10.0.0.2:7" v'.endpoints ≡ lookup "10.0.0.2:7" streaming_on.service.endpoints)
    × (deregister desk_grpc desk_commands (some "10.0.0.1:99") (6 ∷ []) streaming_on.service
        ≡ (status (not_found "uuid mismatch"), streaming_on.service))
unfolding begins streaming_on joined
deregister_later_example =
    deregister_later desk_grpc desk_commands "grpc" "10.0.0.1:99" registration listening joined
      (5 ∷ []) [] streaming_on "10.0.0.2:7" 6 refl begins tt (refl, tt) refl (λ e. cc)

-- The calls of one address alone, from the empty table on, with the id 7 from the bus.
abbrev registered_alone : Service Unit Desk
unfolding register parse_dimensions Handle.register
registered_alone =
    (register desk_grpc desk_commands "grpc" (some "10.0.0.1:99") registration idle).1

abbrev gone : Server Unit Desk
unfolding registered_alone tell Handle.deregister
gone = record {
  service = record { endpoints = []; world = tell desk_commands (some 7) registered_alone.world };
  jobs = [];
}

abbrev one_life : Runs desk_grpc desk_commands "grpc" (opened empty_desk) gone
unfolding gone registered_alone prepare take_out tell Handle.register parse_dimensions
one_life =
    move [] []
      (move [] []
        (call (deregistering "10.0.0.1:99" (5 ∷ [])) refl (
          move [] []
            (move [] [] (call (registering "10.0.0.1:99" registration) refl here) (prepared refl))
            inserted))
        (taken_out refl))
      told

told-given_example :
    (told_by_calls 7 one_life ≤ given_in 7 one_life)
    × (told_by_tasks 7 one_life ≤ given_in 7 one_life)
told-given_example = told-given 7 empty_desk one_life

-- The bus gave the id, and was told it.
told_test : (told_by_calls 7 one_life ≡ 1) × (given_in 7 one_life ≡ 1)
unfolding one_life
told_test = (refl, refl)

-- Another task under way.
abbrev beside : List (Job Unit Desk)
beside = reading "10.0.0.9:1" true ∷ []

-- The address registers once more, only to send, and deregisters.
abbrev sender_only : RegisterData
sender_only = record registration { kinds = 0 ∷ [] }

abbrev alone : Server Unit Desk
unfolding registered_alone
alone = record { service = registered_alone; jobs = [] }

abbrev first_life : Runs desk_grpc desk_commands "grpc" (opened empty_desk) alone
unfolding alone registered_alone prepare Handle.register parse_dimensions
first_life =
    move [] []
      (move [] [] (call (registering "10.0.0.1:99" registration) refl here) (prepared refl))
      inserted

abbrev replaced : Service Unit Desk
unfolding alone register parse_dimensions Handle.register
replaced =
    (register desk_grpc desk_commands "grpc" (some "10.0.0.1:99") sender_only alone.service).1

abbrev replaced_gone : Server Unit Desk
unfolding replaced
replaced_gone = record { service = record { endpoints = []; world = replaced.world }; jobs = [] }

abbrev second_life :
    Runs desk_grpc desk_commands "grpc" (record { service = replaced; jobs = [] }) replaced_gone
unfolding replaced_gone replaced alone registered_alone take_out tell
second_life =
    move [] [] (move [] [] (call (deregistering "10.0.0.1:99" (5 ∷ [])) refl here) (taken_out refl))
      told

register_again_example : (told_by_calls 7 second_life ≡ 0) × (told_by_tasks 7 second_life ≡ 0)
unfolding second_life first_life replaced replaced_gone alone registered_alone
register_again_example =
    register_again 7 empty_desk "10.0.0.1:99" sender_only (5 ∷ [])
      (record {
        uuid = 5;
        consumer_reg_id = some 7;
        consumer_rx = some tt;
        producer_handle = some (make_producer_handle desk_commands "grpc/5");
      })
      (record {
        uuid = 5;
        consumer_reg_id = none;
        consumer_rx = none;
        producer_handle = some (make_producer_handle desk_commands "grpc/5");
      })
      tt replaced alone replaced_gone first_life (omega arith) refl refl refl refl refl (λ e. cc)
      second_life refl
