-- ===== src/Tests/Connecting.antt =====
-- components/endpoint/network/ws.rs: a connection at the desk.
use jackfield.Common.{
  ℕ, ◌≡◌, refl, List, [], ◌∷◌, ◌++◌, true, false, Option, none, some, Bool, arith, ltb, length,
  if◌then◌else◌,
}
use jackfield.Platform.Sample.{sample}
use jackfield.Platform.SampleDouble.{sample_double}
use jackfield.Message.{BusableItem}
use jackfield.Bus.{BusCmd}
use jackfield.Bus.Handle.{BusCmdHandle, register, deregister}
use jackfield.Network.{parse_dimensions}
use jackfield.Network.Forwarding.{relay, Delivers, IsStopped, relay_prefix}
use jackfield.Network.Socket.{RegisterData, Frame, binary, close, other, Socket, handle_connection}
use jackfield.Network.Socket.Session.{messages, send_each, handle_connection_lem}
use jackfield.Tests.Desk.{Desk, empty_desk, leave}
use jackfield.Tests.Documents.{documents}
use jackfield.Tests.Producing.{desk_sender, desk_runtime}

abbrev pub registration : RegisterData
registration = record { name = "phone"; kinds = 0 ∷ 1 ∷ []; dimensions_json = "" }

abbrev read_registration : List ℕ → Option RegisterData
read_registration [] = none
read_registration (b ∷ bs) = some registration

abbrev read_item : List ℕ → Option BusableItem
read_item [] = none
read_item (b ∷ bs) = some (record { uuid = b ∷ []; labels = []; payload = bs })

abbrev desk_socket : Socket Desk
desk_socket = record {
  decode_register = read_registration;
  decode_item = read_item;
  channel = λ s. (record { is_closed = λ s'. false; send = λ item s'. s' }, s);
  new_uuid = λ s. ("1", s);
}

-- A bus that answers at once, with the id 7.
abbrev pub answer : BusCmd Desk → Desk → Desk
answer (BusCmd.register consumer dims reply) s = reply 7 s
answer (BusCmd.deregister id) s = record s { orders = s.orders ++ leave id ∷ [] }

abbrev pub newest : List ℕ → Option ℕ
newest [] = none
newest (id ∷ ids) = some id

abbrev pub desk_commands : BusCmdHandle Desk
desk_commands = record {
  cmd_tx = λ cmd s. (true, answer cmd s);
  envelope_tx = desk_sender;
  oneshot = λ s. (
    record {
      tx = λ id s'. record s' { replies = id ∷ s'.replies };
      rx = λ s'. (newest s'.replies, s');
    },
    s,
  );
}

abbrev sent_frames : List Frame
sent_frames =
    binary (5 ∷ 6 ∷ []) ∷ other ∷ binary [] ∷ binary (8 ∷ []) ∷ close ∷ binary (9 ∷ []) ∷ []

abbrev answered : Desk
answered = record empty_desk { replies = 7 ∷ [] }

-- A channel of two places, whose receiver is then gone.
abbrev two_places : ℕ → List ℕ → Bool × List ℕ
two_places x got = if ltb (length got) 2 then (true, got ++ x ∷ []) else (false, got)

two_places-Delivers : Delivers two_places (λ got. got)
two_places-Delivers = record { sent = λ x s h. ground arith; lost = λ x s h. ground arith }

relay_test : relay two_places (3 ∷ 4 ∷ 5 ∷ []) [] ≡ 3 ∷ 4 ∷ []
unfolding relay
relay_test = refl

relay_prefix_example :
    (first rest : List ℕ) × (3 ∷ 4 ∷ 5 ∷ [] ≡ first ++ rest)
    × (relay two_places (3 ∷ 4 ∷ 5 ∷ []) [] ≡ first)
    × IsStopped two_places rest
relay_prefix_example = relay_prefix two_places (λ got. got) two_places-Delivers (3 ∷ 4 ∷ 5 ∷ []) []

handle_connection_lem_example :
    handle_connection desk_socket desk_runtime desk_commands
      (other ∷ binary (1 ∷ []) ∷ sent_frames)
      empty_desk
    ≡ deregister desk_commands 7
        (send_each desk_sender "phone/1" (messages desk_socket sent_frames) answered)
unfolding register parse_dimensions
handle_connection_lem_example =
    handle_connection_lem desk_socket desk_runtime desk_commands (other ∷ []) (1 ∷ []) sent_frames
      registration [] 7 empty_desk answered tt refl refl refl refl refl
