-- ===== src/Network/Socket.antt =====
-- components/endpoint/network/ws.rs: the handler of one WebSocket connection, and the consumer of
-- connection.rs that forwards to a channel. The handshake is left out; Network/Forwarding
-- has the spawned tasks, which carry what that channel gets to the client.
pub mod Session
use Prim.Native.String.{◌++◌ as str_append}
use jackfield.Common.{
  ℕ, zero, suc, List, [], ◌∷◌, any, Bool, true, false, not, String, Option, none, some, ◌==◌,
  if◌then◌else◌,
}
use jackfield.Platform.{Platform}
use jackfield.Platform.Double.{Double}
use jackfield.Message.{Message, Envelope, BusableItem, to_item, from_item}
use jackfield.Dimension.{Dimension}
use jackfield.Consumer.{Consumer}
use jackfield.Producer.{ProducerHandle, Runtime, Waited, done, panic, no_fuel, Sent, make_send}
use jackfield.Bus.Handle.{BusCmdHandle, register, deregister, make_producer_handle}
use jackfield.Network.{Json, Parsed, parsed, invalid_argument, parse_dimensions}

-- `proto::RegisterData`, as the build generates it from proto/jackfield.proto, with the numbers of
-- its `EndpointType`.
pub record RegisterData : Type 0 where
  pub name : String
  pub kinds : List ℕ
  pub dimensions_json : String

abbrev pub is_producer : RegisterData → Bool
is_producer reg = any (λ kind. kind == 0) reg.kinds

abbrev pub is_consumer : RegisterData → Bool
is_consumer reg = any (λ kind. kind == 1) reg.kinds

-- What `source.next()` gives, until the `None` at the end of the list.
pub data Frame : Type 0 where
  binary : List ℕ → Frame
  close : Frame
  other : Frame
  failed : Frame

module _ ⦃p : Platform⦄ where
  -- An `mpsc::Sender<proto::BusableItem>`; the result of `send` is dropped.
  pub record ItemSender (S : Type 0) : Type 0 where
    pub is_closed : S → Bool
    pub send : BusableItem → S → S

  -- What the handler takes from elsewhere: prost's decoders, `mpsc::channel(256)` and
  -- `Uuid::new_v4`, printed.
  pub record Socket (S : Type 0) : Type 0 where
    pub decode_register : List ℕ → Option RegisterData
    pub decode_item : List ℕ → Option BusableItem
    pub channel : S → ItemSender S × S
    pub new_uuid : S → String × S

module _ ⦃p : Platform⦄ {S : Type 0} where
  -- `impl Consumer for ChannelConsumer`
  unfoldable pub channel_consumer : ItemSender S → Consumer S
  unfolding to_item
  channel_consumer tx = record {
    available = λ s. not (tx.is_closed s);
    validate = λ env s. true;
    consume = λ message s. tx.send (to_item message) s;
  }

  -- The first loop: the registration, and the frames behind it.
  unfoldable pub first_binary : Socket S → List Frame → Option (RegisterData × List Frame)
  first_binary ws [] = none
  first_binary ws (binary b ∷ frames) = elim (ws.decode_register b) [
    | none ↦ none
    | some reg ↦ some (reg, frames)
  ]
  first_binary ws (close ∷ frames) = none
  first_binary ws (other ∷ frames) = first_binary ws frames
  first_binary ws (failed ∷ frames) = first_binary ws frames

module _ ⦃p : Platform⦄ ⦃d : Double⦄ {S : Type 0} where
  -- `let _ = handle.make_send(msg).await`; a handle without throttle neither panics nor waits for
  -- a token.
  abbrev pub world_after : S → Waited S (Sent × S) → S
  world_after s (done (answer, s')) = s'
  world_after s (panic s') = s'
  world_after s no_fuel = s

  -- `if let Some(handle) = &producer_handle { if let Ok(item) = .. { .. } }`
  unfoldable pub accept_item : Socket S → Runtime S → Option (ProducerHandle S) → List ℕ → S → S
  unfolding make_send from_item
  accept_item ws rt none b s = s
  accept_item ws rt (some h) b s = elim (ws.decode_item b) [
    | none ↦ s
    | some item ↦ world_after s (make_send rt h 0 (from_item item) s)
  ]

  -- The main loop, `while let Some(Ok(ws_msg)) = source.next().await`.
  unfoldable pub inbound : Socket S → Runtime S → Option (ProducerHandle S) → List Frame → S → S
  unfolding accept_item
  inbound ws rt h [] s = s
  inbound ws rt h (binary b ∷ frames) s = inbound ws rt h frames (accept_item ws rt h b s)
  inbound ws rt h (close ∷ frames) s = s
  inbound ws rt h (other ∷ frames) s = inbound ws rt h frames s
  inbound ws rt h (failed ∷ frames) s = s

  -- From the making of the producer handle to the end of the main loop.
  unfoldable pub serve : Socket S → Runtime S → BusCmdHandle S → RegisterData → List Frame → S → S
  unfolding inbound make_producer_handle
  serve ws rt cmd reg frames s =
      let (uuid, s') = ws.new_uuid s in
      let origin = str_append reg.name (str_append "/" uuid) in
      if is_producer reg
      then inbound ws rt (some (make_producer_handle cmd origin)) frames s'
      else inbound ws rt none frames s

module _ ⦃p : Platform⦄ ⦃d : Double⦄ ⦃j : Json⦄ {S : Type 0} where
  -- What follows the answer of the bus.
  unfoldable pub conclude :
      Socket S → Runtime S → BusCmdHandle S → RegisterData → List Frame → Option ℕ × S → S
  unfolding serve deregister
  conclude ws rt cmd reg frames (none, s) = s
  conclude ws rt cmd reg frames (some id, s) = deregister cmd id (serve ws rt cmd reg frames s)

  -- From the registration with the bus on.
  unfoldable pub connect :
      Socket S
      → Runtime S
      → BusCmdHandle S
      → RegisterData
      → List (Dimension × Bool × p.Float)
      → List Frame
      → S
      → S
  unfolding channel_consumer register serve conclude
  connect ws rt cmd reg dims frames s =
      if is_consumer reg
      then (let (tx, s₁) = ws.channel s in
          conclude ws rt cmd reg frames (register cmd (channel_consumer tx) dims s₁))
      else serve ws rt cmd reg frames s

  -- `handle_connection`, after the handshake.
  unfoldable pub handle_connection : Socket S → Runtime S → BusCmdHandle S → List Frame → S → S
  unfolding first_binary parse_dimensions connect
  handle_connection ws rt cmd frames s = elim (first_binary ws frames) [
    | none ↦ s
    | some (reg, rest) ↦ elim (parse_dimensions reg.dimensions_json) [
      | invalid_argument e ↦ s
      | parsed dims ↦ connect ws rt cmd reg dims rest s
    ]
  ]
