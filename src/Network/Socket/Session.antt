-- ===== src/Network/Socket/Session.antt =====
-- components/endpoint/network/ws.rs: what a connection does from its first frame to its end.
use Prim.Native.String.{◌++◌ as str_append}
use jackfield.Common.{
  ℕ, ◌≡◌, refl, ap, List, [], ◌∷◌, ◌++◌, Bool, true, false, String, none, some, Option-cases, inl,
  inr,
}
use jackfield.Platform.{Platform}
use jackfield.Platform.Double.{Double}
use jackfield.Message.{Message, from_item}
use jackfield.Dimension.{Dimension}
use jackfield.Producer.{Sender, Runtime, Waited, make_send, wait_for_token, sent_or_closed}
use jackfield.Bus.Handle.{BusCmdHandle, register, deregister, make_producer_handle}
use jackfield.Network.{Json, parsed, parse_dimensions}
use jackfield.Network.Socket.{
  RegisterData, is_producer, is_consumer, Frame, binary, close, other, failed, Socket,
  channel_consumer, first_binary, world_after, accept_item, inbound, serve, connect,
  handle_connection, conclude,
}

-- Frames without a payload and errors, before the registration.
abbrev pub IsNoise : List Frame → Type 0
IsNoise [] = Unit
IsNoise (other ∷ frames) = IsNoise frames
IsNoise (failed ∷ frames) = IsNoise frames
IsNoise (binary b ∷ frames) = ⊥
IsNoise (close ∷ frames) = ⊥

module _ ⦃p : Platform⦄ {S : Type 0} where
  -- The messages that a client sends: those of the binary frames that can be decoded, up to the
  -- first `Close` or error.
  abbrev pub messages : Socket S → List Frame → List Message
  messages ws [] = []
  messages ws (binary b ∷ frames) =
      let later = messages ws frames in
      elim (ws.decode_item b) [ none ↦ later | some item ↦ from_item item ∷ later ]
  messages ws (close ∷ frames) = []
  messages ws (other ∷ frames) = messages ws frames
  messages ws (failed ∷ frames) = []

  -- The messages sent to the bus in turn, under one origin.
  abbrev pub send_each : Sender S → String → List Message → S → S
  send_each tx origin [] s = s
  send_each tx origin (m ∷ ms) s =
      send_each tx origin ms
        (tx.send (record { origin = record { as_str = origin }; message = m }) s).1

  first_binary_noise :
      (ws : Socket S) (noise : List Frame) (b : List ℕ) (rest : List Frame) (reg : RegisterData)
      → IsNoise noise
      → ws.decode_register b ≡ some reg
      → first_binary ws (noise ++ binary b ∷ rest) ≡ some (reg, rest)
  unfolding first_binary
  first_binary_noise ws [] b rest reg n h = rw (first_binary, h)
  first_binary_noise ws (other ∷ noise) b rest reg n h = first_binary_noise ws noise b rest reg n h
  first_binary_noise ws (failed ∷ noise) b rest reg n h = first_binary_noise ws noise b rest reg n h
  first_binary_noise ws (binary c ∷ noise) b rest reg n h = absurd n
  first_binary_noise ws (close ∷ noise) b rest reg n h = absurd n

module _ ⦃p : Platform⦄ ⦃d : Double⦄ {S : Type 0} where
  after_answer :
      (s : S) (answer : Bool × S) → world_after s (Waited.done (sent_or_closed answer)) ≡ answer.1
  after_answer s (true, s') = refl
  after_answer s (false, s') = refl

  -- Without a throttle.
  pub world_after-make_send :
      (rt : Runtime S) (cmd : BusCmdHandle S) (origin : String) (m : Message) (s : S)
      → world_after s (make_send rt (make_producer_handle cmd origin) 0 m s)
        ≡ (cmd.envelope_tx.send (record { origin = record { as_str = origin }; message = m }) s).1
  unfolding make_send wait_for_token make_producer_handle
  world_after-make_send rt cmd origin m s = after_answer s _

  -- The main loop sends the client's messages, each under the connection's origin, in order.
  pub inbound-send_each :
      (ws : Socket S) (rt : Runtime S) (cmd : BusCmdHandle S) (origin : String)
      (frames : List Frame) (s : S)
      → inbound ws rt (some (make_producer_handle cmd origin)) frames s
        ≡ send_each cmd.envelope_tx origin (messages ws frames) s
  unfolding inbound accept_item
  inbound-send_each ws rt cmd origin [] s = refl
  inbound-send_each ws rt cmd origin (close ∷ frames) s = refl
  inbound-send_each ws rt cmd origin (failed ∷ frames) s = refl
  inbound-send_each ws rt cmd origin (other ∷ frames) s =
      inbound-send_each ws rt cmd origin frames s
  inbound-send_each ws rt cmd origin (binary b ∷ frames) s =
      elim (Option-cases (ws.decode_item b)) [
        | inl gone ↦
            rw (inbound, accept_item, messages, gone) (inbound-send_each ws rt cmd origin frames s)
        | inr (item, got) ↦
            rw (inbound, accept_item, messages, got, world_after-make_send)
              (inbound-send_each ws rt cmd origin frames _)
      ]

module _ ⦃p : Platform⦄ ⦃d : Double⦄ ⦃j : Json⦄ {S : Type 0} where
  -- A connection that registers in both roles: what comes before the registration is passed over,
  -- the channel of its consumer is registered with the bus under its filters, its messages are
  -- sent in order under one origin, its name and a new uuid, and when the frames end, for
  -- whatever reason, the consumer is deregistered under the id that the bus gave it.
  pub handle_connection_lem :
      (ws : Socket S) (rt : Runtime S) (cmd : BusCmdHandle S) (noise : List Frame) (b : List ℕ)
      (rest : List Frame) (reg : RegisterData) (dims : List (Dimension × Bool × p.Float)) (id : ℕ)
      (s s' : S)
      → IsNoise noise
      → ws.decode_register b ≡ some reg
      → parse_dimensions reg.dimensions_json ≡ parsed dims
      → is_consumer reg ≡ true
      → is_producer reg ≡ true
      → register cmd (channel_consumer (ws.channel s).0) dims (ws.channel s).1 ≡ (some id, s')
      → let (uuid, begun) = ws.new_uuid s' in
        let origin = str_append reg.name (str_append "/" uuid) in
        handle_connection ws rt cmd (noise ++ binary b ∷ rest) s
        ≡ deregister cmd id (send_each cmd.envelope_tx origin (messages ws rest) begun)
  unfolding handle_connection connect conclude serve
  handle_connection_lem ws rt cmd noise b rest reg dims id s s' n h k consumes produces given =
      rw
        (
          handle_connection,
          first_binary_noise ws noise b rest reg n h,
          k,
          connect,
          consumes,
          given,
          conclude,
          serve,
          produces,
        )
        (ap (deregister cmd id) (inbound-send_each ws rt cmd _ rest _))
