-- ===== src/Producer/Sending.antt =====
-- components/router/envelope.rs: what becomes of a message that a producer sends.
use jackfield.Common.{◌≡◌, inl, inr, [], ◌∷◌, ◌++◌, true, false, Bool-cases, ltb, length}
use jackfield.Platform.{Platform}
use jackfield.Platform.Double.{Double}
use jackfield.Message.{Message, Envelope}
use jackfield.Producer.{ProducerHandle, Sent, ok, err, channel_closed, channel_full, try_make_send}

module _ ⦃p : Platform⦄ ⦃d : Double⦄ {S : Type 0} where
  -- The envelope with the handle's origin is the last in the channel.
  abbrev pub Queued : ProducerHandle S → Message → S → S → Type 0
  Queued h msg s s' =
      h.sender.queued s' ≡ h.sender.queued s ++ record { origin = h.origin; message = msg } ∷ []

  -- The three ends of a try.
  pub data Tried (h : ProducerHandle S) (msg : Message) (s : S) : Sent × S → Type 0 where
    is_closed : h.sender.is_closed s ≡ true → Tried h msg s (err channel_closed, s)
    is_full :
        h.sender.is_closed s ≡ false
        → ltb (length (h.sender.queued s)) h.sender.capacity ≡ false
        → Tried h msg s (err channel_full, s)
    is_queued :
        {s' : S}
        → h.sender.is_closed s ≡ false
        → ltb (length (h.sender.queued s)) h.sender.capacity ≡ true
        → Queued h msg s s'
        → Tried h msg s (ok, s')

  -- `try_make_send` fails with `ChannelClosed` on a closed channel and with `ChannelFull` on a full
  -- one, and both leave the world unchanged; else it returns `Ok`, and the message lies last in
  -- the channel, under the handle's origin.
  pub try_make_send-Tried :
      (h : ProducerHandle S) (msg : Message) (s : S) → Tried h msg s (try_make_send h msg s)
  unfolding try_make_send
  try_make_send-Tried h msg s =
      let e : Envelope = record { origin = h.origin; message = msg } in
      elim (Bool-cases (h.sender.is_closed s)) [
        | inl shut ↦ rw (h.sender.try_send_closed e s shut) (is_closed shut)
        | inr usable ↦ elim (Bool-cases (ltb (length (h.sender.queued s)) h.sender.capacity)) [
          | inl room ↦
              let (s', sent, there) = h.sender.try_send_room e s usable room in
              rw sent (is_queued usable room there)
          | inr no_room ↦ rw (h.sender.try_send_full e s usable no_room) (is_full usable no_room)
        ]
      ]
