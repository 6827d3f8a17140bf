-- ===== src/Producer/Registered.antt =====
-- components/bus/bus.rs with components/endpoint/direct.rs: what a registered endpoint sends.
use jackfield.Common.{
  ℕ, suc, ◌≡◌, refl, ap, ◌⊎◌, inl, inr, [], ◌∷◌, ◌++◌, Bool, true, false, Bool-cases, String, some,
  ltb, length,
}
use jackfield.Platform.{Platform}
use jackfield.Platform.Double.{Double}
use jackfield.Message.{Message, Envelope}
use jackfield.Throttle.{try_acquire, Acquired, granted, wait, panicked}
use jackfield.Throttle.Burst.{is_granted}
use jackfield.Producer.{
  Sender, Sent, ok, err, not_registered, channel_closed, Bucket, Runtime, Waited, done, panic,
  wait_for_token, make_send, make_handle, register_producer,
}
use jackfield.Producer.Direct.{
  Endpoint, contains, producer_flag, send_bus, attach, endpoint_producer,
}

module _ ⦃d : Double⦄ where
  granted_of : (answer : Acquired) → is_granted answer ≡ true → answer ≡ granted
  granted_of granted h = refl
  granted_of (wait t) h = cc
  granted_of panicked h = cc

module _ ⦃p : Platform⦄ ⦃d : Double⦄ {S : Type 0} where
  -- A call of `send` does not wait.
  abbrev pub IsReady : Sender S → S → Type 0
  IsReady tx s =
      (tx.is_closed s ≡ true)
      ⊎ ((tx.is_closed s ≡ false) × (ltb (length (tx.queued s)) tx.capacity ≡ true))

  -- The ends of a send, can being whether the endpoint is a producer.
  pub data Ended (tx : Sender S) (name : String) (msg : Message) (can : Bool) (s : S)
      : Waited S (Sent × S) → Type 0 where
    no_producer : can ≡ false → Ended tx name msg can s (done (err not_registered, s))
    shut :
        can ≡ true → tx.is_closed s ≡ true → Ended tx name msg can s (done (err channel_closed, s))
    queued :
        {s' : S}
        → can ≡ true
        → tx.queued s'
          ≡ tx.queued s ++ record { origin = record { as_str = name }; message = msg } ∷ []
        → Ended tx name msg can s (done (ok, s'))

  -- An endpoint that is registered with a bus as a producer, without a throttle, ends its
  -- `send_bus`, if the channel of the bus is closed or has room: without the flag `PRODUCER` with
  -- `NotRegistered`, else on a closed channel with `ChannelClosed`, both with the world unchanged,
  -- else with `Ok`, and its message lies last in the channel, under the endpoint's name.
  pub send_bus-register_producer :
      (rt : Runtime S) (tx : Sender S) (fuel : ℕ) (msg : Message) (self : Endpoint S) (s : S)
      → IsReady tx s
      → Ended tx self.name msg
          (contains self.flags producer_flag)
          s
          (send_bus rt fuel msg (register_producer (endpoint_producer rt) tx self) s)
  unfolding send_bus make_send wait_for_token register_producer attach make_handle
  send_bus-register_producer rt tx fuel msg self s ready =
      let e : Envelope = record { origin = record { as_str = self.name }; message = msg } in
      elim (Bool-cases (contains self.flags producer_flag)) [
        | inr cannot ↦ rw cannot (no_producer refl)
        | inl can ↦ elim ready [
          | inl closed ↦ rw (can, tx.send_closed e s closed) (shut refl closed)
          | inr (usable, room) ↦
              let (s', sent, there) = tx.send_room e s usable room in
              rw (can, sent) (queued refl there)
        ]
      ]

  pub wait_for_token_granted :
      (rt : Runtime S) (bucket : Bucket S) (fuel : ℕ) (s : S)
      → is_granted (try_acquire (rt.now s) (bucket.get s)).0 ≡ true
      → wait_for_token rt (some bucket) (suc fuel) s
        ≡ done (bucket.put (try_acquire (rt.now s) (bucket.get s)).1 s)
  unfolding wait_for_token
  wait_for_token_granted rt bucket fuel s h =
      let (answer, b) = try_acquire (rt.now s) (bucket.get s) in
      ap
        (λ a. elim a as (λ x. Waited S S) [
          | granted ↦ done (bucket.put b s)
          | wait t ↦ wait_for_token rt (some bucket) fuel (rt.sleep t (bucket.put b s))
          | panicked ↦ panic (bucket.put b s)
        ])
        (granted_of answer h)
