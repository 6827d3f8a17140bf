-- ===== src/Producer.antt =====
-- The sending side: components/bus/error.rs, the producer handles of components/router/envelope.rs,
-- the trait `Producer` of components/endpoint/endpoint.rs, and what of components/bus/bus.rs makes
-- handles.
pub mod Sending
pub mod Direct
pub mod Registered
pub mod Waiting
use Prim.Native.String.{◌++◌ as str_append}
use jackfield.Common.{
  ℕ, zero, suc, ◌-◌, ◌≡◌, List, [], ◌∷◌, ◌++◌, Bool, true, false, String, Option, none, some, ltb,
  length,
}
use jackfield.Platform.{Platform}
use jackfield.Platform.Double.{Double}
use jackfield.Message.{Message, ProducerId, Envelope}
use jackfield.Throttle.{Throttle, TokenBucket, Acquired, granted, wait, panicked, try_acquire}
use jackfield.Throttle

pub data JackfieldError : Type 0 where
  not_registered : JackfieldError
  channel_closed : JackfieldError
  channel_full : JackfieldError
  custom : String → JackfieldError

-- `impl fmt::Display for JackfieldError`
unfoldable pub fmt : JackfieldError → String
fmt not_registered = "Endpoint not registered with a bus"
fmt channel_closed = "Bus channel has been closed"
fmt channel_full = "Bus channel is full"
fmt (custom msg) = str_append "Bus error: " msg

-- `Result<(), JackfieldError>`
pub data Sent : Type 0 where
  ok : Sent
  err : JackfieldError → Sent

-- What `try_send` returns.
pub data TrySent : Type 0 where
  delivered : TrySent
  full : TrySent
  closed : TrySent

module _ ⦃p : Platform⦄ where
  -- The sending end of the channel to the bus: `queued` and `is_closed` are its state, and `send`
  -- is finished when there was room for the envelope, or the channel was closed.
  pub record Sender (S : Type 0) : Type 0 where
    pub capacity : ℕ
    pub queued : S → List Envelope
    pub is_closed : S → Bool
    pub try_send : Envelope → S → TrySent × S
    pub send : Envelope → S → Bool × S
    pub try_send_closed : (e : Envelope) (s : S) → is_closed s ≡ true → try_send e s ≡ (closed, s)
    pub try_send_full :
        (e : Envelope) (s : S)
        → is_closed s ≡ false
        → ltb (length (queued s)) capacity ≡ false
        → try_send e s ≡ (full, s)
    pub try_send_room :
        (e : Envelope) (s : S)
        → is_closed s ≡ false
        → ltb (length (queued s)) capacity ≡ true
        → (s' : S) × (try_send e s ≡ (delivered, s')) × (queued s' ≡ queued s ++ e ∷ [])
    pub send_closed : (e : Envelope) (s : S) → is_closed s ≡ true → send e s ≡ (false, s)
    pub send_room :
        (e : Envelope) (s : S)
        → is_closed s ≡ false
        → ltb (length (queued s)) capacity ≡ true
        → (s' : S) × (send e s ≡ (true, s')) × (queued s' ≡ queued s ++ e ∷ [])

module _ ⦃p : Platform⦄ ⦃d : Double⦄ where
  -- An `Arc<Mutex<TokenBucket>>`, which the clones of a handle share: a place in the world.
  pub record Bucket (S : Type 0) : Type 0 where
    pub get : S → TokenBucket
    pub put : TokenBucket → S → S

  -- The clock, and the making of a place.
  pub record Runtime (S : Type 0) : Type 0 where
    pub now : S → ℕ
    pub sleep : ℕ → S → S
    pub new_bucket : TokenBucket → S → Bucket S × S

  pub record ProducerHandle (S : Type 0) : Type 0 where
    pub origin : ProducerId
    pub sender : Sender S
    pub throttle : Option (Bucket S)

  -- How a call that waits ends: with its result, with the panic of `try_acquire`, or not within
  -- the fuel.
  pub data Waited (S A : Type 0) : Type 0 where
    done : A → Waited S A
    panic : S → Waited S A
    no_fuel : Waited S A

  -- The trait `Producer`
  pub record Producer (S P : Type 0) : Type 0 where
    pub name : P → String
    pub attach : ProducerHandle S → P → P
    pub send_bus : ℕ → Message → P → S → Waited S (Sent × S)

module _ ⦃p : Platform⦄ ⦃d : Double⦄ {S : Type 0} where
  abbrev pub report : TrySent × S → Sent × S
  report (delivered, s) = (ok, s)
  report (full, s) = (err channel_full, s)
  report (closed, s) = (err channel_closed, s)

  unfoldable pub try_make_send : ProducerHandle S → Message → S → Sent × S
  try_make_send h msg s = report (h.sender.try_send (record { origin = h.origin; message = msg }) s)

  unfoldable pub wait_for_token : Runtime S → Option (Bucket S) → ℕ → S → Waited S S
  unfolding try_acquire
  wait_for_token rt none fuel s = done s
  wait_for_token rt (some bucket) zero s = no_fuel
  wait_for_token rt (some bucket) (suc fuel) s =
      let (answer, b) = try_acquire (rt.now s) (bucket.get s) in
      let s' = bucket.put b s in
      elim answer [
        | granted ↦ done s'
        | wait t ↦ wait_for_token rt (some bucket) fuel (rt.sleep t s')
        | panicked ↦ panic s'
      ]

  abbrev pub sent_or_closed : Bool × S → Sent × S
  sent_or_closed (true, s) = (ok, s)
  sent_or_closed (false, s) = (err channel_closed, s)

  unfoldable pub make_send_with_origin :
      Runtime S → ProducerHandle S → ProducerId → ℕ → Message → S → Waited S (Sent × S)
  unfolding wait_for_token
  make_send_with_origin rt h origin fuel msg s = elim (wait_for_token rt h.throttle fuel s) [
    | done s' ↦ done (sent_or_closed (h.sender.send (record { origin = origin; message = msg }) s'))
    | panic s' ↦ panic s'
    | no_fuel ↦ no_fuel
  ]

  unfoldable pub make_send : Runtime S → ProducerHandle S → ℕ → Message → S → Waited S (Sent × S)
  unfolding wait_for_token
  make_send rt h fuel msg s = elim (wait_for_token rt h.throttle fuel s) [
    | done s' ↦
        done (sent_or_closed (h.sender.send (record { origin = h.origin; message = msg }) s'))
    | panic s' ↦ panic s'
    | no_fuel ↦ no_fuel
  ]

  -- `Bus::make_handle`; tx is the sender of the bus.
  unfoldable pub make_handle : Sender S → String → ProducerHandle S
  make_handle tx name = record { origin = record { as_str = name }; sender = tx; throttle = none }

  -- `Bus::register_producer`
  unfoldable pub register_producer : {P : Type 0} → Producer S P → Sender S → P → P
  unfolding make_handle
  register_producer producer tx self = producer.attach (make_handle tx (producer.name self)) self

  -- `Bus::register_producer_throttled`
  unfoldable pub register_producer_throttled :
      {P : Type 0} → Producer S P → Runtime S → Sender S → P → Throttle → S → P × S
  unfolding Throttle.new
  register_producer_throttled producer rt tx self t s =
      let (bucket, s') = rt.new_bucket (Throttle.new (rt.now s) t.rate t.burst) s in
      let origin : ProducerId = record { as_str = producer.name self } in
      (producer.attach (record { origin = origin; sender = tx; throttle = some bucket }) self, s')
