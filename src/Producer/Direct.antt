-- ===== src/Producer/Direct.antt =====
-- components/endpoint/direct.rs: the in-process `Endpoint`, and the flags of endpoint.rs.
use jackfield.Common.{
  ℕ, ◌/◌, ◌%◌, ◌^◌, Bool, false, not, ◌&&◌, ◌||◌, String, Option, none, some, ◌==◌, if◌then◌else◌,
}
use jackfield.Platform.{Platform}
use jackfield.Platform.Double.{Double}
use jackfield.Message.{Message}
use jackfield.Consumer.{Consumer}
use jackfield.Producer.{
  ProducerHandle, Sent, err, not_registered, make_send, Runtime, Waited, done, Producer,
}

-- `EndpointType`, a `u8` of flags.
pub record EndpointType : Type 0 where
  pub bits : ℕ

abbrev pub consumer_flag : EndpointType
consumer_flag = record { bits = 1 }

abbrev pub producer_flag : EndpointType
producer_flag = record { bits = 2 }

abbrev pub has_bit : ℕ → EndpointType → Bool
has_bit i flags = (flags.bits / 2 ^ i) % 2 == 1

-- `contains`, by the two flags that there are.
unfoldable pub contains : EndpointType → EndpointType → Bool
contains flags other =
    (not (has_bit 0 other) || has_bit 0 flags) && (not (has_bit 1 other) || has_bit 1 flags)

module _ ⦃p : Platform⦄ ⦃d : Double⦄ where
  pub record Endpoint (S : Type 0) : Type 0 where
    pub name : String
    pub flags : EndpointType
    pub handle : Option (ProducerHandle S)
    pub consumer_handler : Option (Consumer S)

module _ ⦃p : Platform⦄ ⦃d : Double⦄ {S : Type 0} where
  -- `Endpoint::new`
  unfoldable pub new : String → EndpointType → Endpoint S
  new name flags = record { name = name; flags = flags; handle = none; consumer_handler = none }

  unfoldable pub set_consumer : Consumer S → Endpoint S → Endpoint S
  set_consumer consumer self = record self { consumer_handler = some consumer }

  unfoldable pub attach : ProducerHandle S → Endpoint S → Endpoint S
  attach h self = record self { handle = some h }

  unfoldable pub send_bus : Runtime S → ℕ → Message → Endpoint S → S → Waited S (Sent × S)
  unfolding contains make_send
  send_bus rt fuel msg self s =
      if contains self.flags producer_flag
      then (elim self.handle [
        | none ↦ done (err not_registered, s)
        | some h ↦ make_send rt h fuel msg s
      ])
      else done (err not_registered, s)

  -- `impl Producer for Endpoint`
  abbrev pub endpoint_producer : Runtime S → Producer S (Endpoint S)
  endpoint_producer rt = record {
    name = λ self. self.name;
    attach = attach;
    send_bus = send_bus rt;
  }

  -- `impl Consumer for Endpoint`
  unfoldable pub endpoint_consumer : Endpoint S → Consumer S
  endpoint_consumer self = elim self.consumer_handler [
    | none ↦ record { available = λ s. false; validate = λ env s. false; consume = λ msg s. s }
    | some c ↦ c
  ]
