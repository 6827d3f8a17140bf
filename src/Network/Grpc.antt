-- ===== src/Network/Grpc.antt =====
-- components/endpoint/network/grpc.rs: the handlers of the gRPC service over its table of
-- endpoints, and what the spawned tasks of a stream do when they end. The server itself is
-- left out.
pub mod Sessions
pub mod Tasks
pub mod Streams
pub mod Calls
pub mod Isolation
pub mod Weights
pub mod Once
pub mod Orphans
pub mod Agreement
pub mod Alone
use Prim.Native.String.{◌++◌ as str_append}
use jackfield.Common.{
  ℕ, ◌≡◌, ◌↔◌, List, [], ◌∷◌, Bool, true, false, String, Option, none, some, str_eq, if◌then◌else◌,
}
use jackfield.Platform.{Platform}
use jackfield.Platform.Double.{Double}
use jackfield.Dimension.{Dimension}
use jackfield.Producer.{ProducerHandle}
use jackfield.Bus.Handle.{BusCmdHandle, make_producer_handle}
use jackfield.Bus.Handle
use jackfield.Network.{Json, Parsed, parse_dimensions}
use jackfield.Network.Socket.{RegisterData, is_producer, is_consumer, ItemSender, channel_consumer}

-- `tonic::Status`, by its code and text.
pub data Status : Type 0 where
  internal : String → Status
  failed_precondition : String → Status
  invalid_argument : String → Status
  not_found : String → Status

-- `Result<Response<A>, Status>`
pub data Answer (A : Type 0) : Type 0 where
  response : A → Answer A
  status : Status → Answer A

-- A `HashMap<SocketAddr, E>`; an address is its text.
abbrev pub lookup : {E : Type 0} → String → List (String × E) → Option E
lookup addr [] = none
lookup addr ((key, e) ∷ rest) = if str_eq key addr then some e else lookup addr rest

abbrev pub remove : {E : Type 0} → String → List (String × E) → List (String × E)
remove addr [] = []
remove addr ((key, e) ∷ rest) =
    let others = remove addr rest in if str_eq key addr then others else (key, e) ∷ others

abbrev pub insert : {E : Type 0} → String → E → List (String × E) → List (String × E)
insert addr e table = (addr, e) ∷ remove addr table

module _ ⦃p : Platform⦄ ⦃d : Double⦄ where
  pub record EndpointEntry (Rx S : Type 0) : Type 0 where
    pub uuid : p.Uuid
    pub consumer_reg_id : Option ℕ
    pub consumer_rx : Option Rx
    pub producer_handle : Option (ProducerHandle S)

  -- What the service takes from elsewhere: `Uuid::new_v4`, the printing and the comparison of
  -- uuids, and `mpsc::channel(256)` with its receiver of type Rx.
  pub record Grpc (Rx S : Type 0) : Type 0 where
    pub new_uuid : S → p.Uuid × S
    pub print : p.Uuid → String
    pub same : p.Uuid → p.Uuid → Bool
    pub channel : S → (ItemSender S × Rx) × S
    pub same_iff : (u v : p.Uuid) → (same u v ≡ true) ↔ (u ≡ v)

  -- `JackfieldGrpcService`: its table beside the world.
  pub record Service (Rx S : Type 0) : Type 0 where
    pub endpoints : List (String × EndpointEntry Rx S)
    pub world : S

  -- What `stream` takes out of an entry for the tasks that it spawns.
  pub record Taken (Rx S : Type 0) : Type 0 where
    pub consumer_rx : Option Rx
    pub consumer_reg_id : Option ℕ
    pub producer_handle : Option (ProducerHandle S)

module _ ⦃p : Platform⦄ ⦃d : Double⦄ {Rx S : Type 0} where
  abbrev pub no_address : {A : Type 0} → Service Rx S → Answer A × Service Rx S
  no_address v = (status (internal "no remote address"), v)

  -- The producer part of `register`
  unfoldable pub with_producer :
      Grpc Rx S → BusCmdHandle S → String → RegisterData → EndpointEntry Rx S → EndpointEntry Rx S
  unfolding make_producer_handle
  with_producer env cmd name reg entry =
      let origin = str_append name (str_append "/" (env.print entry.uuid)) in
      record entry {
        producer_handle = if is_producer reg then some (make_producer_handle cmd origin) else none;
      }

  -- and the rest of it.
  unfoldable pub finish :
      Grpc Rx S
      → BusCmdHandle S
      → String
      → RegisterData
      → String
      → EndpointEntry Rx S
      → Service Rx S
      → Answer (List ℕ) × Service Rx S
  unfolding with_producer
  finish env cmd name reg addr entry v = (
    response (p.as_bytes entry.uuid),
    record v { endpoints = insert addr (with_producer env cmd name reg entry) v.endpoints },
  )

  -- What follows the answer of the bus.
  unfoldable pub with_consumer :
      Grpc Rx S
      → BusCmdHandle S
      → String
      → RegisterData
      → String
      → p.Uuid
      → Rx
      → Service Rx S
      → Option ℕ × S
      → Answer (List ℕ) × Service Rx S
  unfolding finish
  with_consumer env cmd name reg addr uuid rx v (none, s) =
      (status (internal "bus registration failed"), record v { world = s })
  with_consumer env cmd name reg addr uuid rx v (some id, s) =
      finish env cmd name reg addr
        (record {
          uuid = uuid;
          consumer_reg_id = some id;
          consumer_rx = some rx;
          producer_handle = none;
        })
        (record v { world = s })

  -- `deregister` of the table and the bus, for the entry of an address.
  unfoldable pub drop_entry : BusCmdHandle S → String → Option ℕ → Service Rx S → Service Rx S
  unfolding Handle.deregister
  drop_entry cmd addr none v = record v { endpoints = remove addr v.endpoints }
  drop_entry cmd addr (some id) v = record {
    endpoints = remove addr v.endpoints;
    world = Handle.deregister cmd id v.world;
  }

  unfoldable pub deregister :
      Grpc Rx S
      → BusCmdHandle S
      → Option String
      → List ℕ
      → Service Rx S
      → Answer Unit × Service Rx S
  unfolding drop_entry
  deregister env cmd none bytes v = no_address v
  deregister env cmd (some addr) bytes v = elim (p.from_slice bytes) [
    | none ↦ (status (Status.invalid_argument "invalid uuid"), v)
    | some uuid ↦ elim (lookup addr v.endpoints) [
      | none ↦ (status (not_found "not registered"), v)
      | some entry ↦
          if env.same entry.uuid uuid
          then (response tt, drop_entry cmd addr entry.consumer_reg_id v)
          else (status (not_found "uuid mismatch"), v)
    ]
  ]

  unfoldable pub stream : Option String → Service Rx S → Answer (Taken Rx S) × Service Rx S
  stream none v = no_address v
  stream (some addr) v = elim (lookup addr v.endpoints) [
    | none ↦ (status (failed_precondition "not registered; call Register first"), v)
    | some entry ↦ (
      response (record {
        consumer_rx = entry.consumer_rx;
        consumer_reg_id = entry.consumer_reg_id;
        producer_handle = entry.producer_handle;
      }),
      record v {
        endpoints =
            insert addr (record entry { consumer_rx = none; producer_handle = none }) v.endpoints;
      },
    )
  ]

  -- The end of the task that forwards to the client, and of the one that reads from it: this one is
  -- spawned only for a producer handle, and cleans up only where there is no consumer.
  unfoldable pub consumer_task_ends :
      BusCmdHandle S → String → Taken Rx S → Service Rx S → Service Rx S
  unfolding drop_entry
  consumer_task_ends cmd addr t v = drop_entry cmd addr t.consumer_reg_id v

  unfoldable pub producer_task_ends : String → Taken Rx S → Service Rx S → Service Rx S
  producer_task_ends addr t v = elim t.producer_handle [
    | none ↦ v
    | some handle ↦ elim t.consumer_rx [
      | none ↦ record v { endpoints = remove addr v.endpoints }
      | some rx ↦ v
    ]
  ]

module _ ⦃p : Platform⦄ ⦃d : Double⦄ ⦃j : Json⦄ {Rx S : Type 0} where
  -- `register`, from the parsed filters on.
  unfoldable pub admit :
      Grpc Rx S
      → BusCmdHandle S
      → String
      → RegisterData
      → String
      → List (Dimension × Bool × p.Float)
      → p.Uuid
      → Service Rx S
      → Answer (List ℕ) × Service Rx S
  unfolding with_consumer finish channel_consumer Handle.register
  admit env cmd name reg addr dims uuid v =
      if is_consumer reg
      then (let ((tx, rx), s) = env.channel v.world in
          with_consumer env cmd name reg addr uuid rx v
            (Handle.register cmd (channel_consumer tx) dims s))
      else finish env cmd name reg addr
          (record {
            uuid = uuid;
            consumer_reg_id = none;
            consumer_rx = none;
            producer_handle = none;
          })
          v

  unfoldable pub register :
      Grpc Rx S
      → BusCmdHandle S
      → String
      → Option String
      → RegisterData
      → Service Rx S
      → Answer (List ℕ) × Service Rx S
  unfolding admit parse_dimensions
  register env cmd name none reg v = no_address v
  register env cmd name (some addr) reg v =
      let (uuid, s) = env.new_uuid v.world in
      elim (parse_dimensions reg.dimensions_json) [
        | Parsed.invalid_argument e ↦ (status (Status.invalid_argument e), record v { world = s })
        | Parsed.parsed dims ↦ admit env cmd name reg addr dims uuid (record v { world = s })
      ]
