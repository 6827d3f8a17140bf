-- ===== src/Network/Grpc/Calls.antt =====
-- components/endpoint/network/grpc.rs: calls of the service and its spawned tasks, interleaved. A
-- handler or a task is split where it awaits the bus or the lock of the table, and each move is what
-- it does up to its next wait. What a task moves between channels is a change of the world.
use jackfield.Common.{
  ℕ, ◌≡◌, List, [], ◌∷◌, ◌++◌, Bool, true, false, not, String, Option, none, some, if◌then◌else◌,
  is_some,
}
use jackfield.Platform.{Platform}
use jackfield.Platform.Double.{Double}
use jackfield.Dimension.{Dimension}
use jackfield.Bus.Handle.{BusCmdHandle}
use jackfield.Bus.Handle
use jackfield.Network.{Json, Parsed, parse_dimensions}
use jackfield.Network.Socket.{RegisterData, is_consumer, channel_consumer}
use jackfield.Network.Grpc.{
  internal, not_found, Status, Answer, response, status, lookup, remove, insert, EndpointEntry,
  Grpc, Service, Taken, with_producer, stream,
}

abbrev pub when : {A : Type 0} → Bool → A → List A
when true a = a ∷ []
when false a = []

module _ ⦃p : Platform⦄ ⦃d : Double⦄ where
  -- What `register` has when it has heard from the bus: the entry, or the error to return.
  pub data Prepared (Rx S : Type 0) : Type 0 where
    refused : Status → Prepared Rx S
    ready : EndpointEntry Rx S → Prepared Rx S

  -- A call, or a spawned task, with the address that it is about. A call of `register` is at its
  -- start, or is about to insert its entry; a call of `deregister` is at its start, or is about to
  -- tell the bus. The task that forwards to the client tells the bus and then removes the entry; the
  -- one that reads from it removes the entry, if it is to clean up.
  pub data Job (Rx S : Type 0) : Type 0 where
    registering : String → RegisterData → Job Rx S
    inserting : String → RegisterData → EndpointEntry Rx S → Job Rx S
    deregistering : String → List ℕ → Job Rx S
    leaving : String → Option ℕ → Job Rx S
    streaming : String → Job Rx S
    forwarding : String → Option ℕ → Job Rx S
    reading : String → Bool → Job Rx S
    removing : String → Job Rx S

  abbrev pub address : {Rx S : Type 0} → Job Rx S → String
  address (registering addr reg) = addr
  address (inserting addr reg entry) = addr
  address (deregistering addr bytes) = addr
  address (leaving addr id) = addr
  address (streaming addr) = addr
  address (forwarding addr id) = addr
  address (reading addr cleanup) = addr
  address (removing addr) = addr

  -- The calls, at their start.
  abbrev pub is_call : {Rx S : Type 0} → Job Rx S → Bool
  is_call (registering addr reg) = true
  is_call (deregistering addr bytes) = true
  is_call (streaming addr) = true
  is_call _ = false

module _ ⦃p : Platform⦄ ⦃d : Double⦄ {S : Type 0} where
  -- `if let Some(id) = consumer_reg_id { cmd_handle.deregister(id).await; }`
  unfoldable pub tell : BusCmdHandle S → Option ℕ → S → S
  unfolding Handle.deregister
  tell cmd none s = s
  tell cmd (some id) s = Handle.deregister cmd id s

module _ ⦃p : Platform⦄ ⦃d : Double⦄ {Rx S : Type 0} where
  -- The tasks that a stream spawns.
  unfoldable pub spawned : String → Taken Rx S → List (Job Rx S)
  spawned addr t =
      when (is_some t.consumer_rx) (forwarding addr t.consumer_reg_id)
      ++ when (is_some t.producer_handle) (reading addr (not (is_some t.consumer_rx)))

  -- `deregister` on the table, under its lock: the id to tell the bus.
  unfoldable pub take_out :
      Grpc Rx S
      → String
      → List ℕ
      → List (String × EndpointEntry Rx S)
      → Answer (Option ℕ) × List (String × EndpointEntry Rx S)
  take_out env addr bytes table = elim (p.from_slice bytes) [
    | none ↦ (status (Status.invalid_argument "invalid uuid"), table)
    | some uuid ↦ elim (lookup addr table) [
      | none ↦ (status (not_found "not registered"), table)
      | some entry ↦
          if env.same entry.uuid uuid
          then (response entry.consumer_reg_id, remove addr table)
          else (status (not_found "uuid mismatch"), table)
    ]
  ]

module _ ⦃p : Platform⦄ ⦃d : Double⦄ ⦃j : Json⦄ {Rx S : Type 0} where
  abbrev pub heard : p.Uuid → Rx → Option ℕ × S → Prepared Rx S × S
  heard uuid rx (none, s) = (refused (internal "bus registration failed"), s)
  heard uuid rx (some id, s) = (
    ready (record {
      uuid = uuid;
      consumer_reg_id = some id;
      consumer_rx = some rx;
      producer_handle = none;
    }),
    s,
  )

  abbrev pub ask :
      Grpc Rx S
      → BusCmdHandle S
      → RegisterData
      → p.Uuid
      → List (Dimension × Bool × p.Float)
      → S
      → Prepared Rx S × S
  unfolding channel_consumer Handle.register
  ask env cmd reg uuid dims s =
      if is_consumer reg
      then (let ((tx, rx), s') = env.channel s in
          heard uuid rx (Handle.register cmd (channel_consumer tx) dims s'))
      else (
        ready (record {
          uuid = uuid;
          consumer_reg_id = none;
          consumer_rx = none;
          producer_handle = none;
        }),
        s,
      )

  -- `register` up to the answer of the bus.
  unfoldable pub prepare : Grpc Rx S → BusCmdHandle S → RegisterData → S → Prepared Rx S × S
  unfolding parse_dimensions ask
  prepare env cmd reg s =
      let (uuid, s') = env.new_uuid s in
      elim (parse_dimensions reg.dimensions_json) [
        | Parsed.invalid_argument e ↦ (refused (Status.invalid_argument e), s')
        | Parsed.parsed dims ↦ ask env cmd reg uuid dims s'
      ]

-- One move of one job, which becomes the jobs that follow it.
pub data Move ⦃p : Platform⦄ ⦃d : Double⦄ ⦃j : Json⦄ {Rx S : Type 0} (env : Grpc Rx S)
    (cmd : BusCmdHandle S) (name : String)
    : Service Rx S → Job Rx S → Service Rx S → List (Job Rx S) → Type 0 where
  prepared :
      {v : Service Rx S} {addr : String} {reg : RegisterData} {entry : EndpointEntry Rx S} {s : S}
      → prepare env cmd reg v.world ≡ (ready entry, s)
      → Move env cmd name v
          (registering addr reg)
          (record v { world = s })
          (inserting addr reg entry ∷ [])
  not_prepared :
      {v : Service Rx S} {addr : String} {reg : RegisterData} {e : Status} {s : S}
      → prepare env cmd reg v.world ≡ (refused e, s)
      → Move env cmd name v (registering addr reg) (record v { world = s }) []
  inserted :
      {v : Service Rx S} {addr : String} {reg : RegisterData} {entry : EndpointEntry Rx S}
      → Move env cmd name v
          (inserting addr reg entry)
          (record v { endpoints = insert addr (with_producer env cmd name reg entry) v.endpoints })
          []
  taken_out :
      {v : Service Rx S} {addr : String} {bytes : List ℕ} {id : Option ℕ}
      {table : List (String × EndpointEntry Rx S)}
      → take_out env addr bytes v.endpoints ≡ (response id, table)
      → Move env cmd name v
          (deregistering addr bytes)
          (record v { endpoints = table })
          (leaving addr id ∷ [])
  not_taken_out :
      {v : Service Rx S} {addr : String} {bytes : List ℕ} {e : Status}
      {table : List (String × EndpointEntry Rx S)}
      → take_out env addr bytes v.endpoints ≡ (status e, table)
      → Move env cmd name v (deregistering addr bytes) (record v { endpoints = table }) []
  told :
      {v : Service Rx S} {addr : String} {id : Option ℕ}
      → Move env cmd name v (leaving addr id) (record v { world = tell cmd id v.world }) []
  streamed :
      {v v' : Service Rx S} {addr : String} {t : Taken Rx S}
      → stream (some addr) v ≡ (response t, v')
      → Move env cmd name v (streaming addr) v' (spawned addr t)
  not_streamed :
      {v v' : Service Rx S} {addr : String} {e : Status}
      → stream (some addr) v ≡ (status e, v')
      → Move env cmd name v (streaming addr) v' []
  forwarded :
      {v : Service Rx S} {addr : String} {id : Option ℕ}
      → Move env cmd name v
          (forwarding addr id)
          (record v { world = tell cmd id v.world })
          (removing addr ∷ [])
  read :
      {v : Service Rx S} {addr : String} {cleanup : Bool}
      → Move env cmd name v (reading addr cleanup) v (when cleanup (removing addr))
  removed :
      {v : Service Rx S} {addr : String}
      → Move env cmd name v (removing addr) (record v { endpoints = remove addr v.endpoints }) []

-- The service and what is under way.
pub record Server ⦃p : Platform⦄ ⦃d : Double⦄ (Rx S : Type 0) : Type 0 where
  pub service : Service Rx S
  pub jobs : List (Job Rx S)

-- As `GrpcEndpoint::start` makes it.
abbrev pub opened : ⦃p : Platform⦄ → ⦃d : Double⦄ → {Rx S : Type 0} → S → Server Rx S
opened s = record { service = record { endpoints = []; world = s }; jobs = [] }

-- Calls come in, jobs move, and the world changes, in any order.
pub data Runs ⦃p : Platform⦄ ⦃d : Double⦄ ⦃j : Json⦄ {Rx S : Type 0} (env : Grpc Rx S)
    (cmd : BusCmdHandle S) (name : String) (start : Server Rx S) : Server Rx S → Type 0 where
  here : Runs env cmd name start start
  outside :
      {v : Service Rx S} {jobs : List (Job Rx S)} (s : S)
      → Runs env cmd name start (record { service = v; jobs = jobs })
      → Runs env cmd name start (record { service = record v { world = s }; jobs = jobs })
  call :
      {v : Service Rx S} {jobs : List (Job Rx S)} (job : Job Rx S)
      → is_call job ≡ true
      → Runs env cmd name start (record { service = v; jobs = jobs })
      → Runs env cmd name start (record { service = v; jobs = job ∷ jobs })
  move :
      {v v' : Service Rx S} {job : Job Rx S} {next : List (Job Rx S)}
      (before after : List (Job Rx S))
      → Runs env cmd name start (record { service = v; jobs = before ++ job ∷ after })
      → Move env cmd name v job v' next
      → Runs env cmd name start (record { service = v'; jobs = before ++ (next ++ after) })
