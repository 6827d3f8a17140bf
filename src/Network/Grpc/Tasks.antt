-- ===== src/Network/Grpc/Tasks.antt =====
-- components/endpoint/network/grpc.rs: the two tasks that `stream` spawns, where no call of the
-- service comes between their steps, and a task that outlives its registration.
use jackfield.Common.{ℕ, ◌≡◌, refl, ap, ◌∙◌, List, [], ◌∷◌, map, Bool, String, none, some}
use jackfield.Platform.{Platform}
use jackfield.Platform.Double.{Double}
use jackfield.Message.{BusableItem, from_item}
use jackfield.Bus.Handle.{BusCmdHandle, make_producer_handle}
use jackfield.Bus.Handle
use jackfield.Producer.{ProducerHandle, Runtime, make_send}
use jackfield.Network.{Json}
use jackfield.Network.Forwarding.{relay}
use jackfield.Network.Socket.{RegisterData, world_after}
use jackfield.Network.Socket.Session.{send_each, world_after-make_send}
use jackfield.Network.Grpc.{
  not_found, failed_precondition, response, status, lookup, remove, Grpc, Service, Taken,
  drop_entry, deregister, stream, register, consumer_task_ends, producer_task_ends,
}
use jackfield.Network.Grpc.Sessions.{remove-insert, register-Entered, endpoints-drop_entry}

module _ ⦃p : Platform⦄ ⦃d : Double⦄ {S : Type 0} where
  -- From the client to the bus, whatever `make_send` answers.
  unfoldable pub producer_loop : Runtime S → ProducerHandle S → List BusableItem → S → S
  unfolding make_send from_item
  producer_loop rt h [] s = s
  producer_loop rt h (item ∷ items) s =
      producer_loop rt h items (world_after s (make_send rt h 0 (from_item item) s))

  -- It sends the bus the messages of the client in order, under the origin of the
  -- registration.
  pub producer_loop-send_each :
      (rt : Runtime S) (cmd : BusCmdHandle S) (origin : String) (items : List BusableItem) (s : S)
      → producer_loop rt (make_producer_handle cmd origin) items s
        ≡ send_each cmd.envelope_tx origin (map from_item items) s
  unfolding producer_loop
  producer_loop-send_each rt cmd origin [] s = refl
  producer_loop-send_each rt cmd origin (item ∷ items) s =
      rw (world_after-make_send) (producer_loop-send_each rt cmd origin items _)

module _ ⦃p : Platform⦄ ⦃d : Double⦄ {Rx S : Type 0} where
  -- From the consumer's channel to the client; send is that of the stream, and tells whether the
  -- client is still there.
  unfoldable pub consumer_task :
      (BusableItem → S → Bool × S)
      → BusCmdHandle S
      → String
      → Taken Rx S
      → List BusableItem
      → Service Rx S
      → Service Rx S
  unfolding relay consumer_task_ends
  consumer_task send cmd addr t items v =
      consumer_task_ends cmd addr t (record v { world = relay send items v.world })

  -- From the client to the bus; it is spawned only for a producer handle.
  unfoldable pub producer_task :
      Runtime S → String → Taken Rx S → List BusableItem → Service Rx S → Service Rx S
  unfolding producer_loop producer_task_ends
  producer_task rt addr t items v = elim t.producer_handle [
    | none ↦ v
    | some h ↦ producer_task_ends addr t (record v { world = producer_loop rt h items v.world })
  ]

  world-drop_entry :
      (cmd : BusCmdHandle S) (addr : String) (id : ℕ) (v : Service Rx S)
      → (drop_entry cmd addr (some id) v).world ≡ Handle.deregister cmd id v.world
  unfolding drop_entry
  world-drop_entry cmd addr id v = refl

  deregister-none :
      (env : Grpc Rx S) (cmd : BusCmdHandle S) (addr : String) (uuid : p.Uuid) (v : Service Rx S)
      → lookup addr v.endpoints ≡ none
      → deregister env cmd (some addr) (p.as_bytes uuid) v
        ≡ (status (not_found "not registered"), v)
  unfolding deregister
  deregister-none env cmd addr uuid v h = rw (deregister, p.from_slice-as_bytes uuid, h) refl

  stream-none :
      (addr : String) (v : Service Rx S)
      → lookup addr v.endpoints ≡ none
      → stream (some addr) v
        ≡ (status (failed_precondition "not registered; call Register first"), v)
  unfolding stream
  stream-none addr v h = rw (stream, h) refl

module _ ⦃p : Platform⦄ ⦃d : Double⦄ ⦃j : Json⦄ {Rx S : Type 0} where
  -- A task that forwards to the client, from a stream of an earlier registration, may end after
  -- its address was registered anew. It then tells the bus only its own consumer's id, but takes
  -- the new registration out of the table: the table is as before it, and the client, with the
  -- uuid that it was given, can neither deregister nor stream.
  pub stale_task :
      (env : Grpc Rx S) (cmd : BusCmdHandle S) (name addr : String) (reg : RegisterData)
      (old : Taken Rx S) (old_id : ℕ) (v w : Service Rx S) (bytes : List ℕ)
      → old.consumer_reg_id ≡ some old_id
      → lookup addr v.endpoints ≡ none
      → register env cmd name (some addr) reg v ≡ (response bytes, w)
      → let w' = consumer_task_ends cmd addr old w in
        (w'.endpoints ≡ v.endpoints)
        × (w'.world ≡ Handle.deregister cmd old_id w.world)
        × (deregister env cmd (some addr) bytes w' ≡ (status (not_found "not registered"), w'))
        × (stream (some addr) w'
            ≡ (status (failed_precondition "not registered; call Register first"), w'))
  unfolding consumer_task_ends
  stale_task env cmd name addr reg old old_id v w bytes mine free h =
      let e = register-Entered env cmd name addr reg v w bytes h in
      let w' = consumer_task_ends cmd addr old w in
      let back : w'.endpoints ≡ v.endpoints =
        endpoints-drop_entry cmd addr old.consumer_reg_id w
        ∙ ap (remove addr) e.there
        ∙ remove-insert addr e.entry v.endpoints free in
      let gone = ap (lookup addr) back ∙ free in
      (
        back,
        ap (λ id. (drop_entry cmd addr id w).world) mine ∙ world-drop_entry cmd addr old_id w,
        ap (λ b. deregister env cmd (some addr) b w') e.told
            ∙ deregister-none env cmd addr e.entry.uuid w' gone,
        stream-none addr w' gone,
      )
