-- ===== src/Network/Grpc/Streams.antt =====
-- components/endpoint/network/grpc.rs: a registration, its streams, and their end.
use jackfield.Common.{
  Option-cases, sym, inl, inr, ℕ, ◌≡◌, refl, ap, ◌∙◌, List, ◌∷◌, String, none, some, is_some, Bool,
  true, false, ◌||◌, if◌then◌else◌,
}
use jackfield.Platform.{Platform}
use jackfield.Platform.Double.{Double}
use jackfield.Bus.Handle.{BusCmdHandle}
use jackfield.Network.{Json}
use jackfield.Network.Socket.{RegisterData, is_consumer, is_producer}
use jackfield.Network.Grpc.{
  Answer, EndpointEntry, insert, response, lookup, remove, Grpc, Service, Taken, stream, register,
  consumer_task_ends, producer_task_ends,
}
use jackfield.Network.Grpc.Sessions.{
  remove_absent, lookup-insert, remove-insert, register-Entered, endpoints-drop_entry,
}

if-restored :
    {A : Type 0} (consumes sends : Bool) (w : A) {gone v : A}
    → gone ≡ v
    → (if consumes || sends then gone else w) ≡ (if consumes || sends then v else w)
if-restored true sends w e = e
if-restored false true w e = e
if-restored false false w e = refl

module _ ⦃p : Platform⦄ ⦃d : Double⦄ {Rx S : Type 0} where
  -- What a stream takes out of an entry, and what it leaves of it.
  abbrev pub taken_of : EndpointEntry Rx S → Taken Rx S
  taken_of e = record {
    consumer_rx = e.consumer_rx;
    consumer_reg_id = e.consumer_reg_id;
    producer_handle = e.producer_handle;
  }

  -- The ends of the tasks that a stream spawned: one for a receiver, one for a producer handle.
  unfoldable pub stream_ends : BusCmdHandle S → String → Taken Rx S → Service Rx S → Service Rx S
  unfolding consumer_task_ends producer_task_ends
  stream_ends cmd addr t v =
      producer_task_ends addr t
        (elim t.consumer_rx [ none ↦ v | some rx ↦ consumer_task_ends cmd addr t v ])

  stream-found :
      (addr : String) (entry : EndpointEntry Rx S) (v : Service Rx S)
      → lookup addr v.endpoints ≡ some entry
      → stream (some addr) v ≡ (
        response (taken_of entry),
        record v {
          endpoints =
              insert addr (record entry { consumer_rx = none; producer_handle = none }) v.endpoints;
        },
      )
  unfolding stream
  stream-found addr entry v h = rw (stream, h) refl

  endpoints-stream_ends :
      (cmd : BusCmdHandle S) (addr : String) (t : Taken Rx S) (v : Service Rx S)
      → (stream_ends cmd addr t v).endpoints ≡ (
          if is_some t.consumer_rx || is_some t.producer_handle
          then remove addr v.endpoints
          else v.endpoints)
  unfolding stream_ends consumer_task_ends producer_task_ends
  endpoints-stream_ends cmd addr t v =
      let dropped = endpoints-drop_entry cmd addr t.consumer_reg_id v in
      elim (Option-cases t.consumer_rx) [
        | inl quiet ↦ elim (Option-cases t.producer_handle) [
          | inl mute ↦ rw (quiet, mute) refl
          | inr (handle, sends) ↦ rw (quiet, sends) refl
        ]
        | inr (rx, consumes) ↦ elim (Option-cases t.producer_handle) [
          | inl mute ↦ rw (consumes, mute) dropped
          | inr (handle, sends) ↦ rw (consumes, sends) dropped
        ]
      ]

  insert-insert :
      (addr : String) (e e' : EndpointEntry Rx S) (table : List (String × EndpointEntry Rx S))
      → lookup addr table ≡ none
      → insert addr e' (insert addr e table) ≡ insert addr e' table
  insert-insert addr e e' table free =
      ap (λ l. (addr, e') ∷ l)
        (remove-insert addr e table free ∙ sym (remove_absent addr table free))

module _ ⦃p : Platform⦄ ⦃d : Double⦄ ⦃j : Json⦄ {Rx S : Type 0} where
  -- After a registration at a free address that succeeds, the first stream there gets a receiver if
  -- the registration is a consumer's and a producer handle if it is a producer's, and a second one
  -- gets neither. When the tasks that the first one spawned have ended, with nothing between, the
  -- table is as it was before the registration; for a registration with neither role there is no
  -- such task, and the entry stays.
  pub stream_ends-register :
      (env : Grpc Rx S) (cmd : BusCmdHandle S) (name addr : String) (reg : RegisterData)
      (v w : Service Rx S) (bytes : List ℕ)
      → lookup addr v.endpoints ≡ none
      → register env cmd name (some addr) reg v ≡ (response bytes, w)
      → let (answer, w') = stream (some addr) w in
        (t : Taken Rx S) × (answer ≡ response t)
        × ((stream (some addr) w').0
            ≡ response (record t { consumer_rx = none; producer_handle = none }))
        × (is_some t.consumer_rx ≡ is_consumer reg)
        × (is_some t.producer_handle ≡ is_producer reg)
        × ((stream_ends cmd addr t w').endpoints
            ≡ (if is_consumer reg || is_producer reg then v.endpoints else w'.endpoints))
  stream_ends-register env cmd name addr reg v w bytes free h =
      let e = register-Entered env cmd name addr reg v w bytes h in
      let found = ap (lookup addr) e.there ∙ lookup-insert addr e.entry v.endpoints in
      let rest = record e.entry { consumer_rx = none; producer_handle = none } in
      let first = stream-found addr e.entry w found in
      let table =
        ap (λ (x : Answer (Taken Rx S) × Service Rx S). x.1.endpoints) first
        ∙ ap (insert addr rest) e.there
        ∙ insert-insert addr e.entry rest v.endpoints free in
      let w' = (stream (some addr) w).1 in
      let again =
        stream-found addr rest w' (ap (lookup addr) table ∙ lookup-insert addr rest v.endpoints) in
      (
        taken_of e.entry,
        ap (λ (x : Answer (Taken Rx S) × Service Rx S). x.0) first,
        ap (λ (x : Answer (Taken Rx S) × Service Rx S). x.0) again,
        e.receives,
        e.sends,
        endpoints-stream_ends cmd addr (taken_of e.entry) w'
            ∙ if-restored (is_some e.entry.consumer_rx) (is_some e.entry.producer_handle)
                w'.endpoints (ap (remove addr) table ∙ remove-insert addr rest v.endpoints free)
            ∙ ap (λ b. if b || is_some e.entry.producer_handle then v.endpoints else w'.endpoints)
                e.receives
            ∙ ap (λ b. if is_consumer reg || b then v.endpoints else w'.endpoints) e.sends,
      )
