-- ===== src/Network/Grpc/Isolation.antt =====
-- components/endpoint/network/grpc.rs: what calls and tasks of other addresses leave alone.
use jackfield.Common.{
  is_some, ℕ, ◌≡◌, ◌≢◌, refl, sym, ap, ◌∙◌, subst, List, [], ◌∷◌, ◌++◌, Bool, true, false, not,
  String, Option, none, some, Bool-cases, Option-cases, inl, inr, str_eq, eq_iff,
}
use jackfield.Platform.{Platform}
use jackfield.Platform.Double.{Double}
use jackfield.Bus.Handle.{BusCmdHandle}
use jackfield.Network.{Json}
use jackfield.Network.Socket.{RegisterData}
use jackfield.Network.Grpc.{
  not_found, Answer, response, status, lookup, remove, insert, EndpointEntry, Grpc, Service, Taken,
  deregister, stream, register,
}
use jackfield.Network.Grpc.Sessions.{
  lookup-insert, register-Entered, deregister-found, endpoints-drop_entry,
}
use jackfield.Network.Grpc.Calls.{
  Job, address, when, spawned, take_out, forwarding, reading, removing, Move, prepared,
  not_prepared, inserted, taken_out, not_taken_out, told, streamed, not_streamed, forwarded, read,
  removed, Server, Runs, here, outside, call, move,
}

-- Removing and inserting at one address keep what is found at another.
lookup-remove_apart :
    {E : Type 0} (k addr : String) (table : List (String × E))
    → str_eq addr k ≡ false
    → lookup k (remove addr table) ≡ lookup k table
lookup-remove_apart k addr [] h = refl
lookup-remove_apart k addr ((key, e) ∷ rest) h = elim (Bool-cases (str_eq key addr)) [
  | inl same ↦
      let other : str_eq key k ≡ false =
        subst (λ x. str_eq x k ≡ false) (sym ((eq_iff key addr).0 same)) h in
      rw (remove, same, lookup, other) (lookup-remove_apart k addr rest h)
  | inr apart ↦
      rw (remove, apart)
        (elim (Bool-cases (str_eq key k)) [
          | inl found ↦ rw (lookup, found) refl
          | inr not_here ↦ rw (lookup, not_here) (lookup-remove_apart k addr rest h)
        ])
]

lookup-insert_apart :
    {E : Type 0} (k addr : String) (e : E) (table : List (String × E))
    → str_eq addr k ≡ false
    → lookup k (insert addr e table) ≡ lookup k table
lookup-insert_apart k addr e table h = rw (lookup, h) (lookup-remove_apart k addr table h)

lookup-remove :
    {E : Type 0} (addr : String) (table : List (String × E))
    → lookup addr (remove addr table) ≡ none
lookup-remove addr [] = refl
lookup-remove addr ((key, e) ∷ rest) = elim (Bool-cases (str_eq key addr)) [
  | inl same ↦ rw (remove, same) (lookup-remove addr rest)
  | inr apart ↦ rw (remove, apart, lookup, apart) (lookup-remove addr rest)
]

module _ ⦃p : Platform⦄ ⦃d : Double⦄ {Rx S : Type 0} (k : String) where
  -- A job that is about another address.
  abbrev pub IsApart : Job Rx S → Type 0
  IsApart job = str_eq (address job) k ≡ false

  abbrev pub AllApart : List (Job Rx S) → Type 0
  AllApart [] = Unit
  AllApart (job ∷ jobs) = IsApart job × AllApart jobs

  AllApart-append : (xs ys : List (Job Rx S)) → AllApart xs → AllApart ys → AllApart (xs ++ ys)
  AllApart-append [] ys h q = q
  AllApart-append (x ∷ xs) ys h q = (h.0, AllApart-append xs ys h.1 q)

  of_AllApart : (xs ys : List (Job Rx S)) → AllApart (xs ++ ys) → AllApart xs × AllApart ys
  of_AllApart [] ys h = (tt, h)
  of_AllApart (x ∷ xs) ys h = let (a, b) = of_AllApart xs ys h.1 in ((h.0, a), b)

  when-AllApart : (b : Bool) (job : Job Rx S) → IsApart job → AllApart (when b job)
  when-AllApart true job h = (h, tt)
  when-AllApart false job h = tt

  spawned-AllApart :
      (addr : String) (t : Taken Rx S) → str_eq addr k ≡ false → AllApart (spawned addr t)
  unfolding spawned
  spawned-AllApart addr t h =
      AllApart-append _ _
        (when-AllApart (is_some t.consumer_rx) (forwarding addr t.consumer_reg_id) h)
        (when-AllApart (is_some t.producer_handle) (reading addr (not (is_some t.consumer_rx))) h)

  take_out-lookup :
      (env : Grpc Rx S) (addr : String) (bytes : List ℕ)
      (table : List (String × EndpointEntry Rx S))
      → str_eq addr k ≡ false
      → lookup k (take_out env addr bytes table).1 ≡ lookup k table
  unfolding take_out
  take_out-lookup env addr bytes table h = elim (Option-cases (p.from_slice bytes)) [
    | inl bad ↦ rw (take_out, bad) refl
    | inr (uuid, good) ↦ elim (Option-cases (lookup addr table)) [
      | inl missing ↦ rw (take_out, good, missing) refl
      | inr (entry, found) ↦ elim (Bool-cases (env.same entry.uuid uuid)) [
        | inl own ↦ rw (take_out, good, found, own) (lookup-remove_apart k addr table h)
        | inr other ↦ rw (take_out, good, found, other) refl
      ]
    ]
  ]

  stream-lookup :
      (addr : String) (v : Service Rx S)
      → str_eq addr k ≡ false
      → lookup k (stream (some addr) v).1.endpoints ≡ lookup k v.endpoints
  unfolding stream
  stream-lookup addr v h = elim (Option-cases (lookup addr v.endpoints)) [
    | inl missing ↦ rw (stream, missing) refl
    | inr (entry, found) ↦ rw (stream, found) (lookup-insert_apart k addr _ v.endpoints h)
  ]

module _ ⦃p : Platform⦄ ⦃d : Double⦄ ⦃j : Json⦄ {Rx S : Type 0} {env : Grpc Rx S}
    {cmd : BusCmdHandle S} {name : String} (k : String) where
  Move-lookup :
      {v v' : Service Rx S} {job : Job Rx S} {next : List (Job Rx S)}
      → Move env cmd name v job v' next
      → IsApart k job
      → (lookup k v'.endpoints ≡ lookup k v.endpoints) × AllApart k next
  Move-lookup (prepared e) h = (refl, (h, tt))
  Move-lookup (not_prepared e) h = (refl, tt)
  Move-lookup {v} (inserted {addr = addr}) h = (lookup-insert_apart k addr _ v.endpoints h, tt)
  Move-lookup {v} (taken_out {addr = addr} {bytes = bytes} e) h = (
    ap (λ (x : Answer (Option ℕ) × List (String × EndpointEntry Rx S)). lookup k x.1) (sym e)
        ∙ take_out-lookup k env addr bytes v.endpoints h,
    (h, tt),
  )
  Move-lookup {v} (not_taken_out {addr = addr} {bytes = bytes} e) h = (
    ap (λ (x : Answer (Option ℕ) × List (String × EndpointEntry Rx S)). lookup k x.1) (sym e)
        ∙ take_out-lookup k env addr bytes v.endpoints h,
    tt,
  )
  Move-lookup told h = (refl, tt)
  Move-lookup {v} (streamed {addr = addr} {t = t} e) h = (
    ap (λ (x : Answer (Taken Rx S) × Service Rx S). lookup k x.1.endpoints) (sym e)
        ∙ stream-lookup k addr v h,
    spawned-AllApart k addr t h,
  )
  Move-lookup {v} (not_streamed {addr = addr} e) h = (
    ap (λ (x : Answer (Taken Rx S) × Service Rx S). lookup k x.1.endpoints) (sym e)
        ∙ stream-lookup k addr v h,
    tt,
  )
  Move-lookup forwarded h = (refl, (h, tt))
  Move-lookup (read {addr = addr} {cleanup = cleanup}) h =
      (refl, when-AllApart k cleanup (removing addr) h)
  Move-lookup {v} (removed {addr = addr}) h = (lookup-remove_apart k addr v.endpoints h, tt)

  -- All calls that come in are about other addresses.
  abbrev pub CallsApart : {start s : Server Rx S} → Runs env cmd name start s → Type 0
  CallsApart here = Unit
  CallsApart (outside s r) = CallsApart r
  CallsApart (call job h r) = IsApart k job × CallsApart r
  CallsApart (move before after r mv) = CallsApart r

  pub Runs-lookup :
      {start s : Server Rx S} (r : Runs env cmd name start s)
      → AllApart k start.jobs
      → CallsApart r
      → (lookup k s.service.endpoints ≡ lookup k start.service.endpoints) × AllApart k s.jobs
  Runs-lookup here a c = (refl, a)
  Runs-lookup (outside s r) a c = Runs-lookup r a c
  Runs-lookup (call job h r) a c = let (same, jobs) = Runs-lookup r a c.1 in (same, (c.0, jobs))
  Runs-lookup (move {job = job} {next = next} before after r mv) a c =
      let (same, jobs) = Runs-lookup r a c in
      let (left, right) = of_AllApart k before (job ∷ after) jobs in
      let (step, new) = Move-lookup mv right.0 in
      (
        step ∙ same,
        AllApart-append k before (next ++ after) left (AllApart-append k next after new right.1),
      )

module _ ⦃p : Platform⦄ ⦃d : Double⦄ ⦃j : Json⦄ {Rx S : Type 0} where
  -- Whatever calls and tasks of other addresses do meanwhile, in any interleaving, with the bus and
  -- the channels at work: after a registration that succeeds, its address can deregister with the
  -- uuid that it was given, and then has no entry, and the entries of other addresses stay; with
  -- another uuid it gets `NotFound`, and nothing changes.
  pub deregister_later :
      (env : Grpc Rx S) (cmd : BusCmdHandle S) (name addr : String) (reg : RegisterData)
      (v w : Service Rx S) (bytes : List ℕ) (jobs : List (Job Rx S)) (s : Server Rx S) (k : String)
      (uuid : p.Uuid)
      → register env cmd name (some addr) reg v ≡ (response bytes, w)
      → (r : Runs env cmd name (record { service = w; jobs = jobs }) s) → AllApart addr jobs
      → CallsApart addr r
      → str_eq addr k ≡ false
      → p.as_bytes uuid ≢ bytes
      → let (answer, v') = deregister env cmd (some addr) bytes s.service in
        (answer ≡ response tt)
        × (lookup addr v'.endpoints ≡ none)
        × (lookup k v'.endpoints ≡ lookup k s.service.endpoints)
        × (deregister env cmd (some addr) (p.as_bytes uuid) s.service
            ≡ (status (not_found "uuid mismatch"), s.service))
  deregister_later env cmd name addr reg v w bytes jobs s k uuid h r apart calls other ne =
      let e = register-Entered env cmd name addr reg v w bytes h in
      let found : lookup addr s.service.endpoints ≡ some e.entry =
        (Runs-lookup addr r apart calls).0
        ∙ ap (lookup addr) e.there
        ∙ lookup-insert addr e.entry v.endpoints in
      let (own, others) = deregister-found env cmd addr e.entry s.service found in
      let ended = ap (λ b. deregister env cmd (some addr) b s.service) e.told ∙ own in
      let table =
        ap (λ (x : Answer Unit × Service Rx S). x.1.endpoints) ended
        ∙ endpoints-drop_entry cmd addr e.entry.consumer_reg_id s.service in
      (
        ap (λ (x : Answer Unit × Service Rx S). x.0) ended,
        ap (lookup addr) table ∙ lookup-remove addr s.service.endpoints,
        ap (lookup k) table ∙ lookup-remove_apart k addr s.service.endpoints other,
        others uuid (λ same. ne (sym (e.told ∙ ap p.as_bytes same))),
      )
