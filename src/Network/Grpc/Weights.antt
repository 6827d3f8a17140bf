-- ===== src/Network/Grpc/Weights.antt =====
-- components/endpoint/network/grpc.rs: in how many places the service has an id that the bus gave it.
use jackfield.Common.{
  is_some, ℕ, ◌+◌, ◌≤◌, ◌≡◌, refl, subst, List, [], ◌∷◌, Bool, true, false, not, String, Option,
  none, some, Bool-cases, Option-cases, inl, inr, str_eq, total, total-append, ◌==◌, if◌then◌else◌,
  arith,
}
use jackfield.Platform.{Platform}
use jackfield.Platform.Double.{Double}
use jackfield.Network.Grpc.{
  Answer, response, status, lookup, remove, EndpointEntry, Grpc, Service, Taken, stream,
}
use jackfield.Network.Grpc.Calls.{
  Job, registering, deregistering, streaming, removing, inserting, leaving, forwarding, reading,
  when, spawned, take_out, is_call, Server,
}

-- The weight of a table, and what an entry that goes takes along.
abbrev pub weigh : {E : Type 0} → (E → ℕ) → List (String × E) → ℕ
weigh w [] = 0
weigh w ((key, e) ∷ rest) = w e + weigh w rest

pub weigh-remove :
    {E : Type 0} (w : E → ℕ) (addr : String) (table : List (String × E))
    → weigh w (remove addr table) ≤ weigh w table
weigh-remove w addr [] = omega arith
weigh-remove w addr ((key, e) ∷ rest) = ground (arith, weigh-remove w addr rest)

pub weigh-lookup :
    {E : Type 0} (w : E → ℕ) (addr : String) (table : List (String × E)) (e : E)
    → lookup addr table ≡ some e
    → weigh w (remove addr table) + w e ≤ weigh w table
weigh-lookup w addr [] e h = absurd (cc)
weigh-lookup w addr ((key, x) ∷ rest) e h = elim (Bool-cases (str_eq key addr)) [
  | inl same ↦
      let here : some x ≡ some e = rw (lookup, same) at h in
      rw (remove, same) (ground (arith, here, weigh-remove w addr rest))
  | inr apart ↦
      let ih = weigh-lookup w addr rest e (rw (lookup, apart) at h) in
      rw (remove, apart) (omega (arith, ih))
]

-- Whether an id is the one asked for.
abbrev pub named : ℕ → Option ℕ → ℕ
named i none = 0
named i (some id) = if id == i then 1 else 0

abbrev pub answered : ℕ → Answer (Option ℕ) → ℕ
answered i (response id) = named i id
answered i (status e) = 0

module _ ⦃p : Platform⦄ ⦃d : Double⦄ {Rx S : Type 0} (i : ℕ) where
  -- An entry with the id, and one whose receiver no stream has taken yet.
  abbrev pub held : EndpointEntry Rx S → ℕ
  held e = named i e.consumer_reg_id

  abbrev pub live : EndpointEntry Rx S → ℕ
  live e = elim e.consumer_rx [ none ↦ 0 | some rx ↦ named i e.consumer_reg_id ]

  -- The jobs that have the id, from a registration to a call of `deregister`, and to the end of a
  -- stream.
  abbrev pub to_call : Job Rx S → ℕ
  to_call (inserting addr reg e) = held e
  to_call (leaving addr id) = named i id
  to_call _ = 0

  abbrev pub to_task : Job Rx S → ℕ
  to_task (inserting addr reg e) = live e
  to_task (forwarding addr id) = named i id
  to_task _ = 0

  -- The places that have the id, of a service and what is under way: for calls, and for tasks.
  abbrev pub for_calls : Server Rx S → ℕ
  for_calls s = weigh held s.service.endpoints + total to_call s.jobs

  abbrev pub for_tasks : Server Rx S → ℕ
  for_tasks s = weigh live s.service.endpoints + total to_task s.jobs

  take_out-held :
      (env : Grpc Rx S) (addr : String) (bytes : List ℕ)
      (table : List (String × EndpointEntry Rx S))
      → let (answer, table') = take_out env addr bytes table in
        weigh held table' + answered i answer ≤ weigh held table
  unfolding take_out
  take_out-held env addr bytes table = elim (Option-cases (p.from_slice bytes)) [
    | inl bad ↦ rw (take_out, bad) (omega arith)
    | inr (uuid, good) ↦ elim (Option-cases (lookup addr table)) [
      | inl missing ↦ rw (take_out, good, missing) (omega arith)
      | inr (entry, found) ↦ elim (Bool-cases (env.same entry.uuid uuid)) [
        | inl own ↦ rw (take_out, good, found, own) (weigh-lookup held addr table entry found)
        | inr other ↦ rw (take_out, good, found, other) (omega arith)
      ]
    ]
  ]

  take_out-live :
      (env : Grpc Rx S) (addr : String) (bytes : List ℕ)
      (table : List (String × EndpointEntry Rx S))
      → weigh live (take_out env addr bytes table).1 ≤ weigh live table
  unfolding take_out
  take_out-live env addr bytes table = elim (Option-cases (p.from_slice bytes)) [
    | inl bad ↦ rw (take_out, bad) (omega arith)
    | inr (uuid, good) ↦ elim (Option-cases (lookup addr table)) [
      | inl missing ↦ rw (take_out, good, missing) (omega arith)
      | inr (entry, found) ↦ elim (Bool-cases (env.same entry.uuid uuid)) [
        | inl own ↦ rw (take_out, good, found, own) (weigh-remove live addr table)
        | inr other ↦ rw (take_out, good, found, other) (omega arith)
      ]
    ]
  ]

  abbrev pub live_of : Taken Rx S → ℕ
  live_of t = elim t.consumer_rx [ none ↦ 0 | some rx ↦ named i t.consumer_reg_id ]

  abbrev pub taken_live : Answer (Taken Rx S) → ℕ
  taken_live (response t) = live_of t
  taken_live (status e) = 0

  stream-weighs :
      (addr : String) (v : Service Rx S)
      → let (answer, v') = stream (some addr) v in
        (weigh held v'.endpoints ≤ weigh held v.endpoints)
        × (weigh live v'.endpoints + taken_live answer ≤ weigh live v.endpoints)
  unfolding stream
  stream-weighs addr v = elim (Option-cases (lookup addr v.endpoints)) [
    | inl missing ↦ rw (stream, missing) (omega arith, omega arith)
    | inr (entry, found) ↦
        rw (stream, found)
          (
            omega (arith, weigh-lookup held addr v.endpoints entry found),
            omega (arith, weigh-lookup live addr v.endpoints entry found),
          )
  ]

  pub when-nothing :
      (w : Job Rx S → ℕ) (b : Bool) (job : Job Rx S) → w job ≡ 0 → total w (when b job) ≡ 0
  when-nothing w true job h = omega (arith, h)
  when-nothing w false job h = refl

  forwarding-live :
      (addr : String) (t : Taken Rx S)
      → total to_task (when (is_some t.consumer_rx) (forwarding addr t.consumer_reg_id)) ≡ live_of t
  forwarding-live addr t = elim (Option-cases t.consumer_rx) [
    | inl quiet ↦ rw quiet refl
    | inr (rx, consumes) ↦ rw consumes (omega arith)
  ]

  pub spawned-weighs :
      (addr : String) (t : Taken Rx S)
      → (total to_call (spawned addr t) ≡ 0) × (total to_task (spawned addr t) ≡ live_of t)
  unfolding spawned
  spawned-weighs addr t =
      let reads : Job Rx S = reading addr (not (is_some t.consumer_rx)) in
      let forwards : Job Rx S = forwarding addr t.consumer_reg_id in
      let first : List (Job Rx S) = when (is_some t.consumer_rx) forwards in
      let second : List (Job Rx S) = when (is_some t.producer_handle) reads in
      (
        omega (
          arith,
          total-append to_call first second,
          when-nothing to_call (is_some t.consumer_rx) forwards refl,
          when-nothing to_call (is_some t.producer_handle) reads refl,
        ),
        omega (
          arith,
          total-append to_task first second,
          forwarding-live addr t,
          when-nothing to_task (is_some t.producer_handle) reads refl,
        ),
      )

  pub live-held : (e : EndpointEntry Rx S) → live e ≤ held e
  live-held e = elim (Option-cases e.consumer_rx) [
    | inl quiet ↦ rw quiet (omega arith)
    | inr (rx, consumes) ↦ rw consumes (omega arith)
  ]

  pub take_out-weighs :
      (env : Grpc Rx S) (addr : String) (bytes : List ℕ)
      (table : List (String × EndpointEntry Rx S)) (answer : Answer (Option ℕ))
      (table' : List (String × EndpointEntry Rx S))
      → take_out env addr bytes table ≡ (answer, table')
      → (weigh held table' + answered i answer ≤ weigh held table)
        × (weigh live table' ≤ weigh live table)
  take_out-weighs env addr bytes table answer table' e =
      subst
        (λ (x : Answer (Option ℕ) × List (String × EndpointEntry Rx S)).
          (weigh held x.1 + answered i x.0 ≤ weigh held table)
          × (weigh live x.1 ≤ weigh live table))
        e (take_out-held env addr bytes table, take_out-live env addr bytes table)

  pub streamed-weighs :
      (addr : String) (v v' : Service Rx S) (answer : Answer (Taken Rx S))
      → stream (some addr) v ≡ (answer, v')
      → (weigh held v'.endpoints ≤ weigh held v.endpoints)
        × (weigh live v'.endpoints + taken_live answer ≤ weigh live v.endpoints)
  streamed-weighs addr v v' answer e =
      subst
        (λ (x : Answer (Taken Rx S) × Service Rx S).
          (weigh held x.1.endpoints ≤ weigh held v.endpoints)
          × (weigh live x.1.endpoints + taken_live x.0 ≤ weigh live v.endpoints))
        e (stream-weighs addr v)

  pub call-weighs : (job : Job Rx S) → is_call job ≡ true → (to_call job ≡ 0) × (to_task job ≡ 0)
  call-weighs (inserting addr reg e) h = cc
  call-weighs (leaving addr id) h = cc
  call-weighs (forwarding addr id) h = cc
  call-weighs (registering addr reg) h = (refl, refl)
  call-weighs (deregistering addr bytes) h = (refl, refl)
  call-weighs (streaming addr) h = (refl, refl)
  call-weighs (reading addr cleanup) h = (refl, refl)
  call-weighs (removing addr) h = (refl, refl)
