-- ===== src/Network/Grpc/Alone.antt =====
-- components/endpoint/network/grpc.rs: jobs of the service that run to their end, one after the
-- other and with nothing between.
use jackfield.Common.{ℕ, ◌≡◌, refl, sym, ap, subst, ◌∙◌, List, [], ◌∷◌, ◌++◌, String, Option, some}
use mathlib.Core.List.{append_assoc}
use jackfield.Platform.{Platform}
use jackfield.Platform.Double.{Double}
use jackfield.Bus.Handle.{BusCmdHandle}
use jackfield.Network.{Json}
use jackfield.Network.Socket.{RegisterData}
use jackfield.Network.Grpc.{
  Answer, response, status, remove, insert, EndpointEntry, Grpc, Service, Taken, with_producer,
  stream,
}
use jackfield.Network.Grpc.Calls.{
  Prepared, refused, ready, prepare, take_out, tell, spawned, when, Job, registering, inserting,
  deregistering, leaving, streaming, forwarding, reading, removing, Move, prepared, not_prepared,
  inserted, taken_out, not_taken_out, told, streamed, not_streamed, forwarded, read, removed,
  Server, Runs, move,
}

-- The first job moves, and what follows it comes before the others.
pub data Alone ⦃p : Platform⦄ ⦃d : Double⦄ ⦃j : Json⦄ {Rx S : Type 0} (env : Grpc Rx S)
    (cmd : BusCmdHandle S) (name : String)
    : Service Rx S → List (Job Rx S) → Service Rx S → Type 0 where
  ended : {v : Service Rx S} → Alone env cmd name v [] v
  moved :
      {v v' w : Service Rx S} {job : Job Rx S} {next jobs : List (Job Rx S)}
      → Move env cmd name v job v' next
      → Alone env cmd name v' (next ++ jobs) w
      → Alone env cmd name v (job ∷ jobs) w

module _ ⦃p : Platform⦄ ⦃d : Double⦄ ⦃j : Json⦄ {Rx S : Type 0} (env : Grpc Rx S)
    (cmd : BusCmdHandle S) (name : String) where
  abbrev after_prepare :
      String → RegisterData → Service Rx S → Prepared Rx S × S → Service Rx S × List (Job Rx S)
  after_prepare addr reg v (refused e, s) = (record v { world = s }, [])
  after_prepare addr reg v (ready entry, s) =
      (record v { world = s }, inserting addr reg entry ∷ [])

  abbrev after_take_out :
      String
      → Service Rx S
      → Answer (Option ℕ) × List (String × EndpointEntry Rx S)
      → Service Rx S × List (Job Rx S)
  after_take_out addr v (response id, table) =
      (record v { endpoints = table }, leaving addr id ∷ [])
  after_take_out addr v (status e, table) = (record v { endpoints = table }, [])

  abbrev after_stream : String → Answer (Taken Rx S) × Service Rx S → Service Rx S × List (Job Rx S)
  unfolding spawned
  after_stream addr (response t, v) = (v, spawned addr t)
  after_stream addr (status e, v) = (v, [])

  -- What a job does next, as a function.
  abbrev advance : Job Rx S → Service Rx S → Service Rx S × List (Job Rx S)
  unfolding prepare take_out stream after_stream tell with_producer
  advance (registering addr reg) v = after_prepare addr reg v (prepare env cmd reg v.world)
  advance (inserting addr reg entry) v =
      (record v { endpoints = insert addr (with_producer env cmd name reg entry) v.endpoints }, [])
  advance (deregistering addr bytes) v = after_take_out addr v (take_out env addr bytes v.endpoints)
  advance (leaving addr id) v = (record v { world = tell cmd id v.world }, [])
  advance (streaming addr) v = after_stream addr (stream (some addr) v)
  advance (forwarding addr id) v = (record v { world = tell cmd id v.world }, removing addr ∷ [])
  advance (reading addr cleanup) v = (v, when cleanup (removing addr))
  advance (removing addr) v = (record v { endpoints = remove addr v.endpoints }, [])

  Move-advance :
      {v v' : Service Rx S} {job : Job Rx S} {next : List (Job Rx S)}
      → Move env cmd name v job v' next
      → (v', next) ≡ advance job v
  unfolding advance
  Move-advance (prepared {v = v} {addr = addr} {reg = reg} h) =
      sym (ap (after_prepare addr reg v) h)
  Move-advance (not_prepared {v = v} {addr = addr} {reg = reg} h) =
      sym (ap (after_prepare addr reg v) h)
  Move-advance inserted = refl
  Move-advance (taken_out {v = v} {addr = addr} h) = sym (ap (after_take_out addr v) h)
  Move-advance (not_taken_out {v = v} {addr = addr} h) = sym (ap (after_take_out addr v) h)
  Move-advance told = refl
  Move-advance (streamed {addr = addr} h) = sym (ap (after_stream addr) h)
  Move-advance (not_streamed {addr = addr} h) = sym (ap (after_stream addr) h)
  Move-advance forwarded = refl
  Move-advance read = refl
  Move-advance removed = refl

  -- They can end in one way only.
  pub Alone-unique :
      {v w w' : Service Rx S} {jobs : List (Job Rx S)}
      → Alone env cmd name v jobs w
      → Alone env cmd name v jobs w'
      → w ≡ w'
  Alone-unique ended ended = refl
  Alone-unique {w' = w'} (moved {jobs = jobs} m rest) (moved m' rest') = Alone-unique rest (
      subst (λ (x : Service Rx S × List (Job Rx S)). Alone env cmd name x.0 (x.1 ++ jobs) w')
        (Move-advance m' ∙ sym (Move-advance m)) rest')

  -- and this is a run of the service, beside other jobs.
  pub Alone-Runs :
      {start : Server Rx S} {v w : Service Rx S} {jobs : List (Job Rx S)} (others : List (Job Rx S))
      → Runs env cmd name start (record { service = v; jobs = jobs ++ others })
      → Alone env cmd name v jobs w
      → Runs env cmd name start (record { service = w; jobs = others })
  Alone-Runs others run ended = run
  Alone-Runs {start = start} others run (moved {v' = v'} {next = next} {jobs = jobs} m rest) =
      Alone-Runs others
        (subst (λ l. Runs env cmd name start (record { service = v'; jobs = l }))
          (sym (append_assoc next jobs others)) (move [] (jobs ++ others) run m))
        rest
