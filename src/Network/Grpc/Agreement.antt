-- ===== src/Network/Grpc/Agreement.antt =====
-- components/endpoint/network/grpc.rs: the handlers and the ends of a stream's tasks, as runs of the
-- service.
use jackfield.Common.{ℕ, ◌↔◌, ◌≡◌, List, [], ◌∷◌, String, Option}
use jackfield.Platform.{Platform}
use jackfield.Platform.Double.{Double}
use jackfield.Dimension.{Dimension}
use jackfield.Bus.Handle.{BusCmdHandle}
use jackfield.Network.{Json}
use jackfield.Network.Socket.{RegisterData}
use jackfield.Network.Grpc.{Answer, response, status, EndpointEntry, Grpc, Service, finish, Taken}
use jackfield.Network.Grpc.Calls.{Prepared, refused, ready, tell, Job, Runs}
use jackfield.Network.Grpc.Alone.{Alone}
use jackfield.Network.Grpc.Streams.{stream_ends}

module _ ⦃p : Platform⦄ ⦃d : Double⦄ ⦃j : Json⦄ {Rx S : Type 0} (env : Grpc Rx S)
    (cmd : BusCmdHandle S) (name : String) where
  -- The moves of a call of `register`, and of one of `deregister`, with nothing between them.
  abbrev then_inserted :
      RegisterData → String → Service Rx S → Prepared Rx S × S → Answer (List ℕ) × Service Rx S
  unfolding finish
  then_inserted reg addr v (refused e, s) = (status e, record v { world = s })
  then_inserted reg addr v (ready entry, s) =
      finish env cmd name reg addr entry (record v { world = s })

  abbrev then_told :
      Service Rx S
      → Answer (Option ℕ) × List (String × EndpointEntry Rx S)
      → Answer Unit × Service Rx S
  unfolding tell
  then_told v (response id, table) =
      (response tt, record { endpoints = table; world = tell cmd id v.world })
  then_told v (status e, table) = (status e, record v { endpoints = table })

  -- A stream that is answered, with the tasks of what it took.
  abbrev pub and_its_tasks : String → Answer (Taken Rx S) × Service Rx S → Service Rx S
  unfolding stream_ends
  and_its_tasks addr (response t, v) = stream_ends cmd addr t v
  and_its_tasks addr (status e, v) = v

  -- A call that runs with nothing between, to the end of what it spawns, ends in this state only, and
  -- so the service can run, beside whatever else is under way.
  abbrev pub Does : Job Rx S → Service Rx S → List (Job Rx S) → Service Rx S → Service Rx S → Type 0
  Does job v others w x =
      (Alone env cmd name v (job ∷ []) w ↔ (w ≡ x))
      × Runs env cmd name (record { service = v; jobs = job ∷ others })
          (record { service = x; jobs = others })
