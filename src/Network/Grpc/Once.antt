-- ===== src/Network/Grpc/Once.antt =====
-- components/endpoint/network/grpc.rs: the consumers that the service tells the bus to deregister.
use jackfield.Common.{ℕ, ◌+◌, ◌≤◌, refl, List, ◌∷◌, ◌++◌, String, total, total-append, arith}
use jackfield.Platform.{Platform}
use jackfield.Platform.Double.{Double}
use jackfield.Bus.Handle.{BusCmdHandle}
use jackfield.Network.{Json}
use jackfield.Network.Grpc.{Grpc, Service, with_producer}
use jackfield.Network.Grpc.Calls.{
  opened, Job, removing, Move, prepared, not_prepared, inserted, taken_out, not_taken_out, told,
  streamed, not_streamed, forwarded, read, removed, Server, Runs, here, outside, call, move,
}
use jackfield.Network.Grpc.Weights.{
  weigh, named, held, live, to_call, to_task, weigh-remove, take_out-weighs, streamed-weighs,
  spawned-weighs, when-nothing, live-held, call-weighs, for_calls, for_tasks,
}

module _ ⦃p : Platform⦄ ⦃d : Double⦄ ⦃j : Json⦄ {Rx S : Type 0} {env : Grpc Rx S}
    {cmd : BusCmdHandle S} {name : String} (i : ℕ) where
  -- In a move: whether the bus gives the id, and whether it is told it by a call, or by the task of
  -- a stream.
  abbrev given :
      {v v' : Service Rx S} {job : Job Rx S} {next : List (Job Rx S)}
      → Move env cmd name v job v' next
      → ℕ
  given (prepared {entry = entry} e) = held i entry
  given _ = 0

  abbrev told_by_call :
      {v v' : Service Rx S} {job : Job Rx S} {next : List (Job Rx S)}
      → Move env cmd name v job v' next
      → ℕ
  told_by_call (told {id = id}) = named i id
  told_by_call _ = 0

  abbrev told_by_task :
      {v v' : Service Rx S} {job : Job Rx S} {next : List (Job Rx S)}
      → Move env cmd name v job v' next
      → ℕ
  told_by_task (forwarded {id = id}) = named i id
  told_by_task _ = 0

  Move-held :
      {v v' : Service Rx S} {job : Job Rx S} {next : List (Job Rx S)}
      (mv : Move env cmd name v job v' next)
      → weigh (held i) v'.endpoints + total (to_call i) next + told_by_call mv
        ≤ weigh (held i) v.endpoints + to_call i job + given mv
  unfolding with_producer
  Move-held {v} (prepared e) = omega arith
  Move-held {v} (not_prepared e) = omega arith
  Move-held {v} (inserted {addr = addr}) = omega (arith, weigh-remove (held i) addr v.endpoints)
  Move-held {v} (taken_out {addr = addr} {bytes = bytes} e) =
      omega (arith, take_out-weighs i env addr bytes v.endpoints _ _ e)
  Move-held {v} (not_taken_out {addr = addr} {bytes = bytes} e) =
      omega (arith, take_out-weighs i env addr bytes v.endpoints _ _ e)
  Move-held told = omega arith
  Move-held {v} (streamed {addr = addr} {t = t} e) =
      omega (arith, streamed-weighs i addr v _ _ e, spawned-weighs i addr t)
  Move-held {v} (not_streamed {addr = addr} e) = omega (arith, streamed-weighs i addr v _ _ e)
  Move-held forwarded = omega arith
  Move-held (read {addr = addr} {cleanup = cleanup}) =
      omega (arith, when-nothing i (to_call i) cleanup (removing addr) refl)
  Move-held {v} (removed {addr = addr}) = omega (arith, weigh-remove (held i) addr v.endpoints)

  Move-live :
      {v v' : Service Rx S} {job : Job Rx S} {next : List (Job Rx S)}
      (mv : Move env cmd name v job v' next)
      → weigh (live i) v'.endpoints + total (to_task i) next + told_by_task mv
        ≤ weigh (live i) v.endpoints + to_task i job + given mv
  unfolding with_producer
  Move-live {v} (prepared {entry = entry} e) = omega (arith, live-held i entry)
  Move-live {v} (not_prepared e) = omega arith
  Move-live {v} (inserted {addr = addr}) = omega (arith, weigh-remove (live i) addr v.endpoints)
  Move-live {v} (taken_out {addr = addr} {bytes = bytes} e) =
      omega (arith, take_out-weighs i env addr bytes v.endpoints _ _ e)
  Move-live {v} (not_taken_out {addr = addr} {bytes = bytes} e) =
      omega (arith, take_out-weighs i env addr bytes v.endpoints _ _ e)
  Move-live told = omega arith
  Move-live {v} (streamed {addr = addr} {t = t} e) =
      omega (arith, streamed-weighs i addr v _ _ e, spawned-weighs i addr t)
  Move-live {v} (not_streamed {addr = addr} e) = omega (arith, streamed-weighs i addr v _ _ e)
  Move-live forwarded = omega arith
  Move-live (read {addr = addr} {cleanup = cleanup}) =
      omega (arith, when-nothing i (to_task i) cleanup (removing addr) refl)
  Move-live {v} (removed {addr = addr}) = omega (arith, weigh-remove (live i) addr v.endpoints)

  -- How often in a run.
  abbrev pub given_in : {start s : Server Rx S} → Runs env cmd name start s → ℕ
  given_in here = 0
  given_in (outside s r) = given_in r
  given_in (call job h r) = given_in r
  given_in (move before after r mv) = given_in r + given mv

  abbrev pub told_by_calls : {start s : Server Rx S} → Runs env cmd name start s → ℕ
  told_by_calls here = 0
  told_by_calls (outside s r) = told_by_calls r
  told_by_calls (call job h r) = told_by_calls r
  told_by_calls (move before after r mv) = told_by_calls r + told_by_call mv

  abbrev pub told_by_tasks : {start s : Server Rx S} → Runs env cmd name start s → ℕ
  told_by_tasks here = 0
  told_by_tasks (outside s r) = told_by_tasks r
  told_by_tasks (call job h r) = told_by_tasks r
  told_by_tasks (move before after r mv) = told_by_tasks r + told_by_task mv

  pub Runs-weighs :
      {start s : Server Rx S} (r : Runs env cmd name start s)
      → (for_calls i s + told_by_calls r ≤ for_calls i start + given_in r)
        × (for_tasks i s + told_by_tasks r ≤ for_tasks i start + given_in r)
  Runs-weighs here = (omega arith, omega arith)
  Runs-weighs (outside s r) = Runs-weighs r
  Runs-weighs (call job h r) = omega (arith, Runs-weighs r, call-weighs i job h)
  Runs-weighs (move {job = job} {next = next} before after r mv) =
      let (calls, tasks) = Runs-weighs r in
      (
        omega (
          arith,
          calls,
          Move-held mv,
          total-append (to_call i) before (job ∷ after),
          total-append (to_call i) before (next ++ after),
          total-append (to_call i) next after,
        ),
        omega (
          arith,
          tasks,
          Move-live mv,
          total-append (to_task i) before (job ∷ after),
          total-append (to_task i) before (next ++ after),
          total-append (to_task i) next after,
        ),
      )

  -- In any interleaving of calls and tasks, from an empty table on, the service tells the bus an id
  -- to deregister no more often by the calls of `deregister` than the bus gave it this id, and no
  -- more often by the ends of streams: so it deregisters only consumers that the bus registered for
  -- it, and each at most once on either way, if the bus gives no id twice.
  pub told-given :
      (s₀ : S) {s : Server Rx S} (r : Runs env cmd name (opened s₀) s)
      → (told_by_calls r ≤ given_in r) × (told_by_tasks r ≤ given_in r)
  told-given s₀ r = omega (arith, Runs-weighs r)
