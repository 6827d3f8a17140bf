-- ===== src/Bus/Dispatch.antt =====
-- components/bus/bus.rs: `Bus::dispatch`. `tokio::select!` takes an envelope or a command, of two
-- that wait either one, so the loop is a relation: the runs that it may reach.
use jackfield.Common.{
  ℕ, suc, ◌+◌, ◌<◌, Bool, true, false, ◌≤◌, ◌^◌, ◌≡◌, refl, ap, ◌∙◌, sym, subst, inl, inr, List, [],
  ◌∷◌, ◌++◌, Option, none, some, length, arith, Option-cases,
}
use mathlib.Core.Path.{subst₂}
use mathlib.Core.List.{append_assoc, append-nil}
use jackfield.Platform.{Platform}
use jackfield.Message.{Envelope}
use jackfield.Dimension.{Dimension}
use jackfield.Registry.{Registry, RegistrationBuilder, require_boxed, prefer_boxed, push_dim}
use jackfield.Registry
use jackfield.Registry.Ids.{IsValid, roster-IsValid, register_lem, deregister_lem}
use jackfield.Router.{Router}
use jackfield.Router.Contract.{RouterContract}
use jackfield.Bus.{BusCmd, register, deregister, Channels, Bus, Run, handle, apply_cmd, add_dims}
use jackfield.Bus.Handling.{handle-registry}
use jackfield.Bus.Drain.{roster-add_dims}
use jackfield.Bus.Pending.{
  last, last-append, last_short, length-last-le, room, IsBounded, room-push_pending,
  push_pending_lem,
}

abbrev pub to_list : {A : Type 0} → Option A → List A
to_list none = []
to_list (some a) = a ∷ []

-- A stretch of the loop, with the envelopes that nobody took in it, in order. Between two rounds
-- others may change the world. The `else` branch is never taken: the bus holds a sender of each
-- of its channels, so neither is ever closed.
pub data Dispatches ⦃p : Platform⦄ {R S : Type 0} (ch : Channels S) (router : Router R S)
    : Run R S → List Envelope → Run R S → Type 0 where
  stop : {run : Run R S} → Dispatches ch router run [] run
  outside :
      {run run' : Run R S} {left : List Envelope} (s : S)
      → Dispatches ch router (record run { world = s }) left run'
      → Dispatches ch router run left run'
  envelope :
      {run run' : Run R S} {left : List Envelope} (e : Envelope) (s : S)
      → ch.recv_envelope run.world ≡ some (e, s)
      → Dispatches ch router (handle router run.bus e s) left run'
      → Dispatches ch router run
          (to_list (router.route run.bus.router run.bus.registry e s).unhandled ++ left)
          run'
  command :
      {run run' : Run R S} {left : List Envelope} (cmd : BusCmd S) (s : S)
      → ch.recv_command run.world ≡ some (cmd, s)
      → Dispatches ch router (apply_cmd run.bus cmd s) left run'
      → Dispatches ch router run left run'

module _ ⦃p : Platform⦄ {R S : Type 0} (router : Router R S) where
  -- One round on the pending buffer.
  handle-last :
      (b : Bus R S) (e : Envelope) (s : S)
      → IsBounded b
      → let b' = (handle router b e s).bus in
        (b'.pending
          ≡ last (room b) (b.pending ++ to_list (router.route b.router b.registry e s).unhandled))
        × (room b' ≡ room b)
  unfolding handle
  handle-last b e s bd =
      let out = router.route b.router b.registry e s in
      let b₁ : Bus R S = record b { router = out.router; registry = out.registry } in
      elim (Option-cases out.unhandled) [
        | inl gone ↦
            rw gone (sym (ap (last (room b)) (append-nil b.pending) ∙ last_short _ _ bd), refl)
        | inr (u, back) ↦ rw back (push_pending_lem b₁ u bd, room-push_pending b₁ u)
      ]

module _ ⦃p : Platform⦄ {R S : Type 0} where
  apply_cmd-pending :
      (b : Bus R S) (cmd : BusCmd S) (s : S)
      → ((apply_cmd b cmd s).bus.pending ≡ b.pending) × (room (apply_cmd b cmd s).bus ≡ room b)
  unfolding apply_cmd
  apply_cmd-pending b (register consumer dims reply) s = (refl, refl)
  apply_cmd-pending b (deregister id) s = (refl, refl)

module _ ⦃p : Platform⦄ {R S : Type 0} (ch : Channels S) (router : Router R S) where
  -- `dispatch` retries no pending envelope: what nobody takes is pushed behind the buffer as it
  -- was, and if there is not room for all, the oldest envelopes go.
  pub dispatch-pending :
      {run run' : Run R S} {left : List Envelope}
      → IsBounded run.bus
      → Dispatches ch router run left run'
      → run'.bus.pending ≡ last (room run.bus) (run.bus.pending ++ left)
  dispatch-pending {run} bd stop =
      sym (ap (last (room run.bus)) (append-nil run.bus.pending) ∙ last_short _ _ bd)
  dispatch-pending bd (outside s steps) = dispatch-pending bd steps
  dispatch-pending {run} {run'} bd (envelope {left = left} e s got steps) =
      let unhandled = to_list (router.route run.bus.router run.bus.registry e s).unhandled in
      let n = room run.bus in
      let (kept, same) = handle-last router run.bus e s bd in
      let bound = length-last-le n (run.bus.pending ++ unhandled) in
      let ih = dispatch-pending (omega (arith, ap length kept, same, bound)) steps in
      subst₂ (λ m l. run'.bus.pending ≡ last m (l ++ left)) same kept ih
      ∙ last-append n (run.bus.pending ++ unhandled) left
      ∙ ap (last n) (append_assoc run.bus.pending unhandled left)
  dispatch-pending {run} {run'} bd (command {left = left} cmd s got steps) =
      let (kept, same) = apply_cmd-pending run.bus cmd s in
      let ih = dispatch-pending (omega (arith, ap length kept, same, bd)) steps in
      subst₂ (λ m l. run'.bus.pending ≡ last m (l ++ left)) same kept ih

module _ ⦃p : Platform⦄ {S : Type 0} where
  pub next_id-add_dims :
      (b : RegistrationBuilder) (dims : List (Dimension × Bool × p.Float)) (r : Registry S)
      → (add_dims b dims r).next_id ≡ r.next_id
  unfolding add_dims require_boxed prefer_boxed push_dim
  next_id-add_dims b [] r = refl
  next_id-add_dims b ((dim, true, weight) ∷ dims) r =
      next_id-add_dims b dims (require_boxed b dim r)
  next_id-add_dims b ((dim, false, weight) ∷ dims) r =
      next_id-add_dims b dims (prefer_boxed b dim weight r)

module _ ⦃p : Platform⦄ {R S : Type 0} where
  apply_cmd-IsValid :
      (b : Bus R S) (cmd : BusCmd S) (s : S)
      → IsValid b.registry
      → b.registry.next_id + 1 < 2 ^ 64
      → let b' = (apply_cmd b cmd s).bus in
        IsValid b'.registry × (b'.registry.next_id ≤ b.registry.next_id + 1)
  unfolding apply_cmd Registry.register
  apply_cmd-IsValid b (register consumer dims reply) s v h =
      let (r, builder) = Registry.register b.registry consumer in
      let valid = (register_lem b.registry consumer v h).0 in
      let same = next_id-add_dims builder dims r in
      (
        roster-IsValid r (add_dims builder dims r) (roster-add_dims builder dims r) same valid,
        omega (arith, same),
      )
  apply_cmd-IsValid b (deregister id) s v h = ((deregister_lem b.registry id v).0, omega arith)

module _ ⦃p : Platform⦄ where
  -- How many commands a stretch applies.
  abbrev pub applied :
      {R S : Type 0} {ch : Channels S} {router : Router R S} {run run' : Run R S}
      {left : List Envelope}
      → Dispatches ch router run left run'
      → ℕ
  applied stop = 0
  applied (outside s steps) = applied steps
  applied (envelope e s got steps) = applied steps
  applied (command cmd s got steps) = suc (applied steps)

module _ ⦃p : Platform⦄ {R S : Type 0} (ch : Channels S) (router : Router R S)
    (contract : RouterContract router) where
  handle-IsValid :
      (b : Bus R S) (e : Envelope) (s : S)
      → IsValid b.registry
      → let b' = (handle router b e s).bus in
        IsValid b'.registry × (b'.registry.next_id ≡ b.registry.next_id)
  handle-IsValid b e s v =
      let out = router.route b.router b.registry e s in
      let (same, next) = contract.keeps b.router b.registry e s in
      subst (λ (r : Registry S). IsValid r × (r.next_id ≡ b.registry.next_id))
        (sym (handle-registry ch router contract b e s))
        (roster-IsValid b.registry out.registry same next v, next)

  -- The registry stays valid (ids distinct, ascending and below the counter) whatever is received
  -- in whatever order, as long as there are not so many commands that the counter may wrap.
  pub dispatch-IsValid :
      {run run' : Run R S} {left : List Envelope} (steps : Dispatches ch router run left run')
      → IsValid run.bus.registry
      → run.bus.registry.next_id + applied steps < 2 ^ 64
      → IsValid run'.bus.registry
  dispatch-IsValid stop v h = v
  dispatch-IsValid (outside s steps) v h = dispatch-IsValid steps v h
  dispatch-IsValid {run} (envelope e s got steps) v h =
      let (v', same) = handle-IsValid run.bus e s v in
      dispatch-IsValid steps v' (omega (arith, same))
  dispatch-IsValid {run} (command cmd s got steps) v h =
      let (v', le) = apply_cmd-IsValid run.bus cmd s v (omega arith) in
      dispatch-IsValid steps v' (omega (arith, le))
