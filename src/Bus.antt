-- ===== src/Bus.antt =====
-- components/bus/bus.rs: the bus. Its channels (tokio's `mpsc`) and the reply channels lie in the
-- world, and are reached by the operations of `Channels`.
pub mod Pending
pub mod Handling
pub mod Drain
pub mod Delivery
pub mod Commands
pub mod Dispatch
pub mod Directory
pub mod Accounts
pub mod Answers
pub mod Learning
pub mod Serving
pub mod Handle
use jackfield.Common.{
  ℕ, zero, suc, ◌+◌, ◌-◌, ◌^◌, List, [], ◌∷◌, ◌++◌, Bool, true, false, ◌&&◌, Option, none, some,
  length, drop, leb, ◌≡◌, if◌then◌else◌,
}
use jackfield.Platform.{Platform}
use jackfield.Message.{Envelope}
use jackfield.Dimension.{Dimension}
use jackfield.Consumer.{Consumer}
use jackfield.Registry.{Registry, RegistrationBuilder, require_boxed, prefer_boxed}
use jackfield.Registry
use jackfield.Router.{Routed, Router, AffinityRouter, affinity_router}

module _ ⦃p : Platform⦄ where
  -- The reply sender of a registration changes the world.
  pub data BusCmd (S : Type 0) : Type 0 where
    register : Consumer S → List (Dimension × Bool × p.Float) → (ℕ → S → S) → BusCmd S
    deregister : ℕ → BusCmd S

  -- The two receivers of the bus. `envelopes` and `commands` are what waits in them, in the order
  -- of sending; `try_recv` gives the oldest, or fails if there is none.
  pub record Channels (S : Type 0) : Type 0 where
    pub envelopes : S → List Envelope
    pub commands : S → List (BusCmd S)
    pub recv_envelope : S → Option (Envelope × S)
    pub recv_command : S → Option (BusCmd S × S)
    pub envelopes_empty : S → Bool
    pub recv_envelope_none : (s : S) → envelopes s ≡ [] → recv_envelope s ≡ none
    pub recv_envelope_some :
        (s : S) (e : Envelope) (es : List Envelope)
        → envelopes s ≡ e ∷ es
        → (s' : S) × (recv_envelope s ≡ some (e, s'))
          × (envelopes s' ≡ es)
          × (commands s' ≡ commands s)
    pub recv_command_none : (s : S) → commands s ≡ [] → recv_command s ≡ none
    pub recv_command_some :
        (s : S) (c : BusCmd S) (cs : List (BusCmd S))
        → commands s ≡ c ∷ cs
        → (s' : S) × (recv_command s ≡ some (c, s'))
          × (commands s' ≡ cs)
          × (envelopes s' ≡ envelopes s)

  pub record Bus (R S : Type 0) : Type 0 where
    pub router : R
    pub registry : Registry S
    pub pending : List Envelope
    pub max_pending : ℕ

  -- A bus and the world beside it.
  pub record Run (R S : Type 0) : Type 0 where
    pub bus : Bus R S
    pub world : S

module _ ⦃p : Platform⦄ {R S : Type 0} where
  -- `Bus::with_router`, less the channels that it makes; `usize::MAX` is that of 64 bits.
  unfoldable pub with_router : R → Bus R S
  with_router router = record {
    router = router;
    registry = Registry.new;
    pending = [];
    max_pending = 2 ^ 64 - 1;
  }

  -- `Bus::max_pending`
  unfoldable pub with_max_pending : ℕ → Bus R S → Bus R S
  with_max_pending cap b = record b { max_pending = cap }

  unfoldable pub push_pending : Bus R S → Envelope → Bus R S
  push_pending b envelope =
      let kept = if leb b.max_pending (length b.pending) then drop 1 b.pending else b.pending in
      record b { pending = kept ++ envelope ∷ [] }

  -- `Bus::register_consumer` and `deregister_consumer`
  unfoldable pub register_consumer : Bus R S → Consumer S → Bus R S × RegistrationBuilder
  unfolding Registry.register
  register_consumer b consumer =
      let (r, builder) = Registry.register b.registry consumer in
      (record b { registry = r }, builder)

  unfoldable pub deregister_consumer : Bus R S → ℕ → Bus R S × Bool
  unfolding Registry.deregister
  deregister_consumer b id =
      let (r, removed) = Registry.deregister b.registry id in (record b { registry = r }, removed)

module _ ⦃p : Platform⦄ {S : Type 0} where
  -- The loop of `apply_cmd` over the dimensions.
  unfoldable pub add_dims :
      RegistrationBuilder → List (Dimension × Bool × p.Float) → Registry S → Registry S
  unfolding require_boxed prefer_boxed
  add_dims builder [] r = r
  add_dims builder ((dim, required, weight) ∷ dims) r =
      add_dims builder dims
        (if required then require_boxed builder dim r else prefer_boxed builder dim weight r)

  -- `Bus::<AffinityRouter>::default`
  unfoldable pub default_bus : Bus AffinityRouter S
  unfolding with_router with_max_pending
  default_bus = with_max_pending 1024 (with_router affinity_router)

module _ ⦃p : Platform⦄ {R S : Type 0} where
  unfoldable pub apply_cmd : Bus R S → BusCmd S → S → Run R S
  unfolding Registry.register Registry.deregister add_dims
  apply_cmd b (register consumer dims reply) s =
      let (r, builder) = Registry.register b.registry consumer in
      record { bus = record b { registry = add_dims builder dims r }; world = reply builder.id s }
  apply_cmd b (deregister id) s = record {
    bus = record b { registry = (Registry.deregister b.registry id).0 };
    world = s;
  }

  abbrev pub keep_unhandled : Routed R S → Bus R S → Bus R S
  keep_unhandled out b = elim out.unhandled [ none ↦ b | some envelope ↦ push_pending b envelope ]

  -- One round of the loops: `if let Some(envelope) = self.route(envelope).await { push_pending }`
  unfoldable pub handle : Router R S → Bus R S → Envelope → S → Run R S
  unfolding push_pending
  handle router b envelope s =
      let out = router.route b.router b.registry envelope s in
      record {
        bus = keep_unhandled out (record b { router = out.router; registry = out.registry });
        world = out.world;
      }

  -- `while let Ok(cmd) = self.cmd_rx.try_recv()`; `none` if the fuel runs out.
  unfoldable pub apply_cmds : Channels S → ℕ → Run R S → Option (Run R S)
  unfolding apply_cmd
  apply_cmds ch zero run = none
  apply_cmds ch (suc fuel) run = elim (ch.recv_command run.world) [
    | none ↦ some run
    | some (cmd, s) ↦ apply_cmds ch fuel (apply_cmd run.bus cmd s)
  ]

  -- `for envelope in std::mem::take(&mut self.pending)`
  unfoldable pub handle_all : Router R S → List Envelope → Run R S → Run R S
  unfolding handle
  handle_all router [] run = run
  handle_all router (e ∷ es) run = handle_all router es (handle router run.bus e run.world)

  unfoldable pub retry_pending : Router R S → Run R S → Run R S
  unfolding handle_all
  retry_pending router run =
      handle_all router run.bus.pending (record run { bus = record run.bus { pending = [] } })

  -- `while let Ok(envelope) = self.rx.try_recv()`
  unfoldable pub receive_all : Channels S → Router R S → ℕ → Run R S → Option (Run R S)
  unfolding handle
  receive_all ch router zero run = none
  receive_all ch router (suc fuel) run = elim (ch.recv_envelope run.world) [
    | none ↦ some run
    | some (e, s) ↦ receive_all ch router fuel (handle router run.bus e s)
  ]

  unfoldable pub drain : Channels S → Router R S → ℕ → Run R S → Option (Run R S)
  unfolding apply_cmds retry_pending receive_all
  drain ch router fuel run = elim (apply_cmds ch fuel run) [
    | none ↦ none
    | some run' ↦ receive_all ch router fuel (retry_pending router run')
  ]

  unfoldable pub is_empty : Channels S → Run R S → Bool
  is_empty ch run = ch.envelopes_empty run.world && leb (length run.bus.pending) 0
