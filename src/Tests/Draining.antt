-- ===== src/Tests/Draining.antt =====
-- components/bus: the tests of bus/test.rs, and the results at inputs.
use jackfield.Common.{
  ℕ, ◌≡◌, refl, sym, subst, List, [], ◌∷◌, ◌++◌, Bool, true, false, Option, none, some, map, Memᴰ,
  inl, arith,
}
use jackfield.Platform.Sample.{Milli, fin, sample}
use jackfield.Registry.{hard_rejected, require_boxed}
use jackfield.Message.{Envelope}
use jackfield.Router.{AffinityRouter, affinity, affinity_route}
use jackfield.Router.Contract.{RouterContract, affinity-RouterContract}
use jackfield.Bus.{
  Bus, BusCmd, Run, default_bus, apply_cmd, push_pending, register_consumer, deregister_consumer,
  drain, is_empty,
}
use jackfield.Bus.Pending.{push_pending_zero}
use jackfield.Bus.Handling.{IsQuiet, AllQuiet}
use jackfield.Bus.Drain.{Drained, IsQuietCmd, AllQuietCmds, drain_lem}
use jackfield.Dimension.{Dimension}
use jackfield.Dimension.Builtin.{matches, producer_evaluate, producer_only, producer_dimension}
use jackfield.Bus.Commands.{dim_entry, apply_cmd-apply_cmd}
use jackfield.Bus.Delivery.{SomeServes, Without, drain_delivers}
use jackfield.Tests.Desk.{Desk, join, empty_desk, recorder, desk_channels, from}

abbrev pub ticks : Desk → ℕ
ticks s = s.clock

-- A bus with one consumer, two envelopes waiting, and the command to register another.
abbrev busy_run : Run AffinityRouter Desk
unfolding default_bus register_consumer
busy_run = record {
  bus = (register_consumer default_bus (recorder 1)).0;
  world = record empty_desk { inbox = from "a" [] ∷ from "b" [] ∷ []; orders = join 2 ∷ [] };
}

-- The bus after `deregister_consumer(0)`: nobody is left.
abbrev deserted_run : Run AffinityRouter Desk
unfolding busy_run deregister_consumer
deserted_run = record {
  bus = (deregister_consumer busy_run.bus 0).0;
  world = record busy_run.world { orders = [] };
}

abbrev emptied_by : Option (Run AffinityRouter Desk) → Bool
unfolding is_empty
emptied_by none = false
emptied_by (some run) = is_empty desk_channels run

drained_test : emptied_by (drain desk_channels (affinity ticks) 3 busy_run) ≡ true
unfolding drain busy_run affinity_route emptied_by
drained_test = refl

-- `deregister_removes_consumer_from_routing`: the messages remain pending.
deserted_test : emptied_by (drain desk_channels (affinity ticks) 3 deserted_run) ≡ false
unfolding drain deserted_run affinity_route emptied_by
deserted_test = refl

recorder-IsQuiet : (tag : ℕ) → IsQuiet desk_channels (recorder tag)
recorder-IsQuiet tag = record { envelopes = λ m s. refl; commands = λ m s. refl }

busy_quiet : AllQuiet desk_channels busy_run.bus.registry
unfolding busy_run
busy_quiet c (Memᴰ.head h) = subst (IsQuiet desk_channels) (sym h) (recorder-IsQuiet 1)
busy_quiet c (Memᴰ.tail m) = elim m [ ]

busy_quiet_cmds : AllQuietCmds desk_channels (desk_channels.commands busy_run.world)
unfolding busy_run
busy_quiet_cmds c (Memᴰ.head h) =
    subst (IsQuietCmd desk_channels) (sym h) (recorder-IsQuiet 2, (λ id s. refl), λ id s. refl)
busy_quiet_cmds c (Memᴰ.tail m) = elim m [ ]

drain_lem_example :
    (run : Run AffinityRouter Desk) × (drain desk_channels (affinity ticks) 3 busy_run ≡ some run)
    × Drained desk_channels (affinity ticks) busy_run run
unfolding busy_run
drain_lem_example =
    drain_lem desk_channels (affinity ticks) (affinity-RouterContract ticks) 3 busy_run
      (omega arith) (omega arith) busy_quiet busy_quiet_cmds

-- One consumer, of the envelopes from "a" alone; one is pending, and one from another waits.
abbrev picky_run : Run AffinityRouter Desk
unfolding default_bus register_consumer require_boxed producer_dimension
picky_run =
    let (b, builder) = register_consumer default_bus (recorder 1) in
    record {
      bus = record b {
        registry = require_boxed builder (producer_dimension (producer_only "a")) b.registry;
        pending = from "a" [] ∷ [];
      };
      world = record empty_desk { inbox = from "b" [] ∷ [] };
    }

picky_quiet : AllQuiet desk_channels picky_run.bus.registry
unfolding picky_run
picky_quiet c (Memᴰ.head h) = subst (IsQuiet desk_channels) (sym h) (recorder-IsQuiet 1)
picky_quiet c (Memᴰ.tail m) = elim m [ ]

abbrev from_a : Envelope → Bool
from_a e = matches (producer_only "a").matcher e.origin.as_str

picky-Serves : SomeServes from_a picky_run.bus.registry.entries
unfolding picky_run hard_rejected producer_evaluate
picky-Serves = inl ((λ hard env st st'. refl, tt), (λ env h. rw h refl), λ env s h. refl)

drain_delivers_example :
    (run : Run AffinityRouter Desk) × (drain desk_channels (affinity ticks) 3 picky_run ≡ some run)
    × Without from_a run.bus.pending
    × (desk_channels.envelopes run.world ≡ [])
unfolding picky_run
drain_delivers_example =
    drain_delivers ticks from_a desk_channels 3 picky_run (omega arith) (omega arith) picky_quiet
      (λ c m. elim m [ ]) picky-Serves

abbrev capless_bus : Bus AffinityRouter Desk
unfolding default_bus
capless_bus = record default_bus { max_pending = 0 }

push_pending_zero_example : (push_pending capless_bus (from "c" [])).pending ≡ from "c" [] ∷ []
unfolding capless_bus
push_pending_zero_example = push_pending_zero capless_bus (from "c" []) refl (omega arith)

affinity-RouterContract_example : RouterContract (affinity ticks)
affinity-RouterContract_example = affinity-RouterContract ticks

-- A second consumer, with a required and a preferred dimension, registers and leaves.
abbrev own_dims : List (Dimension × Bool × Milli)
own_dims =
    let own = producer_dimension (producer_only "a") in
    (own, true, fin 5) ∷ (own, false, fin 700) ∷ []

apply_cmd-apply_cmd_example :
    let run =
      apply_cmd busy_run.bus
        (BusCmd.register (recorder 2) own_dims (λ id s. record s { clock = id }))
        empty_desk in
    (run.bus.registry.entries
      ≡ busy_run.bus.registry.entries
        ++ record { id = 1; consumer = recorder 2; dims = map dim_entry own_dims } ∷ [])
    × (run.world ≡ record empty_desk { clock = 1 })
    × ((apply_cmd run.bus (BusCmd.deregister 1) empty_desk).bus.registry.entries
        ≡ busy_run.bus.registry.entries)
unfolding busy_run
apply_cmd-apply_cmd_example =
    apply_cmd-apply_cmd busy_run.bus (recorder 2) own_dims (λ id s. record s { clock = id })
      empty_desk empty_desk (record { ascending = omega arith; fits = omega arith })
