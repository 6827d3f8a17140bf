-- ===== src/Tests/Dispatching.antt =====
-- components/bus/bus.rs: the results on `Bus::dispatch` at an input.
use jackfield.Common.{ℕ, Bool, true, Memᴰ, Some, inl, ◌≡◌, refl, [], ◌∷◌, ◌++◌, map, arith}
use jackfield.Platform.Sample.{sample, fin}
use jackfield.Dimension.Builtin.{label_any_of, label_dimension}
use jackfield.Dimension.{Dimension, default_state, score}
use jackfield.Registry.{hard_rejected, Registry, register, prefer_boxed, new}
use jackfield.Registry.Learning.{AllLearned}
use jackfield.Bus.Learning.{dispatch-AllLearned}
use jackfield.Bus.Delivery.{Without}
use jackfield.Bus.Serving.{ServesAs, dispatch_delivers}
use jackfield.Message.{Envelope}
use jackfield.Router.{AffinityRouter, affinity, affinity_route}
use jackfield.Router.Contract.{affinity-RouterContract}
use jackfield.Registry.Ids.{IsValid}
use jackfield.Bus.{register_consumer, Run, handle, apply_cmd, default_bus}
use jackfield.Bus.Pending.{last, room}
use jackfield.Bus.Directory.{directory, enter_all, dispatch-directory}
use jackfield.Bus.Accounts.{IsAccounted}
use jackfield.Bus.Answers.{replies, dispatch-replies}
use jackfield.Bus.Dispatch.{
  Dispatches, stop, outside, envelope, command, dispatch-pending, dispatch-IsValid,
}
use jackfield.Tests.Desk.{
  Desk, recorder, empty_desk, desk_channels, join, leave, command as order, from,
}
use jackfield.Tests.Draining.{ticks}

-- A bus without consumers that holds one envelope and has room for no other.
abbrev idle_run : Run AffinityRouter Desk
unfolding default_bus
idle_run = record {
  bus = record default_bus { pending = from "a" [] ∷ []; max_pending = 1 };
  world = record empty_desk { inbox = from "b" [] ∷ [] };
}

abbrev after_envelope : Run AffinityRouter Desk
unfolding idle_run handle
after_envelope = handle (affinity ticks) idle_run.bus (from "b" []) empty_desk

abbrev ordered : Desk
ordered = record empty_desk { orders = join 2 ∷ [] }

abbrev after_command : Run AffinityRouter Desk
unfolding after_envelope apply_cmd
after_command = apply_cmd after_envelope.bus (order (join 2)) empty_desk

-- An envelope that nobody takes, an order from outside, and its command.
abbrev stretch : Dispatches desk_channels (affinity ticks) idle_run (from "b" [] ∷ []) after_command
unfolding idle_run after_envelope after_command affinity_route
stretch =
    envelope (from "b" []) empty_desk refl
      (outside ordered (command (order (join 2)) empty_desk refl stop))

dispatch-pending_example :
    after_command.bus.pending ≡ last (room idle_run.bus) (idle_run.bus.pending ++ from "b" [] ∷ [])
unfolding idle_run
dispatch-pending_example =
    dispatch-pending desk_channels (affinity ticks) (unfold idle_run in omega arith) stretch

dispatch-IsValid_example : IsValid after_command.bus.registry
unfolding stretch
dispatch-IsValid_example =
    dispatch-IsValid desk_channels (affinity ticks) (affinity-RouterContract ticks) stretch
      (unfold idle_run in omega arith) (unfold idle_run in omega arith)

-- A consumer joins and leaves, and another joins.
abbrev joined_once : Run AffinityRouter Desk
unfolding idle_run apply_cmd
joined_once = apply_cmd idle_run.bus (order (join 2)) empty_desk

abbrev left_again : Run AffinityRouter Desk
unfolding joined_once apply_cmd
left_again = apply_cmd joined_once.bus (order (leave 0)) empty_desk

abbrev joined_twice : Run AffinityRouter Desk
unfolding left_again apply_cmd
joined_twice = apply_cmd left_again.bus (order (join 3)) empty_desk

abbrev comings : Dispatches desk_channels (affinity ticks) idle_run [] joined_twice
unfolding idle_run joined_once left_again joined_twice
comings =
    outside (record empty_desk { orders = join 2 ∷ [] })
      (command (order (join 2)) empty_desk refl (
        outside (record empty_desk { orders = leave 0 ∷ join 3 ∷ [] })
          (command (order (leave 0)) (record empty_desk { orders = join 3 ∷ [] }) refl
            (outside (record empty_desk { orders = join 3 ∷ [] })
              (command (order (join 3)) empty_desk refl stop)))))

replies_test : map (λ x. x.0) (replies comings) ≡ 0 ∷ 1 ∷ []
unfolding comings joined_once left_again joined_twice
replies_test = refl

dispatch-directory_example :
    directory joined_twice.bus.registry
    ≡ enter_all
        (order (join 2) ∷ order (leave 0) ∷ order (join 3) ∷ [])
        (directory idle_run.bus.registry)
unfolding comings
dispatch-directory_example =
    dispatch-directory desk_channels (affinity ticks) (affinity-RouterContract ticks) comings
      (unfold idle_run in omega arith)

dispatch-replies_example :
    IsAccounted
      (directory idle_run.bus.registry)
      (order (join 2) ∷ order (leave 0) ∷ order (join 3) ∷ [])
      (replies comings)
      (directory joined_twice.bus.registry)
unfolding comings
dispatch-replies_example =
    dispatch-replies desk_channels (affinity ticks) (affinity-RouterContract ticks) comings
      (unfold idle_run in omega arith)

-- A dimension of its own, which takes everything and forgets its weight.
abbrev forgetful : Dimension
unfolding default_state
forgetful = record {
  evaluate = λ e state. score (fin 0);
  observe = λ event state. record state { weight = fin 0 };
  new_state = default_state;
}

-- A consumer that prefers a label gets an envelope that has it.
abbrev taught : Registry Desk
unfolding register prefer_boxed label_any_of
taught =
    let (r, b) = register new (recorder 1) in
    prefer_boxed b forgetful (fin 1_000)
      (prefer_boxed b (label_dimension (label_any_of ("hot" ∷ []))) (fin 99_000) r)

abbrev taught_run : Run AffinityRouter Desk
unfolding default_bus taught
taught_run = record {
  bus = record default_bus { registry = taught };
  world = record empty_desk { inbox = from "b" ("hot" ∷ []) ∷ [] };
}

abbrev after_lesson : Run AffinityRouter Desk
unfolding taught_run handle
after_lesson = handle (affinity ticks) taught_run.bus (from "b" ("hot" ∷ [])) empty_desk

abbrev lesson : Dispatches desk_channels (affinity ticks) taught_run [] after_lesson
unfolding taught_run taught after_lesson affinity_route label_dimension
lesson = envelope (from "b" ("hot" ∷ [])) empty_desk refl stop

dispatch-AllLearned_example : AllLearned after_lesson.bus.registry.entries
unfolding taught_run taught label_dimension default_state lesson
dispatch-AllLearned_example =
    dispatch-AllLearned ticks desk_channels lesson
      (
        (
          record { within = λ builtin. record { floor = omega arith; cap = omega arith } },
          (record { within = λ builtin. record { floor = omega arith; cap = omega arith } }, tt),
        ),
        tt,
      )
      tt

-- A consumer that takes everything, while another joins and leaves.
abbrev any_kind : Envelope → Bool
any_kind e = true

abbrev served_run : Run AffinityRouter Desk
unfolding default_bus register_consumer
served_run = record {
  bus = (register_consumer default_bus (recorder 1)).0;
  world = record empty_desk { inbox = from "b" [] ∷ []; orders = join 2 ∷ leave 1 ∷ [] };
}

abbrev with_guest : Run AffinityRouter Desk
unfolding served_run apply_cmd
with_guest =
    apply_cmd served_run.bus (order (join 2)) (record served_run.world { orders = leave 1 ∷ [] })

abbrev delivered_run : Run AffinityRouter Desk
unfolding with_guest handle
delivered_run =
    handle (affinity ticks) with_guest.bus (from "b" []) (record with_guest.world { inbox = [] })

abbrev without_guest : Run AffinityRouter Desk
unfolding delivered_run apply_cmd
without_guest =
    apply_cmd delivered_run.bus (order (leave 1)) (record delivered_run.world { orders = [] })

abbrev visit : Dispatches desk_channels (affinity ticks) served_run [] without_guest
unfolding served_run with_guest delivered_run without_guest affinity_route
visit =
    command (order (join 2)) (record served_run.world { orders = leave 1 ∷ [] }) refl
      (envelope (from "b" []) (record with_guest.world { inbox = [] }) refl
        (command (order (leave 1)) (record delivered_run.world { orders = [] }) refl stop))

dispatch_delivers_example :
    Without any_kind [] × Some (ServesAs any_kind 0) without_guest.bus.registry.entries
unfolding served_run visit hard_rejected
dispatch_delivers_example =
    dispatch_delivers ticks any_kind 0 desk_channels visit
      (inl (record { called = refl; serves = (tt, (λ env h. refl), (λ env s h. refl)) })) one_left
  where
    one_left : Memᴰ {A = ℕ} 0 (1 ∷ []) → ⊥
    one_left (Memᴰ.head e) = cc
    one_left (Memᴰ.tail m) = elim m [ ]
