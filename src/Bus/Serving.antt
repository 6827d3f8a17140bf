-- ===== src/Bus/Serving.antt =====
-- components/bus/bus.rs with the AffinityRouter: a dispatching bus with a consumer that takes every
-- envelope of a kind, while others come and go.
use jackfield.Common.{
  ℕ, ◌≡◌, ◌≢◌, refl, sym, subst, inl, inr, List, [], ◌∷◌, ◌++◌, Memᴰ, Bool, true, Some, Some-append,
  Some-weaken, mem-append, Bool-cases, ◌==◌, length-append, arith,
}
use jackfield.Platform.{Platform}
use jackfield.Message.{Envelope}
use jackfield.Dimension.{DispatchEvent}
use jackfield.Registry.{RegistrationEntry, Registry, retain, observe_entry}
use jackfield.Registry
use jackfield.Router.{AffinityRouter, affinity, affinity_route}
use jackfield.Router.Contract.{affinity-RouterContract}
use jackfield.Bus.{BusCmd, register, deregister, Channels, Bus, Run, apply_cmd}
use jackfield.Bus.Commands.{add_dims_last}
use jackfield.Bus.Delivery.{
  Without, with_first, Serves, SomeServes, observe_entry-Serves, handle-Some, unhandled-other,
}
use jackfield.Bus.Dispatch.{Dispatches, stop, outside, envelope, command, to_list}
use jackfield.Bus.Directory.{handled}
use jackfield.Bus.Accounts.{ended}

module _ ⦃p : Platform⦄ {S : Type 0} (P : Envelope → Bool) (id : ℕ) where
  -- The consumer with this id serves the envelopes of the kind P.
  pub record ServesAs (entry : RegistrationEntry S) : Type 0 where
    pub called : entry.id ≡ id
    pub serves : Serves P entry

  ServesAs-observe :
      (event : DispatchEvent) (entry : RegistrationEntry S)
      → ServesAs entry
      → ServesAs (observe_entry event entry)
  unfolding observe_entry
  ServesAs-observe event entry h = record {
    called = h.called;
    serves = observe_entry-Serves P event entry h.serves;
  }

  retain-ServesAs :
      (other : ℕ) (es : List (RegistrationEntry S))
      → other ≢ id
      → Some ServesAs es
      → Some ServesAs (retain other es)
  unfolding retain
  retain-ServesAs other [] ne h = h
  retain-ServesAs other (e ∷ es) ne h = elim (Bool-cases (e.id == other)) [
    | inl same ↦ rw (retain, same) (retain-ServesAs other es ne (later same h))
    | inr apart ↦
        rw (retain, apart)
          (elim h [ inl here ↦ inl here | inr there ↦ inr (retain-ServesAs other es ne there) ])
  ]
    where
      later : (e.id == other) ≡ true → Some ServesAs (e ∷ es) → Some ServesAs es
      later same (inl here) = absurd (ne (ground (arith, here.called)))
      later same (inr there) = there

  apply_cmd-ServesAs :
      {R : Type 0} (b : Bus R S) (cmd : BusCmd S) (s : S)
      → (Memᴰ id (ended (cmd ∷ [])) → ⊥)
      → Some ServesAs b.registry.entries
      → Some ServesAs (apply_cmd b cmd s).bus.registry.entries
  unfolding apply_cmd Registry.register Registry.deregister
  apply_cmd-ServesAs b (register consumer dims reply) s ne h =
      let (r, builder) = Registry.register b.registry consumer in
      let e : RegistrationEntry S = record {
        id = b.registry.next_id;
        consumer = consumer;
        dims = [];
      } in
      let added =
        add_dims_last builder dims r b.registry.entries e refl
          (omega (arith, length-append b.registry.entries (e ∷ []))) in
      subst (Some ServesAs) (sym added) (Some-append ServesAs b.registry.entries _ h)
  apply_cmd-ServesAs b (deregister other) s ne h =
      retain-ServesAs other b.registry.entries (λ e. ne (Memᴰ.head (sym e))) h

module _ ⦃p : Platform⦄ {S : Type 0} (now : S → ℕ) (P : Envelope → Bool) (id : ℕ)
    (ch : Channels S) where
  Without-unhandled :
      (b : Bus AffinityRouter S) (e : Envelope) (s : S) (left : List Envelope)
      → SomeServes P b.registry.entries
      → Without P left
      → Without P (to_list (affinity_route now b.router b.registry e s).unhandled ++ left)
  Without-unhandled b e s left serves ih =
      elim ((affinity-RouterContract now).acts b.router b.registry e s) [
        | inl (back, _) ↦
            rw back (with_first P (unhandled-other now P b.router b.registry e s serves back) ih)
        | inr (_, _, gone, _) ↦ rw gone ih
      ]

  -- While the consumer with an id serves the envelopes of a kind (it is always available for them
  -- and validates them, and its required dimensions do not reject them, whatever their states), and
  -- no command that is applied deregisters it, a dispatching bus with an AffinityRouter leaves no
  -- envelope of the kind that it receives, and the consumer serves them still: whatever the
  -- dimensions observe, and whoever else comes and goes.
  pub dispatch_delivers :
      {run run' : Run AffinityRouter S} {left : List Envelope}
      (steps : Dispatches ch (affinity now) run left run')
      → Some (ServesAs P id) run.bus.registry.entries
      → (Memᴰ id (ended (handled steps)) → ⊥)
      → Without P left × Some (ServesAs P id) run'.bus.registry.entries
  dispatch_delivers stop h ne = (λ e m. elim m [ ], h)
  dispatch_delivers (outside s steps) h ne = dispatch_delivers steps h ne
  dispatch_delivers {run} (envelope {left = left} e s got steps) h ne =
      let serves =
        Some-weaken (ServesAs P id) (Serves P) run.bus.registry.entries (λ x k. k.serves) h in
      let (ih, end) =
        dispatch_delivers steps
          (handle-Some (ServesAs P id) (ServesAs-observe P id) now ch run.bus e s h) ne in
      (Without-unhandled run.bus e s left serves ih, end)
  dispatch_delivers {run} (command (register consumer dims reply) s got steps) h ne =
      dispatch_delivers steps
        (apply_cmd-ServesAs P id run.bus (register consumer dims reply) s (λ m. elim m [ ]) h) ne
  dispatch_delivers {run} (command (deregister other) s got steps) h ne =
      dispatch_delivers steps
        (apply_cmd-ServesAs P id run.bus (deregister other) s
          (λ m. ne (mem-append id (other ∷ []) (ended (handled steps)) (inl m))) h)
        (λ m. ne (Memᴰ.tail m))
