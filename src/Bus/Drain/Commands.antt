-- ===== src/Bus/Drain/Commands.antt =====
-- components/bus/bus.rs: the loop of `Bus::drain` over commands.
use mathlib.Core.List.{map-append}
use jackfield.Common.{
  ℕ, zero, suc, ◌<◌, ◌≡◌, refl, ap, ◌∙◌, sym, subst, ◌⊎◌, inl, inr, List, [], ◌∷◌, ◌++◌, Memᴰ, Bool,
  true, false, Bool-cases, ◌==◌, none, some, length, arith,
}
use jackfield.Platform.{Platform}
use jackfield.Dimension.{Dimension}
use jackfield.Consumer.{Consumer}
use jackfield.Registry.{
  RegistrationEntry, Registry, RegistrationBuilder, push_dim, require_boxed, prefer_boxed, retain,
}
use jackfield.Registry
use jackfield.Registry.Ids.{roster, roster-push_dim}
use jackfield.Router.Contract.{consumers}
use jackfield.Bus.{
  BusCmd, register, deregister, Channels, Bus, Run, add_dims, apply_cmd, apply_cmds,
}
use jackfield.Bus.Handling.{same_consumers, IsQuiet, AllQuiet}

module _ ⦃p : Platform⦄ {S : Type 0} where
  -- The effect of a command on the registry alone.
  abbrev pub applied : Registry S → BusCmd S → Registry S
  applied r (register consumer dims reply) =
      let (r', builder) = Registry.register r consumer in add_dims builder dims r'
  applied r (deregister id) = (Registry.deregister r id).0

  abbrev pub applied_all : Registry S → List (BusCmd S) → Registry S
  applied_all r [] = r
  applied_all r (c ∷ cs) = applied_all (applied r c) cs

  -- A command that brings in a quiet consumer, and whose reply goes to another channel.
  abbrev pub IsQuietCmd : Channels S → BusCmd S → Type 0
  IsQuietCmd ch (register consumer dims reply) =
      IsQuiet ch consumer
      × ((id : ℕ) (s : S) → ch.envelopes (reply id s) ≡ ch.envelopes s)
      × ((id : ℕ) (s : S) → ch.commands (reply id s) ≡ ch.commands s)
  IsQuietCmd ch (deregister id) = Unit

  abbrev pub AllQuietCmds : Channels S → List (BusCmd S) → Type 0
  AllQuietCmds ch cs = (c : BusCmd S) → Memᴰ c cs → IsQuietCmd ch c

  pub roster-add_dims :
      (b : RegistrationBuilder) (dims : List (Dimension × Bool × p.Float)) (r : Registry S)
      → roster (add_dims b dims r).entries ≡ roster r.entries
  unfolding add_dims
  roster-add_dims b [] r = refl
  roster-add_dims b ((dim, true, weight) ∷ dims) r =
      roster-add_dims b dims (require_boxed b dim r) ∙ unfold require_boxed in roster-push_dim b _ r
  roster-add_dims b ((dim, false, weight) ∷ dims) r =
      roster-add_dims b dims (prefer_boxed b dim weight r)
      ∙ unfold prefer_boxed in roster-push_dim b _ r

  of_retain :
      (id : ℕ) (es : List (RegistrationEntry S)) (c : Consumer S)
      → Memᴰ c (consumers (retain id es))
      → Memᴰ c (consumers es)
  unfolding retain
  of_retain id [] c m = m
  of_retain id (e ∷ es) c m = elim (Bool-cases (e.id == id)) [
    | inl same ↦ Memᴰ.tail (of_retain id es c (rw (retain, same) at m))
    | inr other ↦ split (rw (retain, other) at m) (of_retain id es c)
  ]
    where
      split :
          Memᴰ c (e.consumer ∷ consumers (retain id es))
          → (Memᴰ c (consumers (retain id es)) → Memᴰ c (consumers es))
          → Memᴰ c (e.consumer ∷ consumers es)
      split (Memᴰ.head h) ih = Memᴰ.head h
      split (Memᴰ.tail n) ih = Memᴰ.tail (ih n)

  of_snoc :
      (xs : List (Consumer S)) (y c : Consumer S) → Memᴰ c (xs ++ y ∷ []) → Memᴰ c xs ⊎ (c ≡ y)
  of_snoc [] y c (Memᴰ.head h) = inr h
  of_snoc [] y c (Memᴰ.tail m) = elim m [ ]
  of_snoc (x ∷ xs) y c (Memᴰ.head h) = inl (Memᴰ.head h)
  of_snoc (x ∷ xs) y c (Memᴰ.tail m) = elim (of_snoc xs y c m) [
    | inl n ↦ inl (Memᴰ.tail n)
    | inr h ↦ inr h
  ]

  consumers-register :
      (r : Registry S) (c : Consumer S)
      → consumers (Registry.register r c).0.entries ≡ consumers r.entries ++ c ∷ []
  unfolding Registry.register
  consumers-register r c = map-append (λ e. e.consumer) r.entries _

  pub applied-quiet :
      (ch : Channels S) (r : Registry S) (c : BusCmd S)
      → AllQuiet ch r
      → IsQuietCmd ch c
      → AllQuiet ch (applied r c)
  unfolding Registry.deregister
  applied-quiet ch r (register consumer dims reply) q h c m =
      let (r', builder) = Registry.register r consumer in
      let same =
        same_consumers (add_dims builder dims r').entries r'.entries
          (roster-add_dims builder dims r') in
      elim (of_snoc (consumers r.entries) consumer c
        (subst (Memᴰ c) (same ∙ consumers-register r consumer) m)) [
          | inl old ↦ q c old
          | inr e ↦ subst (IsQuiet ch) (sym e) h.0
        ]
  applied-quiet ch r (deregister id) q h c m = q c (of_retain id r.entries c m)

module _ ⦃p : Platform⦄ {R S : Type 0} where
  -- One round of the loop over commands.
  apply_cmd_lem :
      (ch : Channels S) (b : Bus R S) (c : BusCmd S) (s : S)
      → IsQuietCmd ch c
      → let next = apply_cmd b c s in
        (next.bus ≡ record b { registry = applied b.registry c })
        × (ch.envelopes next.world ≡ ch.envelopes s)
        × (ch.commands next.world ≡ ch.commands s)
  unfolding apply_cmd
  apply_cmd_lem ch b (register consumer dims reply) s h =
      (refl, h.1 b.registry.next_id s, h.2 b.registry.next_id s)
  apply_cmd_lem ch b (deregister id) s h = (refl, refl, refl)

  pub apply_cmds_stop :
      (ch : Channels S) (fuel : ℕ) (run : Run R S)
      → ch.recv_command run.world ≡ none
      → apply_cmds ch (suc fuel) run ≡ some run
  unfolding apply_cmds
  apply_cmds_stop ch fuel run h = rw (apply_cmds, h)

  pub apply_cmds_next :
      (ch : Channels S) (fuel : ℕ) (run : Run R S) (c : BusCmd S) (s : S)
      → ch.recv_command run.world ≡ some (c, s)
      → apply_cmds ch (suc fuel) run ≡ apply_cmds ch fuel (apply_cmd run.bus c s)
  unfolding apply_cmds
  apply_cmds_next ch fuel run c s h = rw (apply_cmds, h)

  -- With fuel for each waiting command `apply_cmds` ends: all have been applied, in order.
  pub apply_cmds_lem :
      (ch : Channels S) (cs : List (BusCmd S)) (fuel : ℕ) (run : Run R S)
      → ch.commands run.world ≡ cs
      → length cs < fuel
      → AllQuiet ch run.bus.registry
      → AllQuietCmds ch cs
      → (run' : Run R S) × (apply_cmds ch fuel run ≡ some run')
        × (run'.bus ≡ record run.bus { registry = applied_all run.bus.registry cs })
        × AllQuiet ch run'.bus.registry
        × (ch.commands run'.world ≡ [])
        × (ch.envelopes run'.world ≡ ch.envelopes run.world)
  apply_cmds_lem ch cs zero run w f q qc = absurd (omega arith)
  apply_cmds_lem ch [] (suc fuel) run w f q qc =
      (run, apply_cmds_stop ch fuel run (ch.recv_command_none run.world w), refl, q, w, refl)
  apply_cmds_lem ch (c ∷ cs) (suc fuel) run w f q qc =
      let (s, got, ws, es) = ch.recv_command_some run.world c cs w in
      let next = apply_cmd run.bus c s in
      let (bus, envs, cmds) = apply_cmd_lem ch run.bus c s (qc c (Memᴰ.head refl)) in
      let quiet : AllQuiet ch next.bus.registry =
        subst (λ (b : Bus R S). AllQuiet ch b.registry) (sym bus)
          (applied-quiet ch run.bus.registry c q (qc c (Memᴰ.head refl))) in
      let (run', ends, bus', q', none_left, envs') =
        apply_cmds_lem ch cs fuel next (cmds ∙ ws) (omega arith) quiet
          (λ d m. qc d (Memᴰ.tail m)) in
      (
        run',
        apply_cmds_next ch fuel run c s got ∙ ends,
        bus' ∙ ap (λ (b : Bus R S). record b { registry = applied_all b.registry cs }) bus,
        q',
        none_left,
        envs' ∙ envs ∙ es,
      )
