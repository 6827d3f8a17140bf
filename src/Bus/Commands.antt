-- ===== src/Bus/Commands.antt =====
-- components/bus/bus.rs: what the two commands do to the registry, one after the other.
use mathlib.Core.List.{append_assoc, append-nil}
use jackfield.Common.{
  ℕ, zero, suc, ◌≤◌, ◌≡◌, refl, sym, ap, ◌∙◌, List, [], ◌∷◌, ◌++◌, map, Bool, true, false, ◌==◌,
  length, length-append, modify, arith,
}
use jackfield.Platform.{Platform}
use jackfield.Dimension.{Dimension}
use jackfield.Consumer.{Consumer}
use jackfield.Registry.{
  DimEntry, RegistrationEntry, Registry, RegistrationBuilder, push_dim, require_boxed, prefer_boxed,
  retain,
}
use jackfield.Registry
use jackfield.Registry.Ids.{Ascending, ids, IsValid}
use jackfield.Bus.{Bus, register, deregister, add_dims, apply_cmd}

modify_last :
    {A : Type 0} (xs : List A) (x : A) (i : ℕ) (f : A → A)
    → i ≡ length xs
    → modify (xs ++ x ∷ []) i f ≡ xs ++ f x ∷ []
modify_last [] x zero f h = refl
modify_last [] x (suc i) f h = absurd (omega arith)
modify_last (y ∷ ys) x zero f h = absurd (omega arith)
modify_last (y ∷ ys) x (suc i) f h = ap (λ l. y ∷ l) (modify_last ys x i f (omega arith))

Ascending-bound : (lo hi : ℕ) (is : List ℕ) → Ascending lo is hi → lo ≤ hi
Ascending-bound lo hi [] h = h
Ascending-bound lo hi (i ∷ is) h = omega (arith, h.0, Ascending-bound (suc i) hi is h.1)

module _ ⦃p : Platform⦄ where
  -- The entry of a dimension that comes with a command: a required one has the weight 1.0, whatever
  -- the command says.
  abbrev pub dim_entry : Dimension × Bool × p.Float → DimEntry
  dim_entry (dim, true, weight) = record {
    dim = dim;
    state = dim.new_state (p.milli 1000);
    reject_on_miss = true;
  }
  dim_entry (dim, false, weight) = record {
    dim = dim;
    state = dim.new_state weight;
    reject_on_miss = false;
  }

module _ ⦃p : Platform⦄ {S : Type 0} where
  push_dim_last :
      (b : RegistrationBuilder) (de : DimEntry) (r : Registry S) (es : List (RegistrationEntry S))
      (e : RegistrationEntry S)
      → r.entries ≡ es ++ e ∷ []
      → b.idx ≡ length es
      → (push_dim b de r).entries ≡ es ++ record e { dims = e.dims ++ de ∷ [] } ∷ []
  unfolding push_dim
  push_dim_last b de r es e h at = rw h (modify_last es e b.idx _ at)

  pub add_dims_last :
      (b : RegistrationBuilder) (dims : List (Dimension × Bool × p.Float)) (r : Registry S)
      (es : List (RegistrationEntry S)) (e : RegistrationEntry S)
      → r.entries ≡ es ++ e ∷ []
      → b.idx ≡ length es
      → (add_dims b dims r).entries ≡ es ++ record e { dims = e.dims ++ map dim_entry dims } ∷ []
  unfolding add_dims require_boxed prefer_boxed
  add_dims_last b [] r es e h at =
      h ∙ ap (λ ds. es ++ record e { dims = ds } ∷ []) (sym (append-nil e.dims))
  add_dims_last b ((dim, true, weight) ∷ dims) r es e h at =
      let de = dim_entry (dim, true, weight) in
      add_dims_last b dims (push_dim b de r) es _ (push_dim_last b de r es e h at) at
      ∙ ap (λ ds. es ++ record e { dims = ds } ∷ []) (append_assoc e.dims (de ∷ []) _)
  add_dims_last b ((dim, false, weight) ∷ dims) r es e h at =
      let de = dim_entry (dim, false, weight) in
      add_dims_last b dims (push_dim b de r) es _ (push_dim_last b de r es e h at) at
      ∙ ap (λ ds. es ++ record e { dims = ds } ∷ []) (append_assoc e.dims (de ∷ []) _)

  -- The last entry goes, and it alone.
  retain_last :
      (lo : ℕ) (es : List (RegistrationEntry S)) (e : RegistrationEntry S)
      → Ascending lo (ids es) e.id
      → retain e.id (es ++ e ∷ []) ≡ es
  unfolding retain
  retain_last lo [] e h = ground arith
  retain_last lo (x ∷ es) e h =
      let below = Ascending-bound (suc x.id) e.id (ids es) h.1 in
      let other : (x.id == e.id) ≡ false = ground arith in
      rw (retain, other) (ap (λ l. x ∷ l) (retain_last (suc x.id) es e h.1))

module _ ⦃p : Platform⦄ {R S : Type 0} where
  -- On a valid registry the command to register appends the consumer
  -- with its dimensions, in order, under the next id, which the reply gets; the command to
  -- deregister this id then leaves the entries as they were before.
  pub apply_cmd-apply_cmd :
      (b : Bus R S) (consumer : Consumer S) (dims : List (Dimension × Bool × p.Float))
      (reply : ℕ → S → S) (s s' : S)
      → IsValid b.registry
      → let id = b.registry.next_id in
        let run = apply_cmd b (register consumer dims reply) s in
        (run.bus.registry.entries
          ≡ b.registry.entries
            ++ record { id = id; consumer = consumer; dims = map dim_entry dims } ∷ [])
        × (run.world ≡ reply id s)
        × ((apply_cmd run.bus (deregister id) s').bus.registry.entries ≡ b.registry.entries)
  unfolding apply_cmd Registry.register Registry.deregister
  apply_cmd-apply_cmd b consumer dims reply s s' v =
      let es = b.registry.entries in
      let e : RegistrationEntry S = record {
        id = b.registry.next_id;
        consumer = consumer;
        dims = map dim_entry dims;
      } in
      let (r, builder) = Registry.register b.registry consumer in
      let added =
        add_dims_last builder dims r es
          (record { id = b.registry.next_id; consumer = consumer; dims = [] }) refl
          (omega (arith, length-append es (record e { dims = [] } ∷ []))) in
      (added, refl, ap (retain b.registry.next_id) added ∙ retain_last 0 es e v.ascending)
