-- ===== src/Registry/Learning.antt =====
-- components/registry/registry.rs: the weights that the built-in dimensions learn.
use jackfield.Common.{
  ℕ, List, [], ◌∷◌, Bool, modify, All, All-append, All-map, All-modify, Option, ◌==◌, Bool-cases,
  inl, inr,
}
use jackfield.Platform.{Platform}
use jackfield.Dimension.{Dimension, DimState, DispatchEvent, EventMeta, consumed, default_state}
use jackfield.Dimension.Builtin.{
  ProducerDim, LabelDim, SizeDim, producer_dimension, label_dimension, size_dimension,
}
use jackfield.Dimension.Weights.{IsWithin, adjust_weight-IsWithin, one-IsWithin}
use jackfield.Consumer.{Consumer}
use jackfield.Registry.{
  DimEntry, RegistrationEntry, Registry, RegistrationBuilder, RoutePlan, push_dim, require_boxed,
  prefer_boxed, register, retain, observe_dim, observe_entry, observe_all, observe, observe_events,
  observe_consumed,
}

module _ ⦃p : Platform⦄ where
  -- A dimension of dims.rs.
  pub data IsBuiltin : Dimension → Type 0 where
    by_producer : (dim : ProducerDim) → IsBuiltin (producer_dimension dim)
    by_label : (dim : LabelDim) → IsBuiltin (label_dimension dim)
    by_size : (dim : SizeDim) → IsBuiltin (size_dimension dim)

  -- If the dimension is built in, its weight lies between the floor and the cap.
  pub record IsLearned (de : DimEntry) : Type 0 where
    pub within : IsBuiltin de.dim → IsWithin de.state.weight

  observe-IsWithin :
      (dim : Dimension) (event : DispatchEvent) (state : DimState)
      → IsBuiltin dim
      → IsWithin state.weight
      → IsWithin (dim.observe event state).weight
  unfolding producer_dimension label_dimension size_dimension
  observe-IsWithin dim event state (by_producer d) w = adjust_weight-IsWithin event state w
  observe-IsWithin dim event state (by_label d) w = adjust_weight-IsWithin event state w
  observe-IsWithin dim event state (by_size d) w = adjust_weight-IsWithin event state w

  new_state-IsWithin :
      (dim : Dimension) (weight : p.Float)
      → IsBuiltin dim
      → IsWithin weight
      → IsWithin (dim.new_state weight).weight
  unfolding producer_dimension label_dimension size_dimension default_state
  new_state-IsWithin dim weight (by_producer d) w = w
  new_state-IsWithin dim weight (by_label d) w = w
  new_state-IsWithin dim weight (by_size d) w = w

module _ ⦃p : Platform⦄ {S : Type 0} where
  -- The weights of all built-in dimensions lie between the floor and the cap.
  abbrev pub AllLearned : List (RegistrationEntry S) → Type 0
  AllLearned = All λ e. All IsLearned e.dims

  observe_entry-IsLearned :
      (event : DispatchEvent) (e : RegistrationEntry S)
      → All IsLearned e.dims
      → All IsLearned (observe_entry event e).dims
  unfolding observe_entry observe_dim
  observe_entry-IsLearned event e h =
      All-map (observe_dim event) e.dims
        (λ de l. record {
          within = λ builtin. observe-IsWithin de.dim event de.state builtin (l.within builtin);
        })
        h

  observe_all-AllLearned :
      (events : List (ℕ × DispatchEvent)) (entries : List (RegistrationEntry S))
      → AllLearned entries
      → AllLearned (observe_all events entries)
  unfolding observe_all
  observe_all-AllLearned [] entries h = h
  observe_all-AllLearned ((i, event) ∷ events) entries h =
      observe_all-AllLearned events (modify entries i (observe_entry event))
        (All-modify entries i (observe_entry event) (observe_entry-IsLearned event) h)

  pub observe-AllLearned :
      (r : Registry S) (plan : RoutePlan) (winner : Option ℕ) (pre : List (ℕ × Bool))
      → AllLearned r.entries
      → AllLearned (observe r plan winner pre).entries
  unfolding observe
  observe-AllLearned r plan winner pre =
      observe_all-AllLearned (observe_events plan winner pre) r.entries

  pub observe_consumed-AllLearned :
      (r : Registry S) (idx : ℕ) (meta : EventMeta) (latency : ℕ)
      → AllLearned r.entries
      → AllLearned (observe_consumed r idx meta latency).entries
  unfolding observe_consumed
  observe_consumed-AllLearned r idx meta latency h =
      All-modify r.entries idx _ (observe_entry-IsLearned (consumed meta latency)) h

  push_dim-AllLearned :
      (b : RegistrationBuilder) (de : DimEntry) (r : Registry S)
      → IsLearned de
      → AllLearned r.entries
      → AllLearned (push_dim b de r).entries
  unfolding push_dim
  push_dim-AllLearned b de r l h =
      All-modify r.entries b.idx _ (λ e k. All-append IsLearned e.dims (de ∷ []) k (l, tt)) h

  pub require_boxed-AllLearned :
      (b : RegistrationBuilder) (dim : Dimension) (r : Registry S)
      → AllLearned r.entries
      → AllLearned (require_boxed b dim r).entries
  unfolding require_boxed
  require_boxed-AllLearned b dim r =
      push_dim-AllLearned b _ r
        (record { within = λ builtin. new_state-IsWithin dim _ builtin one-IsWithin })

  pub prefer_boxed-AllLearned :
      (b : RegistrationBuilder) (dim : Dimension) (weight : p.Float) (r : Registry S)
      → (IsBuiltin dim → IsWithin weight)
      → AllLearned r.entries
      → AllLearned (prefer_boxed b dim weight r).entries
  unfolding prefer_boxed
  prefer_boxed-AllLearned b dim weight r w =
      push_dim-AllLearned b _ r
        (record { within = λ builtin. new_state-IsWithin dim weight builtin (w builtin) })

  pub register-AllLearned :
      (r : Registry S) (consumer : Consumer S)
      → AllLearned r.entries
      → AllLearned (register r consumer).0.entries
  unfolding register
  register-AllLearned r consumer h =
      All-append (λ (e : RegistrationEntry S). All IsLearned e.dims) r.entries _ h (tt, tt)

  pub retain-AllLearned :
      (id : ℕ) (es : List (RegistrationEntry S)) → AllLearned es → AllLearned (retain id es)
  unfolding retain
  retain-AllLearned id [] h = tt
  retain-AllLearned id (e ∷ es) h = elim (Bool-cases (e.id == id)) [
    | inl same ↦ rw (retain, same) (retain-AllLearned id es h.1)
    | inr other ↦ rw (retain, other) (h.0, retain-AllLearned id es h.1)
  ]
