-- ===== src/Registry.antt =====
-- components/registry/registry.rs: the registry of consumers, its builder, the plan for an
-- envelope, and the events that the dimensions observe afterwards.
pub mod Ids
pub mod Scoring
pub mod Plan
pub mod Learning
use Prim.Native.Nat.{compare, Ordering}
use jackfield.Common.{
  ℕ, suc, ◌+◌, ◌-◌, ◌%◌, ◌^◌, List, [], ◌∷◌, ◌++◌, map, Bool, true, false, not, Option, none, some,
  any, ◌&&◌, length, modify, drop, ltb, ◌==◌, if◌then◌else◌,
}
use jackfield.Common.Sort.{sort_by}
use jackfield.Platform.{Platform}
use jackfield.Message.{Envelope}
use jackfield.Dimension.{
  Verdict, reject, score, DimState, EventMeta, from_envelope, Dimension, DispatchEvent, vetoed,
  consumed, busy, skipped,
}
use jackfield.Consumer.{Consumer}

module _ ⦃p : Platform⦄ where
  pub record DimEntry : Type 0 where
    pub dim : Dimension
    pub state : DimState
    pub reject_on_miss : Bool

  pub record RegistrationEntry (S : Type 0) : Type 0 where
    pub id : ℕ
    pub consumer : Consumer S
    pub dims : List DimEntry

  pub record Registry (S : Type 0) : Type 0 where
    pub entries : List (RegistrationEntry S)
    pub next_id : ℕ

-- `RegistrationBuilder`, less the borrow of the entries, which its methods take and return.
pub record RegistrationBuilder : Type 0 where
  pub id : ℕ
  pub idx : ℕ

module _ ⦃p : Platform⦄ {S : Type 0} where
  -- `self.entries[self.idx].dims.push(..)`
  unfoldable pub push_dim : RegistrationBuilder → DimEntry → Registry S → Registry S
  push_dim b de r = record r {
    entries = modify r.entries b.idx (λ entry. record entry { dims = entry.dims ++ de ∷ [] });
  }

  unfoldable pub require_boxed : RegistrationBuilder → Dimension → Registry S → Registry S
  unfolding push_dim
  require_boxed b dim =
      push_dim b (record { dim = dim; state = dim.new_state (p.milli 1000); reject_on_miss = true })

  unfoldable pub prefer_boxed : RegistrationBuilder → Dimension → p.Float → Registry S → Registry S
  unfolding push_dim
  prefer_boxed b dim weight =
      push_dim b (record { dim = dim; state = dim.new_state weight; reject_on_miss = false })

  -- `Registry::register`; `next_id` is a `u64`.
  unfoldable pub register : Registry S → Consumer S → Registry S × RegistrationBuilder
  register r consumer =
      let entries = r.entries ++ record { id = r.next_id; consumer = consumer; dims = [] } ∷ [] in
      (
        record { entries = entries; next_id = (r.next_id + 1) % 2 ^ 64 },
        record { id = r.next_id; idx = length entries - 1 },
      )

  -- `Vec::retain(|e| e.id != id)`
  unfoldable pub retain : ℕ → List (RegistrationEntry S) → List (RegistrationEntry S)
  retain id [] = []
  retain id (e ∷ es) = let rest = retain id es in if e.id == id then rest else e ∷ rest

  unfoldable pub deregister : Registry S → ℕ → Registry S × Bool
  unfolding retain
  deregister r id =
      let kept = retain id r.entries in
      (record r { entries = kept }, ltb (length kept) (length r.entries))

module _ ⦃p : Platform⦄ where
  -- A tuple (score, id, index) of `RoutePlan::qualified`.
  pub record Slot : Type 0 where
    pub score : p.Float
    pub id : ℕ
    pub idx : ℕ

  pub record RoutePlan : Type 0 where
    pub meta : EventMeta
    pub qualified : List Slot

  -- The loop over the dimensions of an entry: `none` stands for `rejected`, else the total.
  unfoldable pub score_dims : Envelope → p.Float → List DimEntry → Option p.Float
  score_dims env total [] = some total
  score_dims env total (de ∷ rest) = elim (de.dim.evaluate env de.state) [
    | reject ↦ elim de.reject_on_miss [ true ↦ none | false ↦ score_dims env total rest ]
    | score s ↦ score_dims env (p.fadd total (p.fmul de.state.weight s)) rest
  ]

  abbrev pub is_reject : Verdict → Bool
  is_reject reject = true
  is_reject (score s) = false

  -- router.rs: `dims.iter().filter(|de| de.reject_on_miss).any(|de| matches!(.., Reject))`
  unfoldable pub hard_rejected : Envelope → List DimEntry → Bool
  hard_rejected env dims =
      any (λ de. de.reject_on_miss && is_reject (de.dim.evaluate env de.state)) dims

  unfoldable pub clamp : p.Float → p.Float
  clamp total = if p.is_finite total then total else p.milli 0

  -- `sb.total_cmp(sa).then_with(|| id_a.cmp(id_b))`
  unfoldable pub slot_cmp : Slot → Slot → Ordering
  slot_cmp a b = elim (compare (p.rank b.score) (p.rank a.score)) [
    | Ordering.lt ↦ Ordering.lt
    | Ordering.eq ↦ compare a.id b.id
    | Ordering.gt ↦ Ordering.gt
  ]

  -- `de.dim.observe(&event, &mut de.state)`
  unfoldable pub observe_dim : DispatchEvent → DimEntry → DimEntry
  observe_dim event de = record de { state = de.dim.observe event de.state }

module _ ⦃p : Platform⦄ {S : Type 0} where
  -- The loop of `plan` over the entries, from index i on.
  unfoldable pub qualify : Envelope → ℕ → List (RegistrationEntry S) → List Slot
  unfolding score_dims clamp
  qualify env i [] = []
  qualify env i (entry ∷ rest) = elim (score_dims env (p.milli 0) entry.dims) [
    | none ↦ qualify env (suc i) rest
    | some total ↦ record { score = clamp total; id = entry.id; idx = i } ∷ qualify env (suc i) rest
  ]

  unfoldable pub plan : Registry S → Envelope → RoutePlan
  unfolding qualify sort_by slot_cmp
  plan r env = record {
    meta = from_envelope env;
    qualified = sort_by slot_cmp (qualify env 0 r.entries);
  }

  -- One event, observed by each dimension of the entry.
  unfoldable pub observe_entry : DispatchEvent → RegistrationEntry S → RegistrationEntry S
  unfolding observe_dim
  observe_entry event entry = record entry { dims = map (observe_dim event) entry.dims }

  unfoldable pub observe_all :
      List (ℕ × DispatchEvent) → List (RegistrationEntry S) → List (RegistrationEntry S)
  unfolding observe_entry
  observe_all [] entries = entries
  observe_all ((idx, event) ∷ events) entries =
      observe_all events (modify entries idx (observe_entry event))

module _ ⦃p : Platform⦄ where
  -- `plan.qualified.iter().position(|(_, _, idx)| *idx == winner_idx)`
  unfoldable pub position : ℕ → List Slot → Option ℕ
  position winner [] = none
  position winner (slot ∷ rest) =
      let later = position winner rest in
      if slot.idx == winner then some 0 else elim later [ none ↦ none | some pos ↦ some (suc pos) ]

  unfoldable pub pre_events : EventMeta → List (ℕ × Bool) → List (ℕ × DispatchEvent)
  pre_events meta = map λ (idx, is_busy). (idx, if is_busy then busy meta else vetoed meta)

  unfoldable pub skipped_events : EventMeta → List Slot → List (ℕ × DispatchEvent)
  skipped_events meta = map λ slot. (slot.idx, skipped meta)

  -- The events of `observe`: those before the winner, and a `Skipped` for each slot after it.
  unfoldable pub observe_events : RoutePlan → Option ℕ → List (ℕ × Bool) → List (ℕ × DispatchEvent)
  unfolding position pre_events skipped_events
  observe_events plan none pre_winner = pre_events plan.meta pre_winner
  observe_events plan (some winner) pre_winner =
      pre_events plan.meta pre_winner ++ (elim (position winner plan.qualified) [
        | none ↦ []
        | some pos ↦ skipped_events plan.meta (drop (pos + 1) plan.qualified)
      ])

module _ ⦃p : Platform⦄ {S : Type 0} where
  unfoldable pub observe : Registry S → RoutePlan → Option ℕ → List (ℕ × Bool) → Registry S
  unfolding observe_events observe_all
  observe r plan winner_idx pre_winner = record r {
    entries = observe_all (observe_events plan winner_idx pre_winner) r.entries;
  }

  unfoldable pub observe_consumed : Registry S → ℕ → EventMeta → ℕ → Registry S
  unfolding observe_entry
  observe_consumed r idx meta latency = record r {
    entries = modify r.entries idx (observe_entry (consumed meta latency));
  }

  -- `Registry::new`
  abbrev pub new : Registry S
  new = record { entries = []; next_id = 0 }
