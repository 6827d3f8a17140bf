-- ===== src/Dimension.antt =====
-- components/router/dimensions/dimension.rs: the trait `Dimension`, its verdicts, states and
-- events, and the weight adjustment that the built-in dimensions share.
pub mod Builtin
pub mod Weights
use jackfield.Common.{ℕ, List, String, Option, length}
use jackfield.Platform.{Platform}
use jackfield.Message.{Envelope, ProducerId}

module _ ⦃p : Platform⦄ where
  pub data Verdict : Type 0 where
    reject : Verdict
    score : p.Float → Verdict

  pub record DimState : Type 0 where
    pub weight : p.Float
    pub inner : p.Any

  pub record EventMeta : Type 0 where
    pub origin : ProducerId
    pub labels : List String
    pub size : ℕ

  -- `EventMeta::from_envelope`
  unfoldable pub from_envelope : Envelope → EventMeta
  from_envelope e = record {
    origin = e.origin;
    labels = e.message.get_labels;
    size = length e.message.get_bytes;
  }

  -- A latency is a number of nanoseconds.
  pub data DispatchEvent : Type 0 where
    vetoed : EventMeta → DispatchEvent
    consumed : EventMeta → ℕ → DispatchEvent
    busy : EventMeta → DispatchEvent
    skipped : EventMeta → DispatchEvent

  -- A `Box<dyn Dimension>`: its methods take `&self`, so they are functions of their arguments.
  pub record Dimension : Type 0 where
    pub evaluate : Envelope → DimState → Verdict
    pub observe : DispatchEvent → DimState → DimState
    pub new_state : p.Float → DimState

  -- The trait's default bodies.
  unfoldable pub default_observe : DispatchEvent → DimState → DimState
  default_observe event state = state

  unfoldable pub default_state : p.Float → DimState
  default_state weight = record { weight = weight; inner = p.any_unit }

  -- `adjust_weight`: reward ×1.1 up to 100.0, penalties ×0.8 and ×0.9 down to 0.001.
  unfoldable pub adjust_weight : DispatchEvent → DimState → DimState
  adjust_weight (consumed meta latency) state = record state {
    weight = p.fmin (p.fmul state.weight (p.milli 1100)) (p.milli 100_000);
  }
  adjust_weight (busy meta) state = record state {
    weight = p.fmax (p.fmul state.weight (p.milli 800)) (p.milli 1);
  }
  adjust_weight (vetoed meta) state = record state {
    weight = p.fmax (p.fmul state.weight (p.milli 900)) (p.milli 1);
  }
  adjust_weight (skipped meta) state = state
