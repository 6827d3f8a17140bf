-- ===== src/Python.antt =====
-- integrations/python/integration.rs: the message bus for Python callers. The callbacks, which are
-- Python code, act on the world and may fail.
pub mod Delivery
pub mod Passing
pub mod Stock
pub mod Callbacks
pub mod Conservation
pub mod Sending
use jackfield.Common.{
  ℕ, List, [], ◌∷◌, ◌++◌, Bool, true, false, String, Option, none, some, str_eq, if◌then◌else◌,
}
use jackfield.Platform.{Platform}
use jackfield.Platform.Double.{Double}
use jackfield.Message.{Message, BaseMessage, boxed}
use jackfield.Message
use jackfield.Dimension.{Dimension}
use jackfield.Dimension.Builtin.{
  ProducerDim, LabelDim, SizeDim, producer_only, producer_any_of, producer_none_of, label_any_of,
  label_all_of, label_none_of, size_at_most, size_at_least, size_between, producer_dimension,
  label_dimension, size_dimension,
}
use jackfield.Consumer.{Consumer}
use jackfield.Registry.{RegistrationBuilder, Registry, require_boxed, prefer_boxed}
use jackfield.Router.{AffinityRouter, Router}
use jackfield.Bus.{Bus, Run, Channels, register_consumer, drain, default_bus, is_empty}
use jackfield.Producer.{Sender, ProducerHandle, Sent, try_make_send, make_handle}

pub data DimSpec : Type 0 where
  producer : ProducerDim → DimSpec
  label : LabelDim → DimSpec
  size : SizeDim → DimSpec

-- A `PyDim` is its `DimSpec`; the static methods of the classes `ProducerDim`, `LabelDim`, `SizeDim`.
unfoldable pub py_producer_only : String → DimSpec
unfolding producer_only
py_producer_only name = DimSpec.producer (producer_only name)

unfoldable pub py_producer_any_of : List String → DimSpec
unfolding producer_any_of
py_producer_any_of names = DimSpec.producer (producer_any_of names)

unfoldable pub py_producer_none_of : List String → DimSpec
unfolding producer_none_of
py_producer_none_of names = DimSpec.producer (producer_none_of names)

unfoldable pub py_label_any_of : List String → DimSpec
unfolding label_any_of
py_label_any_of labels = DimSpec.label (label_any_of labels)

unfoldable pub py_label_all_of : List String → DimSpec
unfolding label_all_of
py_label_all_of labels = DimSpec.label (label_all_of labels)

unfoldable pub py_label_none_of : List String → DimSpec
unfolding label_none_of
py_label_none_of labels = DimSpec.label (label_none_of labels)

unfoldable pub py_size_at_most : ℕ → DimSpec
unfolding size_at_most
py_size_at_most max_bytes = DimSpec.size (size_at_most max_bytes)

unfoldable pub py_size_at_least : ℕ → DimSpec
unfolding size_at_least
py_size_at_least min_bytes = DimSpec.size (size_at_least min_bytes)

unfoldable pub py_size_between : ℕ → ℕ → DimSpec
unfolding size_between
py_size_between min max = DimSpec.size (size_between min max)

abbrev pub named : Option String → List DimSpec
unfolding py_producer_only
named none = []
named (some name) = py_producer_only name ∷ []

abbrev pub listed : {A : Type 0} → Option (List A) → List A
listed none = []
listed (some l) = l

abbrev pub first_of : {A : Type 0} → Option A → Option A → Option A
first_of none next = next
first_of (some e) next = some e

module _ ⦃p : Platform⦄ where
  unfoldable pub into_dimension : DimSpec → Dimension
  unfolding producer_dimension label_dimension size_dimension
  into_dimension (DimSpec.producer dim) = producer_dimension dim
  into_dimension (DimSpec.label dim) = label_dimension dim
  into_dimension (DimSpec.size dim) = size_dimension dim

  -- A `PyMessage` is the message in it: `PyMessage::new` and its getters, print being that of uuids.
  unfoldable pub py_message : List String → List ℕ → Message
  unfolding Message.new boxed
  py_message labels bytes = boxed (Message.new none (some labels) (some bytes))

  unfoldable pub py_get_labels : Message → List String
  py_get_labels m = m.get_labels

  unfoldable pub py_get_bytes : Message → List ℕ
  py_get_bytes m = m.get_bytes

  unfoldable pub py_get_uuid : (p.Uuid → String) → Message → String
  py_get_uuid print m = print m.get_uuid

  -- A tuple (uuid, labels, data) of `PendingMessages`
  pub record Held : Type 0 where
    pub uuid : p.Uuid
    pub labels : List String
    pub bytes : List ℕ

  abbrev pub hold : Message → Held
  hold m = record { uuid = m.get_uuid; labels = m.get_labels; bytes = m.get_bytes }

  -- `BaseMessage::new(Some(uuid), Some(labels), Some(data))`, boxed
  unfoldable pub rebuild : Held → Message
  unfolding Message.new boxed
  rebuild h = boxed (Message.new (some h.uuid) (some h.labels) (some h.bytes))

  -- A `PendingMessages`, which a queue and its consumer share: a place in the world.
  pub record Pending (S : Type 0) : Type 0 where
    pub get : S → List Held
    pub put : List Held → S → S

  -- An element of `consumer_queues`. A call of the callback gives its exception, if it raises one.
  pub record Queue (Error S : Type 0) : Type 0 where
    pub callback : Message → S → Option Error × S
    pub pending : Pending S

module _ ⦃p : Platform⦄ {S : Type 0} where
  -- `impl Consumer for PyConsumerWrapper`
  unfoldable pub py_consumer : Pending S → Consumer S
  py_consumer pending = record {
    available = λ s. true;
    validate = λ env s. true;
    consume = λ m s. pending.put (pending.get s ++ hold m ∷ []) s;
  }

  abbrev pub require_each : RegistrationBuilder → List DimSpec → Registry S → Registry S
  unfolding require_boxed into_dimension
  require_each b [] r = r
  require_each b (spec ∷ specs) r = require_each b specs (require_boxed b (into_dimension spec) r)

  abbrev pub prefer_each : RegistrationBuilder → List (DimSpec × p.Float) → Registry S → Registry S
  unfolding prefer_boxed into_dimension
  prefer_each b [] r = r
  prefer_each b ((spec, weight) ∷ specs) r =
      prefer_each b specs (prefer_boxed b (into_dimension spec) weight r)

  -- `register_consumer`, on the bus; the queue goes to the end of `consumer_queues`.
  unfoldable pub py_register_consumer :
      {Error R : Type 0}
      → Bus R S
      → List (Queue Error S)
      → Queue Error S
      → Option String
      → Option (List DimSpec)
      → Option (List (DimSpec × p.Float))
      → Bus R S × List (Queue Error S)
  unfolding py_consumer register_consumer require_each prefer_each named
  py_register_consumer bus queues queue require_from require prefer =
      let (bus', b) = register_consumer bus (py_consumer queue.pending) in
      let r₁ = require_each b (named require_from) bus'.registry in
      let r₂ = require_each b (listed require) r₁ in
      (record bus' { registry = prefer_each b (listed prefer) r₂ }, queues ++ queue ∷ [])

  -- The inner loop of `drain` over the messages of a queue: the exception that ends it, if any.
  unfoldable pub call_all : {Error : Type 0} → Queue Error S → List Held → S → Option Error × S
  unfolding rebuild
  call_all q [] s = (none, s)
  call_all q (m ∷ ms) s =
      let (error, s') = q.callback (rebuild m) s in
      elim error [
        | none ↦ call_all q ms s'
        | some e ↦ (some e, q.pending.put (q.pending.get s' ++ m ∷ ms) s')
      ]

  -- `pending.lock().unwrap().drain(..)` and the inner loop
  unfoldable pub drain_queue : {Error : Type 0} → Queue Error S → S → Option Error × S
  unfolding call_all
  drain_queue q s = call_all q (q.pending.get s) (q.pending.put [] s)

  -- The outer loop, with `first_err`.
  unfoldable pub drain_queues :
      {Error : Type 0} → Option Error → List (Queue Error S) → S → Option Error × S
  unfolding drain_queue
  drain_queues first_err [] s = (first_err, s)
  drain_queues first_err (q ∷ qs) s =
      let (error, s') = drain_queue q s in drain_queues (first_of first_err error) qs s'

  -- `PyMessageBus::drain`; `none` if the fuel of the bus runs out.
  unfoldable pub py_drain :
      {Error R : Type 0}
      → Channels S
      → Router R S
      → ℕ
      → List (Queue Error S)
      → Run R S
      → Option (Option Error × Run R S)
  unfolding drain drain_queues
  py_drain ch router fuel queues run = elim (drain ch router fuel run) [
    | none ↦ none
    | some run' ↦
        let (error, s) = drain_queues none queues run'.world in
        some (error, record run' { world = s })
  ]

module _ ⦃p : Platform⦄ ⦃d : Double⦄ {S : Type 0} where
  abbrev pub find_handle : String → List (String × ProducerHandle S) → Option (ProducerHandle S)
  find_handle name [] = none
  find_handle name ((key, h) ∷ handles) =
      if str_eq key name then some h else find_handle name handles

  -- `PyMessageBus::send`; tx is the sender of the bus.
  unfoldable pub py_send :
      Sender S
      → List (String × ProducerHandle S)
      → String
      → Message
      → S
      → (Sent × S) × List (String × ProducerHandle S)
  unfolding rebuild try_make_send make_handle
  py_send tx handles producer_name msg s = elim (find_handle producer_name handles) [
    | some h ↦ (try_make_send h (rebuild (hold msg)) s, handles)
    | none ↦
        let h = make_handle tx producer_name in
        (try_make_send h (rebuild (hold msg)) s, (producer_name, h) ∷ handles)
  ]

module _ ⦃p : Platform⦄ ⦃d : Double⦄ where
  -- `PyMessageBus`, less its runtime: its bus, its handles by their names, and its queues.
  pub record PyMessageBus (Error S : Type 0) : Type 0 where
    pub bus : Bus AffinityRouter S
    pub handles : List (String × ProducerHandle S)
    pub consumer_queues : List (Queue Error S)

  -- `PyMessageBus::new`, where the runtime can be made, and `is_empty`
  unfoldable pub py_new : {Error S : Type 0} → PyMessageBus Error S
  unfolding default_bus
  py_new = record { bus = default_bus; handles = []; consumer_queues = [] }

  unfoldable pub py_is_empty : {Error S : Type 0} → Channels S → PyMessageBus Error S → S → Bool
  unfolding is_empty
  py_is_empty ch self s = is_empty ch (record { bus = self.bus; world = s })
