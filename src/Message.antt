-- ===== src/Message.antt =====
-- components/message: the `Message` trait, `BaseMessage`, and the wire form of codec.rs; and the
-- envelope of components/router/envelope.rs that carries a message to the router.
pub mod RoundTrip
use jackfield.Common.{ℕ, List, [], String, Option, none, some}
use jackfield.Platform.{Platform}

-- `unwrap_or_default`
abbrev pub unwrap_or {ℓ} : {A : Type ℓ} → A → Option A → A
unwrap_or d none = d
unwrap_or d (some a) = a

-- components/router/envelope.rs: `ProducerId(String)`, read by `as_str`, `as_ref` and `deref`
pub record ProducerId : Type 0 where
  pub as_str : String

module _ ⦃p : Platform⦄ where
  -- A `Box<dyn Message>`, by what its getters return.
  pub record Message : Type 0 where
    pub get_uuid : p.Uuid
    pub get_labels : List String
    pub get_bytes : List ℕ

  pub record BaseMessage : Type 0 where
    pub uuid : p.Uuid
    pub labels : List String
    pub payload : List ℕ

  -- `BaseMessage::new`
  unfoldable pub new : Option p.Uuid → Option (List String) → Option (List ℕ) → BaseMessage
  new uuid labels payload = record {
    uuid = unwrap_or p.nil_uuid uuid;
    labels = unwrap_or [] labels;
    payload = unwrap_or [] payload;
  }

  -- `acquire_uuid`, with the uuid that `Uuid::new_v4` made
  unfoldable pub acquire_uuid : p.Uuid → BaseMessage → BaseMessage
  acquire_uuid fresh m = record m { uuid = fresh }

  -- `impl Message for BaseMessage`
  unfoldable pub boxed : BaseMessage → Message
  boxed m = record { get_uuid = m.uuid; get_labels = m.labels; get_bytes = m.payload }

  -- `proto::BusableItem`, as the build generates it from proto/jackfield.proto; payload is its
  -- field `data`.
  pub record BusableItem : Type 0 where
    pub uuid : List ℕ
    pub labels : List String
    pub payload : List ℕ

  -- `impl From<Box<dyn Message>> for proto::BusableItem`
  unfoldable pub to_item : Message → BusableItem
  to_item m = record { uuid = p.as_bytes m.get_uuid; labels = m.get_labels; payload = m.get_bytes }

  -- `impl From<proto::BusableItem> for Box<dyn Message>`
  unfoldable pub from_item : BusableItem → Message
  unfolding new boxed
  from_item item =
      let uuid = unwrap_or p.nil_uuid (p.from_slice item.uuid) in
      boxed (new (some uuid) (some item.labels) (some item.payload))

  pub record Envelope : Type 0 where
    pub origin : ProducerId
    pub message : Message
