-- ===== src/Message/RoundTrip.antt =====
-- components/message/codec.rs: the two conversions undo one another.
use jackfield.Common.{◌≡◌, none, some}
use jackfield.Platform.{Platform}
use jackfield.Message.{Message, BusableItem, to_item, from_item}

module _ ⦃p : Platform⦄ where
  -- A message that is sent over the wire and read back is the message.
  pub from_item-to_item : (m : Message) → from_item (to_item m) ≡ m
  unfolding from_item to_item
  from_item-to_item m = rw (p.from_slice-as_bytes m.get_uuid)

  -- An item whose uuid field is a uuid survives the conversion to a message and back; of any
  -- other item the uuid field becomes that of the nil uuid, and the rest survives.
  pub to_item-from_item :
      (item : BusableItem)
      → ((u : p.Uuid) → p.from_slice item.uuid ≡ some u → to_item (from_item item) ≡ item)
        × (p.from_slice item.uuid ≡ none
            → to_item (from_item item) ≡ record item { uuid = p.as_bytes p.nil_uuid })
  unfolding from_item to_item
  to_item-from_item item = (λ u h. rw (h, p.as_bytes-from_slice item.uuid u h), λ h. rw h)
