-- ===== src/Protocol/Attributes.antt =====
-- Message attributes on the wire: shim/internal/protocol/message_attribute.go. A nil map is an empty
-- one, and base64 is not modelled: a binary value is its bytes.
use dropin_queue.Base.{ℕ, ◌+◌, [], ◌∷◌, length, Text, Map}
use dropin_queue.Types.{MessageAttribute}

pub record MessageAttributeValue : Type 0 where
  pub data_type : Text
  pub string_value : Text
  pub binary_value : Text

abbrev to_type : MessageAttributeValue → MessageAttribute
to_type v = record {
  data_type = v.data_type;
  string_value = v.string_value;
  binary_value = v.binary_value;
}

unfoldable pub message_attribute_to_types : Map MessageAttributeValue → Map MessageAttribute
message_attribute_to_types [] = []
message_attribute_to_types ((k, v) ∷ attrs) = (k, to_type v) ∷ message_attribute_to_types attrs

unfoldable pub message_attributes_size : Map MessageAttributeValue → ℕ
message_attributes_size [] = 0
message_attributes_size ((name, v) ∷ attrs) =
    (length name + length v.data_type + length v.string_value + length v.binary_value)
    + message_attributes_size attrs
