-- ===== src/Sqs/Messages.antt =====
-- The message operations of the Service of shim/internal/sqs/service.go but the batches.
use dropin_queue.Base.{
  ℕ, ◌+◌, ◌*◌, not, Option, none, some, List, [], map, ℤ, pos, ltb_ℤ, eq_ℤ, length, Text, is_empty,
  Map, if◌then◌else◌,
}
use dropin_queue.Types.{Queue, Message}
use dropin_queue.Awserr.Code.{Code, missing_parameter, invalid_parameter_value}
use dropin_queue.Storage.{Storage, Op, aws, pure, fail, ◌>>=◌}
use dropin_queue.Protocol.Attributes.{
  MessageAttributeValue, message_attribute_to_types, message_attributes_size,
}
use dropin_queue.Sqs.Validation.{outside, validate_message_attributes}
use dropin_queue.Sqs.Service.{checked, name_or_url, on_queue, wants_all, pick}

pub record SendMessageParams : Type 0 where
  pub queue_name : Text
  pub queue_url : Text
  pub body : Text
  pub delay_seconds : ℤ
  pub message_attributes : Map MessageAttributeValue
  pub message_group_id : Text
  pub message_deduplication_id : Text

pub record SendMessageResult : Type 0 where
  pub message_id : Text
  pub md5_of_body : Text
  pub sequence_no : Text

-- The fields of a types.Message that a send gives; the others are zero.
abbrev pub outgoing : Text → Map MessageAttributeValue → Text → Text → Message
outgoing body attrs group dedup = record {
  id = [];
  receipt_handle = [];
  body = body;
  md5_of_body = [];
  attributes = [];
  message_attributes = message_attribute_to_types attrs;
  enqueued_at = 0;
  message_group_id = group;
  message_deduplication_id = dedup;
}

abbrev pub max_batch_total_bytes : ℕ
max_batch_total_bytes = 256 * 1024

-- What a FIFO queue also asks of a message.
unfoldable pub fifo_error : Queue → ℤ → Text → Option Code
fifo_error q delay group =
    if not q.fifo
    then none
    else if ltb_ℤ (pos 0) delay
    then some invalid_parameter_value
    else if is_empty group
    then some missing_parameter
    else none

abbrev pub service_max_size : Queue → ℤ
service_max_size q =
    if eq_ℤ q.attributes.maximum_message_size (pos 0)
    then pos max_batch_total_bytes
    else q.attributes.maximum_message_size

pub record ReceiveMessageParams : Type 0 where
  pub queue_name : Text
  pub queue_url : Text
  pub max_number_of_messages : ℤ
  pub visibility_timeout : ℤ
  pub wait_time_seconds : ℤ
  pub receive_request_attempt_id : Text
  pub attribute_names : List Text
  pub message_attribute_names : List Text

-- 1 for zero, and 10 at most.
unfoldable pub limit_of : ℤ → ℤ
limit_of n = if eq_ℤ n (pos 0) then pos 1 else if ltb_ℤ (pos 10) n then pos 10 else n

unfoldable pub filtered : List Text → List Text → Message → Message
unfolding wants_all pick
filtered names attribute_names m = record m {
  attributes = if wants_all names then m.attributes else pick names m.attributes [];
  message_attributes =
      if wants_all attribute_names
      then m.message_attributes
      else pick attribute_names m.message_attributes [];
}

module _ {S : Type 0} (storage : Storage S) where
  unfoldable pub send_message : Option SendMessageParams → Op S SendMessageResult
  unfolding name_or_url validate_message_attributes message_attributes_size fifo_error
      message_attribute_to_types
  send_message none = fail (aws missing_parameter)
  send_message (some p) =
      if is_empty p.body
      then fail (aws missing_parameter)
      else on_queue p.queue_name p.queue_url (λ name.
        if outside 0 900 p.delay_seconds
        then fail (aws invalid_parameter_value)
        else checked (validate_message_attributes p.message_attributes) (do
          q ← storage.get_queue name
          if ltb_ℤ (service_max_size q)
                (pos (length p.body + message_attributes_size p.message_attributes))
              then fail (aws Code.message_too_large)
              else checked (fifo_error q p.delay_seconds p.message_group_id) (do
                saved ← storage.send_message name (
                    outgoing p.body p.message_attributes p.message_group_id
                      p.message_deduplication_id)
                pure (record {
                  message_id = saved.id;
                  md5_of_body = saved.md5_of_body;
                  sequence_no = if q.fifo then saved.id else [];
                }))))

  unfoldable pub receive_message : Option ReceiveMessageParams → Op S (List Message)
  unfolding name_or_url limit_of filtered
  receive_message none = fail (aws missing_parameter)
  receive_message (some p) = on_queue p.queue_name p.queue_url (λ name.
      if ltb_ℤ p.max_number_of_messages (pos 0)
      then fail (aws invalid_parameter_value)
      else if outside 0 20 p.wait_time_seconds
      then fail (aws invalid_parameter_value)
      else if outside 0 43200 p.visibility_timeout
      then fail (aws invalid_parameter_value)
      else do
        msgs ←
            storage.receive_message name (limit_of p.max_number_of_messages) p.wait_time_seconds
              p.visibility_timeout
        pure (map (filtered p.attribute_names p.message_attribute_names) msgs))

  -- The name, the URL and the receipt handle.
  unfoldable pub delete_message : Option (Text × Text × Text) → Op S (Unit {0})
  unfolding name_or_url
  delete_message none = fail (aws missing_parameter)
  delete_message (some (name, url, handle)) =
      if is_empty handle
      then fail (aws missing_parameter)
      else on_queue name url (λ queue. storage.delete_message queue handle)

  unfoldable pub change_message_visibility : Option (Text × Text × Text × ℤ) → Op S (Unit {0})
  unfolding name_or_url
  change_message_visibility none = fail (aws missing_parameter)
  change_message_visibility (some (name, url, handle, timeout)) =
      if is_empty handle
      then fail (aws missing_parameter)
      else if outside 0 43200 timeout
      then fail (aws invalid_parameter_value)
      else on_queue name url (λ queue. storage.change_message_visibility queue handle timeout)
