-- ===== src/Awserr/Code.antt =====
-- The AWS error codes of shim/internal/awserr/awserr.go, shim/internal/sqs/service.go and
-- shim/internal/sns/service.go, a constructor for each string constant.
use dropin_queue.Base.{Text, codes}

pub data Code : Type 0 where
  invalid_parameter_value missing_parameter internal_error unsupported_operation : Code
  queue_name_exists over_limit message_too_large receipt_handle_is_invalid : Code
  queue_does_not_exist purge_queue_in_progress batch_entry_ids_not_distinct : Code
  too_many_entries_in_batch empty_batch_request : Code
  topic_already_exists topic_does_not_exist invalid_protocol subscription_does_not_exist : Code

-- The string of a code, as it goes over the wire.
unfoldable pub code_text : Code → Text
code_text invalid_parameter_value = codes "InvalidParameterValue"
code_text missing_parameter = codes "MissingParameter"
code_text internal_error = codes "InternalError"
code_text unsupported_operation = codes "UnsupportedOperation"
code_text queue_name_exists = codes "QueueNameExists"
code_text over_limit = codes "OverLimit"
code_text message_too_large = codes "MessageTooLarge"
code_text receipt_handle_is_invalid = codes "ReceiptHandleIsInvalid"
code_text queue_does_not_exist = codes "QueueDoesNotExist"
code_text purge_queue_in_progress = codes "PurgeQueueInProgress"
code_text batch_entry_ids_not_distinct = codes "BatchEntryIdsNotDistinct"
code_text too_many_entries_in_batch = codes "TooManyEntriesInBatchRequest"
code_text empty_batch_request = codes "EmptyBatchRequest"
code_text topic_already_exists = codes "TopicAlreadyExists"
code_text topic_does_not_exist = codes "TopicDoesNotExist"
code_text invalid_protocol = codes "InvalidParameter"
code_text subscription_does_not_exist = codes "SubscriptionDoesNotExist"
