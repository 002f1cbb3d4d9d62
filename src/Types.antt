-- ===== src/Types.antt =====
-- The types that the layers share: shim/pkg/types/queue.go. An int32 is an integer, a time is a
-- number of microseconds, and a Go map is an association list.
use dropin_queue.Base.{ℕ, ℤ, pos, Bool, false, Text, Map}

pub record QueueAttributes : Type 0 where
  pub visibility_timeout : ℤ
  pub message_retention_period : ℤ
  pub maximum_message_size : ℤ
  pub delay_seconds : ℤ
  pub receive_message_wait_time_seconds : ℤ
  pub content_based_deduplication : Bool

unfoldable pub default_queue_attributes : QueueAttributes
default_queue_attributes = record {
  visibility_timeout = pos 30;
  message_retention_period = pos 345600;
  maximum_message_size = pos 262144;
  delay_seconds = pos 0;
  receive_message_wait_time_seconds = pos 0;
  content_based_deduplication = false;
}

pub record Queue : Type 0 where
  pub name : Text
  pub url : Text
  pub arn : Text
  pub account_id : Text
  pub region : Text
  pub attributes : QueueAttributes
  pub tags : Map Text
  pub fifo : Bool
  pub created_at : ℕ

pub record MessageAttribute : Type 0 where
  pub data_type : Text
  pub string_value : Text
  pub binary_value : Text

pub record Message : Type 0 where
  pub id : Text
  pub receipt_handle : Text
  pub body : Text
  pub md5_of_body : Text
  pub attributes : Map Text
  pub message_attributes : Map MessageAttribute
  pub enqueued_at : ℕ
  pub message_group_id : Text
  pub message_deduplication_id : Text

pub record Topic : Type 0 where
  pub name : Text
  pub arn : Text
  pub account_id : Text
  pub region : Text
  pub created_at : ℕ

pub record Subscription : Type 0 where
  pub arn : Text
  pub topic_arn : Text
  pub protocol : Text
  pub endpoint : Text
  pub filter_policy : Text
  pub raw_delivery : Bool
  pub pending : Bool
  pub created_at : ℕ
