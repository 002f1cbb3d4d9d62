-- ===== src/Sns/Service.antt =====
-- The Service of shim/internal/sns/service.go, over any storage of topics. Errors carry their codes;
-- logging is not modelled. A nil params pointer is `none`, and a nil map is an empty one.
use dropin_queue.Base.{
  ℕ, ◌+◌, ◌*◌, ◌/◌, ltb, Bool, ◌||◌, ◌&&◌, not, Option, none, some, List, [], ◌∷◌, ◌++◌, length,
  Text, codes, text_eq, is_empty, Map, insert, format, if◌then◌else◌,
}
use dropin_queue.Types.{Topic, Subscription, Message, MessageAttribute}
use dropin_queue.Awserr.Code.{missing_parameter, invalid_parameter_value, unsupported_operation}
use dropin_queue.Storage.{TopicStorage, Op, aws, pure, fail, ◌>>=◌}
use dropin_queue.Protocol.Arn.{resource_name_from_arn, new_sns_arn}
use dropin_queue.Protocol.Attributes.{
  MessageAttributeValue, message_attribute_to_types, message_attributes_size,
}
use dropin_queue.Sns.Validation.{is_valid_topic_name, is_valid_protocol}

pub record Service : Type 0 where
  pub account_id : Text
  pub region : Text
  pub endpoint_url : Text

pub record CreateTopicParams : Type 0 where
  pub name : Text
  pub tags : Map Text

pub record SubscribeParams : Type 0 where
  pub topic_arn : Text
  pub protocol : Text
  pub endpoint : Text
  pub filter_policy : Text
  pub raw_delivery : Bool
  pub return_subscription_arn : Bool

pub record PublishParams : Type 0 where
  pub topic_arn : Text
  pub message : Text
  pub subject : Text
  pub message_structure : Text
  pub message_attributes : Map MessageAttributeValue

-- The operation on the topic that an ARN names.
abbrev on_topic : {S A : Type 0} → Text → (Text → Op S A) → Op S A
on_topic arn f =
    if is_empty (resource_name_from_arn arn)
    then fail (aws invalid_parameter_value)
    else f (resource_name_from_arn arn)

abbrev pub pending_confirmation : Text
pending_confirmation = codes "pending confirmation"

abbrev policy_of : Text → Text → Text
policy_of name account_id =
    codes "{\"Version\":\"2012-10-17\",\"Id\":\"__default_policy_ID\",\"Statement\":["
    ++ codes
        "{\"Sid\":\"__default_statement_ID\",\"Effect\":\"Allow\",\"Principal\":{\"AWS\":\"*\"},"
    ++ codes "\"Action\":[\"SNS:Publish\",\"SNS:RemovePermission\",\"SNS:DeleteTopic\","
    ++ codes "\"SNS:GetTopicAttributes\",\"SNS:AddPermission\",\"SNS:ListSubscriptions\","
    ++ codes "\"SNS:ListSubscriptionsByTopic\",\"SNS:Subscribe\"],\"Resource\":\"arn:aws:sns:*:*:"
    ++ name
    ++ codes "\",\"Condition\":{\"StringEquals\":{\"AWS:SourceOwner\":\""
    ++ account_id
    ++ codes "\"}}}]}"

abbrev retry_policy : Text
retry_policy =
    codes "{\"defaultHealthyRetryPolicy\":{\"minDelayTarget\":20,\"maxDelayTarget\":20,"
    ++ codes "\"numRetries\":3,\"numMaxDelayRetries\":0,\"numNoDelayRetries\":0,"
    ++ codes "\"numMinDelayRetries\":0,\"backoffFunction\":\"linear\"}}"

abbrev delivery_policy : Text
delivery_policy =
    codes "{\"http\":" ++ retry_policy ++ codes ", \"https\":" ++ retry_policy ++ codes "}"

abbrev pub max_publish_bytes : ℕ
max_publish_bytes = 256 * 1024

abbrev pub published_bytes : PublishParams → ℕ
published_bytes p = length p.message + message_attributes_size p.message_attributes

abbrev subject_attribute : Text → MessageAttribute
subject_attribute subject = record {
  data_type = codes "String";
  string_value = subject;
  binary_value = [];
}

-- The attributes, and the subject as one of them.
unfoldable pub published_attributes : PublishParams → Map MessageAttribute
unfolding message_attribute_to_types insert
published_attributes p =
    if is_empty p.subject
    then message_attribute_to_types p.message_attributes
    else insert (codes "Subject") (subject_attribute p.subject)
        (message_attribute_to_types p.message_attributes)

abbrev pub topic_message : PublishParams → Message
topic_message p = record {
  id = [];
  receipt_handle = [];
  body = p.message;
  md5_of_body = [];
  attributes = [];
  message_attributes = published_attributes p;
  enqueued_at = 0;
  message_group_id = [];
  message_deduplication_id = [];
}

abbrev pub subscription_of : SubscribeParams → Subscription
subscription_of p = record {
  arn = [];
  topic_arn = p.topic_arn;
  protocol = p.protocol;
  endpoint = p.endpoint;
  filter_policy = p.filter_policy;
  raw_delivery = p.raw_delivery;
  pending = text_eq p.protocol (codes "http") || text_eq p.protocol (codes "https");
  created_at = 0;
}

-- What Subscribe answers for the subscription that the storage has made.
unfoldable pub shown_arn : Bool → Subscription → Text
shown_arn return_arn created =
    if not return_arn && created.pending then pending_confirmation else created.arn

module _ {S : Type 0} (storage : TopicStorage S) (s : Service) where
  -- Answers the topic's ARN.
  unfoldable pub create_topic : Option CreateTopicParams → Op S Text
  unfolding is_valid_topic_name new_sns_arn
  create_topic none = fail (aws missing_parameter)
  create_topic (some p) =
      if is_empty p.name
      then fail (aws missing_parameter)
      else if not (is_valid_topic_name p.name)
      then fail (aws invalid_parameter_value)
      else do
        created ← storage.create_topic (record {
          name = p.name;
          arn = [];
          account_id = s.account_id;
          region = s.region;
          created_at = 0;
        })
        pure (new_sns_arn s.region s.account_id created.name)

  abbrev topic_attributes : Text → Topic → Map Text
  topic_attributes arn t =
      (codes "TopicArn", arn)
      ∷ (codes "Owner", s.account_id)
      ∷ (codes "Policy", policy_of t.name s.account_id)
      ∷ (codes "DisplayName", [])
      ∷ (codes "DeliveryPolicy", [])
      ∷ (codes "SubscriptionsConfirmed", codes "0")
      ∷ (codes "SubscriptionsDeleted", codes "0")
      ∷ (codes "SubscriptionsPending", codes "0")
      ∷ (codes "EffectiveDeliveryPolicy", delivery_policy)
      ∷ (codes "CreatedTimestamp", format (t.created_at / 1000))
      ∷ []

  unfoldable pub get_topic_attributes : Option Text → Op S (Map Text)
  unfolding resource_name_from_arn format
  get_topic_attributes none = fail (aws missing_parameter)
  get_topic_attributes (some arn) =
      if is_empty arn
      then fail (aws missing_parameter)
      else on_topic arn (λ name. do t ← storage.get_topic name; pure (topic_attributes arn t))

  -- The parameters are not read.
  unfoldable pub list_topics : Op S (List Topic)
  list_topics = storage.list_topics []

  unfoldable pub delete_topic : Option Text → Op S (Unit {0})
  unfolding resource_name_from_arn
  delete_topic none = fail (aws missing_parameter)
  delete_topic (some arn) =
      if is_empty arn then fail (aws missing_parameter) else on_topic arn storage.delete_topic

  unfoldable pub unsubscribe : Option Text → Op S (Unit {0})
  unfolding text_eq
  unsubscribe none = fail (aws missing_parameter)
  unsubscribe (some arn) =
      if is_empty arn
      then fail (aws missing_parameter)
      else if text_eq arn pending_confirmation
      then pure tt
      else storage.unsubscribe arn

  -- The parameters are not read.
  unfoldable pub list_subscriptions : Op S (List Subscription)
  list_subscriptions = storage.list_subscriptions []

  -- The token is not read.
  unfoldable pub list_subscriptions_by_topic : Option Text → Op S (List Subscription)
  unfolding resource_name_from_arn
  list_subscriptions_by_topic none = fail (aws missing_parameter)
  list_subscriptions_by_topic (some arn) =
      if is_empty arn then fail (aws missing_parameter) else on_topic arn storage.list_subscriptions

  -- Answers the message's id.
  unfoldable pub publish : Option PublishParams → Op S Text
  unfolding resource_name_from_arn message_attributes_size published_attributes
  publish none = fail (aws missing_parameter)
  publish (some p) =
      if is_empty p.topic_arn || is_empty p.message
      then fail (aws missing_parameter)
      else if ltb max_publish_bytes (published_bytes p)
      then fail (aws invalid_parameter_value)
      else on_topic p.topic_arn
          (λ name. do saved ← storage.publish name (topic_message p); pure saved.id)

  -- The topic's ARN and the token, which are not read.
  unfoldable pub confirm_subscription : Option (Text × Text) → Op S Text
  confirm_subscription p = fail (aws unsupported_operation)

  -- Whether encoding/json decodes a text into a map[string]any.
  module _ (decodes_to_map : Text → Bool) where
    -- Answers the subscription's ARN.
    unfoldable pub subscribe : Option SubscribeParams → Op S Text
    unfolding is_valid_protocol text_eq shown_arn
    subscribe none = fail (aws missing_parameter)
    subscribe (some p) =
        if is_empty p.topic_arn || (is_empty p.protocol || is_empty p.endpoint)
        then fail (aws missing_parameter)
        else if not (is_valid_protocol p.protocol)
        then fail (aws invalid_parameter_value)
        else if not (is_empty p.filter_policy) && not (decodes_to_map p.filter_policy)
        then fail (aws invalid_parameter_value)
        else do
          created ← storage.subscribe (subscription_of p)
          pure (shown_arn p.return_subscription_arn created)
