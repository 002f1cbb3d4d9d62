-- ===== src/Server/SnsJson.antt =====
-- The handlers of SNS in JSON: the handleSNS...JSON methods of
-- shim/internal/server/sns_handlers.go. The token of a list is always empty, and so left out.
use dropin_queue.Base.{some, List, [], ◌∷◌, map, Text, codes, Map}
use dropin_queue.Types.{Topic, Subscription}
use dropin_queue.Awserr.Code.{topic_does_not_exist}
use dropin_queue.Storage.{Op}
use dropin_queue.Protocol.Arn.{new_sns_arn}
use dropin_queue.Protocol.Json.{Json}
use dropin_queue.Sns.Service.{
  create_topic, get_topic_attributes, list_topics, delete_topic, subscribe, unsubscribe,
  list_subscriptions, list_subscriptions_by_topic, publish, confirm_subscription,
}
use dropin_queue.Sns.FromJson.{
  create_topic_params_from_json, get_topic_attributes_params_from_json,
  delete_topic_params_from_json, subscribe_params_from_json, unsubscribe_params_from_json,
  list_subscriptions_by_topic_params_from_json, publish_params_from_json,
  confirm_subscription_params_from_json,
}
use dropin_queue.Server.{
  sns_json, json_object, json_array, json_fields, no_fields, Response, Context, respond_json,
  respond, by_key, Server,
}

abbrev one_field : Text → Text → Json
one_field key value = json_fields ((key, value) ∷ [])

abbrev key_value : Text × Text → Json
key_value e = json_fields ((codes "key", e.0) ∷ (codes "value", e.1) ∷ [])

module _ {S : Type 0} (v : Server S) (c : Context) where
  abbrev answer : {A : Type 0} → Op S A → (A → Json) → S → Response × S
  unfolding respond
  answer m f = respond sns_json topic_does_not_exist c m (λ a. respond_json (f a))

  abbrev topic_json : Topic → Json
  topic_json t = one_field (codes "TopicArn") (new_sns_arn v.sns.region v.sns.account_id t.name)

  abbrev sub_json : Subscription → Json
  sub_json s = json_fields (
      (codes "TopicArn", s.topic_arn)
      ∷ (codes "Protocol", s.protocol)
      ∷ (codes "SubscriptionArn", s.arn)
      ∷ (codes "Endpoint", s.endpoint)
      ∷ (codes "Owner", v.sns.account_id)
      ∷ [])

  unfoldable pub subscriptions_json : List Subscription → Json
  subscriptions_json subs =
      json_object ((codes "Subscriptions", json_array (map sub_json subs)) ∷ [])

  unfoldable pub handle_sns_create_topic_json : Map Json → S → Response × S
  unfolding respond create_topic create_topic_params_from_json
  handle_sns_create_topic_json params =
      answer (create_topic v.topics v.sns (some (create_topic_params_from_json params)))
        (λ arn. one_field (codes "TopicArn") arn)

  unfoldable pub handle_sns_get_topic_attributes_json : Map Json → S → Response × S
  unfolding respond get_topic_attributes get_topic_attributes_params_from_json by_key
  handle_sns_get_topic_attributes_json params =
      answer
        (get_topic_attributes v.topics v.sns (some (get_topic_attributes_params_from_json params)))
        (λ attrs.
          json_object ((codes "Attributes", json_array (map key_value (by_key attrs))) ∷ []))

  unfoldable pub handle_sns_list_topics_json : Map Json → S → Response × S
  unfolding respond list_topics new_sns_arn
  handle_sns_list_topics_json params =
      answer (list_topics v.topics v.sns)
        (λ topics. json_object ((codes "Topics", json_array (map topic_json topics)) ∷ []))

  unfoldable pub handle_sns_delete_topic_json : Map Json → S → Response × S
  unfolding respond delete_topic delete_topic_params_from_json
  handle_sns_delete_topic_json params =
      answer (delete_topic v.topics v.sns (some (delete_topic_params_from_json params)))
        (λ _. no_fields)

  unfoldable pub handle_sns_subscribe_json : Map Json → S → Response × S
  unfolding respond subscribe subscribe_params_from_json
  handle_sns_subscribe_json params =
      answer (subscribe v.topics v.sns v.decodes_to_map (some (subscribe_params_from_json params)))
        (λ arn. one_field (codes "SubscriptionArn") arn)

  unfoldable pub handle_sns_unsubscribe_json : Map Json → S → Response × S
  unfolding respond unsubscribe unsubscribe_params_from_json
  handle_sns_unsubscribe_json params =
      answer (unsubscribe v.topics v.sns (some (unsubscribe_params_from_json params)))
        (λ _. no_fields)

  unfoldable pub handle_sns_publish_json : Map Json → S → Response × S
  unfolding respond publish publish_params_from_json
  handle_sns_publish_json params =
      answer (publish v.topics v.sns (some (publish_params_from_json v.decode_string params)))
        (λ id. one_field (codes "MessageId") id)

  unfoldable pub handle_sns_list_subscriptions_json : Map Json → S → Response × S
  unfolding respond list_subscriptions subscriptions_json
  handle_sns_list_subscriptions_json params =
      answer (list_subscriptions v.topics v.sns) (λ subs. subscriptions_json subs)

  unfoldable pub handle_sns_list_subscriptions_by_topic_json : Map Json → S → Response × S
  unfolding respond list_subscriptions_by_topic subscriptions_json
      list_subscriptions_by_topic_params_from_json
  handle_sns_list_subscriptions_by_topic_json params =
      answer
        (list_subscriptions_by_topic v.topics v.sns
          (some (list_subscriptions_by_topic_params_from_json params).0))
        (λ subs. subscriptions_json subs)

  unfoldable pub handle_sns_confirm_subscription_json : Map Json → S → Response × S
  unfolding respond confirm_subscription confirm_subscription_params_from_json
  handle_sns_confirm_subscription_json params =
      answer
        (confirm_subscription v.topics v.sns (some (confirm_subscription_params_from_json params)))
        (λ arn. one_field (codes "SubscriptionArn") arn)
