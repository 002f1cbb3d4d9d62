-- ===== src/Tests/Topics.antt =====
-- Topics, subscriptions and filter policies at concrete parameters.
use dropin_queue.Base.{
  ◌≡◌, ◌↔◌, refl, true, false, some, List, [], ◌∷◌, Text, Map, codes, text_eq, lookup, insert,
  arith, map, if◌then◌else◌,
}
use dropin_queue.Types.{Message, Subscription}
use dropin_queue.Postgres.Tables.{MessageRow, TopicRow, SubscriptionRow, Replica, Lib}
use dropin_queue.Postgres.FilterPolicy.{matches_filter_policy, Accepts, matches_filter_policy_iff}
use dropin_queue.Postgres.Topics.{delete_topic, list_subscriptions, row_subscription, subscribe}
use dropin_queue.Postgres.Topics.Listed.{delete_topic-list}
use dropin_queue.Postgres.Topics.Publish.{is_delivered, publish}
use dropin_queue.Postgres.Topics.Isolated.{of_queue}
use dropin_queue.Postgres.Topics.Reached.{publish-others}
use dropin_queue.Postgres.WellFormed.{IsWellFormed}
use dropin_queue.Protocol.Arn.{queue_name_from_url}
use dropin_queue.Tests.{test_lib, orders, message, start, value}

abbrev policy : Map (List Text)
policy =
    (codes "kind", codes "order" ∷ codes "refund" ∷ []) ∷ (codes "region", codes "eu" ∷ []) ∷ []

abbrev policy_lib : Lib
policy_lib = record test_lib { unmarshal_policy = λ s. some policy }

abbrev event : Text → Message
event region = record {
  id = [];
  receipt_handle = [];
  body = codes "hi";
  md5_of_body = [];
  attributes = (codes "region", region) ∷ [];
  message_attributes =
      (
        codes "kind",
        record { data_type = codes "String"; string_value = codes "refund"; binary_value = [] },
      )
      ∷ [];
  enqueued_at = 0;
  message_group_id = [];
  message_deduplication_id = [];
}

matches_eu : matches_filter_policy policy_lib (codes "{}") (event (codes "eu")) ≡ true
unfolding matches_filter_policy text_eq
matches_eu = refl

matches_us : matches_filter_policy policy_lib (codes "{}") (event (codes "us")) ≡ false
unfolding matches_filter_policy text_eq
matches_us = refl

matches_filter_policy_iff_example :
    (matches_filter_policy policy_lib (codes "{}") (event (codes "eu")) ≡ true) ↔ (
      (name : Text) (allowed : List Text)
      → lookup name policy ≡ some allowed
      → Accepts (event (codes "eu")) name allowed)
unfolding lookup text_eq
matches_filter_policy_iff_example =
    matches_filter_policy_iff policy_lib (codes "{}") policy (event (codes "eu")) refl refl
      (refl, (refl, tt))

abbrev pub topic : Text → TopicRow
topic name = record { id = 1; name = name; created_at = 0 }

abbrev pub subscription : Text → SubscriptionRow
subscription arn = record {
  arn = arn;
  topic_id = 1;
  topic_arn = codes "arn:aws:sns:us-east-1:1:news";
  protocol = codes "sqs";
  endpoint = codes "http://localhost/1/orders";
  filter_policy = [];
  raw_delivery = false;
  pending = false;
  created_at = 0;
}

abbrev pub with_topics : Replica
with_topics = record start {
  tables = record start.tables {
    topics = topic (codes "news") ∷ record (topic (codes "sport")) { id = 2 } ∷ [];
    subscriptions =
        record (subscription (codes "b")) { topic_id = 2 }
        ∷ subscription (codes "c")
        ∷ record (subscription (codes "a")) { topic_id = 2 }
        ∷ [];
  };
}

abbrev sport_subscriptions : List Subscription
sport_subscriptions =
    row_subscription (record (subscription (codes "a")) { topic_id = 2 })
    ∷ row_subscription (record (subscription (codes "b")) { topic_id = 2 })
    ∷ []

delete_topic-list_example :
    sport_subscriptions
    ≡ (if text_eq (codes "news") (codes "sport") then [] else sport_subscriptions)
unfolding delete_topic list_subscriptions text_eq
delete_topic-list_example =
    delete_topic-list (codes "news") (codes "sport") with_topics sport_subscriptions
      sport_subscriptions refl (refl, (refl, tt)) refl refl refl

-- A new https subscription waits for its confirmation.
subscribe_pending :
    (value
      (row_subscription (subscription []))
      (subscribe test_lib 1
        (record (row_subscription (subscription (codes "d"))) { protocol = codes "https" })
        with_topics).0).pending
    ≡ true
unfolding subscribe text_eq
subscribe_pending = refl

-- A queue that no subscription names, with a message.
abbrev audited : Replica
audited = record with_topics {
  tables = record with_topics.tables {
    queues = orders ∷ record orders { id = 2; name = codes "audit" } ∷ [];
    messages = message 4 ∷ record (message 3) { queue_id = 2 } ∷ [];
    next_queue = 3;
  };
}

audited-IsWellFormed : IsWellFormed audited.tables
unfolding orders text_eq
audited-IsWellFormed = record {
  messages = ((λ e. absurd (omega (arith, e)), tt), (tt, tt));
  message_ids = (omega arith, (omega arith, tt));
  queues = (((λ e. absurd (omega (arith, e)), refl), tt), (tt, tt));
  queue_ids = (omega arith, (omega arith, tt));
  dedup = tt;
}

-- The deliveries run in the order of the list.
abbrev pub all_run : List Subscription → List Subscription
all_run subs = subs

abbrev news_event : Message
news_event = event (codes "eu")

-- The queue that the subscription names gets the message.
orders_reached :
    map
      (λ (m : MessageRow). m.id)
      (of_queue 1
        (publish test_lib all_run 7000 (codes "news") (some news_event) audited).1.messages)
    ≡ 4 ∷ 5 ∷ []
unfolding publish orders text_eq insert
orders_reached = refl

publish-others_example :
    of_queue 2 (publish test_lib all_run 7000 (codes "news") (some news_event) audited).1.messages
    ≡ record (message 3) { queue_id = 2 } ∷ []
unfolding list_subscriptions is_delivered orders text_eq queue_name_from_url
publish-others_example =
    publish-others test_lib all_run (codes "audit") 2 7000 (codes "news") news_event
      (row_subscription (subscription (codes "c")) ∷ []) audited (λ P subs h. h)
      audited-IsWellFormed (omega arith, (λ e. absurd (omega (arith, e)), (λ e. refl, tt))) refl
      (λ matches sqs. refl, tt)
