-- ===== src/Postgres/Tables.antt =====
-- The tables of shim/internal/storage/postgres/schema.go, and the state that one replica of
-- shim/internal/storage/postgres/client.go works on. Rows stand in a table in no particular order.
use dropin_queue.Base.{
  ℕ, ◌+◌, ◌-◌, ◌*◌, ℤ, pos, negsuc, suc, Bool, List, Option, Text, Map, if◌then◌else◌,
}
use dropin_queue.Types.{QueueAttributes, MessageAttribute}
use dropin_queue.Storage.{Op, ok, err, other}

pub record QueueRow : Type 0 where
  pub id : ℕ
  pub name : Text
  pub fifo : Bool
  pub attributes : QueueAttributes
  pub tags : Text
  pub created_at : ℕ

pub record MessageRow : Type 0 where
  pub id : ℕ
  pub queue_id : ℕ
  pub group_key : Text
  pub body : Text
  pub message_attributes : Text
  pub enqueued_at : ℕ
  pub visible_at : ℕ
  pub delivery_count : ℕ
  pub claim_token : Option ℕ

pub record DedupRow : Type 0 where
  pub queue_id : ℕ
  pub dedup_id : Text
  pub message_id : ℕ
  pub expires_at : ℕ

pub record TopicRow : Type 0 where
  pub id : ℕ
  pub name : Text
  pub created_at : ℕ

pub record SubscriptionRow : Type 0 where
  pub arn : Text
  pub topic_id : ℕ
  pub topic_arn : Text
  pub protocol : Text
  pub endpoint : Text
  pub filter_policy : Text
  pub raw_delivery : Bool
  pub pending : Bool
  pub created_at : ℕ

-- The database: its tables, and the sequences of the BIGSERIAL columns.
pub record Tables : Type 0 where
  pub queues : List QueueRow
  pub messages : List MessageRow
  pub dedup : List DedupRow
  pub topics : List TopicRow
  pub subscriptions : List SubscriptionRow
  pub next_queue : ℕ
  pub next_message : ℕ
  pub next_topic : ℕ

-- The statements that the adapter sends, by what they do.
pub data Statement : Type 0 where
  begin_tx commit_tx insert_message upsert_dedup delete_speculative select_winner : Statement
  select_queue resolve_queue insert_queue select_queues delete_queue delete_messages : Statement
  update_queue claim_messages delete_message update_visibility count_messages : Statement
  reap_dedup reap_messages : Statement
  insert_topic select_topic select_topics delete_topic resolve_topic : Statement
  insert_subscription select_subscriptions delete_subscription : Statement

pub record QueueIdent : Type 0 where
  pub id : ℕ
  pub fifo : Bool

-- What a replica of the shim sees during one call: the database, its own caches, the database's
-- clock and its own, the statements that the database refuses, the rows that other transactions
-- have locked, and how many UUIDs have been drawn. A violated foreign key, which a stale cache can
-- lead to, is one of the reasons to refuse a statement.
pub record Replica : Type 0 where
  pub tables : Tables
  pub open tables use *
  pub queue_cache : Map QueueIdent
  pub topic_cache : Map ℕ
  pub now : ℕ
  pub wall : ℕ
  pub refuses : Statement → Bool
  pub locked : ℕ → Bool
  pub drawn : ℕ
  pub triggered : List Text

-- What the adapter uses of packages crypto/md5, crypto/sha256, encoding/json and of the database's
-- UUIDs. A UUID is the number that its 128 bits spell.
pub record Lib : Type 0 where
  pub md5_hex : Text → Text
  pub sha256_hex : Text → Text
  pub marshal_attributes : Map MessageAttribute → Text
  pub unmarshal_attributes : Text → Map MessageAttribute
  pub marshal_tags : Map Text → Text
  pub unmarshal_tags : Text → Option (Map Text)
  pub unmarshal_policy : Text → Option (Map (List Text))
  pub random_uuid : ℕ → ℕ
  pub uuid_text : ℕ → Text
  pub parse_uuid : Text → Option ℕ

-- now() + make_interval(secs => n)
unfoldable pub after_secs : ℕ → ℤ → ℕ
after_secs t (pos n) = t + n * 1000000
after_secs t (negsuc n) = t - suc n * 1000000

-- A statement is refused, or reads the replica's database and leaves the tables that it computes.
unfoldable pub exec : {A : Type 0} → Statement → (Replica → A) → (Replica → Tables) → Op Replica A
exec st result effect r =
    if r.refuses st then (err other, r) else (ok (result r), record r { tables = effect r })

-- A statement that changes nothing.
unfoldable pub query : {A : Type 0} → Statement → (Replica → A) → Op Replica A
query st result r = if r.refuses st then (err other, r) else (ok (result r), r)
