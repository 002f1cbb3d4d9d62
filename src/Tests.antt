-- ===== src/Tests.antt =====
-- Concrete states for the modules below: a database with a queue and two messages, and functions in
-- place of the libraries'.
pub mod Delivery
pub mod Sending
pub mod Service
pub mod Topics
pub mod Sns
pub mod Http
pub mod Notify
pub mod Forms
pub mod Nats
pub mod Fetch
use dropin_queue.Base.{
  ℕ, ◌+◌, ◌*◌, Bool, true, false, Option, none, some, List, [], ◌∷◌, pos, Text, codes,
}
use dropin_queue.Types.{default_queue_attributes}
use dropin_queue.Storage.{Result, ok, err}
use dropin_queue.Postgres.Tables.{
  QueueRow, MessageRow, DedupRow, Tables, QueueIdent, Replica, Lib, Statement,
}

abbrev read_uuid : Text → Option ℕ
read_uuid (u ∷ []) = some u
read_uuid _ = none

-- A UUID is printed as one character.
abbrev pub test_lib : Lib
test_lib = record {
  md5_hex = λ s. s;
  sha256_hex = λ s. s;
  marshal_attributes = λ m. [];
  unmarshal_attributes = λ s. [];
  marshal_tags = λ m. [];
  unmarshal_tags = λ s. none;
  unmarshal_policy = λ s. none;
  random_uuid = λ n. n + 100;
  uuid_text = λ u. u ∷ [];
  parse_uuid = read_uuid;
}

unfoldable pub orders : QueueRow
unfolding default_queue_attributes
orders = record {
  id = 1;
  name = codes "orders";
  fifo = true;
  attributes = default_queue_attributes;
  tags = [];
  created_at = 0;
}

abbrev pub message : ℕ → MessageRow
message id = record {
  id = id;
  queue_id = 1;
  group_key = codes "default";
  body = codes "hello";
  message_attributes = [];
  enqueued_at = 5000000;
  visible_at = 5000000;
  delivery_count = 0;
  claim_token = none;
}

-- The rows stand in the order that they were last changed in.
abbrev pub start : Replica
start = record {
  tables = record {
    queues = orders ∷ [];
    messages = message 4 ∷ message 2 ∷ [];
    dedup = [];
    topics = [];
    subscriptions = [];
    next_queue = 2;
    next_message = 5;
    next_topic = 1;
  };
  queue_cache = [];
  topic_cache = [];
  now = 6000000;
  wall = 6000000;
  refuses = λ st. false;
  locked = λ id. false;
  drawn = 0;
  triggered = [];
}

abbrev pub ident_orders : QueueIdent
ident_orders = record { id = 1; fifo = true }

abbrev pub value : {A : Type 0} → A → Result A → A
value d (ok a) = a
value d (err e) = d
