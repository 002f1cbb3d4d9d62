-- ===== src/Postgres/Queues.antt =====
-- The queue operations of shim/internal/storage/postgres/queues.go, with the cache of queue ids of
-- shim/internal/storage/postgres/client.go.
pub mod Like
pub mod Listed
use dropin_queue.Base.{
  sort_by, ℕ, suc, ◌==◌, Bool, true, false, ◌&&◌, ◌||◌, not, Option, none, some, List, [], ◌∷◌,
  ◌++◌, map, ℤ, pos, ltb_ℤ, eq_ℤ, Text, text_eq, is_empty, Map, lookup, insert, delete,
  if◌then◌else◌, select, find, any,
}
use dropin_queue.Types.{QueueAttributes, Queue}
use dropin_queue.Storage.{
  Op, ok, err, queue_not_found, other, pure, fail, ◌>>=◌, ◌>>◌, get_state, put_state,
}
use dropin_queue.Postgres.Tables.{
  QueueRow, MessageRow, DedupRow, Tables, QueueIdent, Replica, Lib, Statement, exec, query,
}
use Like.{like}

-- c.cacheQueue(name, q)
unfoldable pub cache_queue : Text → QueueIdent → Op Replica (Unit {0})
cache_queue name q r = (ok tt, record r { queue_cache = insert name q r.queue_cache })

unfoldable pub invalidate_queue_cache : Text → Op Replica (Unit {0})
invalidate_queue_cache name r = (ok tt, record r { queue_cache = delete name r.queue_cache })

-- SELECT ... FROM queues WHERE name = $1
abbrev pub queue_named : Text → Tables → Option QueueRow
queue_named name t = find (λ q. text_eq q.name name) t.queues

abbrev pub ident : QueueRow → QueueIdent
ident q = record { id = q.id; fifo = q.fifo }

unfoldable pub resolve_row : Text → Option QueueRow → Op Replica QueueIdent
unfolding cache_queue
resolve_row name none = fail queue_not_found
resolve_row name (some q) = do cache_queue name (ident q); pure (ident q)

unfoldable pub resolve_cached : Text → Option QueueIdent → Op Replica QueueIdent
unfolding resolve_row query
resolve_cached name (some q) = pure q
resolve_cached name none = do
  row ← query Statement.resolve_queue (λ r. queue_named name r.tables)
  resolve_row name row

-- The id of a queue, from the cache if it is there.
unfoldable pub resolve_queue : Text → Op Replica QueueIdent
unfolding resolve_cached lookup
resolve_queue name r = resolve_cached name (lookup name r.queue_cache) r

-- A value, or a default for zero.
abbrev pub or_default : ℤ → ℤ → ℤ
or_default d n = if eq_ℤ n (pos 0) then d else n

module _ (lib : Lib) where
  abbrev pub or_tags : Map Text → Option (Map Text) → Map Text
  or_tags old none = old
  or_tags old (some tags) = tags

  abbrev pub new_queue : Queue → QueueAttributes → Replica → QueueRow
  new_queue q attrs r = record {
    id = r.next_queue;
    name = q.name;
    fifo = q.fifo;
    attributes = attrs;
    tags = lib.marshal_tags q.tags;
    created_at = r.now;
  }

  abbrev pub found_or_new : Queue → QueueAttributes → Replica → Option QueueRow → QueueRow
  found_or_new q attrs r (some row) = row
  found_or_new q attrs r none = new_queue q attrs r

  -- The row that the INSERT returns: the one of that name, or the new one.
  abbrev pub inserted_row : Queue → QueueAttributes → Replica → QueueRow
  inserted_row q attrs r = found_or_new q attrs r (queue_named q.name r.tables)

  -- A sequence value is drawn in either case.
  abbrev pub insert_found : Queue → QueueAttributes → Replica → Option QueueRow → Tables
  insert_found q attrs r (some row) = record r.tables { next_queue = suc r.next_queue }
  insert_found q attrs r none = record r.tables {
    queues = r.queues ++ new_queue q attrs r ∷ [];
    next_queue = suc r.next_queue;
  }

  abbrev pub insert_row : Queue → QueueAttributes → Replica → Tables
  insert_row q attrs r = insert_found q attrs r (queue_named q.name r.tables)

  unfoldable pub create_queue : Queue → Op Replica Queue
  unfolding exec cache_queue insert
  create_queue q = do
    let attrs = record q.attributes {
      visibility_timeout = or_default (pos 30) q.attributes.visibility_timeout;
      message_retention_period = or_default (pos 345600) q.attributes.message_retention_period;
      maximum_message_size = or_default (pos 262144) q.attributes.maximum_message_size;
    }
    row ← exec Statement.insert_queue (inserted_row q attrs) (insert_row q attrs)
    cache_queue q.name (ident row)
    pure (record q {
      fifo = row.fifo;
      attributes = row.attributes;
      created_at = row.created_at;
      tags = or_tags q.tags (lib.unmarshal_tags row.tags);
    })

  abbrev pub row_queue : Text → QueueRow → Queue
  row_queue name row = record {
    name = name;
    url = [];
    arn = [];
    account_id = [];
    region = [];
    attributes = row.attributes;
    tags = or_tags [] (lib.unmarshal_tags row.tags);
    fifo = row.fifo;
    created_at = row.created_at;
  }

  unfoldable pub get_row : Text → Option QueueRow → Op Replica Queue
  unfolding cache_queue
  get_row name none = fail queue_not_found
  get_row name (some row) = do cache_queue name (ident row); pure (row_queue name row)

  unfoldable pub get_queue : Text → Op Replica Queue
  unfolding query get_row
  get_queue name = do
    row ← query Statement.select_queue (λ r. queue_named name r.tables)
    get_row name row

-- WHERE $1 = '' OR name LIKE $1 || '%'
abbrev pub listed : Text → QueueRow → Bool
listed prefix q = is_empty prefix || like (prefix ++ b'%' ∷ []) q.name

abbrev pub list_row : QueueRow → Queue
list_row row = record {
  name = row.name;
  url = [];
  arn = [];
  account_id = [];
  region = [];
  attributes = row.attributes;
  tags = [];
  fifo = row.fifo;
  created_at = row.created_at;
}

unfoldable pub list_queues : Text → Op Replica (List Queue)
unfolding query like sort_by
list_queues prefix =
    query Statement.select_queues
      (λ r. map list_row (sort_by (λ q. q.name) (select (listed prefix) r.queues)))

-- The rows of a queue id go with the queue: ON DELETE CASCADE.
unfoldable pub cascade_queue : Text → Tables → Tables
cascade_queue name t =
    let gone = λ (id : ℕ). any (λ q. text_eq q.name name && (q.id == id)) t.queues in
    record t {
      queues = select (λ q. not (text_eq q.name name)) t.queues;
      messages = select (λ (m : MessageRow). not (gone m.queue_id)) t.messages;
      dedup = select (λ (d : DedupRow). not (gone d.queue_id)) t.dedup;
    }

unfoldable pub delete_queue : Text → Op Replica (Unit {0})
unfolding exec invalidate_queue_cache cascade_queue delete
delete_queue name = do
  exec Statement.delete_queue (λ r. tt) (λ r. cascade_queue name r.tables)
  invalidate_queue_cache name

unfoldable pub purge_queue : Text → Op Replica (Unit {0})
unfolding exec resolve_queue
purge_queue name = do
  q ← resolve_queue name
  exec Statement.delete_messages (λ r. tt)
      (λ r. record r.tables { messages = select (λ m. not (m.queue_id == q.id)) r.messages })

-- CASE WHEN $n > 0 THEN $n ELSE column END
abbrev pub if_positive : ℤ → ℤ → ℤ
if_positive new old = if ltb_ℤ (pos 0) new then new else old

unfoldable pub merge_attributes : QueueAttributes → QueueAttributes → QueueAttributes
merge_attributes new old = record {
  visibility_timeout = if_positive new.visibility_timeout old.visibility_timeout;
  message_retention_period = if_positive new.message_retention_period old.message_retention_period;
  maximum_message_size = if_positive new.maximum_message_size old.maximum_message_size;
  delay_seconds = if_positive new.delay_seconds old.delay_seconds;
  receive_message_wait_time_seconds =
      if_positive new.receive_message_wait_time_seconds old.receive_message_wait_time_seconds;
  content_based_deduplication = new.content_based_deduplication;
}

abbrev pub update_row : Text → QueueAttributes → QueueRow → QueueRow
update_row name attrs q =
    if text_eq q.name name then record q { attributes = merge_attributes attrs q.attributes } else q

unfoldable pub set_queue_attributes : Text → QueueAttributes → Op Replica (Unit {0})
unfolding exec resolve_queue merge_attributes
set_queue_attributes name attrs = do
  resolve_queue name
  found ←
      exec Statement.update_queue (λ r. any (λ q. text_eq q.name name) r.queues)
        (λ r. record r.tables { queues = map (update_row name attrs) r.queues })
  if found then pure tt else fail queue_not_found
