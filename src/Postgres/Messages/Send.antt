-- ===== src/Postgres/Messages/Send.antt =====
-- SendMessage of shim/internal/storage/postgres/messages.go: the transaction that inserts the
-- message, and undoes the insertion if the deduplication id is in use.
use dropin_queue.Base.{
  ℕ, suc, ◌/◌, ◌==◌, leb, Bool, true, ◌&&◌, not, Option, none, some, List, [], ◌∷◌, ◌++◌, map, ℤ,
  pos, ltb_ℤ, eq_ℤ, Text, codes, text_eq, is_empty, if◌then◌else◌, select, find, length, format,
}
use dropin_queue.Types.{Queue, Message}
use dropin_queue.Storage.{
  Op, Result, ok, err, invalid_argument, message_too_large, other, pure, fail, get_state, ◌>>=◌,
  ◌>>◌,
}
use dropin_queue.Postgres.Tables.{
  MessageRow, DedupRow, Tables, Replica, Lib, Statement, exec, query, after_secs,
}
use dropin_queue.Postgres.Queues.{get_queue, resolve_queue}

-- dedupWindow, in seconds
abbrev pub dedup_window : ℕ
dedup_window = 300

-- A transaction that fails, or whose commit fails, leaves the tables as they were. Sequences are
-- not rolled back.
abbrev pub roll_back : Replica → Replica → Replica
roll_back before after = record before {
  tables = record before.tables {
    next_queue = after.next_queue;
    next_message = after.next_message;
    next_topic = after.next_topic;
  };
}

unfoldable pub commit : {A : Type 0} → Replica → Result A × Replica → Result A × Replica
commit before (err e, after) = (err e, roll_back before after)
commit before (ok a, after) =
    if after.refuses Statement.commit_tx then (err other, roll_back before after) else (ok a, after)

unfoldable pub transaction : {A : Type 0} → Op Replica A → Op Replica A
unfolding commit
transaction m r = if r.refuses Statement.begin_tx then (err other, r) else commit r (m r)

-- What the transaction of SendMessage found: the new row's id and time, or the id of the message
-- that the same deduplication id was first sent with.
pub data Sent : Type 0 where
  fresh : ℕ → ℕ → Sent
  duplicate : ℕ → Sent

abbrev pub has_key : ℕ → Text → DedupRow → Bool
has_key queue key d = (d.queue_id == queue) && text_eq d.dedup_id key

-- INSERT ... ON CONFLICT DO UPDATE ... WHERE expires_at <= now(): no row is affected where an entry
-- that has not expired has the key.
abbrev pub free_key : ℕ → Option DedupRow → Bool
free_key now none = true
free_key now (some d) = leb d.expires_at now

abbrev pub upsert : ℕ → DedupRow → Option DedupRow → List DedupRow → List DedupRow
upsert now new none ds = ds ++ new ∷ []
upsert now new (some old) ds =
    if leb old.expires_at now
    then map (λ d. if has_key new.queue_id new.dedup_id d then new else d) ds
    else ds

abbrev pub entry : ℕ → Text → Replica → Option DedupRow
entry queue key r = find (has_key queue key) r.dedup

abbrev pub winner_or_fail : Option DedupRow → Op Replica ℕ
winner_or_fail none = fail other
winner_or_fail (some d) = pure d.message_id

abbrev pub new_message : ℕ → Text → Text → Text → Replica → MessageRow
new_message queue group body attributes r = record {
  id = r.next_message;
  queue_id = queue;
  group_key = group;
  body = body;
  message_attributes = attributes;
  enqueued_at = r.now;
  visible_at = r.now;
  delivery_count = 0;
  claim_token = none;
}

abbrev pub insert_message : MessageRow → Replica → Tables
insert_message m r = record r.tables {
  messages = r.messages ++ m ∷ [];
  next_message = suc r.next_message;
}

-- The rest of the transaction, for a deduplication id.
unfoldable pub deduplicate : ℕ → Text → MessageRow → Op Replica Sent
unfolding exec query after_secs
deduplicate queue key m = do
  affected ←
      exec Statement.upsert_dedup (λ r. free_key r.now (entry queue key r))
        (λ r. record r.tables {
          dedup =
              upsert r.now
                (record {
                  queue_id = queue;
                  dedup_id = key;
                  message_id = m.id;
                  expires_at = after_secs r.now (pos dedup_window);
                })
                (entry queue key r) r.dedup;
        })
  if affected then pure (fresh m.id m.enqueued_at) else do
    exec Statement.delete_speculative (λ r. tt)
        (λ r. record r.tables { messages = select (λ row. not (row.id == m.id)) r.messages })
    found ← query Statement.select_winner (entry queue key)
    winner ← winner_or_fail found
    pure (duplicate winner)

unfoldable pub send_tx : ℕ → Text → Text → Text → Text → Op Replica Sent
unfolding exec deduplicate
send_tx queue group body attributes key = do
  m ←
      exec Statement.insert_message (new_message queue group body attributes)
        (λ r. insert_message (new_message queue group body attributes r) r)
  if is_empty key then pure (fresh m.id m.enqueued_at) else deduplicate queue key m

-- The call c.coalescer.trigger(queueName), recorded; the coalescer itself is in Notify.
unfoldable pub trigger : Text → Op Replica (Unit {0})
trigger name r = (ok tt, record r { triggered = name ∷ r.triggered })

-- t.UnixMilli()
abbrev pub unix_milli : ℕ → Text
unix_milli t = format (t / 1000)

-- int(q.Attributes.MaximumMessageSize), or 262144 for zero
abbrev pub max_size : Queue → ℤ
max_size q =
    if eq_ℤ q.attributes.maximum_message_size (pos 0)
    then pos 262144
    else q.attributes.maximum_message_size

abbrev pub group_of : Queue → Message → Text
group_of q msg =
    if q.fifo && not (is_empty msg.message_group_id) then msg.message_group_id else codes "default"

module _ (lib : Lib) where
  abbrev pub dedup_id_of : Queue → Message → Text
  dedup_id_of q msg =
      if is_empty msg.message_deduplication_id
        && (q.fifo && q.attributes.content_based_deduplication)
      then lib.sha256_hex msg.body
      else msg.message_deduplication_id

  abbrev pub sent_message : Message → ℕ → ℕ → Text → Text → Message
  sent_message msg id at key value = record {
    id = format id;
    receipt_handle = [];
    body = msg.body;
    md5_of_body = lib.md5_hex msg.body;
    attributes = (codes "SentTimestamp", unix_milli at) ∷ (key, value) ∷ [];
    message_attributes = msg.message_attributes;
    enqueued_at = at;
    message_group_id = [];
    message_deduplication_id = [];
  }

  unfoldable pub answer : Text → Message → Sent → Op Replica Message
  unfolding trigger format
  answer name msg (fresh id at) = do
    trigger name
    pure (sent_message msg id at (codes "ApproximateReceiveCount") (codes "0"))
  answer name msg (duplicate winner) = do
    r ← get_state
    pure (sent_message msg winner r.wall (codes "Duplicate") (codes "true"))

  unfoldable pub send_checked : Text → Queue → Message → Op Replica Message
  unfolding resolve_queue transaction send_tx answer
  send_checked name q msg = do
    qid ← resolve_queue name
    sent ← transaction (
        send_tx qid.id (group_of q msg) msg.body (lib.marshal_attributes msg.message_attributes)
          (dedup_id_of q msg))
    answer name msg sent

  unfoldable pub send_sized : Text → Message → Queue → Op Replica Message
  unfolding send_checked
  send_sized name msg q =
      if ltb_ℤ (max_size q) (pos (length msg.body))
      then fail (message_too_large (length msg.body) (max_size q))
      else send_checked name q msg

  -- none stands for a nil *types.Message.
  unfoldable pub send_message : Text → Option Message → Op Replica Message
  unfolding get_queue send_sized
  send_message name none = fail invalid_argument
  send_message name (some msg) =
      if is_empty msg.body
      then fail invalid_argument
      else do q ← get_queue lib name; send_sized name msg q
