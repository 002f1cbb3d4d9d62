-- ===== src/Postgres/Keeps/Calls.antt =====
-- The calls of the Postgres adapter, and what is left to show of a property for every call to keep
-- it: that the statements do, and that it does not rest on the caches.
use dropin_queue.Base.{
  ℕ, ◌+◌, ◌==◌, Bool, not, Option, none, some, List, ℤ, pos, Text, Map, select, ltb, map, arith,
  lookup,
}
use dropin_queue.Types.{Queue, QueueAttributes, Message}
use dropin_queue.Postgres.Tables.{
  QueueRow, MessageRow, DedupRow, Replica, QueueIdent, Lib, exec, query, after_secs,
}
use dropin_queue.Postgres.Queues.{
  cache_queue, invalidate_queue_cache, resolve_row, resolve_cached, resolve_queue, insert_row,
  create_queue, get_row, get_queue, list_queues, cascade_queue, delete_queue, purge_queue,
  update_row, set_queue_attributes,
}
use dropin_queue.Postgres.Messages.Send.{
  dedup_window, roll_back, Sent, fresh, duplicate, upsert, entry, new_message, insert_message,
  deduplicate, send_tx, trigger, answer, winner_or_fail,
}
use dropin_queue.Postgres.Messages.Claim.{candidates, claimed_table, draws}
use dropin_queue.Postgres.Keeps.{
  Keeps, Keeps-pure, Keeps-fail, Keeps-if, Keeps-query, Keeps-exec, Keeps-bind, Keeps-then, Grows,
  keeps_rules,
}

abbrev pub new_entry : ℕ → Text → ℕ → Replica → DedupRow
new_entry queue key id r = record {
  queue_id = queue;
  dedup_id = key;
  message_id = id;
  expires_at = after_secs r.now (pos dedup_window);
}

-- A property that the statements of GetQueue and SendMessage keep.
pub record IsSendClosed (lib : Lib) (P : Replica → Type 0) : Type 0 where
  pub caches : (r : Replica) (c : Map QueueIdent) → P r → P (record r { queue_cache = c })
  pub triggers : (r : Replica) (ts : List Text) → P r → P (record r { triggered = ts })
  pub backs : (a b : Replica) → P a → P b → Grows a.tables b.tables → P (roll_back a b)
  pub inserts :
      (queue : ℕ) (group body attributes : Text) (r : Replica)
      → P r
      → P (record r { tables = insert_message (new_message queue group body attributes r) r })
  pub upserts :
      (queue : ℕ) (key : Text) (id : ℕ) (r : Replica)
      → P r
      → P (record r {
        tables = record r.tables {
          dedup = upsert r.now (new_entry queue key id r) (entry queue key r) r.dedup;
        };
      })
  pub drops :
      (keep : MessageRow → Bool) (r : Replica)
      → P r
      → P (record r { tables = record r.tables { messages = select keep r.messages } })

-- A property that the statements of every call keep.
pub record IsClosed (lib : Lib) (P : Replica → Type 0) : Type 0 where
  pub sending : IsSendClosed lib P
  pub open sending use *
  pub inserts_queue :
      (q : Queue) (attrs : QueueAttributes) (r : Replica)
      → P r
      → P (record r { tables = insert_row lib q attrs r })
  pub updates :
      (name : Text) (attrs : QueueAttributes) (r : Replica)
      → P r
      → P (record r { tables = record r.tables { queues = map (update_row name attrs) r.queues } })
  pub reaps :
      (r : Replica)
      → P r
      → P (record r {
        tables = record r.tables { dedup = select (λ d. not (ltb d.expires_at r.now)) r.dedup };
      })
  pub claims :
      (queue limit : ℕ) (timeout : ℤ) (r : Replica)
      → P r
      → P (record r {
        tables = record r.tables {
          messages = claimed_table lib (candidates queue limit r) timeout r;
        };
        drawn = r.drawn + draws (candidates queue limit r) r.messages;
      })

module _ (lib : Lib) (P : Replica → Type 0) (c : IsSendClosed lib P) where
  pub list_queues-Keeps : (prefix : Text) → Keeps P (list_queues prefix)
  unfolding list_queues
  list_queues-Keeps prefix = Keeps-query _ _

  cache-Keeps : (name : Text) (q : QueueIdent) → Keeps P (cache_queue name q)
  unfolding cache_queue
  cache-Keeps name q = record { at = λ r h. c.caches r _ h }

  invalidate-Keeps : (name : Text) → Keeps P (invalidate_queue_cache name)
  unfolding invalidate_queue_cache
  invalidate-Keeps name = record { at = λ r h. c.caches r _ h }

  resolve_row-Keeps : (name : Text) (row : Option QueueRow) → Keeps P (resolve_row name row)
  unfolding resolve_row
  resolve_row-Keeps name none = Keeps-fail _
  resolve_row-Keeps name (some q) = search (keeps_rules, cache-Keeps)

  resolve_cached-Keeps : (name : Text) (q : Option QueueIdent) → Keeps P (resolve_cached name q)
  unfolding resolve_cached
  resolve_cached-Keeps name none = search (keeps_rules, resolve_row-Keeps)
  resolve_cached-Keeps name (some q) = Keeps-pure q

  pub resolve-Keeps : (name : Text) → Keeps P (resolve_queue name)
  unfolding resolve_queue
  resolve-Keeps name = record {
    at = λ r h. (resolve_cached-Keeps name (lookup name r.queue_cache)).at r h;
  }

  get_row-Keeps : (name : Text) (row : Option QueueRow) → Keeps P (get_row lib name row)
  unfolding get_row
  get_row-Keeps name none = Keeps-fail _
  get_row-Keeps name (some q) = search (keeps_rules, cache-Keeps)

  pub get_queue-Keeps : (name : Text) → Keeps P (get_queue lib name)
  unfolding get_queue
  get_queue-Keeps name = search (keeps_rules, get_row-Keeps)

  trigger-Keeps : (name : Text) → Keeps P (trigger name)
  unfolding trigger
  trigger-Keeps name = record { at = λ r h. c.triggers r _ h }

  winner-Keeps : (d : Option DedupRow) → Keeps P (winner_or_fail d)
  winner-Keeps none = Keeps-fail _
  winner-Keeps (some d) = Keeps-pure _

  pub deduplicate-Keeps :
      (queue : ℕ) (key : Text) (m : MessageRow) → Keeps P (deduplicate queue key m)
  unfolding deduplicate
  deduplicate-Keeps queue key m =
      Keeps-bind _ _ (Keeps-exec _ _ _ (c.upserts queue key m.id)) (λ affected.
        Keeps-if affected _ _ (Keeps-pure _) (
          Keeps-then _ _ (Keeps-exec _ _ _ (c.drops (λ row. not (row.id == m.id))))
            (search (keeps_rules, winner-Keeps))))

  pub send_tx-Keeps :
      (queue : ℕ) (group body attributes key : Text)
      → Keeps P (send_tx queue group body attributes key)
  unfolding send_tx
  send_tx-Keeps queue group body attributes key =
      Keeps-bind _ _ (Keeps-exec _ _ _ (c.inserts queue group body attributes))
        (λ m. search (keeps_rules, deduplicate-Keeps))

  pub answer-Keeps : (name : Text) (msg : Message) (s : Sent) → Keeps P (answer lib name msg s)
  unfolding answer
  answer-Keeps name msg (fresh id at) = search (keeps_rules, trigger-Keeps)
  answer-Keeps name msg (duplicate winner) = record { at = λ r h. h }

module _ (lib : Lib) (P : Replica → Type 0) (c : IsClosed lib P) where
  pub create_queue-Keeps : (q : Queue) → Keeps P (create_queue lib q)
  unfolding create_queue
  create_queue-Keeps q =
      Keeps-bind _ _ (Keeps-exec _ _ _ (c.inserts_queue q _))
        (λ row. search (keeps_rules, cache-Keeps lib P c.sending))

  -- Also needed: that the property survives the cascade.
  pub delete_queue-Keeps :
      (name : Text)
      → ((r : Replica) → P r → P (record r { tables = cascade_queue name r.tables }))
      → Keeps P (delete_queue name)
  unfolding delete_queue
  delete_queue-Keeps name cascades =
      Keeps-then _ _ (Keeps-exec _ _ _ cascades) (invalidate-Keeps lib P c.sending name)

  pub purge_queue-Keeps : (name : Text) → Keeps P (purge_queue name)
  unfolding purge_queue
  purge_queue-Keeps name =
      Keeps-bind _ _ (resolve-Keeps lib P c.sending name)
        (λ q. Keeps-exec _ _ _ (c.drops (λ m. not (m.queue_id == q.id))))

  pub set_queue_attributes-Keeps :
      (name : Text) (attrs : QueueAttributes) → Keeps P (set_queue_attributes name attrs)
  unfolding set_queue_attributes
  set_queue_attributes-Keeps name attrs =
      Keeps-then _ _ (resolve-Keeps lib P c.sending name)
        (Keeps-bind _ _ (Keeps-exec _ _ _ (c.updates name attrs)) (λ found. search keeps_rules))

pub send_tx-Grows :
    (queue : ℕ) (group body attributes key : Text) (r : Replica)
    → Grows r.tables (send_tx queue group body attributes key r).1.tables
unfolding send_tx deduplicate exec query
send_tx-Grows queue group body attributes key r = ground arith
