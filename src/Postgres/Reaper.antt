-- ===== src/Postgres/Reaper.antt =====
-- reapOnce of shim/internal/storage/postgres/client.go: the periodic removal of expired
-- deduplication entries and of messages past their queue's retention.
use dropin_queue.Base.{
  ℕ, suc, ◌+◌, ◌-◌, ◌*◌, ◌==◌, ltb, Bool, ◌&&◌, not, ℤ, pos, negsuc, select, any,
}
use dropin_queue.Storage.{Op}
use dropin_queue.Postgres.Tables.{MessageRow, Replica, Statement, exec}

-- now() - make_interval(secs => n)
abbrev pub before_secs : ℕ → ℤ → ℕ
before_secs t (pos n) = t - n * 1000000
before_secs t (negsuc n) = t + suc n * 1000000

abbrev pub retained : Replica → MessageRow → Bool
retained r m = not (
    any
      (λ q.
        (m.queue_id == q.id)
        && ltb m.enqueued_at (before_secs r.now q.attributes.message_retention_period))
      r.queues)

-- The errors are logged, and the second statement is sent whatever the first one did.
unfoldable pub reap_dedup : Op Replica (Unit {0})
unfolding exec
reap_dedup =
    exec Statement.reap_dedup (λ r. tt)
      (λ r. record r.tables { dedup = select (λ d. not (ltb d.expires_at r.now)) r.dedup })

unfoldable pub reap_messages : Op Replica (Unit {0})
unfolding exec
reap_messages =
    exec Statement.reap_messages (λ r. tt)
      (λ r. record r.tables { messages = select (retained r) r.messages })

unfoldable pub reap_once : Replica → Replica
unfolding reap_dedup reap_messages
reap_once r = (reap_messages (reap_dedup r).1).1
