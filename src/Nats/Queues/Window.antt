-- ===== src/Nats/Queues/Window.antt =====
-- The deduplication window of a queue's stream: streamCfg of shim/internal/storage/nats/queues.go.
use dropin_queue.Base.{
  ◌*◌, ◌≡◌, refl, false, true, ◌&&◌, arith, ℤ, pos, negsuc, ltb_ℤ, if◌then◌else◌,
}
use dropin_queue.Types.{Queue}
use dropin_queue.Nats.Names.{Client}
use dropin_queue.Nats.Broker.{seconds, second}
use dropin_queue.Nats.Queues.{stream_cfg, dedup_window}

abbrev kept : ℤ → ℤ
kept n = if ltb_ℤ (pos 0) n then seconds n else pos (345600 * second)

abbrev window : ℤ → ℤ
window n = if ltb_ℤ (kept n) dedup_window then kept n else dedup_window

by_period :
    (n : ℤ)
    → (ltb_ℤ (pos 0) (kept n) ≡ true)
      × (ltb_ℤ (kept n) (window n) ≡ false)
      × (window n
          ≡ (if ltb_ℤ (pos 0) n && ltb_ℤ n (pos 300) then seconds n else pos (300 * second)))
by_period (pos n) = (ground arith, ground arith, ground arith)
by_period (negsuc n) = (refl, refl, refl)

-- The stream of a queue keeps messages for longer than no time, and deduplicates no longer than it
-- keeps them, whatever the queue's attributes; and it deduplicates for five minutes unless the
-- retention period is given and shorter.
pub window-fits :
    (c : Client) (q : Queue)
    → let cfg = stream_cfg c q in
      (ltb_ℤ (pos 0) cfg.max_age ≡ true)
      × (ltb_ℤ cfg.max_age cfg.duplicates ≡ false)
      × (cfg.duplicates ≡ (
          if ltb_ℤ (pos 0) q.attributes.message_retention_period
            && ltb_ℤ q.attributes.message_retention_period (pos 300)
          then seconds q.attributes.message_retention_period
          else pos (300 * second)))
unfolding stream_cfg
window-fits c q = by_period q.attributes.message_retention_period
