-- ===== src/Nats/Metadata/RoundTrip.antt =====
-- The metadata of a queue, as shim/internal/storage/nats/metadata.go writes it, gives the queue back.
use dropin_queue.Base.{ℕ, ℤ, ◌≡◌, refl, ap, text_eq, Bool, true, false}
use dropin_queue.Types.{QueueAttributes, Queue}
use dropin_queue.Nats.Metadata.{attribute_map, attributes_of, metadata, restored}

fields_read_back :
    (v r m d w : ℤ) (c : Bool)
    → let a : QueueAttributes = record {
      visibility_timeout = v;
      message_retention_period = r;
      maximum_message_size = m;
      delay_seconds = d;
      receive_message_wait_time_seconds = w;
      content_based_deduplication = c;
    } in
      attributes_of (attribute_map a) ≡ a
unfolding attributes_of attribute_map text_eq
fields_read_back v r m d w true = refl
fields_read_back v r m d w false = refl

-- The metadata that is saved for a queue, whatever its attributes and the time are, restores the
-- queue's attributes, kind and tags to any other queue, and leaves the rest of that as it is.
pub restored-metadata :
    (now : ℕ) (p q : Queue)
    → restored (metadata now q) p
      ≡ record p { attributes = q.attributes; fifo = q.fifo; tags = q.tags }
unfolding restored metadata
restored-metadata now p q =
    let a = q.attributes in
    ap (λ (x : QueueAttributes). record p { attributes = x; fifo = q.fifo; tags = q.tags })
      (fields_read_back a.visibility_timeout a.message_retention_period a.maximum_message_size
        a.delay_seconds a.receive_message_wait_time_seconds a.content_based_deduplication)
