-- ===== src/Postgres/Messages/Claim.antt =====
-- claim and buildMessage of shim/internal/storage/postgres/messages.go: the statement that claims
-- the oldest visible messages of a queue.
pub mod Order
pub mod Oldest
pub mod Returned
use dropin_queue.Base.{
  ℕ, suc, ◌+◌, ◌/◌, ◌==◌, ltb, leb, Bool, true, false, ◌&&◌, ◌||◌, not, Option, none, some, List,
  [], ◌∷◌, map, ℤ, pos, to_ℕ, Text, codes, if◌then◌else◌, select, any, take, format,
}
use dropin_queue.Types.{Message}
use dropin_queue.Storage.{Op, ok, err, other, pure, ◌>>=◌}
use dropin_queue.Postgres.Tables.{
  MessageRow, Tables, QueueIdent, Replica, Lib, Statement, after_secs,
}
use dropin_queue.Postgres.Receipts.{encode_receipt_handle}

insert_by_id : MessageRow → List MessageRow → List MessageRow
insert_by_id m [] = m ∷ []
insert_by_id m (n ∷ ns) = if ltb n.id m.id then n ∷ insert_by_id m ns else m ∷ n ∷ ns

-- ORDER BY id
unfoldable pub order_by_id : List MessageRow → List MessageRow
unfolding insert_by_id
order_by_id [] = []
order_by_id (m ∷ ms) = insert_by_id m (order_by_id ms)

-- WHERE queue_id = $1 AND visible_at <= now() ... FOR UPDATE SKIP LOCKED
abbrev pub claimable : ℕ → Replica → MessageRow → Bool
claimable queue r m = (m.queue_id == queue) && (leb m.visible_at r.now && not (r.locked m.id))

abbrev pub has_id : List ℕ → MessageRow → Bool
has_id ids m = any (λ i. i == m.id) ids

-- The ids that the inner SELECT finds.
unfoldable pub candidates : ℕ → ℕ → Replica → List ℕ
unfolding order_by_id
candidates queue limit r =
    map (λ m. m.id) (take limit (order_by_id (select (claimable queue r) r.messages)))

-- How many UUIDs the UPDATE draws.
unfoldable pub draws : List ℕ → List MessageRow → ℕ
draws ids [] = 0
draws ids (m ∷ ms) = if has_id ids m then suc (draws ids ms) else draws ids ms

module _ (lib : Lib) where
  abbrev pub claim_row : ℕ → ℕ → MessageRow → MessageRow
  claim_row visible_at drawn m = record m {
    visible_at = visible_at;
    delivery_count = m.delivery_count + 1;
    claim_token = some (lib.random_uuid drawn);
  }

  -- The UPDATE, row by row; each row that it changes draws a UUID.
  unfoldable pub claim_rows : List ℕ → ℕ → ℕ → List MessageRow → List MessageRow
  claim_rows ids visible_at drawn [] = []
  claim_rows ids visible_at drawn (m ∷ ms) =
      (if has_id ids m then claim_row visible_at drawn m else m)
      ∷ claim_rows ids visible_at (if has_id ids m then suc drawn else drawn) ms

  unfoldable pub build_message : MessageRow → ℕ → Message
  unfolding encode_receipt_handle format
  build_message m token = record {
    id = format m.id;
    receipt_handle = encode_receipt_handle m.id (lib.uuid_text token);
    body = m.body;
    md5_of_body = lib.md5_hex m.body;
    attributes =
        (codes "SentTimestamp", format (m.enqueued_at / 1000))
        ∷ (codes "ApproximateReceiveCount", format m.delivery_count)
        ∷ [];
    message_attributes = lib.unmarshal_attributes m.message_attributes;
    enqueued_at = m.enqueued_at;
    message_group_id = [];
    message_deduplication_id = [];
  }

  -- A row that the UPDATE changed has a token.
  abbrev pub built : MessageRow → Message
  built m = elim m.claim_token [ none ↦ build_message m 0 | some token ↦ build_message m token ]

  -- The tables after the statement, and the rows that it returns.
  abbrev pub claimed_table : List ℕ → ℤ → Replica → List MessageRow
  claimed_table ids timeout r = claim_rows ids (after_secs r.now timeout) r.drawn r.messages

  unfoldable pub claim : QueueIdent → ℤ → ℤ → Op Replica (List Message)
  unfolding candidates claim_rows draws build_message after_secs order_by_id
  claim q max timeout r =
      let ids = candidates q.id (to_ℕ max) r in
      let rows = claimed_table ids timeout r in
      if r.refuses Statement.claim_messages then (err other, r) else (
        ok (map built (order_by_id (select (has_id ids) rows))),
        record r {
          tables = record r.tables { messages = rows };
          drawn = r.drawn + draws ids r.messages;
        },
      )
