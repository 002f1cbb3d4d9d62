-- ===== src/Postgres/Messages/Claim/Returned.antt =====
-- The messages that claim of shim/internal/storage/postgres/messages.go returns.
use dropin_queue.Base.{
  ℕ, suc, ◌==◌, ==_iff, ◌≡◌, refl, ap, ◌∙◌, Bool, true, ◌&&◌, List, [], ◌∷◌, map, arith, select,
  any, Bool-cases, inl, inr, ℤ, to_ℕ, format,
}
use dropin_queue.Types.{Message}
use dropin_queue.Storage.{ok}
use dropin_queue.Postgres.Tables.{MessageRow, Replica, Lib, QueueIdent, after_secs}
use dropin_queue.Postgres.Messages.Claim.{
  order_by_id, has_id, claimable, candidates, claim, claim_rows, claimed_table, built,
  build_message,
}
use dropin_queue.Postgres.Messages.Claim.Order.{
  elem, ids_of, IsDistinct, elem-All, any-order, order-IsAscending, IsAscending-ext,
}
use dropin_queue.Postgres.Messages.Claim.Oldest.{
  IsOldest, is_claimable, candidates-IsOldest, select-IsDistinct, any-select, elem-ids,
}

has_id-elem :
    (ids : List ℕ) (k : ℕ) (ms : List MessageRow)
    → any (λ m. has_id ids m && (m.id == k)) ms ≡ (elem k ids && elem k (ids_of ms))
has_id-elem ids k [] = ground arith
has_id-elem ids k (m ∷ ms) = elim (Bool-cases (m.id == k)) [
  | inl same ↦ ground (arith, has_id-elem ids k ms, ap (λ i. elem i ids) ((==_iff m.id k).0 same))
  | inr other ↦ ground (arith, has_id-elem ids k ms)
]

any_weaken :
    (p q : MessageRow → Bool) (ms : List MessageRow)
    → any (λ m. p m && q m) ms ≡ true
    → any q ms ≡ true
any_weaken p q [] h = h
any_weaken p q (m ∷ ms) h = ground (arith, any_weaken p q ms)

module _ (lib : Lib) where
  -- The UPDATE changes no id.
  pub ids-claim_rows :
      (ids : List ℕ) (t drawn : ℕ) (ms : List MessageRow)
      → ids_of (claim_rows lib ids t drawn ms) ≡ ids_of ms
  unfolding claim_rows
  ids-claim_rows ids t drawn [] = refl
  ids-claim_rows ids t drawn (m ∷ ms) =
      ground (arith, ids-claim_rows ids t (suc drawn) ms, ids-claim_rows ids t drawn ms)

  ids-built :
      (ms : List MessageRow)
      → map (λ (m : Message). m.id) (map (built lib) ms) ≡ map format (ids_of ms)
  unfolding build_message
  ids-built [] = refl
  ids-built (m ∷ ms) = ground (arith, ids-built ms)

  module _ (queue limit : ℕ) (timeout : ℤ) (r : Replica) (d : IsDistinct (ids_of r.messages)) where
    abbrev ids : List ℕ
    ids = candidates queue limit r

    abbrev rows : List MessageRow
    rows = claimed_table lib ids timeout r

    ids-rows : ids_of rows ≡ ids_of r.messages
    ids-rows = ids-claim_rows ids (after_secs r.now timeout) r.drawn r.messages

    in_table : (k : ℕ) → elem k ids ≡ true → elem k (ids_of rows) ≡ true
    in_table k e =
        rw (ids-rows, elem-ids k r.messages)
          (any_weaken (claimable queue r) (λ m. m.id == k) r.messages
            (elem-All (λ k. is_claimable queue r k ≡ true) k ids
              (candidates-IsOldest queue limit r d).open_ids e))

    elem-found : (k : ℕ) → (elem k ids && elem k (ids_of rows)) ≡ elem k ids
    elem-found k = elim (Bool-cases (elem k ids)) [
      | inl e ↦ ground (arith, ids-rows, elem-ids k r.messages, in_table k e)
      | inr e ↦ rw e
    ]

    abbrev returned : List MessageRow
    returned = order_by_id (select (has_id ids) rows)

    returned-ids : ids_of returned ≡ ids
    returned-ids =
        IsAscending-ext _ _
          (order-IsAscending _ (select-IsDistinct (has_id ids) rows (rw ids-rows d)))
          (candidates-IsOldest queue limit r d).ascending
          (λ k.
            elem-ids k _
            ∙ any-order _ _
            ∙ any-select (has_id ids) (λ m. m.id == k) rows
            ∙ has_id-elem ids k rows
            ∙ elem-found k)

  -- The messages that a claim returns are the ones that its inner SELECT finds.
  pub claim-ids :
      (q : QueueIdent) (max timeout : ℤ) (r : Replica) (msgs : List Message)
      → IsDistinct (ids_of r.messages)
      → (claim lib q max timeout r).0 ≡ ok msgs
      → map (λ (m : Message). m.id) msgs ≡ map format (candidates q.id (to_ℕ max) r)
  unfolding claim
  claim-ids q max timeout r msgs d h = ground (
    arith,
    h,
    ids-built (returned q.id (to_ℕ max) timeout r d),
    ap (map format) (returned-ids q.id (to_ℕ max) timeout r d),
  )

  -- A claim that succeeds returns the oldest claimable messages of the queue, up to the limit that
  -- it is given, in ascending order of their ids, whatever the order of the rows in the table.
  pub claim-IsOldest :
      (q : QueueIdent) (max timeout : ℤ) (r : Replica) (msgs : List Message)
      → IsDistinct (ids_of r.messages)
      → (claim lib q max timeout r).0 ≡ ok msgs
      → (ids : List ℕ) × IsOldest q.id (to_ℕ max) r ids
        × (map (λ (m : Message). m.id) msgs ≡ map format ids)
  claim-IsOldest q max timeout r msgs d h = (
    candidates q.id (to_ℕ max) r,
    candidates-IsOldest q.id (to_ℕ max) r d,
    claim-ids q max timeout r msgs d h,
  )
