-- ===== src/Postgres/Hidden.antt =====
-- The visibility timeout of the Postgres adapter: a message that has been claimed is not found
-- again before its time.
use dropin_queue.Base.{
  ℕ, suc, ◌<◌, ◌≤◌, ◌==◌, ==_iff, ◌≡◌, refl, ap, Bool, true, false, ◌&&◌, not, Option, none, some,
  List, [], ◌∷◌, arith, ℤ, pos, any, All, All-append, All-select, Text, Bool-cases, and-eq-true,
  inl, inr, eq_ℤ, all,
}
use dropin_queue.Postgres.Tables.{MessageRow, Replica, Lib}
use dropin_queue.Postgres.Receipts.{decode_receipt_handle}
use dropin_queue.Postgres.Queues.{cascade_queue}
use dropin_queue.Postgres.Messages.{shown, change_message_visibility}
use dropin_queue.Postgres.Messages.Claim.{claimable, candidates, claim_rows}
use dropin_queue.Postgres.Messages.Claim.Order.{elem, elem-All}
use dropin_queue.Postgres.Messages.Claim.Oldest.{is_claimable, candidates-is_claimable}
use dropin_queue.Postgres.Keeps.{Keeps}
use dropin_queue.Postgres.Keeps.Calls.{IsClosed, delete_queue-Keeps}
use dropin_queue.Postgres.Keeps.Traffic.{change-Keeps}
use dropin_queue.Postgres.Steps.{Call, drops, changes, move, run}
use dropin_queue.Postgres.Steps.Unchanged.{Shows, run_keeps}

-- A row that is not the message `k`, or that shows at `t` or later.
abbrev pub IsLate : ℕ → ℕ → MessageRow → Type 0
IsLate k t m = m.id ≡ k → t ≤ m.visible_at

-- Up to the time `t` the message `k` is hidden, and no new message gets its id.
pub record IsHidden (k t : ℕ) (r : Replica) : Type 0 where
  pub given : k < r.next_message
  pub late : r.now < t → All (IsLate k t) r.messages

module _ (lib : Lib) (k t : ℕ) where
  IsLate-claim_rows :
      (ids : List ℕ) (v drawn : ℕ) (ms : List MessageRow)
      → elem k ids ≡ false
      → All (IsLate k t) ms
      → All (IsLate k t) (claim_rows lib ids v drawn ms)
  unfolding claim_rows
  IsLate-claim_rows ids v drawn [] e h = tt
  IsLate-claim_rows ids v drawn (m ∷ ms) e h = elim (Bool-cases (m.id == k)) [
    | inl same ↦ ground (
      arith,
      ap (λ i. elem i ids) ((==_iff m.id k).0 same),
      IsLate-claim_rows ids v drawn ms e h.1,
    )
    | inr other ↦ ground (
      arith,
      IsLate-claim_rows ids v drawn ms e h.1,
      IsLate-claim_rows ids v (suc drawn) ms e h.1,
    )
  ]

  not_claimable :
      (queue : ℕ) (r : Replica) (ms : List MessageRow)
      → r.now < t
      → All (IsLate k t) ms
      → any (λ m. claimable queue r m && (m.id == k)) ms ≡ false
  not_claimable queue r [] now h = refl
  not_claimable queue r (m ∷ ms) now h = ground (arith, not_claimable queue r ms now h.1)

  pub hidden_elem :
      (queue limit : ℕ) (r : Replica)
      → IsHidden k t r
      → r.now < t
      → elem k (candidates queue limit r) ≡ false
  hidden_elem queue limit r h now = elim (Bool-cases (elem k (candidates queue limit r))) [
    | inl e ↦ ground (
      arith,
      not_claimable queue r r.messages now (h.late now),
      elem-All (λ k. is_claimable queue r k ≡ true) k _ (candidates-is_claimable queue limit r) e,
    )
    | inr e ↦ e
  ]

  cascade-given :
      (name : Text) (r : Replica)
      → k < r.next_message
      → k < (cascade_queue name r.tables).next_message
  unfolding cascade_queue
  cascade-given name r h = h

  cascade-IsLate :
      (name : Text) (r : Replica)
      → All (IsLate k t) r.messages
      → All (IsLate k t) (cascade_queue name r.tables).messages
  unfolding cascade_queue
  cascade-IsLate name r h = All-select (IsLate k t) _ r.messages h

  hidden-IsClosed : IsClosed lib (IsHidden k t)
  hidden-IsClosed = record {
    sending = record {
      caches = λ r c h. record { given = h.given; late = h.late };
      triggers = λ r ts h. record { given = h.given; late = h.late };
      backs = λ a b ha hb g. record { given = hb.given; late = ha.late };
      inserts = λ queue group body attributes r h. record {
        given = omega (arith, h.given);
        late = λ now.
            All-append (IsLate k t) r.messages _ (h.late now)
              (λ same. absurd (omega (arith, same, h.given)), tt);
      };
      upserts = λ queue key id r h. record { given = h.given; late = h.late };
      drops = λ keep r h. record {
        given = h.given;
        late = λ now. All-select (IsLate k t) keep r.messages (h.late now);
      };
    };
    inserts_queue = λ q attrs r h. record {
      given = ground (arith, h.given);
      late = λ now. ground (arith, h.late now);
    };
    updates = λ name attrs r h. record { given = h.given; late = h.late };
    reaps = λ r h. record { given = h.given; late = h.late };
    claims = λ queue limit timeout r h. record {
      given = h.given;
      late = λ now.
          IsLate-claim_rows (candidates queue limit r) _ r.drawn r.messages
            (hidden_elem queue limit r h now) (h.late now);
    };
  }

  shown-IsLate :
      (id : ℤ) (uuid queue at : ℕ) (ms : List MessageRow)
      → eq_ℤ (pos k) id ≡ false
      → All (IsLate k t) ms
      → All (IsLate k t) (shown id uuid queue at ms)
  shown-IsLate id uuid queue at [] e h = tt
  shown-IsLate id uuid queue at (m ∷ ms) e h =
      ground (arith, shown-IsLate id uuid queue at ms e h.1)

-- A call other than a change of the visibility of the message `k`.
abbrev pub other_message : ℕ → Option (ℤ × Text) → Bool
other_message k none = true
other_message k (some h) = not (eq_ℤ (pos k) h.0)

abbrev pub leaves : ℕ → Call → Bool
leaves k (changes name handle timeout) = other_message k (decode_receipt_handle handle)
leaves k _ = true

module _ (lib : Lib) (k t : ℕ) where
  moved_hidden :
      (elapsed : ℕ) (other r : Replica) → IsHidden k t r → IsHidden k t (move elapsed other r)
  moved_hidden elapsed other r h = record { given = h.given; late = λ now. h.late (omega arith) }

  change-hidden :
      (name handle : Text) (timeout : ℤ)
      → other_message k (decode_receipt_handle handle) ≡ true
      → Keeps (IsHidden k t) (change_message_visibility lib name handle timeout)
  change-hidden name handle timeout other =
      change-Keeps lib (IsHidden k t) (hidden-IsClosed lib k t) name handle timeout
        (λ id token uuid queue e r h.
          let differs : eq_ℤ (pos k) id ≡ false = ground (arith, other, ap (other_message k) e) in
          record {
            given = h.given;
            late = λ now. shown-IsLate lib k t id uuid queue _ r.messages differs (h.late now);
          })

  leaves-Shows :
      (x : Call)
      → leaves k x ≡ true
      → Shows lib (IsHidden k t) (hidden-IsClosed lib k t) moved_hidden x
  leaves-Shows (drops name) h =
      delete_queue-Keeps lib (IsHidden k t) (hidden-IsClosed lib k t) name (λ r h. record {
        given = cascade-given lib k t name r h.given;
        late = λ now. cascade-IsLate lib k t name r (h.late now);
      })
  leaves-Shows (changes name handle timeout) h = change-hidden name handle timeout h
  leaves-Shows _ h = tt

  All-Shows :
      (xs : List Call)
      → all (leaves k) xs ≡ true
      → All (Shows lib (IsHidden k t) (hidden-IsClosed lib k t) moved_hidden) xs
  All-Shows [] h = tt
  All-Shows (x ∷ xs) h =
      let (here, rest) = and-eq-true (leaves k x) (all (leaves k) xs) h in
      (leaves-Shows x here, All-Shows xs rest)

  pub run-hidden :
      (xs : List Call) (r : Replica)
      → all (leaves k) xs ≡ true
      → IsHidden k t r
      → IsHidden k t (run lib xs r)
  run-hidden xs r h =
      run_keeps lib (IsHidden k t) (hidden-IsClosed lib k t) moved_hidden xs (All-Shows xs h) r
