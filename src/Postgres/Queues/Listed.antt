-- ===== src/Postgres/Queues/Listed.antt =====
-- ListQueues of shim/internal/storage/postgres/queues.go: the queues whose names have the prefix.
use dropin_queue.Base.{
  ℕ, ◌≡◌, ◌≢◌, refl, ap, ◌∙◌, true, ◌&&◌, ◌||◌, List, [], ◌∷◌, ◌++◌, map, arith, select, any, All,
  Text, text_eq, has_prefix, sort_by, any-sort,
}
use dropin_queue.Types.{Queue}
use dropin_queue.Storage.{ok}
use dropin_queue.Postgres.Tables.{QueueRow, Replica, query}
use dropin_queue.Postgres.Queues.{listed, list_row, list_queues}
use dropin_queue.Postgres.Queues.Like.{like}

-- A byte that LIKE takes as it is.
abbrev pub IsPlain : ℕ → Type 0
IsPlain c = (c ≢ b'%') × (c ≢ b'_') × (c ≢ b'\\')

like_rest : (s : Text) → like (b'%' ∷ []) s ≡ true
unfolding like
like_rest [] = refl
like_rest (c ∷ s) = ground arith

like-prefix : (p s : Text) → All IsPlain p → like (p ++ b'%' ∷ []) s ≡ has_prefix p s
unfolding like has_prefix
like-prefix [] s h = like_rest s
like-prefix (a ∷ []) [] h = ground (arith, h)
like-prefix (a ∷ []) (c ∷ s) h = ground (arith, h, like_rest s)
like-prefix (a ∷ b ∷ p) [] h = ground (arith, h)
like-prefix (a ∷ b ∷ p) (c ∷ s) h = ground (arith, h, like-prefix (b ∷ p) s h.1)

listed-prefix : (p : Text) (q : QueueRow) → All IsPlain p → listed p q ≡ has_prefix p q.name
unfolding has_prefix
listed-prefix [] q h = refl
listed-prefix (a ∷ p) q h = like-prefix (a ∷ p) q.name h

any-listed :
    (prefix n : Text) (qs : List QueueRow)
    → All IsPlain prefix
    → any (λ (q : QueueRow). text_eq q.name n) (select (listed prefix) qs)
      ≡ any (λ (q : QueueRow). has_prefix prefix q.name && text_eq q.name n) qs
any-listed prefix n [] h = refl
any-listed prefix n (q ∷ qs) h = ground (arith, listed-prefix prefix q h, any-listed prefix n qs h)

any-rows :
    (n : Text) (qs : List QueueRow)
    → any (λ (q : Queue). text_eq q.name n) (map list_row qs)
      ≡ any (λ (q : QueueRow). text_eq q.name n) qs
any-rows n [] = refl
any-rows n (q ∷ qs) = ap (λ b. text_eq q.name n || b) (any-rows n qs)

-- For a prefix without `%`, `_` and backslash, ListQueues lists exactly the queues whose names start
-- with it.
pub list_queues-prefix :
    (prefix : Text) (r : Replica) (qs : List Queue)
    → All IsPlain prefix
    → (list_queues prefix r).0 ≡ ok qs
    → (n : Text)
    → any (λ (q : Queue). text_eq q.name n) qs
      ≡ any (λ (q : QueueRow). has_prefix prefix q.name && text_eq q.name n) r.queues
unfolding list_queues query
list_queues-prefix prefix r qs h e n = ground (
  arith,
  e,
  any-rows n (sort_by (λ q. q.name) (select (listed prefix) r.queues))
      ∙ any-sort (λ (q : QueueRow). q.name) (λ q. text_eq q.name n)
          (select (listed prefix) r.queues)
      ∙ any-listed prefix n r.queues h,
)
