-- ===== src/Protocol/Arn.antt =====
-- ARNs and queue URLs: shim/internal/protocol/arn.go.
use dropin_queue.Base.{
  ℕ, ◌==◌, ◌≡◌, ◌≢◌, refl, false, Option, none, some, List, [], ◌∷◌, ◌++◌, arith, Text, codes,
  has_prefix, Without, is_empty, if◌then◌else◌,
}

-- The first field of strings.Split, and the others.
abbrev onto_first : ℕ → List Text → List Text
onto_first c [] = (c ∷ []) ∷ []
onto_first c (p ∷ ps) = (c ∷ p) ∷ ps

-- strings.Split(s, sep) with a separator of one byte
unfoldable pub split : ℕ → Text → List Text
split sep [] = [] ∷ []
split sep (c ∷ s) = if c == sep then [] ∷ split sep s else onto_first c (split sep s)

-- parts[5], or "" if there are fewer than six
abbrev pub sixth : List Text → Text
sixth (a ∷ b ∷ c ∷ d ∷ e ∷ f ∷ rest) = f
sixth _ = []

unfoldable pub resource_name_from_arn : Text → Text
unfolding split
resource_name_from_arn arn = sixth (split b':' arn)

abbrev or_here : Text → Option Text → Option Text
or_here s none = some s
or_here s (some t) = some t

-- What follows the last separator, if there is one.
unfoldable pub after_last : ℕ → Text → Option Text
after_last sep [] = none
after_last sep (c ∷ s) = if c == sep then or_here s (after_last sep s) else after_last sep s

abbrev pub segment : Text → Option Text → Text
segment endpoint none = endpoint
segment endpoint (some name) = if is_empty name then endpoint else name

unfoldable pub queue_name_from_url : Text → Text
unfolding resource_name_from_arn after_last has_prefix
queue_name_from_url endpoint =
    if has_prefix (codes "arn:") endpoint
    then resource_name_from_arn endpoint
    else segment endpoint (after_last b'/' endpoint)

unfoldable pub new_queue_url : Text → Text → Text → Text
new_queue_url endpoint account_id queue_name = endpoint ++ b'/' ∷ (account_id ++ b'/' ∷ queue_name)

unfoldable pub new_sqs_arn : Text → Text → Text → Text
new_sqs_arn region account_id queue_name =
    codes "arn:aws:sqs:" ++ (region ++ b':' ∷ (account_id ++ b':' ∷ queue_name))

unfoldable pub new_sns_arn : Text → Text → Text → Text
new_sns_arn region account_id topic_name =
    codes "arn:aws:sns:" ++ (region ++ b':' ∷ (account_id ++ b':' ∷ topic_name))

after_last-none : (sep : ℕ) (s : Text) → Without sep s → after_last sep s ≡ none
unfolding after_last
after_last-none sep [] h = refl
after_last-none sep (c ∷ s) h = ground (arith, h, after_last-none sep s)

after_last-append : (sep : ℕ) (s t : Text) → Without sep t → after_last sep (s ++ sep ∷ t) ≡ some t
unfolding after_last
after_last-append sep [] t h = ground (arith, after_last-none sep t h)
after_last-append sep (c ∷ s) t h = ground (arith, after_last-append sep s t h)

after_last-twice :
    (sep : ℕ) (s t u : Text) → Without sep u → after_last sep (s ++ sep ∷ (t ++ sep ∷ u)) ≡ some u
unfolding after_last
after_last-twice sep [] t u h = ground (arith, after_last-append sep t u h)
after_last-twice sep (c ∷ s) t u h = ground (arith, after_last-twice sep s t u h)

-- A queue's URL is read back as the queue's name, if the name has no slash and is not empty, and if
-- the endpoint does not make the URL look like an ARN.
pub name-url :
    (endpoint account_id name : Text)
    → Without b'/' name
    → name ≢ []
    → has_prefix (codes "arn:") (new_queue_url endpoint account_id name) ≡ false
    → queue_name_from_url (new_queue_url endpoint account_id name) ≡ name
unfolding queue_name_from_url new_queue_url
name-url endpoint account_id [] w n h = absurd (n refl)
name-url endpoint account_id (c ∷ name) w n h =
    ground (arith, h, after_last-twice b'/' endpoint account_id (c ∷ name) w)

pub split-none : (sep : ℕ) (s : Text) → Without sep s → split sep s ≡ s ∷ []
unfolding split
split-none sep [] h = refl
split-none sep (c ∷ s) h = ground (arith, h, split-none sep s)

pub split-append :
    (sep : ℕ) (s t : Text) → Without sep s → split sep (s ++ sep ∷ t) ≡ s ∷ split sep t
unfolding split
split-append sep [] t h = ground arith
split-append sep (c ∷ s) t h = ground (arith, h, split-append sep s t)

-- A queue's ARN is read back as the queue's name, if no part of it has a colon.
pub name-arn :
    (region account_id name : Text)
    → Without b':' region
    → Without b':' account_id
    → Without b':' name
    → queue_name_from_url (new_sqs_arn region account_id name) ≡ name
unfolding queue_name_from_url new_sqs_arn resource_name_from_arn has_prefix split
name-arn region account_id name r a n = ground (
  arith,
  split-append b':' region (account_id ++ b':' ∷ name) r,
  split-append b':' account_id name a,
  split-none b':' name n,
)

-- A topic's ARN is read back as the topic's name, if no part of it has a colon.
pub name-sns :
    (region account_id name : Text)
    → Without b':' region
    → Without b':' account_id
    → Without b':' name
    → resource_name_from_arn (new_sns_arn region account_id name) ≡ name
unfolding new_sns_arn resource_name_from_arn split
name-sns region account_id name r a n = ground (
  arith,
  split-append b':' region (account_id ++ b':' ∷ name) r,
  split-append b':' account_id name a,
  split-none b':' name n,
)
