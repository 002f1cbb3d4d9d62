-- ===== src/Sqs/Service/Names.antt =====
-- The URL and the ARN that shim/internal/sqs/service.go gives a queue lead back to its name.
use dropin_queue.Base.{
  ◌≡◌, ◌≢◌, refl, ◌≤◌, false, true, [], ◌∷◌, length, arith, Text, codes, has_prefix, Without,
  is_empty,
}
use dropin_queue.Protocol.Arn.{new_queue_url, new_sqs_arn, queue_name_from_url, name-url, name-arn}
use dropin_queue.Sqs.Validation.{is_valid_queue_name, valid-name, valid-Without}
use dropin_queue.Sqs.Service.{Service, name_or_url}

not_empty : (s : Text) → 1 ≤ length s → s ≢ []
not_empty [] h = absurd (omega arith)
not_empty (c ∷ s) h = λ e. cc e

url_given : (endpoint account name : Text) → is_empty (new_queue_url endpoint account name) ≡ false
unfolding new_queue_url
url_given [] account name = refl
url_given (c ∷ endpoint) account name = refl

-- Every name that CreateQueue accepts is read back, by the operations that take a URL or an ARN in
-- place of a name, from the URL and from the ARN that the service gives the queue, if the endpoint
-- does not start with "arn:" and neither the region nor the account id has a colon.
pub valid_name-located :
    (s : Service) (name : Text)
    → is_valid_queue_name name ≡ true
    → has_prefix (codes "arn:") (new_queue_url s.endpoint_url s.account_id name) ≡ false
    → Without b':' s.region
    → Without b':' s.account_id
    → (name_or_url [] (new_queue_url s.endpoint_url s.account_id name) ≡ name)
      × (queue_name_from_url (new_sqs_arn s.region s.account_id name) ≡ name)
unfolding name_or_url
valid_name-located s name h e r a = (
  rw (url_given s.endpoint_url s.account_id name) (
      name-url s.endpoint_url s.account_id name (valid-Without b'/' name refl h)
        (not_empty name (valid-name name h).1) e),
  name-arn s.region s.account_id name r a (valid-Without b':' name refl h),
)
