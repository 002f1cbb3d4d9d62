-- ===== src/Awserr/Faults.antt =====
-- shim/internal/awserr/awserr.go: RegisterSenderFaults, IsSenderFault and FromStorage, with the
-- registrations of the sqs and sns packages' init functions.
use dropin_queue.Base.{
  ◌≡◌, ◌≢◌, ◌↔◌, refl, sym, ap, ◌∙◌, Bool, true, false, not, ◌||◌, List, [], ◌∷◌, arith, Text,
  text_eq, any,
}
use dropin_queue.Storage.{
  Err, message_not_found, broker_unavailable, other, queue_not_found, queue_already_exists,
  topic_not_found, queue_full, invalid_argument, invalid_receipt_handle, aws,
}
use dropin_queue.Awserr.Code.{
  Code, code_text, invalid_parameter_value, missing_parameter, internal_error,
  unsupported_operation, queue_name_exists, over_limit, receipt_handle_is_invalid,
  queue_does_not_exist, purge_queue_in_progress, batch_entry_ids_not_distinct,
  too_many_entries_in_batch, empty_batch_request, topic_already_exists, topic_does_not_exist,
  invalid_protocol, subscription_does_not_exist,
}

-- The registry senderCodes: a set of strings.
abbrev pub Registry : Type 0
Registry = List Text

abbrev pub sender_codes : Registry
sender_codes = code_text invalid_parameter_value ∷ code_text missing_parameter ∷ []

unfoldable pub register_sender_faults : Registry → List Code → Registry
register_sender_faults reg [] = reg
register_sender_faults reg (c ∷ cs) = register_sender_faults (code_text c ∷ reg) cs

unfoldable pub is_sender_fault : Registry → Code → Bool
is_sender_fault reg c = any (text_eq (code_text c)) reg

-- init of package sqs
unfoldable pub register_sqs : Registry → Registry
unfolding register_sender_faults
register_sqs reg = register_sender_faults reg (
    queue_name_exists ∷ queue_does_not_exist ∷ purge_queue_in_progress
    ∷ batch_entry_ids_not_distinct ∷ too_many_entries_in_batch ∷ empty_batch_request ∷ over_limit
    ∷ Code.message_too_large ∷ receipt_handle_is_invalid ∷ [])

-- init of package sns
unfoldable pub register_sns : Registry → Registry
unfolding register_sender_faults
register_sns reg = register_sender_faults reg (
    topic_already_exists ∷ topic_does_not_exist ∷ invalid_protocol ∷ subscription_does_not_exist
    ∷ [])

-- The registry of the running server, which links both packages.
unfoldable pub server_registry : Registry
unfolding register_sqs register_sns code_text
server_registry = register_sqs (register_sns sender_codes)

-- The code of FromStorage(err, not_found) for an error that is not nil.
unfoldable pub from_storage : Code → Err → Code
from_storage not_found (aws c) = c
from_storage not_found queue_not_found = not_found
from_storage not_found topic_not_found = not_found
from_storage not_found queue_already_exists = queue_name_exists
from_storage not_found queue_full = over_limit
from_storage not_found (Err.message_too_large body max) = Code.message_too_large
from_storage not_found invalid_receipt_handle = receipt_handle_is_invalid
from_storage not_found invalid_argument = invalid_parameter_value
from_storage not_found _ = internal_error

abbrev pub is_server_code : Code → Bool
is_server_code internal_error = true
is_server_code unsupported_operation = true
is_server_code _ = false

only_internal :
    (c : Code) → c ≢ unsupported_operation → c ≢ internal_error → is_server_code c ≡ false
only_internal internal_error supported differs = absurd (differs refl)
only_internal unsupported_operation supported differs = absurd (supported refl)
only_internal _ supported differs = refl

-- In the running server a code is the caller's fault exactly when it is neither InternalError nor
-- UnsupportedOperation.
is_sender_fault_iff : (c : Code) → is_sender_fault server_registry c ≡ not (is_server_code c)
unfolding is_sender_fault server_registry text_eq
is_sender_fault_iff internal_error = refl
is_sender_fault_iff _ = refl

-- In the running server a code other than UnsupportedOperation is the caller's fault exactly when it
-- is not InternalError.
pub supported-is_sender_fault :
    (c : Code)
    → c ≢ unsupported_operation
    → (is_sender_fault server_registry c ≡ true) ↔ (c ≢ internal_error)
supported-is_sender_fault c supported = (
  λ fault same. absurd (
      cc (
        sym fault
        ∙ ap (is_sender_fault server_registry) same
        ∙ is_sender_fault_iff internal_error)),
  λ differs. is_sender_fault_iff c ∙ ap not (only_internal c supported differs),
)

-- However often and in whichever order the packages register their codes, every code registered is
-- classified as the caller's fault, and a code that was classified so stays so.
pub register-is_sender_fault :
    (reg : Registry) (cs : List Code) (c : Code)
    → is_sender_fault (register_sender_faults reg cs) c
      ≡ (any (λ d. text_eq (code_text c) (code_text d)) cs || is_sender_fault reg c)
unfolding register_sender_faults is_sender_fault
register-is_sender_fault reg [] c = refl
register-is_sender_fault reg (d ∷ cs) c =
    ground (arith, register-is_sender_fault (code_text d ∷ reg) cs c)

-- The errors that are not the caller's fault.
abbrev pub is_server_err : Err → Bool
is_server_err (aws c) = is_server_code c
is_server_err message_not_found = true
is_server_err broker_unavailable = true
is_server_err other = true
is_server_err _ = false

pub from_storage-is_sender_fault :
    (not_found : Code) (e : Err)
    → is_server_code not_found ≡ false
    → is_sender_fault server_registry (from_storage not_found e) ≡ not (is_server_err e)
unfolding from_storage
from_storage-is_sender_fault not_found (aws c) h = is_sender_fault_iff c
from_storage-is_sender_fault not_found queue_not_found h = rw (is_sender_fault_iff not_found, h)
from_storage-is_sender_fault not_found topic_not_found h = rw (is_sender_fault_iff not_found, h)
from_storage-is_sender_fault not_found message_not_found h = is_sender_fault_iff internal_error
from_storage-is_sender_fault not_found broker_unavailable h = is_sender_fault_iff internal_error
from_storage-is_sender_fault not_found other h = is_sender_fault_iff internal_error
from_storage-is_sender_fault not_found queue_already_exists h =
    is_sender_fault_iff queue_name_exists
from_storage-is_sender_fault not_found queue_full h = is_sender_fault_iff over_limit
from_storage-is_sender_fault not_found (Err.message_too_large body max) h =
    is_sender_fault_iff Code.message_too_large
from_storage-is_sender_fault not_found invalid_receipt_handle h =
    is_sender_fault_iff receipt_handle_is_invalid
from_storage-is_sender_fault not_found invalid_argument h =
    is_sender_fault_iff invalid_parameter_value
