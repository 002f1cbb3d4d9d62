-- ===== src/Tests/Forms.antt =====
-- Form values at concrete parameters.
use dropin_queue.Base.{◌≡◌, refl, some, none, [], ◌∷◌, Text, Map, codes, text_eq, lookup, format}
use dropin_queue.Protocol.Query.{Values}
use dropin_queue.Protocol.Query.Pairs.{extract_attributes}
use dropin_queue.Protocol.Query.Pairs.RoundTrip.{numbered_pairs, attributes_read_back}
use dropin_queue.Sqs.FromQuery.{numbered}
use dropin_queue.Sqs.FromQuery.Numbered.{numbered-ends}
use dropin_queue.Sns.FromQuery.{subscribe_params_from_query}

abbrev attributes : Map Text
attributes = (codes "DelaySeconds", codes "5") ∷ (codes "FifoQueue", codes "true") ∷ []

attributes_read_back_example :
    lookup (codes "FifoQueue") (
      extract_attributes
        (numbered_pairs (codes "Attribute.") (codes "Name") 1 attributes)
        (codes "Attribute"))
    ≡ some (codes "true")
unfolding lookup text_eq
attributes_read_back_example =
    attributes_read_back (codes "Attribute") attributes (codes "FifoQueue") (refl, (refl, tt))

abbrev form : Values
form =
    (codes "AttributeName.2", codes "CreatedTimestamp" ∷ [])
    ∷ (codes "AttributeName.1", codes "QueueArn" ∷ [])
    ∷ (codes "AttributeName.4", codes "All" ∷ [])
    ∷ []

numbered-ends_example :
    numbered 11 (codes "AttributeName") 1 form ≡ numbered 4 (codes "AttributeName") 1 form
numbered-ends_example = numbered-ends (codes "AttributeName") form 7

-- The loop stops at the first number that is missing.
numbered_two :
    numbered 4 (codes "AttributeName") 1 form ≡ codes "QueueArn" ∷ codes "CreatedTimestamp" ∷ []
unfolding numbered lookup text_eq format
numbered_two = refl

-- A key with no number between its affixes makes the parameters of Subscribe panic.
subscribe_panics :
    subscribe_params_from_query ((codes "Attributes.Name", codes "FilterPolicy" ∷ []) ∷ []) ≡ none
unfolding subscribe_params_from_query lookup text_eq
subscribe_panics = refl
