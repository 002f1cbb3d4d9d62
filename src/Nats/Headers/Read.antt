-- ===== src/Nats/Headers/Read.antt =====
-- What the loop over the headers in parseJetStreamMsg of shim/internal/storage/nats/messages.go reads
-- for a name.
use dropin_queue.Base.{
  IsGoMap, lookup-insert, text_eq_iff, text_eq_refl, ap, subst, ◌∙◌, refl, ◌≡◌, false, ◌&&◌, Option,
  none, some, List, [], ◌∷◌, Text, codes, text_eq, has_prefix, Map, lookup, drop, if◌then◌else◌,
  arith, Bool-cases, inl, inr,
}
use dropin_queue.Types.{MessageAttribute}
use dropin_queue.Nats.Headers.{
  Base64, Header, value_key, type_key, data_type_of, parsed_attribute, add_header, read_headers,
  assign,
}
use dropin_queue.Nats.Headers.Keys.{prefix_split, has_prefix-append, value_value, is_plain}

module _ (b : Base64) where
  -- What the loop reads for a name from the value of the name's header.
  abbrev pub found : Header → Text → List Text → Option MessageAttribute
  found hdr n [] = none
  found hdr n (v ∷ vs) = parsed_attribute b (data_type_of (lookup (type_key n) hdr)) v

  abbrev pub or_before : Option MessageAttribute → Option MessageAttribute → Option MessageAttribute
  or_before before none = before
  or_before before (some a) = some a

  lookup-assign :
      (n m : Text) (o : Option MessageAttribute) (out : Map MessageAttribute)
      → lookup n (assign m o out)
        ≡ (if text_eq m n then or_before (lookup n out) o else lookup n out)
  lookup-assign n m none out = ground arith
  lookup-assign n m (some a) out = lookup-insert m n a out ∙ ground arith

  lookup-add_value :
      (n m : Text) (hdr : Header) (vs : List Text) (out : Map MessageAttribute)
      → lookup n (add_header b hdr (value_key m) vs out) ≡ (
          if text_eq m n && is_plain m
          then or_before (lookup n out) (found hdr m vs)
          else lookup n out)
  unfolding add_header has_prefix
  lookup-add_value n m hdr [] out = ground arith
  lookup-add_value n m hdr (v ∷ vs) out = elim (Bool-cases (is_plain m)) [
    | inr odd ↦ ground (arith, odd)
    | inl plain ↦ ground (
      arith,
      plain,
      lookup-assign n m (parsed_attribute b (data_type_of (lookup (type_key m) hdr)) v) out,
    )
  ]

  -- What a header adds for a name.
  abbrev pub added :
      Header → List Text → Option MessageAttribute → Text → Text → Option MessageAttribute
  added hdr vs before n k =
      if text_eq k (value_key n) && is_plain n then or_before before (found hdr n vs) else before

  add_header-skipped :
      (k : Text) (hdr : Header) (vs : List Text) (out : Map MessageAttribute)
      → has_prefix (codes "X-Sqs-Atr-") k ≡ false
      → add_header b hdr k vs out ≡ out
  unfolding add_header
  add_header-skipped k hdr [] out h = refl
  add_header-skipped k hdr (v ∷ vs) out h = rw h refl

  lookup-add_named :
      (n m : Text) (hdr : Header) (vs : List Text) (out : Map MessageAttribute)
      → lookup n (add_header b hdr (value_key m) vs out)
        ≡ added hdr vs (lookup n out) n (value_key m)
  lookup-add_named n m hdr vs out =
      lookup-add_value n m hdr vs out
      ∙ ground (arith, value_value m n, text_eq_iff m n, ap is_plain, ap (λ i. found hdr i vs))

  lookup-add_header :
      (n k : Text) (hdr : Header) (vs : List Text) (out : Map MessageAttribute)
      → lookup n (add_header b hdr k vs out) ≡ added hdr vs (lookup n out) n k
  lookup-add_header n k hdr vs out = elim (Bool-cases (has_prefix (codes "X-Sqs-Atr-") k)) [
    | inr skipped ↦
        ap (lookup n) (add_header-skipped k hdr vs out skipped)
        ∙ ground (
          arith,
          skipped,
          text_eq_iff k (value_key n),
          has_prefix-append (codes "X-Sqs-Atr-") n,
          ap (has_prefix (codes "X-Sqs-Atr-")),
        )
    | inl ours ↦
        subst (λ j. lookup n (add_header b hdr j vs out) ≡ added hdr vs (lookup n out) n j)
          (prefix_split (codes "X-Sqs-Atr-") k ours) (lookup-add_named n (drop 10 k) hdr vs out)
  ]

  -- What the loop reads for a name is decided by the name's own header, wherever that stands.
  pub lookup-read :
      (n : Text) (hdr ks : Header) (out : Map MessageAttribute)
      → IsGoMap ks
      → lookup n (read_headers b hdr ks out) ≡ elim (lookup (value_key n) ks) [
        | none ↦ lookup n out
        | some vs ↦ added hdr vs (lookup n out) n (value_key n)
      ]
  unfolding read_headers lookup
  lookup-read n hdr [] out g = refl
  lookup-read n hdr ((k, vs) ∷ ks) out (fresh, g) =
      lookup-read n hdr ks (add_header b hdr k vs out) g
      ∙ elim (Bool-cases (text_eq k (value_key n))) [
        | inl same ↦ ground (
          arith,
          lookup-add_header n k hdr vs out,
          same,
          fresh,
          text_eq_iff k (value_key n),
          text_eq_refl (value_key n),
          ap (λ j. lookup j ks),
        )
        | inr differ ↦ ground (arith, lookup-add_header n k hdr vs out, differ)
      ]
