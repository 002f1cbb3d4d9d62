-- ===== src/Nats/Headers/RoundTrip.antt =====
-- The headers that messageHeaders of shim/internal/storage/nats/messages.go makes are read back by
-- parseJetStreamMsg.
use dropin_queue.Base.{
  IsGoMap, text_eq_iff, text_eq_refl, subst, ◌∙◌, refl, ◌≡◌, true, Option, none, some, [], ◌∷◌,
  Text, text_eq, has_prefix, Map, lookup, arith, Bool-cases, inl, inr,
}
use dropin_queue.Types.{MessageAttribute}
use dropin_queue.Storage.{ok}
use dropin_queue.Nats.Headers.{
  Base64, Header, value_key, header_value, message_headers, parsed_attribute, read_headers,
  parse_attributes,
}
use dropin_queue.Nats.Headers.Keys.{is_plain}
use dropin_queue.Nats.Headers.Sent.{
  IsTyped, string, number, string_list, binary, raw, put, Carried, set_headers-put, put-IsGoMap,
  lookup-put-value, lookup-put-type,
}
use dropin_queue.Nats.Headers.Read.{lookup-read}

module _ (b : Base64)
    (b-round_trip : (t : Text) → b.decode_string (b.encode_to_string t) ≡ some t) where
  read_back : (a : MessageAttribute) → IsTyped a → parsed_attribute b a.data_type (raw b a) ≡ some a
  unfolding header_value parsed_attribute text_eq has_prefix
  read_back a (string v) = refl
  read_back a (number v) = refl
  read_back a (string_list v) = refl
  read_back a (binary v) = rw (b-round_trip v) refl

  lookup-Carried :
      (n : Text) (attrs : Map MessageAttribute) (a : MessageAttribute)
      → Carried attrs
      → lookup n attrs ≡ some a
      → (is_plain n ≡ true) × IsTyped a
  unfolding lookup
  lookup-Carried n [] a c h = absurd (cc h)
  lookup-Carried n ((m, e) ∷ attrs) a ((plain, typed), cs) h = elim (Bool-cases (text_eq m n)) [
    | inl same ↦ (
      subst (λ i. is_plain i ≡ true) ((text_eq_iff m n).0 same) plain,
      subst IsTyped (ground (arith, same, h)) typed,
    )
    | inr differ ↦ lookup-Carried n attrs a cs (ground (arith, differ, h))
  ]

  read_name :
      (n : Text) (attrs : Map MessageAttribute) (o : Option MessageAttribute)
      → Carried attrs
      → IsGoMap attrs
      → lookup n attrs ≡ o
      → lookup n (read_headers b (put b attrs []) (put b attrs []) []) ≡ o
  unfolding lookup
  read_name n attrs none c g h = elim (Bool-cases (is_plain n)) [
    | inl plain ↦
        lookup-read b n (put b attrs []) (put b attrs []) [] (put-IsGoMap b attrs [] tt)
        ∙ ground (arith, lookup-put-value b n attrs [] plain g, h)
    | inr odd ↦
        lookup-read b n (put b attrs []) (put b attrs []) [] (put-IsGoMap b attrs [] tt)
        ∙ ground (arith, odd)
  ]
  read_name n attrs (some a) c g h =
      let (plain, typed) = lookup-Carried n attrs a c h in
      lookup-read b n (put b attrs []) (put b attrs []) [] (put-IsGoMap b attrs [] tt)
      ∙ ground (
        arith,
        lookup-put-value b n attrs [] plain g,
        lookup-put-type b n attrs [] c g,
        h,
        plain,
        text_eq_refl (value_key n),
        read_back a typed,
      )

  -- Attributes of the supported types, whose names are distinct, are not dt and do not end in -dt,
  -- are accepted, and all of them and no others are read back from their headers. Base64 decodes
  -- what it encodes.
  pub headers_read_back :
      (attrs : Map MessageAttribute)
      → Carried attrs
      → IsGoMap attrs
      → (hdr : Header) × (message_headers b attrs ≡ ok hdr)
        × ((n : Text) → lookup n (parse_attributes b hdr) ≡ lookup n attrs)
  unfolding message_headers parse_attributes
  headers_read_back attrs c g = (
    put b attrs [],
    set_headers-put b attrs [] c,
    λ n. read_name n attrs (lookup n attrs) c g refl,
  )
