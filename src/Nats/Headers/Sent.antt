-- ===== src/Nats/Headers/Sent.antt =====
-- The map of headers that messageHeaders of shim/internal/storage/nats/messages.go makes: what stands
-- under the keys of a name.
use dropin_queue.Base.{
  IsGoMap, lookup-insert, text_eq_iff, ap, ◌∙◌, refl, ◌≡◌, true, Option, none, some, [], ◌∷◌, Text,
  codes, text_eq, Map, lookup, arith, All,
}
use dropin_queue.Types.{MessageAttribute}
use dropin_queue.Storage.{ok, err, other}
use dropin_queue.Nats.Headers.{Base64, Header, value_key, type_key, set, header_value, set_headers}
use dropin_queue.Nats.Headers.Keys.{
  insert-IsGoMap, value_value, type_type, type_value, value_type, is_plain,
}

-- An attribute of a supported type that holds nothing but a value of that type.
pub data IsTyped : MessageAttribute → Type 0 where
  string :
      (v : Text)
      → IsTyped (record { data_type = codes "String"; string_value = v; binary_value = [] })
  number :
      (v : Text)
      → IsTyped (record { data_type = codes "Number"; string_value = v; binary_value = [] })
  string_list :
      (v : Text)
      → IsTyped (record { data_type = codes "String.List"; string_value = v; binary_value = [] })
  binary :
      (v : Text)
      → IsTyped (record { data_type = codes "Binary"; string_value = []; binary_value = v })

abbrev or_empty : Option Text → Text
or_empty none = []
or_empty (some v) = v

-- The names and values of attributes that can be carried.
abbrev pub Carried : Map MessageAttribute → Type 0
Carried = All (λ e. (is_plain e.0 ≡ true) × IsTyped e.1)

module _ (b : Base64) where
  abbrev pub raw : MessageAttribute → Text
  raw a = or_empty (header_value b a)

  carried : (a : MessageAttribute) → IsTyped a → header_value b a ≡ some (raw a)
  unfolding header_value text_eq
  carried a (string v) = refl
  carried a (number v) = refl
  carried a (string_list v) = refl
  carried a (binary v) = refl

  -- What set_headers leaves in the map, where every type is supported.
  unfoldable pub put : Map MessageAttribute → Header → Header
  put [] h = h
  put ((name, a) ∷ attrs) h =
      put attrs (set (type_key name) a.data_type (set (value_key name) (raw a) h))

  pub set_headers-put :
      (attrs : Map MessageAttribute) (h : Header)
      → Carried attrs
      → set_headers b attrs h ≡ ok (put attrs h)
  unfolding set_headers put
  set_headers-put [] h c = refl
  set_headers-put ((name, a) ∷ attrs) h ((plain, typed), cs) =
      ap
        (λ o. elim o [
          | none ↦ err other
          | some v ↦
              set_headers b attrs (set (type_key name) a.data_type (set (value_key name) v h))
        ])
        (carried a typed)
      ∙ set_headers-put attrs _ cs

  pub put-IsGoMap : (attrs : Map MessageAttribute) (h : Header) → IsGoMap h → IsGoMap (put attrs h)
  unfolding put
  put-IsGoMap [] h g = g
  put-IsGoMap ((name, a) ∷ attrs) h g =
      put-IsGoMap attrs _ (insert-IsGoMap _ _ _ (insert-IsGoMap _ _ _ g))

  pub lookup-put-value :
      (n : Text) (attrs : Map MessageAttribute) (h : Header)
      → is_plain n ≡ true
      → IsGoMap attrs
      → lookup (value_key n) (put attrs h)
        ≡ elim (lookup n attrs) [ none ↦ lookup (value_key n) h | some a ↦ some (raw a ∷ []) ]
  unfolding put lookup
  lookup-put-value n [] h plain g = refl
  lookup-put-value n ((m, a) ∷ attrs) h plain (fresh, g) =
      let put_value = set (value_key m) (raw a) h in
      lookup-put-value n attrs _ plain g
      ∙ ground (
        arith,
        lookup-insert (type_key m) (value_key n) (a.data_type ∷ []) put_value,
        lookup-insert (value_key m) (value_key n) (raw a ∷ []) h,
        type_value m n plain,
        value_value m n,
        text_eq_iff m n,
        ap (λ k. lookup k attrs),
        fresh,
      )

  pub lookup-put-type :
      (n : Text) (attrs : Map MessageAttribute) (h : Header)
      → Carried attrs
      → IsGoMap attrs
      → lookup (type_key n) (put attrs h)
        ≡ elim (lookup n attrs) [ none ↦ lookup (type_key n) h | some a ↦ some (a.data_type ∷ []) ]
  unfolding put lookup
  lookup-put-type n [] h c g = refl
  lookup-put-type n ((m, a) ∷ attrs) h ((plain, typed), cs) (fresh, g) =
      let put_value = set (value_key m) (raw a) h in
      lookup-put-type n attrs _ cs g
      ∙ ground (
        arith,
        lookup-insert (type_key m) (type_key n) (a.data_type ∷ []) put_value,
        lookup-insert (value_key m) (type_key n) (raw a ∷ []) h,
        value_type m n plain,
        type_type m n,
        text_eq_iff m n,
        ap (λ k. lookup k attrs),
        fresh,
      )
