-- ===== src/Protocol/Query/Pairs/RoundTrip.antt =====
-- The pairs of form values are read back as the map that they were made of: extractAttributes,
-- extractTagsQuery and ExtractQuerySystemAttributes.
use dropin_queue.Base.{
  ℕ, suc, ◌<◌, ◌≡◌, refl, ap, ◌∙◌, false, none, some, [], ◌∷◌, ◌++◌, arith, Text, codes, text_eq,
  text_eq_refl, text_eq_iff, cut-append, Map, lookup, insert, lookup-insert, IsGoMap, format,
  format-Without, text_eq-format,
}
use dropin_queue.Protocol.Query.{Values, strip_prefix, index_field}
use dropin_queue.Protocol.Query.Pairs.{value_key, pair_at, extract_from, extract_attributes}

strip_prefix-append : (p s : Text) → strip_prefix p (p ++ s) ≡ some s
unfolding strip_prefix
strip_prefix-append [] s = refl
strip_prefix-append (c ∷ p) s = ground (arith, strip_prefix-append p s)

module _ (prefix name_field : Text) where
  abbrev name_key : Text → Text
  name_key idx = prefix ++ (idx ++ b'.' ∷ name_field)

  -- How a client numbers the pairs of a map.
  unfoldable pub numbered_pairs : ℕ → Map Text → Values
  numbered_pairs i [] = []
  numbered_pairs i ((name, v) ∷ attrs) =
      (name_key (format i), name ∷ [])
      ∷ (value_key prefix (format i), v ∷ [])
      ∷ numbered_pairs (suc i) attrs

  index_field-key :
      (i : ℕ) (field : Text)
      → index_field prefix (prefix ++ (format i ++ b'.' ∷ field)) ≡ some (format i, field)
  unfolding index_field
  index_field-key i field =
      rw
        (
          index_field,
          strip_prefix-append prefix (format i ++ b'.' ∷ field),
          cut-append b'.' (format i) field (format-Without b'.' i (omega arith)),
        )
        refl

  index_field-value :
      (i : ℕ) → index_field prefix (value_key prefix (format i)) ≡ some (format i, codes "Value")
  index_field-value i = index_field-key i (codes "Value")

  -- The values of the pairs from number i on can be looked up.
  abbrev Present : ℕ → Map Text → Values → Type 0
  unfolding lookup
  Present i [] all = Unit {0}
  Present i ((name, v) ∷ attrs) all =
      (lookup (value_key prefix (format i)) all ≡ some (v ∷ [])) × Present (suc i) attrs all

  -- Two numbers' keys differ, and so do a name's and a value's.
  value-value :
      (i j : ℕ)
      → i < j
      → text_eq (value_key prefix (format i)) (value_key prefix (format j)) ≡ false
  value-value i j lt = ground (
    arith,
    text_eq_iff (value_key prefix (format i)) (value_key prefix (format j)),
    ap (index_field prefix),
    index_field-value i,
    index_field-value j,
    text_eq_iff (format i) (format j),
    text_eq-format i j,
  )

  module _ (differ : text_eq (codes "Value") name_field ≡ false) where
    name-value : (i j : ℕ) → text_eq (name_key (format i)) (value_key prefix (format j)) ≡ false
    name-value i j = ground (
      arith,
      text_eq_iff (name_key (format i)) (value_key prefix (format j)),
      ap (index_field prefix),
      index_field-key i name_field,
      index_field-value j,
      text_eq_refl (codes "Value"),
    )

    Present-later :
        (i j : ℕ) (name v : Text) (attrs : Map Text) (all : Values)
        → i < j
        → Present j attrs all
        → Present j attrs
            ((name_key (format i), name ∷ []) ∷ (value_key prefix (format i), v ∷ []) ∷ all)
    unfolding lookup
    Present-later i j name v [] all lt h = tt
    Present-later i j name v ((n, w) ∷ attrs) all lt (h, hs) = (
      rw (lookup, name-value i j, value-value i j lt) h,
      Present-later i (suc j) name v attrs all (omega arith) hs,
    )

    Present-numbered : (i : ℕ) (attrs : Map Text) → Present i attrs (numbered_pairs i attrs)
    unfolding lookup numbered_pairs
    Present-numbered i [] = tt
    Present-numbered i ((name, v) ∷ attrs) = (
      rw (lookup, name-value i i, text_eq_refl (value_key prefix (format i))) refl,
      Present-later i (suc i) name v attrs (numbered_pairs (suc i) attrs) (omega arith)
          (Present-numbered (suc i) attrs),
    )

    -- The entries of a map, assigned one by one.
    abbrev assigned : Map Text → Map Text → Map Text
    assigned [] out = out
    assigned ((name, v) ∷ attrs) out = assigned attrs (insert name v out)

    pair_at-name :
        (i : ℕ) (name v : Text) (all : Values)
        → lookup (value_key prefix (format i)) all ≡ some (v ∷ [])
        → pair_at prefix name_field all (name_key (format i)) name ≡ some (name, v)
    unfolding pair_at
    pair_at-name i name v all h =
        rw (pair_at, index_field-key i name_field, text_eq_refl name_field, h) refl

    pair_at-value :
        (i : ℕ) (v : Text) (all : Values)
        → pair_at prefix name_field all (value_key prefix (format i)) v ≡ none
    unfolding pair_at
    pair_at-value i v all = rw (pair_at, index_field-value i, differ) refl

    pairs_read :
        (i : ℕ) (attrs : Map Text) (all : Values) (out : Map Text)
        → Present i attrs all
        → extract_from prefix name_field all (numbered_pairs i attrs) out ≡ assigned attrs out
    unfolding extract_from numbered_pairs
    pairs_read i [] all out h = refl
    pairs_read i ((name, v) ∷ attrs) all out (h, hs) =
        rw (extract_from, pair_at-name i name v all h, pair_at-value i v all)
          (pairs_read (suc i) attrs all (insert name v out) hs)

    lookup-assigned :
        (n : Text) (attrs out : Map Text)
        → IsGoMap attrs
        → lookup n (assigned attrs out)
          ≡ elim (lookup n attrs) [ none ↦ lookup n out | some v ↦ some v ]
    unfolding lookup
    lookup-assigned n [] out h = refl
    lookup-assigned n ((name, v) ∷ attrs) out (fresh, h) =
        lookup-assigned n attrs (insert name v out) h
        ∙ ground (arith, lookup-insert name n v out, text_eq_iff name n, ap (λ k. lookup k attrs))

    lookup-extracted :
        (n : Text) (attrs : Map Text)
        → IsGoMap attrs
        → lookup n
            (extract_from prefix name_field (numbered_pairs 1 attrs) (numbered_pairs 1 attrs) [])
          ≡ lookup n attrs
    unfolding lookup
    lookup-extracted n attrs h =
        ap (lookup n) (pairs_read 1 attrs (numbered_pairs 1 attrs) [] (Present-numbered 1 attrs))
        ∙ lookup-assigned n attrs [] h
        ∙ ground arith

-- What a client has numbered as `<key>.N.Name` and `<key>.N.Value` from 1 on is read back: the
-- attributes of a map with distinct keys, whatever the key is, and no others.
pub attributes_read_back :
    (key : Text) (attrs : Map Text) (n : Text)
    → IsGoMap attrs
    → lookup n (extract_attributes (numbered_pairs (key ++ codes ".") (codes "Name") 1 attrs) key)
      ≡ lookup n attrs
unfolding extract_attributes text_eq
attributes_read_back key attrs n h =
    lookup-extracted (key ++ codes ".") (codes "Name") refl n attrs h
