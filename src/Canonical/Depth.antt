-- ===== src/Canonical/Depth.antt =====
-- When canonical-json.ts refuses a value: exactly when it is nested too deep.
use mathlib.Core.Option
use hsk_3_0_app.Base.{
  ℕ, zero, suc, ◌+◌, ◌≤◌, ◌≡◌, refl, ◌∙◌, inl, inr, true, Option, none, some, leb, max, arith,
  Option-cases, is_some,
}
use hsk_3_0_app.Activity.{
  Json, Items, Fields, null, bool, num, str, arr, obj, nil, item, end, field,
}
use hsk_3_0_app.Canonical.{
  serialize_canonical_value, serialize_items, serialize_fields, canonical_json,
}

-- How deep arrays and objects are nested in a value.
unfoldable mutual
  pub depth : Json → ℕ
  depth null = 0
  depth (bool b) = 0
  depth (num text) = 0
  depth (str text) = 0
  depth (arr items) = 1 + items_depth items
  depth (obj fields) = 1 + fields_depth fields

  pub items_depth : Items → ℕ
  items_depth nil = 0
  items_depth (item value items) = max (depth value) (items_depth items)

  pub fields_depth : Fields → ℕ
  fields_depth end = 0
  fields_depth (field key value fields) = max (depth value) (fields_depth fields)

is_some-map {ℓ κ} :
    {A : Type ℓ} {B : Type κ} (f : A → B) (o : Option A) → is_some (Option.map f o) ≡ is_some o
is_some-map f none = refl
is_some-map f (some a) = refl

leb-suc : (a n : ℕ) → leb a n ≡ leb (1 + a) (suc n)
leb-suc a n = ground arith

mutual
  unfolding serialize_canonical_value depth

  serialize-depth :
      (value : Json) (n : ℕ) → is_some (serialize_canonical_value value n) ≡ leb (depth value) n
  serialize-depth null n = ground arith
  serialize-depth (bool b) n = ground arith
  serialize-depth (num text) n = ground arith
  serialize-depth (str text) n = ground arith
  serialize-depth (arr items) zero = ground arith
  serialize-depth (arr items) (suc n) =
      is_some-map _ (serialize_items items n)
      ∙ serialize_items-depth items n
      ∙ leb-suc (items_depth items) n
  serialize-depth (obj fields) zero = ground arith
  serialize-depth (obj fields) (suc n) =
      is_some-map _ (serialize_fields fields n)
      ∙ serialize_fields-depth fields n
      ∙ leb-suc (fields_depth fields) n

  serialize_items-depth :
      (items : Items) (n : ℕ) → is_some (serialize_items items n) ≡ leb (items_depth items) n
  serialize_items-depth nil n = ground arith
  serialize_items-depth (item value items) n =
      let here = serialize-depth value n in
      let rest = serialize_items-depth items n in
      elim (Option-cases (serialize_canonical_value value n)) [
        | inl e ↦ ground arith
        | inr (part, e) ↦ elim (Option-cases (serialize_items items n)) [
          | inl f ↦ ground arith
          | inr (parts, f) ↦ ground arith
        ]
      ]

  serialize_fields-depth :
      (fields : Fields) (n : ℕ) → is_some (serialize_fields fields n) ≡ leb (fields_depth fields) n
  serialize_fields-depth end n = ground arith
  serialize_fields-depth (field key value fields) n =
      let here = serialize-depth value n in
      let rest = serialize_fields-depth fields n in
      elim (Option-cases (serialize_canonical_value value n)) [
        | inl e ↦ ground arith
        | inr (part, e) ↦ elim (Option-cases (serialize_fields fields n)) [
          | inl f ↦ ground arith
          | inr (parts, f) ↦ ground arith
        ]
      ]

-- A value is serialised exactly when arrays and objects are nested in it no deeper than the bound.
pub canonical_json-depth :
    (value : Json) (max_depth : ℕ)
    → 1 ≤ max_depth
    → is_some (canonical_json value max_depth) ≡ leb (depth value) max_depth
unfolding canonical_json
canonical_json-depth value max_depth positive =
    let test : leb 1 max_depth ≡ true = ground arith in rw test (serialize-depth value max_depth)
