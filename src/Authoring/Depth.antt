-- ===== src/Authoring/Depth.antt =====
-- The depth bound of lesson-exercise-authoring.validator.ts and the one of canonical-json.ts.
use hsk_3_0_app.Base.{ℕ, zero, suc, ◌+◌, ◌≤◌, ◌≡◌, min, arith, leb, is_some}
use hsk_3_0_app.Activity.{
  Json, Items, Fields, null, bool, num, str, arr, obj, nil, item, end, field,
}
use hsk_3_0_app.Canonical.{canonical_json}
use hsk_3_0_app.Canonical.Depth.{depth, items_depth, fields_depth, canonical_json-depth}
use hsk_3_0_app.Authoring.Input.{bounded_json_depth, deepest_item, deepest_field}

mutual
  unfolding bounded_json_depth depth

  pub bounded_json_depth-min :
      (value : Json) (n : ℕ) → bounded_json_depth value n ≡ min (depth value) (n + 1)
  bounded_json_depth-min null n = omega arith
  bounded_json_depth-min (bool b) n = omega arith
  bounded_json_depth-min (num text) n = omega arith
  bounded_json_depth-min (str text) n = omega arith
  bounded_json_depth-min (arr items) zero = omega arith
  bounded_json_depth-min (arr items) (suc n) = omega (arith, deepest_item-min items n)
  bounded_json_depth-min (obj fields) zero = omega arith
  bounded_json_depth-min (obj fields) (suc n) = omega (arith, deepest_field-min fields n)

  deepest_item-min :
      (items : Items) (n : ℕ) → deepest_item items n ≡ min (items_depth items) (n + 1)
  deepest_item-min nil n = omega arith
  deepest_item-min (item value items) n =
      omega (arith, bounded_json_depth-min value n, deepest_item-min items n)

  deepest_field-min :
      (fields : Fields) (n : ℕ) → deepest_field fields n ≡ min (fields_depth fields) (n + 1)
  deepest_field-min end n = omega arith
  deepest_field-min (field key value fields) n =
      omega (arith, bounded_json_depth-min value n, deepest_field-min fields n)

-- A value is refused for its depth, by the validator's walk and by the serialization alike, exactly
-- when arrays and objects are nested in it deeper than the bound.
pub bounded_json_depth-canonical_json :
    (value : Json) (max_depth : ℕ)
    → 1 ≤ max_depth
    → (leb (bounded_json_depth value max_depth) max_depth ≡ leb (depth value) max_depth)
      × (is_some (canonical_json value max_depth) ≡ leb (depth value) max_depth)
bounded_json_depth-canonical_json value max_depth positive =
    let bound = bounded_json_depth-min value max_depth in
    (ground arith, canonical_json-depth value max_depth positive)
