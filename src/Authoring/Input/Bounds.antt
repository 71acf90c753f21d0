-- ===== src/Authoring/Input/Bounds.antt =====
-- The bounds of the input of lesson-exercise-authoring.validator.ts.
use hsk_3_0_app.Base.{ℕ, zero, suc, ◌+◌, none, some, [], leb, max}
use hsk_3_0_app.Activity.{
  Json, Items, Fields, null, bool, num, str, arr, obj, nil, item, end, field,
}
use hsk_3_0_app.Canonical.{canonical_json}
use hsk_3_0_app.Authoring.{Checked, failed}
use hsk_3_0_app.Authoring.Texts.{utf8_length}
use hsk_3_0_app.Authoring.Validate.{check, max_json_bytes, max_depth}

-- `boundedJsonDepth`, of a value, of the items of an array and of the entries of an object: the
-- depth of the deepest.
unfoldable mutual
  pub bounded_json_depth : Json → (remaining_depth : ℕ) → ℕ
  bounded_json_depth null n = 0
  bounded_json_depth (bool b) n = 0
  bounded_json_depth (num text) n = 0
  bounded_json_depth (str text) n = 0
  bounded_json_depth (arr items) zero = 1
  bounded_json_depth (arr items) (suc n) = 1 + deepest_item items n
  bounded_json_depth (obj fields) zero = 1
  bounded_json_depth (obj fields) (suc n) = 1 + deepest_field fields n

  pub deepest_item : Items → ℕ → ℕ
  deepest_item nil n = 0
  deepest_item (item value items) n = max (bounded_json_depth value n) (deepest_item items n)

  pub deepest_field : Fields → ℕ → ℕ
  deepest_field end n = 0
  deepest_field (field key value fields) n =
      max (bounded_json_depth value n) (deepest_field fields n)

-- `assertPayloadBytes`, before what follows it.
unfoldable pub payload_bytes {ℓ} : {A : Type ℓ} → Json → Checked A → Checked A
unfolding canonical_json
payload_bytes value next = elim (canonical_json value max_depth) [
  | none ↦ failed (record { code = "invalid_json"; path = [] })
  | some serialized ↦
      check (leb (utf8_length serialized) max_json_bytes) "payload_too_large" [] next
]

-- `assertGlobalBounds`, before what follows it.
unfoldable pub global_bounds {ℓ} : {A : Type ℓ} → Json → Checked A → Checked A
unfolding payload_bytes bounded_json_depth
global_bounds value next =
    check (leb (bounded_json_depth value max_depth) max_depth) "max_depth_exceeded" []
      (payload_bytes value next)
