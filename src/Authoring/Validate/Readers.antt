-- ===== src/Authoring/Validate/Readers.antt =====
-- The readers of values in lesson-exercise-authoring.validator.ts: records, arrays, texts and ids.
use text.Mathlib.Text.{◌==◌ as str_eq}
use hsk_3_0_app.Base.{
  ℕ, ◌==◌, Bool, true, false, ◌&&◌, not, Option, none, some, List, [], ◌∷◌, ◌++◌, map, String, leb,
  if◌then◌else◌, any, all, length,
}
use hsk_3_0_app.Activity.{
  Json, Items, Fields, null, bool, num, str, arr, obj, nil, item, end, field,
}
use hsk_3_0_app.Authoring.{Unicode, Segment, at_unknown, Checked, passed, failed, Choice}
use hsk_3_0_app.Authoring.Texts.{utf16_length, trim, collapse_spaces, is_stable_id}

-- `fail(code, path)`, unless the test holds.
abbrev pub check {ℓ} :
    {A : Type ℓ} → Bool → (code : String) (path : List Segment) → Checked A → Checked A
check true code path next = next
check false code path next = failed (record { code = code; path = path })

-- A check and what follows it.
abbrev pub after {ℓ κ} : {A : Type ℓ} {B : Type κ} → Checked A → (A → Checked B) → Checked B
after (passed a) next = next a
after (failed f) next = failed f

-- `LESSON_EXERCISE_AUTHORING_LIMITS`
abbrev pub max_string_length : ℕ
max_string_length = 4096

abbrev pub max_array_length : ℕ
max_array_length = 100

abbrev pub max_json_bytes : ℕ
max_json_bytes = 65536

abbrev pub max_depth : ℕ
max_depth = 8

-- A property of an object, `none` for `undefined`. The keys of an object are distinct.
abbrev pub get_field : Fields → String → Option Json
get_field end key = none
get_field (field name value fields) key =
    let rest = get_field fields key in if str_eq name key then some value else rest

-- `Object.keys`
abbrev pub keys : Fields → List String
keys end = []
keys (field name value fields) = name ∷ keys fields

abbrev pub has_text : List String → String → Bool
has_text texts s = any (str_eq s) texts

abbrev pub items_list : Items → List Json
items_list nil = []
items_list (item value items) = value ∷ items_list items

-- `requireRecord`
abbrev pub require_record : Option Json → List Segment → Checked Fields
require_record (some (obj fields)) path = passed fields
require_record (some null) path = failed (record { code = "object_required"; path = path })
require_record (some (bool b)) path = failed (record { code = "object_required"; path = path })
require_record (some (num n)) path = failed (record { code = "object_required"; path = path })
require_record (some (str s)) path = failed (record { code = "object_required"; path = path })
require_record (some (arr items)) path = failed (record { code = "object_required"; path = path })
require_record none path = failed (record { code = "object_required"; path = path })

-- `assertAllowedKeys`, before what follows it.
abbrev pub allowed_keys {ℓ} :
    {A : Type ℓ} → Fields → List String → List Segment → Checked A → Checked A
allowed_keys fields allowed path next =
    check (all (has_text allowed) (keys fields)) "unknown_field" (path ++ at_unknown ∷ []) next

-- The items of an array, `none` of any other value.
abbrev pub read_array : Option Json → Option (List Json)
read_array (some (arr items)) = some (items_list items)
read_array (some null) = none
read_array (some (bool b)) = none
read_array (some (num n)) = none
read_array (some (str s)) = none
read_array (some (obj fields)) = none
read_array none = none

-- `requireArray`; the path of the accepted texts has codes of its own.
abbrev pub require_array :
    Option Json → (is_accepted_texts : Bool) → List Segment → (minimum : ℕ) → Checked (List Json)
require_array value is_accepted_texts path minimum = elim (read_array value) [
  | none ↦ failed (record {
    code = if is_accepted_texts then "accepted_texts_required" else "array_required";
    path = path;
  })
  | some items ↦
      check (leb minimum (length items))
        (if is_accepted_texts then "accepted_texts_required" else "array_too_small") path
        (check (leb (length items) max_array_length) "array_too_large" path (passed items))
]

-- The string that a value is, `none` of any other value.
abbrev pub read_string : Option Json → Option String
read_string (some (str s)) = some s
read_string (some null) = none
read_string (some (bool b)) = none
read_string (some (num n)) = none
read_string (some (arr items)) = none
read_string (some (obj fields)) = none
read_string none = none

abbrev pub choice_ids : List Choice → List String
choice_ids choices = map (λ (c : Choice). c.id) choices

-- `new Set(ids).size === ids.length`
abbrev pub are_distinct : List String → Bool
are_distinct [] = true
are_distinct (id ∷ ids) = not (has_text ids id) && are_distinct ids

module _ (unicode : Unicode) where
  -- `requireHumanText`
  abbrev pub require_human_text : Option Json → List Segment → Checked String
  require_human_text value path = elim (read_string value) [
    | none ↦ failed (record { code = "string_required"; path = path })
    | some s ↦
        let normalized = trim (unicode.nfkc s) in
        check (not (utf16_length normalized == 0)) "non_empty_string_required" path (
          check (leb (utf16_length normalized) max_string_length) "string_too_long" path
            (passed normalized))
  ]

  -- `requireFillBlankText`
  abbrev pub require_fill_blank_text : Option Json → List Segment → Checked String
  require_fill_blank_text value path =
      after (require_human_text value path) (λ text. passed (collapse_spaces text))

  -- `requireStableId`
  abbrev pub require_stable_id : Option Json → List Segment → Checked String
  require_stable_id value path = elim (read_string value) [
    | none ↦ failed (record { code = "invalid_stable_id"; path = path })
    | some s ↦
        check (is_stable_id unicode (unicode.nfkc s)) "invalid_stable_id" path
          (passed (unicode.nfkc s))
  ]
