-- ===== src/Authoring/Input/Kinds.antt =====
-- The type and the media of an authored exercise in lesson-exercise-authoring.validator.ts.
use text.Mathlib.Text.{◌==◌ as str_eq}
use hsk_3_0_app.Base.{
  ℕ, ◌+◌, ◌-◌, ◌*◌, Bool, true, false, ◌&&◌, not, Option, none, some, List, [], ◌∷◌, String, leb,
  if◌then◌else◌,
}
use hsk_3_0_app.Activity.{
  ExerciseType, mcq, listening_choice, arrange_sentence, speaking_repeat, Json, null, bool, num,
  str, arr, obj,
}
use hsk_3_0_app.Activity.Faults.{codes}
use hsk_3_0_app.Authoring.{Mode, draft, publish, at_key, Checked, passed, failed}
use hsk_3_0_app.Authoring.Validate.{check}

-- The text of an `ExerciseType`.
abbrev pub type_text : ExerciseType → String
type_text mcq = "mcq"
type_text ExerciseType.fill_blank = "fill_blank"
type_text listening_choice = "listening_choice"
type_text arrange_sentence = "arrange_sentence"
type_text speaking_repeat = "speaking_repeat"

-- `SUPPORTED_TYPES`
abbrev pub read_type : String → Option ExerciseType
read_type s =
    if str_eq s "mcq"
    then some mcq
    else if str_eq s "fill_blank"
    then some ExerciseType.fill_blank
    else if str_eq s "listening_choice"
    then some listening_choice
    else if str_eq s "arrange_sentence"
    then some arrange_sentence
    else if str_eq s "speaking_repeat"
    then some speaking_repeat
    else none

-- `isLessonExerciseTypePublishable`
abbrev pub is_publishable : ExerciseType → Bool
is_publishable mcq = true
is_publishable ExerciseType.fill_blank = true
is_publishable listening_choice = true
is_publishable arrange_sentence = true
is_publishable speaking_repeat = false

abbrev pub is_publish : Mode → Bool
is_publish draft = false
is_publish publish = true

abbrev is_listening : ExerciseType → Bool
is_listening listening_choice = true
is_listening mcq = false
is_listening ExerciseType.fill_blank = false
is_listening arrange_sentence = false
is_listening speaking_repeat = false

-- The number that decimal digits stand for, `none` of any other text.
abbrev digits_value : (so_far : ℕ) → List ℕ → Option ℕ
digits_value n [] = some n
digits_value n (c ∷ cs) =
    let rest = digits_value (n * 10 + (c - b'0')) cs in
    if leb b'0' c && leb c b'9' then rest else none

-- A whole number from 1 to `POSTGRESQL_INT4_MAX`.
abbrev pub is_media_id : (text : String) → Bool
is_media_id text = elim (digits_value 0 (codes text)) [
  | none ↦ false
  | some n ↦ leb 1 n && leb n 2147483647
]

-- The `mediaId` of a listening exercise, where it is neither absent nor `null`.
abbrev read_media_number : Json → Checked (Option (Option String))
read_media_number (num text) =
    check (is_media_id text) "positive_safe_integer_required" (at_key "mediaId" ∷ [])
      (passed (some (some text)))
read_media_number null = passed (some none)
read_media_number (bool b) =
    failed (record { code = "positive_safe_integer_required"; path = at_key "mediaId" ∷ [] })
read_media_number (str s) =
    failed (record { code = "positive_safe_integer_required"; path = at_key "mediaId" ∷ [] })
read_media_number (arr items) =
    failed (record { code = "positive_safe_integer_required"; path = at_key "mediaId" ∷ [] })
read_media_number (obj fields) =
    failed (record { code = "positive_safe_integer_required"; path = at_key "mediaId" ∷ [] })

abbrev pub is_null : Json → Bool
is_null null = true
is_null (bool b) = false
is_null (num text) = false
is_null (str s) = false
is_null (arr items) = false
is_null (obj fields) = false

-- `readMediaId`
unfoldable pub read_media_id : Option Json → ExerciseType → Mode → Checked (Option (Option String))
read_media_id none kind mode =
    check (not (is_listening kind && is_publish mode)) "media_required" (at_key "mediaId" ∷ [])
      (passed none)
read_media_id (some value) kind mode =
    if is_listening kind
    then check (not (is_null value && is_publish mode)) "media_required" (at_key "mediaId" ∷ [])
        (read_media_number value)
    else check (is_null value) "media_not_allowed" (at_key "mediaId" ∷ []) (passed (some none))
