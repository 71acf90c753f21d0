-- ===== src/Authoring/Score.antt =====
-- backend/src/modules/learning/activity/lesson-activity-scorer.ts.
use text.Mathlib.Text.{◌==◌ as str_eq}
use hsk_3_0_app.Base.{
  ◌==◌, Bool, true, false, ◌&&◌, not, Option, none, some, List, [], ◌∷◌, map, String, if◌then◌else◌,
  all, length,
}
use hsk_3_0_app.Activity.{
  ExerciseType, mcq, listening_choice, arrange_sentence, speaking_repeat, Json, Fields, null, bool,
  num, str, arr, obj, end, field, Result, ok, err, ◌>>=◌, ◌>>◌, require, require_some,
  unsupported_exercise, invalid_authoring, invalid_answer,
}
use hsk_3_0_app.Activity.Store.{Score}
use hsk_3_0_app.Authoring.{
  Unicode, draft, Checked, passed, failed, Choice, Authored, choice, fill_blank, arrange, speaking,
  AuthoringValue,
}
use hsk_3_0_app.Authoring.Texts.{utf16_length, trim, collapse_spaces, is_stable_id}
use hsk_3_0_app.Authoring.Validate.{
  get_field, keys, has_text, read_array, read_string, choice_ids, are_distinct,
}
use hsk_3_0_app.Authoring.Input.{validate_lesson_exercise_authoring, type_text}

-- `requireClientRecord`
abbrev pub require_client_record : Json → Result Fields
require_client_record (obj fields) = ok fields
require_client_record null = err invalid_answer
require_client_record (bool b) = err invalid_answer
require_client_record (num n) = err invalid_answer
require_client_record (str s) = err invalid_answer
require_client_record (arr items) = err invalid_answer

-- `requireClientText`
abbrev pub require_client_text : Option Json → Result String
require_client_text value = do
  text ← require_some (read_string value) invalid_answer
  require (not (utf16_length (trim text) == 0)) invalid_answer
  ok text

-- `hasExactKeys`, of one key.
abbrev pub has_exact_key : Fields → String → Bool
has_exact_key fields expected = elim (keys fields) [ key ∷ [] ↦ str_eq key expected | _ ↦ false ]

-- `candidate.every((id, index) => id === expected[index])`
abbrev pub agrees : (candidate expected : List String) → Bool
agrees [] expected = true
agrees (a ∷ candidate) [] = false
agrees (a ∷ candidate) (b ∷ expected) = str_eq a b && agrees candidate expected

-- `authoritativeAnswer.caseSensitive === true`
abbrev pub is_case_sensitive : Option Bool → Bool
is_case_sensitive none = false
is_case_sensitive (some b) = b

-- `isExactTokenSet`
abbrev pub is_exact_token_set : (candidate expected : List String) → Bool
is_exact_token_set candidate expected =
    length candidate == length expected
    && are_distinct candidate
    && all (has_text expected) candidate

-- The exercise as the validator reads it.
abbrev pub scoring_input : ExerciseType → (content answer : Json) → Json
scoring_input kind content answer = obj (
    field "type" (str (type_text kind)) (
      field "prompt" (str "Runtime scoring contract")
        (field "content" content (field "answer" answer end))))

abbrev pub is_speaking : ExerciseType → Bool
is_speaking speaking_repeat = true
is_speaking mcq = false
is_speaking ExerciseType.fill_blank = false
is_speaking listening_choice = false
is_speaking arrange_sentence = false

-- `score: isCorrect ? 100 : 0`
abbrev pub score_of : Bool → Score
score_of is_correct = record { score = if is_correct then 100 else 0; is_correct = is_correct }

module _ (unicode : Unicode) where
  -- `requireClientStableId`
  abbrev pub require_client_stable_id : Option Json → Result String
  require_client_stable_id value = do
    text ← require_some (read_string value) invalid_answer
    require (is_stable_id unicode (unicode.nfkc text)) invalid_answer
    ok (unicode.nfkc text)

  -- `scoreChoice`
  unfoldable pub score_choice : List Choice → (option_id : String) → Json → Result Bool
  score_choice options option_id submitted = do
    fields ← require_client_record submitted
    require (has_exact_key fields "optionId") invalid_answer
    id ← require_client_stable_id (get_field fields "optionId")
    require (has_text (choice_ids options) id) invalid_answer
    ok (str_eq id option_id)

  -- `normalizeFillBlank`
  abbrev pub normalize_fill_blank : String → (case_sensitive : Bool) → String
  normalize_fill_blank value case_sensitive =
      let normalized = collapse_spaces (trim (unicode.nfkc value)) in
      if case_sensitive then normalized else unicode.to_lower_case normalized

  -- `scoreFillBlank`
  unfoldable pub score_fill_blank : List String → Option Bool → Json → Result Bool
  score_fill_blank accepted_texts case_sensitive submitted = do
    fields ← require_client_record submitted
    require (has_exact_key fields "text") invalid_answer
    text ← require_client_text (get_field fields "text")
    ok (
        has_text
          (map (λ value. normalize_fill_blank value (is_case_sensitive case_sensitive))
            accepted_texts)
          (normalize_fill_blank text (is_case_sensitive case_sensitive)))

  -- `submitted.tokenIds.map(requireClientStableId)`
  unfoldable pub require_client_ids : List Json → Result (List String)
  require_client_ids [] = ok []
  require_client_ids (value ∷ values) = do
    id ← require_client_stable_id (some value)
    ids ← require_client_ids values
    ok (id ∷ ids)

  -- `scoreArrangeSentence`
  unfoldable pub score_arrange_sentence : List Choice → List String → Json → Result Bool
  unfolding require_client_ids
  score_arrange_sentence tokens token_ids submitted = do
    fields ← require_client_record submitted
    require (has_exact_key fields "tokenIds") invalid_answer
    values ← require_some (read_array (get_field fields "tokenIds")) invalid_answer
    require (not (length values == 0)) invalid_answer
    ids ← require_client_ids values
    require (is_exact_token_set ids (choice_ids tokens)) invalid_answer
    ok (agrees ids token_ids)

  -- The switch over the authored types.
  unfoldable pub score_authored : Authored → Json → Result Bool
  unfolding score_choice score_fill_blank score_arrange_sentence
  score_authored (choice options option_id) submitted = score_choice options option_id submitted
  score_authored (fill_blank texts case_sensitive) submitted =
      score_fill_blank texts case_sensitive submitted
  score_authored (arrange tokens token_ids) submitted =
      score_arrange_sentence tokens token_ids submitted
  score_authored (speaking text) submitted = err invalid_authoring

  -- The end of `scoreLessonExercise`.
  unfoldable pub score_checked : Checked AuthoringValue → Json → Result Score
  unfolding score_authored
  score_checked (failed failure) submitted = err invalid_authoring
  score_checked (passed value) submitted = do
    is_correct ← score_authored value.authored submitted
    ok (score_of is_correct)

  -- `scoreLessonExercise`
  unfoldable pub score_lesson_exercise :
      ExerciseType → (content authoritative_answer submitted_answer : Json) → Result Score
  unfolding validate_lesson_exercise_authoring score_checked
  score_lesson_exercise kind content authoritative_answer submitted_answer =
      if is_speaking kind
      then err unsupported_exercise
      else score_checked
          (validate_lesson_exercise_authoring unicode
            (scoring_input kind content authoritative_answer) draft)
          submitted_answer
