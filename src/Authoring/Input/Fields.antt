-- ===== src/Authoring/Input/Fields.antt =====
-- The fields of an authored exercise in lesson-exercise-authoring.validator.ts.
use mathlib.Core.Option
use hsk_3_0_app.Base.{◌||◌, not, Option, none, some, List, [], ◌∷◌, String, if◌then◌else◌, is_some}
use hsk_3_0_app.Activity.{
  ExerciseType, mcq, listening_choice, arrange_sentence, speaking_repeat, Json, Items, Fields, null,
  bool, num, str, arr, obj, nil, item, end, field,
}
use hsk_3_0_app.Authoring.{
  Unicode, Mode, at_key, Checked, passed, failed, Choice, Authored, choice, fill_blank, arrange,
  speaking, AuthoringValue,
}
use hsk_3_0_app.Authoring.Validate.{
  check, after, get_field, allowed_keys, require_record, require_human_text, read_string,
  validate_choice, validate_fill_blank, validate_arrange, validate_speaking,
}
use hsk_3_0_app.Authoring.Input.Bounds.{global_bounds, payload_bytes}
use hsk_3_0_app.Authoring.Input.Kinds.{
  is_null, is_publish, is_publishable, read_media_id, read_type, type_text,
}

-- The optional `explanation`.
unfoldable pub read_explanation : Unicode → Option Json → Checked (Option (Option String))
read_explanation unicode none = passed none
read_explanation unicode (some value) =
    if is_null value
    then passed (some none)
    else after (require_human_text unicode (some value) (at_key "explanation" ∷ []))
        (λ text. passed (some (some text)))

-- The switch over the types.
unfoldable pub validate_authored :
    Unicode → ExerciseType → (raw_content raw_answer : Option Json) → Checked Authored
unfolding validate_choice validate_fill_blank validate_arrange validate_speaking
validate_authored unicode mcq raw_content raw_answer =
    validate_choice unicode raw_content raw_answer
validate_authored unicode listening_choice raw_content raw_answer =
    validate_choice unicode raw_content raw_answer
validate_authored unicode ExerciseType.fill_blank raw_content raw_answer =
    validate_fill_blank unicode raw_content raw_answer
validate_authored unicode arrange_sentence raw_content raw_answer =
    validate_arrange unicode raw_content raw_answer
validate_authored unicode speaking_repeat raw_content raw_answer =
    validate_speaking unicode raw_content raw_answer

abbrev choice_items : List Choice → Items
choice_items [] = nil
choice_items (c ∷ choices) =
    item (obj (field "id" (str c.id) (field "text" (str c.text) end))) (choice_items choices)

abbrev pub text_items : List String → Items
text_items [] = nil
text_items (s ∷ texts) = item (str s) (text_items texts)

-- The `content` that is returned.
abbrev content_json : Authored → Json
content_json (choice options option_id) = obj (field "options" (arr (choice_items options)) end)
content_json (fill_blank texts case_sensitive) = obj end
content_json (arrange tokens token_ids) = obj (field "tokens" (arr (choice_items tokens)) end)
content_json (speaking none) = obj end
content_json (speaking (some text)) = obj (field "referenceText" (str text) end)

-- The `answer` that is returned.
abbrev pub answer_json : Authored → Json
answer_json (choice options option_id) = obj (field "optionId" (str option_id) end)
answer_json (fill_blank texts none) = obj (field "acceptedTexts" (arr (text_items texts)) end)
answer_json (fill_blank texts (some b)) =
    obj (field "acceptedTexts" (arr (text_items texts)) (field "caseSensitive" (bool b) end))
answer_json (arrange tokens token_ids) = obj (field "tokenIds" (arr (text_items token_ids)) end)
answer_json (speaking text) = obj end

abbrev optional_field : (key : String) → Option (Option Json) → Fields → Fields
optional_field key none fields = fields
optional_field key (some none) fields = field key null fields
optional_field key (some (some value)) fields = field key value fields

-- What is returned, as the value whose bytes are counted.
abbrev pub value_json : AuthoringValue → Json
value_json value = obj (
    field "type" (str (type_text value.kind)) (
      field "prompt" (str value.prompt) (
        field "content" (content_json value.authored) (
          field "answer" (answer_json value.authored) (
            optional_field "explanation" (Option.map (Option.map str) value.explanation)
              (optional_field "mediaId" (Option.map (Option.map num) value.media_id) end))))))

-- The fields after the type.
unfoldable pub validate_fields : Unicode → Fields → ExerciseType → Mode → Checked AuthoringValue
unfolding read_explanation read_media_id validate_authored payload_bytes
validate_fields unicode fields kind mode =
    check (not (is_publish mode) || is_publishable kind) "unsupported_publish_type"
      (at_key "type" ∷ [])
      (after (require_human_text unicode (get_field fields "prompt") (at_key "prompt" ∷ []))
        (λ prompt. after (read_explanation unicode (get_field fields "explanation")) (λ explanation.
          after (read_media_id (get_field fields "mediaId") kind mode) (λ media_id.
            after
              (validate_authored unicode kind (get_field fields "content")
                (get_field fields "answer"))
              (λ authored.
                let value : AuthoringValue = record {
                  kind = kind;
                  prompt = prompt;
                  authored = authored;
                  explanation = explanation;
                  media_id = media_id;
                } in
                payload_bytes (value_json value) (passed value))))))

-- `field in record`, before what follows it.
abbrev pub required_field {ℓ} : {A : Type ℓ} → Fields → (name : String) → Checked A → Checked A
required_field fields name next =
    check (is_some (get_field fields name)) "required_field" (at_key name ∷ []) next

-- The `type` that the input names.
abbrev pub read_kind : Fields → Option ExerciseType
read_kind fields = elim (read_string (get_field fields "type")) [
  | none ↦ none
  | some s ↦ read_type s
]

-- What follows the required fields.
unfoldable pub validate_kind : Unicode → Fields → Mode → Checked AuthoringValue
unfolding validate_fields
validate_kind unicode fields mode = elim (read_kind fields) [
  | none ↦ failed (record { code = "invalid_exercise_type"; path = at_key "type" ∷ [] })
  | some kind ↦ validate_fields unicode fields kind mode
]

-- What follows the bounds, for an object.
unfoldable pub validate_record : Unicode → Fields → Mode → Checked AuthoringValue
unfolding validate_kind
validate_record unicode fields mode =
    allowed_keys fields ("type" ∷ "prompt" ∷ "content" ∷ "answer" ∷ "explanation" ∷ "mediaId" ∷ [])
      []
      (required_field fields "type" (
        required_field fields "prompt" (
          required_field fields "content"
            (required_field fields "answer" (validate_kind unicode fields mode)))))

-- `validateLessonExerciseAuthoring`
unfoldable pub validate_lesson_exercise_authoring : Unicode → Json → Mode → Checked AuthoringValue
unfolding global_bounds validate_record
validate_lesson_exercise_authoring unicode input mode =
    global_bounds input
      (after (require_record (some input) []) (λ fields. validate_record unicode fields mode))
