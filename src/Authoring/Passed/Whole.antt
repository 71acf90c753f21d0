-- ===== src/Authoring/Passed/Whole.antt =====
-- What validateLessonExerciseAuthoring of lesson-exercise-authoring.validator.ts passes.
use hsk_3_0_app.Base.{◌≡◌, subst, inl, inr, some, [], ◌∷◌, arith, Option-cases, leb}
use hsk_3_0_app.Activity.{ExerciseType, Json, Fields}
use hsk_3_0_app.Canonical.{canonical_json}
use hsk_3_0_app.Authoring.{Unicode, Mode, at_key, Checked, passed, AuthoringValue}
use hsk_3_0_app.Authoring.Validate.{require_human_text, require_record, get_field, max_depth}
use hsk_3_0_app.Authoring.Input.{
  validate_authored, validate_fields, validate_lesson_exercise_authoring, global_bounds,
  payload_bytes, bounded_json_depth, read_explanation, read_media_id, read_kind, required_field,
  validate_kind, validate_record, value_json,
}
use hsk_3_0_app.Authoring.Passed.Readers.{
  after-passed, allowed-passed, check-passed, passed-injective, required-passed,
}
use hsk_3_0_app.Authoring.Passed.Kinds.{IsAuthored, validate_authored-IsAuthored}

module _ (unicode : Unicode) where
  payload_bytes-passed {ℓ} :
      {A : Type ℓ} (value : Json) (next : Checked A) (a : A)
      → payload_bytes value next ≡ passed a
      → next ≡ passed a
  unfolding payload_bytes
  payload_bytes-passed value next a e = elim (Option-cases (canonical_json value max_depth)) [
    | inl deep ↦ absurd (ground arith)
    | inr (text, made) ↦ (check-passed _ _ _ next a (rw (payload_bytes, made) at e)).1
  ]

  validate_fields-IsAuthored :
      (fields : Fields) (kind : ExerciseType) (mode : Mode) (value : AuthoringValue)
      → validate_fields unicode fields kind mode ≡ passed value
      → (IsAuthored unicode) value.authored
  unfolding validate_fields
  validate_fields-IsAuthored fields kind mode value e =
      let (a, e) = check-passed _ _ _ _ value e in
      let (prompt, b, e) =
        after-passed (require_human_text unicode (get_field fields "prompt") (at_key "prompt" ∷ []))
          _ value e in
      let (explanation, c, e) =
        after-passed (read_explanation unicode (get_field fields "explanation")) _ value e in
      let (media_id, d, e) =
        after-passed (read_media_id (get_field fields "mediaId") kind mode) _ value e in
      let (authored, f, e) =
        after-passed
          (validate_authored unicode kind (get_field fields "content") (get_field fields "answer"))
          _ value e in
      let made : AuthoringValue = record {
        kind = kind;
        prompt = prompt;
        authored = authored;
        explanation = explanation;
        media_id = media_id;
      } in
      let same =
        passed-injective made value
          (payload_bytes-passed (value_json made) (passed made) value e) in
      subst (λ (v : AuthoringValue). (IsAuthored unicode) v.authored) same
        (validate_authored-IsAuthored unicode kind (get_field fields "content")
          (get_field fields "answer") authored f)

  kind-IsAuthored :
      (fields : Fields) (mode : Mode) (value : AuthoringValue)
      → validate_kind unicode fields mode ≡ passed value
      → (IsAuthored unicode) value.authored
  unfolding validate_kind
  kind-IsAuthored fields mode value e = elim (Option-cases (read_kind fields)) [
    | inl unknown ↦ absurd (ground arith)
    | inr (kind, named) ↦
        validate_fields-IsAuthored fields kind mode value (rw (validate_kind, named) at e)
  ]

  record-IsAuthored :
      (fields : Fields) (mode : Mode) (value : AuthoringValue)
      → validate_record unicode fields mode ≡ passed value
      → (IsAuthored unicode) value.authored
  unfolding validate_record
  record-IsAuthored fields mode value e =
      let answer = required_field fields "answer" (validate_kind unicode fields mode) in
      let content = required_field fields "content" answer in
      let prompt = required_field fields "prompt" content in
      let e =
        allowed-passed fields
          ("type" ∷ "prompt" ∷ "content" ∷ "answer" ∷ "explanation" ∷ "mediaId" ∷ []) []
          (required_field fields "type" prompt) value e in
      let e = required-passed fields "type" prompt value e in
      let e = required-passed fields "prompt" content value e in
      let e = required-passed fields "content" answer value e in
      let e = required-passed fields "answer" (validate_kind unicode fields mode) value e in
      kind-IsAuthored fields mode value e

  -- The `authored` of a value that the validator returns.
  pub validate-IsAuthored :
      (input : Json) (mode : Mode) (value : AuthoringValue)
      → validate_lesson_exercise_authoring unicode input mode ≡ passed value
      → (IsAuthored unicode) value.authored
  unfolding validate_lesson_exercise_authoring global_bounds
  validate-IsAuthored input mode value e =
      let (a, e) =
        check-passed (leb (bounded_json_depth input max_depth) max_depth) _ _ _ value e in
      let e = payload_bytes-passed input _ value e in
      let (fields, b, e) =
        after-passed (require_record (some input) []) (λ f. validate_record unicode f mode) value
          e in
      record-IsAuthored fields mode value e
