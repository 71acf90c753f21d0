-- ===== src/Authoring/Validate/Kinds.antt =====
-- The checks of each type of exercise in lesson-exercise-authoring.validator.ts.
use hsk_3_0_app.Base.{
  ℕ, ◌+◌, ◌==◌, Bool, true, false, ◌&&◌, not, Option, none, some, List, [], ◌∷◌, ◌++◌, String, all,
  length,
}
use hsk_3_0_app.Activity.{Json, null, bool, num, str, arr, obj}
use hsk_3_0_app.Authoring.{
  Unicode, Segment, at_key, at_index, Checked, passed, failed, Choice, Authored, choice, fill_blank,
  arrange, speaking,
}
use hsk_3_0_app.Authoring.Validate.Readers.{
  after, allowed_keys, are_distinct, check, choice_ids, get_field, has_text, require_array,
  require_fill_blank_text, require_human_text, require_record, require_stable_id,
}

module _ (unicode : Unicode) where
  -- An option or a token: `ids` are those before it.
  abbrev pub read_choice : (ids : List String) → Json → List Segment → Checked Choice
  read_choice ids value path = after (require_record (some value) path) (λ fields.
      allowed_keys fields ("id" ∷ "text" ∷ []) path (
        after (require_stable_id unicode (get_field fields "id") (path ++ at_key "id" ∷ [])) (λ id.
          check (not (has_text ids id)) "duplicate_stable_id" (path ++ at_key "id" ∷ []) (
            after
              (require_human_text unicode (get_field fields "text") (path ++ at_key "text" ∷ []))
              (λ text. passed (record { id = id; text = text }))))))

  -- The options or tokens from an index on.
  unfoldable pub read_choices :
      (ids : List String) (index : ℕ) → List Json → List Segment → Checked (List Choice)
  read_choices ids index [] path = passed []
  read_choices ids index (value ∷ values) path =
      after (read_choice ids value (path ++ at_index index ∷ [])) (λ made.
        after (read_choices (made.id ∷ ids) (index + 1) values path) (λ rest. passed (made ∷ rest)))

  -- `validateChoice`
  unfoldable pub validate_choice : (raw_content raw_answer : Option Json) → Checked Authored
  unfolding read_choices
  validate_choice raw_content raw_answer =
      after (require_record raw_content (at_key "content" ∷ [])) (λ content.
        allowed_keys content ("options" ∷ []) (at_key "content" ∷ []) (
          after
            (require_array (get_field content "options") false
              (at_key "content" ∷ at_key "options" ∷ []) 2)
            (λ values.
              after (read_choices [] 0 values (at_key "content" ∷ at_key "options" ∷ []))
                (λ options. after (require_record raw_answer (at_key "answer" ∷ [])) (λ answer.
                  allowed_keys answer ("optionId" ∷ []) (at_key "answer" ∷ []) (
                    after
                      (require_stable_id unicode (get_field answer "optionId")
                        (at_key "answer" ∷ at_key "optionId" ∷ []))
                      (λ option_id.
                        check (has_text (choice_ids options) option_id)
                          "authoritative_option_not_found"
                          (at_key "answer" ∷ at_key "optionId" ∷ [])
                          (passed (choice options option_id)))))))))

  -- The accepted texts from an index on.
  unfoldable pub read_texts : (index : ℕ) → List Json → List Segment → Checked (List String)
  read_texts index [] path = passed []
  read_texts index (value ∷ values) path =
      after (require_fill_blank_text unicode (some value) (path ++ at_index index ∷ []))
        (λ text. after (read_texts (index + 1) values path) (λ rest. passed (text ∷ rest)))

  -- `caseSensitive`, where it is absent or a Boolean.
  abbrev pub read_case_sensitive : Option Json → Checked (Option Bool)
  read_case_sensitive none = passed none
  read_case_sensitive (some (bool b)) = passed (some b)
  read_case_sensitive (some null) =
      failed
        (record { code = "boolean_required"; path = at_key "answer" ∷ at_key "caseSensitive" ∷ [] })
  read_case_sensitive (some (num n)) =
      failed
        (record { code = "boolean_required"; path = at_key "answer" ∷ at_key "caseSensitive" ∷ [] })
  read_case_sensitive (some (str s)) =
      failed
        (record { code = "boolean_required"; path = at_key "answer" ∷ at_key "caseSensitive" ∷ [] })
  read_case_sensitive (some (arr items)) =
      failed
        (record { code = "boolean_required"; path = at_key "answer" ∷ at_key "caseSensitive" ∷ [] })
  read_case_sensitive (some (obj fields)) =
      failed
        (record { code = "boolean_required"; path = at_key "answer" ∷ at_key "caseSensitive" ∷ [] })

  -- `validateFillBlank`
  unfoldable pub validate_fill_blank : (raw_content raw_answer : Option Json) → Checked Authored
  unfolding read_texts
  validate_fill_blank raw_content raw_answer =
      after (require_record raw_content (at_key "content" ∷ [])) (λ content.
        allowed_keys content [] (at_key "content" ∷ []) (
          after (require_record raw_answer (at_key "answer" ∷ [])) (λ answer.
            allowed_keys answer ("acceptedTexts" ∷ "caseSensitive" ∷ []) (at_key "answer" ∷ []) (
              after
                (require_array (get_field answer "acceptedTexts") true
                  (at_key "answer" ∷ at_key "acceptedTexts" ∷ []) 1)
                (λ values.
                  after (read_texts 0 values (at_key "answer" ∷ at_key "acceptedTexts" ∷ []))
                    (λ texts.
                      after (read_case_sensitive (get_field answer "caseSensitive"))
                        (λ case_sensitive. passed (fill_blank texts case_sensitive))))))))

  -- The ids from an index on.
  unfoldable pub read_ids : (index : ℕ) → List Json → List Segment → Checked (List String)
  read_ids index [] path = passed []
  read_ids index (value ∷ values) path =
      after (require_stable_id unicode (some value) (path ++ at_index index ∷ []))
        (λ id. after (read_ids (index + 1) values path) (λ rest. passed (id ∷ rest)))

  -- `validateArrange`
  unfoldable pub validate_arrange : (raw_content raw_answer : Option Json) → Checked Authored
  unfolding read_choices read_ids
  validate_arrange raw_content raw_answer =
      after (require_record raw_content (at_key "content" ∷ [])) (λ content.
        allowed_keys content ("tokens" ∷ []) (at_key "content" ∷ []) (
          after
            (require_array (get_field content "tokens") false
              (at_key "content" ∷ at_key "tokens" ∷ []) 2)
            (λ values.
              after (read_choices [] 0 values (at_key "content" ∷ at_key "tokens" ∷ [])) (λ tokens.
                after (require_record raw_answer (at_key "answer" ∷ [])) (λ answer.
                  allowed_keys answer ("tokenIds" ∷ []) (at_key "answer" ∷ []) (
                    after
                      (require_array (get_field answer "tokenIds") false
                        (at_key "answer" ∷ at_key "tokenIds" ∷ []) 1)
                      (λ raw_ids.
                        after (read_ids 0 raw_ids (at_key "answer" ∷ at_key "tokenIds" ∷ []))
                          (λ token_ids.
                            check
                              (length token_ids == length tokens
                                && are_distinct token_ids
                                && all (has_text (choice_ids tokens)) token_ids)
                              "invalid_token_set" (at_key "answer" ∷ at_key "tokenIds" ∷ [])
                              (passed (arrange tokens token_ids))))))))))

  -- The optional `referenceText`.
  abbrev pub read_reference : Option Json → Checked Authored
  read_reference none = passed (speaking none)
  read_reference (some text) =
      after
        (require_human_text unicode (some text) (at_key "content" ∷ at_key "referenceText" ∷ []))
        (λ reference. passed (speaking (some reference)))

  -- The case `speaking_repeat` of the switch.
  unfoldable pub validate_speaking : (raw_content raw_answer : Option Json) → Checked Authored
  validate_speaking raw_content raw_answer =
      after (require_record raw_content (at_key "content" ∷ [])) (λ content.
        after (require_record raw_answer (at_key "answer" ∷ [])) (λ answer.
          allowed_keys content ("referenceText" ∷ []) (at_key "content" ∷ []) (
            allowed_keys answer [] (at_key "answer" ∷ [])
              (read_reference (get_field content "referenceText")))))
