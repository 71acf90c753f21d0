-- ===== src/Authoring/Tests.antt =====
-- An exercise with two options, one with a blank and one to arrange: the tests of the validator and of
-- the scorer, and the witnesses.
use hsk_3_0_app.Base.{◌≡◌, refl, true, false, none, [], ◌∷◌, String, arith, Memᴰ, is_some, leb}
use hsk_3_0_app.Activity.{
  ExerciseType, mcq, arrange_sentence, speaking_repeat, Json, str, arr, obj, nil, item, end, field,
  ok, err, invalid_answer, invalid_authoring, unsupported_exercise,
}
use hsk_3_0_app.Activity.Faults.{is_alphanumeric}
use hsk_3_0_app.Canonical.{code_units, serialize_canonical_value, canonical_json}
use hsk_3_0_app.Canonical.Depth.{depth}
use hsk_3_0_app.Base.Sort.{insert, sort}
use hsk_3_0_app.Authoring.{Unicode, publish, at_key, failed, choice, AuthoringValue}
use hsk_3_0_app.Authoring.Texts.{
  utf16_length, utf8_length, trim_start, trim_end, trim, collapse_from,
}
use hsk_3_0_app.Authoring.Validate.{
  read_choices, validate_choice, read_texts, validate_fill_blank, read_ids, validate_arrange,
  validate_speaking,
}
use hsk_3_0_app.Authoring.Input.{
  bounded_json_depth, payload_bytes, global_bounds, read_media_id, read_explanation,
  validate_authored, validate_fields, validate_kind, validate_record,
  validate_lesson_exercise_authoring,
}
use hsk_3_0_app.Authoring.Score.{
  score_choice, score_fill_blank, require_client_ids, score_arrange_sentence, score_authored,
  score_checked, score_lesson_exercise, scoring_input, score_of,
}
use hsk_3_0_app.Authoring.Depth.{bounded_json_depth-canonical_json}
use hsk_3_0_app.Authoring.RoundTrip.{score_lesson_exercise-right}

runs : Unit {0}
unfolding code_units serialize_canonical_value canonical_json insert sort utf16_length utf8_length
    trim_start trim_end trim collapse_from read_choices validate_choice read_texts
    validate_fill_blank read_ids validate_arrange validate_speaking bounded_json_depth payload_bytes
    global_bounds read_media_id read_explanation validate_authored validate_fields validate_kind
    validate_record validate_lesson_exercise_authoring score_choice score_fill_blank
    require_client_ids score_arrange_sentence score_authored score_checked score_lesson_exercise
runs = tt

-- Plain letters and digits, which are normalized.
abbrev plain : Unicode
plain = record { nfkc = λ s. s; to_lower_case = λ s. s; is_letter_or_number = is_alphanumeric }

abbrev labelled : (id text : String) → Json
labelled id text = obj (field "text" (str text) (field "id" (str id) end))

abbrev options : Json
options =
    obj (field "options" (arr (item (labelled "a" "mao") (item (labelled "b" " gou ") nil))) end)

abbrev option_b : Json
option_b = obj (field "optionId" (str "b") end)

abbrev tokens : Json
tokens = obj (field "tokens" (arr (item (labelled "a" "wo") (item (labelled "b" "ai") nil))) end)

abbrev order : (first second : String) → Json
order first second = obj (field "tokenIds" (arr (item (str first) (item (str second) nil))) end)

abbrev texts : Json
texts = obj (field "acceptedTexts" (arr (item (str " ni   hao ") nil)) end)

abbrev sent : String → Json
sent text = obj (field "text" (str text) end)

choice_test :
    (score_lesson_exercise plain mcq options option_b (obj (field "optionId" (str "a") end))
      ≡ ok (score_of false))
    × (score_lesson_exercise plain mcq options option_b (obj (field "optionId" (str "c") end))
        ≡ err invalid_answer)
    × (score_lesson_exercise plain mcq options option_b (str "b") ≡ err invalid_answer)
    × (score_lesson_exercise plain mcq options (sent "b") option_b ≡ err invalid_authoring)
    × (score_lesson_exercise plain speaking_repeat options option_b option_b
        ≡ err unsupported_exercise)
unfolding runs
choice_test = (refl, refl, refl, refl, refl)

fill_blank_test :
    (score_lesson_exercise plain ExerciseType.fill_blank (obj end) texts (sent "ni hao")
      ≡ ok (score_of true))
    × (score_lesson_exercise plain ExerciseType.fill_blank (obj end) texts (sent "nihao")
        ≡ ok (score_of false))
    × (score_lesson_exercise plain ExerciseType.fill_blank (obj end) texts (sent "  ")
        ≡ err invalid_answer)
unfolding runs
fill_blank_test = (refl, refl, refl)

arrange_test :
    (score_lesson_exercise plain arrange_sentence tokens (order "b" "a") (order "b" "a")
      ≡ ok (score_of true))
    × (score_lesson_exercise plain arrange_sentence tokens (order "b" "a") (order "a" "b")
        ≡ ok (score_of false))
    × (score_lesson_exercise plain arrange_sentence tokens (order "b" "a") (order "a" "a")
        ≡ err invalid_answer)
unfolding runs
arrange_test = (refl, refl, refl)

duplicate_test :
    validate_lesson_exercise_authoring plain
      (scoring_input arrange_sentence tokens (order "a" "a"))
      publish
    ≡ failed
        (record { code = "invalid_token_set"; path = at_key "answer" ∷ at_key "tokenIds" ∷ [] })
unfolding runs
duplicate_test = refl

abbrev authored : AuthoringValue
authored = record {
  kind = mcq;
  prompt = "Runtime scoring contract";
  authored =
      choice (record { id = "a"; text = "mao" } ∷ record { id = "b"; text = "gou" } ∷ []) "b";
  explanation = none;
  media_id = none;
}

score_lesson_exercise-right_example :
    score_lesson_exercise plain mcq options option_b option_b ≡ ok (score_of true)
unfolding runs
score_lesson_exercise-right_example =
    score_lesson_exercise-right plain (λ s. refl) mcq options option_b option_b authored refl refl
      (Memᴰ.head refl)

bounded_json_depth-canonical_json_example :
    (leb (bounded_json_depth options 2) 2 ≡ leb (depth options) 2)
    × (is_some (canonical_json options 2) ≡ leb (depth options) 2)
bounded_json_depth-canonical_json_example =
    bounded_json_depth-canonical_json options 2 (omega arith)
