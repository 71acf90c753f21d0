-- ===== src/Activity/Tests/Graded.antt =====
-- A lesson with one exercise of two options, started and answered: the witness about the scorer.
use hsk_3_0_app.Base.{
  ℕ, ◌≡◌, refl, true, Option, none, some, [], ◌∷◌, String, ◌==◌, if◌then◌else◌, arith, Bool-cases,
  inl, inr, Memᴰ,
}
use hsk_3_0_app.Activity.{
  ok, Exercise, Graph, Attempt, Json, null, str, arr, obj, nil, item, end, field, mcq,
}
use hsk_3_0_app.Activity.Store.{Db, Content, Grading}
use hsk_3_0_app.Activity.Memory.{memory, empty}
use hsk_3_0_app.Activity.Service.{attempt_reply, commit}
use hsk_3_0_app.Activity.Service.Submit.{Submission, create_attempt, submit_attempt}
use hsk_3_0_app.Activity.Service.Starts.{start_lesson}
use hsk_3_0_app.Activity.Faults.{is_alphanumeric}
use hsk_3_0_app.Activity.Tests.{runs, asked}
use hsk_3_0_app.Activity.Graded.{graded, submit_attempt-right}
use hsk_3_0_app.Canonical.{code_units, serialize_canonical_value, canonical_json}
use hsk_3_0_app.Base.Sort.{insert}
use hsk_3_0_app.Authoring.{Unicode, choice, AuthoringValue}
use hsk_3_0_app.Authoring.Texts.{utf16_length, utf8_length, trim_start, trim_end, trim}
use hsk_3_0_app.Authoring.Validate.{read_choices, validate_choice}
use hsk_3_0_app.Authoring.Input.{
  bounded_json_depth, payload_bytes, global_bounds, read_media_id, read_explanation,
  validate_authored, validate_fields, validate_kind, validate_record,
  validate_lesson_exercise_authoring,
}
use hsk_3_0_app.Authoring.Score.{
  score_choice, score_authored, score_checked, score_lesson_exercise, score_of,
}

checks : Unit {0}
unfolding runs code_units serialize_canonical_value canonical_json insert utf16_length utf8_length
    trim_start trim_end trim read_choices validate_choice bounded_json_depth payload_bytes
    global_bounds read_media_id read_explanation validate_authored validate_fields validate_kind
    validate_record validate_lesson_exercise_authoring score_choice score_authored score_checked
    score_lesson_exercise
checks = tt

abbrev plain : Unicode
plain = record { nfkc = λ s. s; to_lower_case = λ s. s; is_letter_or_number = is_alphanumeric }

abbrev labelled : (id text : String) → Json
labelled id text = obj (field "id" (str id) (field "text" (str text) end))

abbrev option_b : Json
option_b = obj (field "optionId" (str "b") end)

abbrev asked_exercise : Exercise
asked_exercise = record {
  id = 100;
  topic_id = none;
  kind = mcq;
  prompt = "?";
  content =
      obj (field "options" (arr (item (labelled "a" "mao") (item (labelled "b" "gou") nil))) end);
  answer = option_b;
  explanation = none;
  version = 1;
  order_index = 1;
  media = null;
}

abbrev lesson : Graph
lesson = record {
  id = 1;
  level_id = 5;
  order_index = 1;
  topics = [];
  exercises = asked_exercise ∷ [];
}

abbrev find_only : ℕ → Option Graph
find_only id = if id == 1 then some lesson else none

find_only-id : (id : ℕ) (graph : Graph) → find_only id ≡ some graph → graph.id ≡ id
find_only-id id graph h = elim (Bool-cases (id == 1)) [
  | inl same ↦ ground arith
  | inr differs ↦ absurd (ground arith)
]

abbrev lessons : Content
lessons = record {
  is_active = λ user. user == 7;
  find_ready_lesson = find_only;
  ready_lessons = record { id = 1; level_id = 5; order_index = 1 } ∷ [];
  topic_lesson = λ id. none;
  exercise_lesson = λ id. if id == 100 then some 1 else none;
  find_ready_lesson-id = find_only-id;
}

abbrev scorer : Grading
scorer = graded plain (λ id answer duration. ok "hash") (λ kind media. media)

abbrev begun : Db memory
begun = commit empty (start_lesson memory lessons empty (asked "key-00001" 1000) none 1)

abbrev right : Submission
right = record { answer = option_b; duration_seconds = none }

abbrev attempted : Db memory
attempted =
    commit begun
      (submit_attempt memory lessons scorer begun (asked "key-00002" 2000) none 100 right)

abbrev row : Attempt
row =
    (create_attempt memory lessons scorer begun 7 lesson asked_exercise right (score_of true) "hash"
      "key-00002" 2000).1

abbrev authored : AuthoringValue
authored = record {
  kind = mcq;
  prompt = "Runtime scoring contract";
  authored =
      choice (record { id = "a"; text = "mao" } ∷ record { id = "b"; text = "gou" } ∷ []) "b";
  explanation = none;
  media_id = none;
}

submit_attempt-right_example :
    (made : Attempt) × (attempt_reply row ≡ attempt_reply made)
    × (made.score ≡ some 100)
    × (made.is_correct ≡ some true)
unfolding checks
submit_attempt-right_example =
    submit_attempt-right memory lessons plain (λ id answer duration. ok "hash")
      (λ kind media. media) (λ s. refl) begun (asked "key-00002" 2000) none 100 right "key-00002"
      lesson asked_exercise authored (attempted, attempt_reply row) refl refl refl refl refl
      (Memᴰ.head refl) refl
