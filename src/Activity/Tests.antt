-- ===== src/Activity/Tests.antt =====
-- A learner's way through one lesson: the data of the tests, and its end.
mod Kept
mod Replays
mod Gates
mod Graded
use hsk_3_0_app.Base.{
  ℕ, ◌≡◌, refl, true, Option, none, some, List, [], ◌∷◌, String, ◌==◌, if◌then◌else◌, arith,
  Bool-cases, inl, inr,
}
use hsk_3_0_app.Path.{Status, is_lesson_unlocked}
use hsk_3_0_app.Base.Sort.{sort}
use hsk_3_0_app.Activity.{ok, Exercise, Graph, null, mcq}
use hsk_3_0_app.Activity.Store.{Db, Content, Grading}
use hsk_3_0_app.Activity.Views.{
  serialize_progress, topic_summary, serialize_lesson_attempt, keep_latest, latest_attempts,
  get_attempts, get_lesson_progress, show_exercise, lesson_view, get_lesson_activity,
}
use hsk_3_0_app.Activity.Memory.{memory, empty}
use hsk_3_0_app.Activity.Service.{Request, write, commit, event_result, assert_event, finish}
use hsk_3_0_app.Activity.Service.Submit.{
  Submission, max_attempt_number, attempt_values, recompute_topic_of, finish_attempt,
  create_attempt, submit_afresh, require_replay_attempt, submit_body, submit_attempt,
}
use hsk_3_0_app.Activity.History.{
  Call, starts_lesson, starts_topic, completes_topic, completes_lesson, submits, Action, handle,
  perform, run,
}
use hsk_3_0_app.Activity.Faults.{
  matches_key_pattern, parse_idempotency_key, is_idempotency_key_expired,
}
use hsk_3_0_app.Activity.Progress.{
  calculate_completion_percent, get_score, set_score, consider_attempt, best_scores,
  calculate_lesson_score, next_standalone, next_in_topic, next_in_topics, select_next_activity,
}
use hsk_3_0_app.Activity.Double.{divide, scale, math_round}
use hsk_3_0_app.Activity.Service.Reads.{
  ordered_topics, standalone_exercises, distinct, total_duration, previous_ready_lesson,
  require_public_topic, require_public_exercise, find_event, require_started_lesson_progress,
  assert_lesson_unlocked, submitted_attempts,
}
use hsk_3_0_app.Activity.Service.Recompute.{
  recomputed_topic, recompute_topic_progress, lesson_pointer, completed_units, recomputed_lesson,
  recompute_lesson_progress, start_active_plan_items, complete_active_plan_items,
}
use hsk_3_0_app.Activity.Service.Starts.{
  first_pointer, started_lesson, started_topic, start_lesson_places, start_lesson_afresh,
  start_lesson_body, start_lesson, start_topic_places, start_topic_afresh, start_topic_body,
  start_topic,
}
use hsk_3_0_app.Activity.Service.Completes.{
  completed_topic, completed_lesson, require_started_topic, topic_is_attempted, has_open_topic,
  has_open_standalone, complete_topic_places, complete_topic_afresh, complete_topic_body,
  complete_topic, complete_lesson_places, complete_lesson_afresh, complete_lesson_body,
  complete_lesson,
}

pub runs : Unit {0}
unfolding serialize_progress topic_summary serialize_lesson_attempt keep_latest latest_attempts
    get_attempts get_lesson_progress show_exercise lesson_view get_lesson_activity sort
    is_lesson_unlocked matches_key_pattern parse_idempotency_key is_idempotency_key_expired
    calculate_completion_percent get_score set_score consider_attempt best_scores
    calculate_lesson_score next_standalone next_in_topic next_in_topics select_next_activity divide
    scale math_round write commit event_result assert_event finish ordered_topics
    standalone_exercises distinct total_duration previous_ready_lesson require_public_topic
    require_public_exercise find_event require_started_lesson_progress assert_lesson_unlocked
    submitted_attempts recomputed_topic recompute_topic_progress lesson_pointer completed_units
    recomputed_lesson recompute_lesson_progress start_active_plan_items complete_active_plan_items
    first_pointer started_lesson started_topic start_lesson_places start_lesson_afresh
    start_lesson_body start_lesson start_topic_places start_topic_afresh start_topic_body
    start_topic max_attempt_number attempt_values recompute_topic_of finish_attempt create_attempt
    submit_afresh require_replay_attempt submit_body submit_attempt completed_topic completed_lesson
    require_started_topic topic_is_attempted has_open_topic has_open_standalone
    complete_topic_places complete_topic_afresh complete_topic_body complete_topic
    complete_lesson_places complete_lesson_afresh complete_lesson_body complete_lesson handle
    perform run
runs = tt

abbrev pub exercise_of : (id : ℕ) → Option ℕ → Exercise
exercise_of id topic_id = record {
  id = id;
  topic_id = topic_id;
  kind = mcq;
  prompt = "?";
  content = null;
  answer = null;
  explanation = none;
  version = 1;
  order_index = 1;
  media = null;
}

-- Lesson 1 has topic 10 with exercise 100, and exercise 101 without a topic.
abbrev pub one_lesson : Graph
one_lesson = record {
  id = 1;
  level_id = 5;
  order_index = 1;
  topics = record { id = 10; order_index = 1 } ∷ [];
  exercises = exercise_of 100 (some 10) ∷ exercise_of 101 none ∷ [];
}

abbrev pub only : ℕ → ℕ → Option ℕ
only key id = if key == id then some 1 else none

abbrev pub find_lesson : ℕ → Option Graph
find_lesson id = if id == 1 then some one_lesson else none

pub find_lesson-id : (id : ℕ) (graph : Graph) → find_lesson id ≡ some graph → graph.id ≡ id
find_lesson-id id graph h = elim (Bool-cases (id == 1)) [
  | inl same ↦ ground arith
  | inr differs ↦ absurd (ground arith)
]

abbrev pub content : Content
content = record {
  is_active = λ user. user == 7;
  find_ready_lesson = find_lesson;
  ready_lessons = record { id = 1; level_id = 5; order_index = 1 } ∷ [];
  topic_lesson = only 10;
  exercise_lesson = λ id. if id == 100 then some 1 else only 101 id;
  find_ready_lesson-id = find_lesson-id;
}

abbrev pub grading : Grading
grading = record {
  score_lesson_exercise = λ exercise answer. ok (record { score = 100; is_correct = true });
  build_activity_request_hash = λ id answer duration. ok "hash";
  project_public_exercise_media = λ kind media. media;
}

abbrev pub asked : (key : String) (now : ℕ) → Request
asked key now = record { user_id = 7; raw_key = some key; checked_at = now; now = now }

abbrev pub act : String → ℕ → Call → Action
act key now call = record { content = content; request = asked key now; fault = none; call = call }

abbrev pub sent : Submission
sent = record { answer = null; duration_seconds = some 30 }

-- The tables after each write.
abbrev pub started : Db memory
started = run memory grading empty (act "key-00001" 1000 (starts_lesson 1) ∷ [])

abbrev pub topic_begun : Db memory
topic_begun = run memory grading started (act "key-00002" 2000 (starts_topic 10) ∷ [])

abbrev pub answered : Db memory
answered = run memory grading topic_begun (act "key-00003" 3000 (submits 100 sent) ∷ [])

abbrev pub topic_over : Db memory
topic_over = run memory grading answered (act "key-00004" 4000 (completes_topic 10) ∷ [])

abbrev pub all_answered : Db memory
all_answered = run memory grading topic_over (act "key-00005" 5000 (submits 101 sent) ∷ [])

abbrev pub over : Db memory
over = run memory grading all_answered (act "key-00006" 6000 (completes_lesson 1) ∷ [])

-- The whole way.
abbrev pub way : List Action
way =
    act "key-00001" 1000 (starts_lesson 1)
    ∷ act "key-00002" 2000 (starts_topic 10)
    ∷ act "key-00003" 3000 (submits 100 sent)
    ∷ act "key-00004" 4000 (completes_topic 10)
    ∷ act "key-00005" 5000 (submits 101 sent)
    ∷ act "key-00006" 6000 (completes_lesson 1)
    ∷ []

-- What may come after: the topic again, and a lesson that is not there.
abbrev pub later : List Action
later =
    act "key-00007" 7000 (submits 100 sent)
    ∷ act "key-00008" 8000 (starts_lesson 2)
    ∷ act "key-00009" 9000 (completes_lesson 1)
    ∷ []

over-row :
    memory.progresses.find_unique over.progresses 7 1
    ≡ some (record {
      status = Status.done;
      score = some 100;
      completion_percent = 100;
      current_topic_id = none;
      current_exercise_id = none;
      time_spent_seconds = 60;
      started_at = some 1000;
      completed_at = some 6000;
      last_activity_at = some 6000;
    })
unfolding runs
over-row = refl
