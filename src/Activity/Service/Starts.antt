-- ===== src/Activity/Service/Starts.antt =====
-- `startLesson` and `startTopic` of lesson-activity.service.ts.
use hsk_3_0_app.Base.{ℕ, Bool, false, not, Option, none, some, List, [], ◌∷◌, map, String, is_some}
use hsk_3_0_app.Base.Sort.{sort}
use hsk_3_0_app.Path.{is_done, learning}
use hsk_3_0_app.Activity.{
  ok, ◌>>=◌, ◌>>◌, require, Graph, OrderedExercise, LessonProgress, TopicProgress, lesson_started,
  topic_started, lesson_already_started, topic_already_started,
}
use hsk_3_0_app.Activity.Faults.{Thrown, parse_idempotency_key}
use hsk_3_0_app.Activity.Store.{Store, Db, Content}
use hsk_3_0_app.Activity.Progress.{Pointer, select_next_activity, compare_exercises}
use hsk_3_0_app.Activity.Service.{
  Request, lesson, topic, Outcome, write, event_result, assert_event, finish, target_event,
}
use hsk_3_0_app.Activity.Service.Reads.{
  ordered_exercise, topic_exercises, ordered_topics, standalone_exercises, find_event,
  require_public_lesson, require_public_topic, require_started_lesson_progress,
  assert_lesson_unlocked,
}
use hsk_3_0_app.Activity.Service.Recompute.{or_now, kept_status, start_active_plan_items}

-- The pointer of a lesson that is started: nothing is completed or attempted.
unfoldable pub first_pointer : Graph → Pointer
first_pointer graph =
    select_next_activity (ordered_topics graph) (standalone_exercises graph) [] [] false

-- `progress.upsert` of `startLesson`.
unfoldable pub started_lesson : Option LessonProgress → Pointer → (now : ℕ) → LessonProgress
started_lesson none pointer now = record {
  status = learning;
  score = none;
  completion_percent = 0;
  current_topic_id = pointer.current_topic_id;
  current_exercise_id = pointer.current_exercise_id;
  time_spent_seconds = 0;
  started_at = some now;
  completed_at = none;
  last_activity_at = some now;
}
started_lesson (some existing) pointer now = record existing {
  status = kept_status (is_done existing.status);
  current_topic_id = pointer.current_topic_id;
  current_exercise_id = pointer.current_exercise_id;
  started_at = or_now existing.started_at now;
  last_activity_at = some now;
}

-- `userTopicProgress.upsert` of `startTopic`.
unfoldable pub started_topic : Option TopicProgress → (now : ℕ) → TopicProgress
started_topic none now = record {
  status = learning;
  completion_percent = 0;
  time_spent_seconds = 0;
  started_at = some now;
  completed_at = none;
  last_activity_at = some now;
}
started_topic (some existing) now = record existing {
  status = kept_status (is_done existing.status);
  started_at = or_now existing.started_at now;
  last_activity_at = some now;
}

-- `existing?.startedAt`
abbrev pub lesson_was_started : Option LessonProgress → Bool
lesson_was_started none = false
lesson_was_started (some row) = is_some row.started_at

abbrev pub topic_was_started : Option TopicProgress → Bool
topic_was_started none = false
topic_was_started (some row) = is_some row.started_at

-- `firstExercise?.id ?? null`
abbrev first_id : List OrderedExercise → Option ℕ
first_id [] = none
first_id (e ∷ es) = some e.id

module _ (store : Store) (content : Content) where
  -- The rows that `startLesson` writes: the progress and the plan's items.
  unfoldable pub start_lesson_places : Db store → (user_id lesson_id now : ℕ) → Graph → Db store
  start_lesson_places db user_id lesson_id now graph =
      let existing = store.progresses.find_unique db.progresses user_id lesson_id in
      let row = started_lesson existing (first_pointer graph) now in
      start_active_plan_items store
        (record db { progresses = store.progresses.upsert db.progresses user_id lesson_id row })
        user_id lesson_id now

  -- `startLesson` under a key that has no event.
  unfoldable pub start_lesson_afresh :
      Db store → (user_id lesson_id : ℕ) (key : String) (now : ℕ) → Graph → Outcome store
  start_lesson_afresh db user_id lesson_id key now graph = do
    let existing = store.progresses.find_unique db.progresses user_id lesson_id
    require (not (lesson_was_started existing)) lesson_already_started
    assert_lesson_unlocked store db content user_id graph (is_some existing)
    ok (
        finish store (start_lesson_places db user_id lesson_id now graph) user_id key
          (target_event lesson_started lesson_id none now) (lesson lesson_id) learning)

  -- The callback of `startLesson`.
  unfoldable pub start_lesson_body :
      Db store → (user_id checked_at now lesson_id : ℕ) (key : String) → Outcome store
  start_lesson_body db user_id checked_at now lesson_id key = do
    graph ← require_public_lesson content lesson_id
    replay ← find_event store db user_id checked_at key
    elim replay [
      | none ↦ start_lesson_afresh db user_id lesson_id key now graph
      | some event ↦ do
        assert_event event lesson_started (lesson lesson_id)
        ok (db, event_result event (lesson lesson_id) learning)
    ]

  unfoldable pub start_lesson : Db store → Request → Option Thrown → (lesson_id : ℕ) → Outcome store
  start_lesson db request fault lesson_id = do
    key ← parse_idempotency_key request.raw_key
    write content request fault
        (start_lesson_body db request.user_id request.checked_at request.now lesson_id key)

  -- The rows that `startTopic` writes: the topic's progress and the lesson's.
  unfoldable pub start_topic_places :
      Db store → (user_id topic_id now : ℕ) → Graph → LessonProgress → Db store
  start_topic_places db user_id topic_id now graph progress =
      let existing = store.topic_progresses.find_unique db.topic_progresses user_id topic_id in
      let exercises =
        sort compare_exercises (map ordered_exercise (topic_exercises graph topic_id)) in
      record db {
        topic_progresses =
            store.topic_progresses.upsert db.topic_progresses user_id topic_id
              (started_topic existing now);
        progresses = store.progresses.upsert db.progresses user_id graph.id (record progress {
          current_topic_id = some topic_id;
          current_exercise_id = first_id exercises;
          last_activity_at = some now;
        });
      }

  -- `startTopic` under a key that has no event.
  unfoldable pub start_topic_afresh :
      Db store → (user_id topic_id : ℕ) (key : String) (now : ℕ) → Graph → Outcome store
  start_topic_afresh db user_id topic_id key now graph = do
    progress ← require_started_lesson_progress store db user_id graph.id
    let existing = store.topic_progresses.find_unique db.topic_progresses user_id topic_id
    require (not (topic_was_started existing)) topic_already_started
    ok (
        finish store (start_topic_places db user_id topic_id now graph progress) user_id key
          (target_event topic_started graph.id (some topic_id) now) (topic topic_id) learning)

  -- The callback of `startTopic`.
  unfoldable pub start_topic_body :
      Db store → (user_id checked_at now topic_id : ℕ) (key : String) → Outcome store
  start_topic_body db user_id checked_at now topic_id key = do
    found ← require_public_topic content topic_id
    replay ← find_event store db user_id checked_at key
    elim replay [
      | none ↦ start_topic_afresh db user_id topic_id key now found.0
      | some event ↦ do
        assert_event event topic_started (topic topic_id)
        ok (db, event_result event (topic topic_id) learning)
    ]

  unfoldable pub start_topic : Db store → Request → Option Thrown → (topic_id : ℕ) → Outcome store
  start_topic db request fault topic_id = do
    key ← parse_idempotency_key request.raw_key
    write content request fault
        (start_topic_body db request.user_id request.checked_at request.now topic_id key)
