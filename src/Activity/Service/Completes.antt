-- ===== src/Activity/Service/Completes.antt =====
-- `completeTopic` and `completeLesson` of lesson-activity.service.ts.
use hsk_3_0_app.Base.{
  ℕ, Bool, not, Option, none, some, List, map, String, ◌==◌, if◌then◌else◌, is_some, any, contains,
  length,
}
use hsk_3_0_app.Path.{Status, is_done}
use hsk_3_0_app.Activity.{
  Result, ok, err, ◌>>=◌, ◌>>◌, require, Graph, Topic, Exercise, OrderedExercise, Attempt,
  LessonProgress, TopicProgress, lesson_completed, topic_completed, topic_not_started,
  topic_already_completed, topic_exercises_missing, lesson_already_completed, topics_missing,
  standalone_missing,
}
use hsk_3_0_app.Activity.Faults.{Thrown, parse_idempotency_key}
use hsk_3_0_app.Activity.Store.{Store, Db, Content}
use hsk_3_0_app.Activity.Progress.{calculate_lesson_score}
use hsk_3_0_app.Activity.Service.{
  Request, lesson, topic, Outcome, write, event_result, assert_event, finish, target_event,
}
use hsk_3_0_app.Activity.Service.Reads.{
  topic_exercises, standalone_exercises, distinct, total_duration, scored, find_event,
  require_public_lesson, require_public_topic, require_started_lesson_progress, submitted_attempts,
  facts_attempts, attempted_exercise_ids, topic_is_done,
}
use hsk_3_0_app.Activity.Service.Recompute.{
  or_now, recompute_lesson_progress, complete_active_plan_items,
}

-- The row that `completeTopic` writes.
unfoldable pub completed_topic : TopicProgress → (now : ℕ) → TopicProgress
completed_topic row now = record row {
  status = Status.done;
  completion_percent = 100;
  completed_at = or_now row.completed_at now;
  last_activity_at = some now;
}

-- The row that `completeLesson` writes.
unfoldable pub completed_lesson : LessonProgress → List Attempt → (now : ℕ) → LessonProgress
completed_lesson row attempts now = record row {
  status = Status.done;
  completion_percent = 100;
  score = calculate_lesson_score (map scored attempts);
  time_spent_seconds = total_duration attempts;
  current_topic_id = none;
  current_exercise_id = none;
  completed_at = or_now row.completed_at now;
  last_activity_at = some now;
}

module _ (store : Store) where
  -- The row of a topic that was started: `topicProgress?.startedAt`.
  unfoldable pub require_started_topic : Db store → (user_id topic_id : ℕ) → Result TopicProgress
  require_started_topic db user_id topic_id =
      elim (store.topic_progresses.find_unique db.topic_progresses user_id topic_id) [
        | none ↦ err topic_not_started
        | some row ↦ if is_some row.started_at then ok row else err topic_not_started
      ]

  -- `attemptedCount === requiredIds.length`
  unfoldable pub topic_is_attempted : Db store → (user_id : ℕ) → (required_ids : List ℕ) → Bool
  topic_is_attempted db user_id required_ids =
      length (
        distinct
          (map (λ (a : Attempt). a.exercise_id) (submitted_attempts store db user_id required_ids)))
      == length required_ids

  -- `graph.topics.some((topic) => … !== 'done')`
  unfoldable pub has_open_topic : Db store → (user_id : ℕ) → Graph → Bool
  has_open_topic db user_id graph =
      any (λ (t : Topic). not (topic_is_done store db user_id t.id)) graph.topics

  -- `standaloneExercises(graph).some((exercise) => !attemptedExerciseIds.has(exercise.id))`
  unfoldable pub has_open_standalone : Db store → (user_id : ℕ) → Graph → Bool
  has_open_standalone db user_id graph =
      any
        (λ (e : OrderedExercise).
          not (contains (attempted_exercise_ids store db user_id graph) e.id))
        (standalone_exercises graph)

  module _ (content : Content) where
    -- The row that `completeTopic` writes.
    unfoldable pub complete_topic_places :
        Db store → (user_id topic_id now : ℕ) → TopicProgress → Db store
    complete_topic_places db user_id topic_id now row = record db {
      topic_progresses =
          store.topic_progresses.upsert db.topic_progresses user_id topic_id
            (completed_topic row now);
    }

    -- `completeTopic` under a key that has no event.
    unfoldable pub complete_topic_afresh :
        Db store → (user_id topic_id : ℕ) (key : String) (now : ℕ) → Graph → Outcome store
    complete_topic_afresh db user_id topic_id key now graph = do
      progress ← require_started_lesson_progress store db user_id graph.id
      row ← require_started_topic db user_id topic_id
      require (not (is_done row.status)) topic_already_completed
      let required_ids = map (λ (e : Exercise). e.id) (topic_exercises graph topic_id)
      require (topic_is_attempted db user_id required_ids) topic_exercises_missing
      recomputed ←
          recompute_lesson_progress store (complete_topic_places db user_id topic_id now row)
            user_id graph now
      ok (
          finish store recomputed user_id key
            (target_event topic_completed graph.id (some topic_id) now) (topic topic_id)
            Status.done)

    -- The callback of `completeTopic`.
    unfoldable pub complete_topic_body :
        Db store → (user_id checked_at now topic_id : ℕ) (key : String) → Outcome store
    complete_topic_body db user_id checked_at now topic_id key = do
      found ← require_public_topic content topic_id
      replay ← find_event store db user_id checked_at key
      elim replay [
        | none ↦ complete_topic_afresh db user_id topic_id key now found.0
        | some event ↦ do
          assert_event event topic_completed (topic topic_id)
          ok (db, event_result event (topic topic_id) Status.done)
      ]

    unfoldable pub complete_topic :
        Db store → Request → Option Thrown → (topic_id : ℕ) → Outcome store
    complete_topic db request fault topic_id = do
      key ← parse_idempotency_key request.raw_key
      write content request fault
          (complete_topic_body db request.user_id request.checked_at request.now topic_id key)

    -- The rows that `completeLesson` writes: the progress and the plan's items.
    unfoldable pub complete_lesson_places :
        Db store → (user_id lesson_id now : ℕ) → Graph → LessonProgress → Db store
    complete_lesson_places db user_id lesson_id now graph progress =
        let row = completed_lesson progress (facts_attempts store db user_id graph) now in
        complete_active_plan_items store
          (record db { progresses = store.progresses.upsert db.progresses user_id lesson_id row })
          user_id lesson_id now

    -- `completeLesson` under a key that has no event.
    unfoldable pub complete_lesson_afresh :
        Db store → (user_id lesson_id : ℕ) (key : String) (now : ℕ) → Graph → Outcome store
    complete_lesson_afresh db user_id lesson_id key now graph = do
      progress ← require_started_lesson_progress store db user_id lesson_id
      require (not (is_done progress.status)) lesson_already_completed
      require (not (has_open_topic db user_id graph)) topics_missing
      require (not (has_open_standalone db user_id graph)) standalone_missing
      ok (
          finish store (complete_lesson_places db user_id lesson_id now graph progress) user_id key
            (target_event lesson_completed lesson_id none now) (lesson lesson_id) Status.done)

    -- The callback of `completeLesson`.
    unfoldable pub complete_lesson_body :
        Db store → (user_id checked_at now lesson_id : ℕ) (key : String) → Outcome store
    complete_lesson_body db user_id checked_at now lesson_id key = do
      graph ← require_public_lesson content lesson_id
      replay ← find_event store db user_id checked_at key
      elim replay [
        | none ↦ complete_lesson_afresh db user_id lesson_id key now graph
        | some event ↦ do
          assert_event event lesson_completed (lesson lesson_id)
          ok (db, event_result event (lesson lesson_id) Status.done)
      ]

    unfoldable pub complete_lesson :
        Db store → Request → Option Thrown → (lesson_id : ℕ) → Outcome store
    complete_lesson db request fault lesson_id = do
      key ← parse_idempotency_key request.raw_key
      write content request fault
          (complete_lesson_body db request.user_id request.checked_at request.now lesson_id key)
