-- ===== src/Activity/Service/Recompute.antt =====
-- The writes that several operations of lesson-activity.service.ts share: the progress that is
-- computed again after an attempt or a completed topic, and the items of the learning plan.
use hsk_3_0_app.Base.{
  ℕ, ◌+◌, Bool, true, false, ◌&&◌, Option, none, some, List, map, ◌==◌, if◌then◌else◌, filter,
  contains, length,
}
use hsk_3_0_app.Path.{Status, is_done}
use hsk_3_0_app.Activity.{
  Result, ok, ◌>>=◌, Exercise, Graph, OrderedExercise, LessonProgress, TopicProgress, PlanItem,
  PlanItemStatus, planned, in_progress, completed, Attempt,
}
use hsk_3_0_app.Activity.Store.{Store, Db}
use hsk_3_0_app.Activity.Progress.{
  Pointer, calculate_completion_percent, calculate_lesson_score, select_next_activity,
}
use hsk_3_0_app.Activity.Service.Reads.{
  topic_exercises, ordered_topics, standalone_exercises, distinct, total_duration, scored,
  require_started_lesson_progress, submitted_attempts, facts_attempts, attempted_exercise_ids,
  completed_topic_ids,
}

-- `a ?? b`
abbrev pub or_now : Option ℕ → ℕ → Option ℕ
or_now none now = some now
or_now (some t) now = some t

-- The status that a write leaves: done stays done.
abbrev pub kept_status : Bool → Status
kept_status true = Status.done
kept_status false = Status.learning

module _ (store : Store) where
  -- `existing?.status === 'done'`
  abbrev pub topic_row_is_done : Option TopicProgress → Bool
  topic_row_is_done none = false
  topic_row_is_done (some row) = is_done row.status

  -- The percentage of a topic's exercises that have been attempted.
  abbrev pub topic_percent : (attempts : List Attempt) (exercise_ids : List ℕ) → ℕ
  topic_percent attempts exercise_ids =
      calculate_completion_percent
        (length (distinct (map (λ (a : Attempt). a.exercise_id) attempts))) (length exercise_ids)

  -- The row that `recomputeTopicProgress` writes.
  unfoldable pub recomputed_topic :
      Option TopicProgress
      → (attempts : List Attempt) (exercise_ids : List ℕ) (now : ℕ) → TopicProgress
  recomputed_topic none attempts exercise_ids now = record {
    status = Status.learning;
    completion_percent = topic_percent attempts exercise_ids;
    time_spent_seconds = total_duration attempts;
    started_at = some now;
    completed_at = none;
    last_activity_at = some now;
  }
  recomputed_topic (some row) attempts exercise_ids now = record {
    status = kept_status (is_done row.status);
    completion_percent = if is_done row.status then 100 else topic_percent attempts exercise_ids;
    time_spent_seconds = total_duration attempts;
    started_at = or_now row.started_at now;
    completed_at = row.completed_at;
    last_activity_at = some now;
  }

  -- `recomputeTopicProgress`
  unfoldable pub recompute_topic_progress :
      Db store → (user_id : ℕ) → Graph → (topic_id now : ℕ) → Db store
  unfolding recomputed_topic
  recompute_topic_progress db user_id graph topic_id now =
      let exercise_ids = map (λ (e : Exercise). e.id) (topic_exercises graph topic_id) in
      let attempts = submitted_attempts store db user_id exercise_ids in
      let existing = store.topic_progresses.find_unique db.topic_progresses user_id topic_id in
      record db {
        topic_progresses =
            store.topic_progresses.upsert db.topic_progresses user_id topic_id
              (recomputed_topic existing attempts exercise_ids now);
      }

  -- The pointer of `recomputeLessonProgress`.
  unfoldable pub lesson_pointer :
      Db store → (user_id : ℕ) → Graph → (lesson_completed : Bool) → Pointer
  lesson_pointer db user_id graph lesson_completed =
      select_next_activity (ordered_topics graph) (standalone_exercises graph)
        (completed_topic_ids store db user_id graph) (attempted_exercise_ids store db user_id graph)
        lesson_completed

  -- The units of a lesson that are completed: topics, and attempted exercises without a topic.
  unfoldable pub completed_units : Db store → (user_id : ℕ) → Graph → ℕ
  completed_units db user_id graph =
      length (completed_topic_ids store db user_id graph)
      + length (
          filter
            (λ (e : OrderedExercise). contains (attempted_exercise_ids store db user_id graph) e.id)
            (standalone_exercises graph))

  -- The row that `recomputeLessonProgress` writes over `existing`.
  unfoldable pub recomputed_lesson :
      Db store → (user_id : ℕ) → Graph → (existing : LessonProgress) (now : ℕ) → LessonProgress
  unfolding lesson_pointer completed_units
  recomputed_lesson db user_id graph existing now =
      let done = is_done existing.status in
      let attempts = facts_attempts store db user_id graph in
      let pointer = lesson_pointer db user_id graph done in
      record existing {
        status = kept_status done;
        completion_percent =
            if done
            then 100
            else calculate_completion_percent (completed_units db user_id graph)
                (length graph.topics + length (standalone_exercises graph));
        score = calculate_lesson_score (map scored attempts);
        time_spent_seconds = total_duration attempts;
        current_topic_id = pointer.current_topic_id;
        current_exercise_id = pointer.current_exercise_id;
        last_activity_at = some now;
      }

  -- `recomputeLessonProgress`
  unfoldable pub recompute_lesson_progress :
      Db store → (user_id : ℕ) → Graph → (now : ℕ) → Result (Db store)
  unfolding recomputed_lesson require_started_lesson_progress
  recompute_lesson_progress db user_id graph now = do
    existing ← require_started_lesson_progress store db user_id graph.id
    ok (record db {
      progresses =
          store.progresses.upsert db.progresses user_id graph.id
            (recomputed_lesson db user_id graph existing now);
    })

  -- An item of a lesson in an active plan of the user.
  abbrev is_active_item : (user_id lesson_id : ℕ) → PlanItem → Bool
  is_active_item user_id lesson_id item =
      item.lesson_id == lesson_id && item.user_id == user_id && item.plan_is_active

  abbrev is_planned : PlanItemStatus → Bool
  is_planned planned = true
  is_planned _ = false

  abbrev is_open : PlanItemStatus → Bool
  is_open planned = true
  is_open in_progress = true
  is_open _ = false

  -- `startActivePlanItems`
  unfoldable pub start_active_plan_items : Db store → (user_id lesson_id now : ℕ) → Db store
  start_active_plan_items db user_id lesson_id now = record db {
    plan_items =
        store.plan_items.update_many db.plan_items
          (λ item. is_active_item user_id lesson_id item && is_planned item.status)
          (λ item. record item { status = in_progress; started_at = some now });
  }

  -- `completeActivePlanItems`
  unfoldable pub complete_active_plan_items : Db store → (user_id lesson_id now : ℕ) → Db store
  complete_active_plan_items db user_id lesson_id now = record db {
    plan_items =
        store.plan_items.update_many db.plan_items
          (λ item. is_active_item user_id lesson_id item && is_open item.status)
          (λ item. record item { status = completed; completed_at = some now });
  }
