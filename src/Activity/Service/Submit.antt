-- ===== src/Activity/Service/Submit.antt =====
-- `submitAttempt` of lesson-activity.service.ts.
use text.Mathlib.Text.{◌==◌ as str_eq}
use hsk_3_0_app.Base.{
  ℕ, ◌+◌, Bool, false, ◌&&◌, Option, none, some, List, [], ◌∷◌, String, max, ◌==◌, if◌then◌else◌,
  find, is_some,
}
use hsk_3_0_app.Activity.{
  Result, ok, ◌>>=◌, ◌>>◌, require, require_some, Graph, Exercise, Json, Attempt, AttemptValues,
  EventValues, StoredEvent, exercise_submitted, key_reused, activity_incomplete,
}
use hsk_3_0_app.Activity.Faults.{Thrown, parse_idempotency_key}
use hsk_3_0_app.Activity.Store.{Store, Db, Content, Grading, Score}
use hsk_3_0_app.Activity.Service.{
  Request, exercise, Reply, attempt_reply, Outcome, write, assert_event,
}
use hsk_3_0_app.Activity.Service.Reads.{
  find_event, require_public_exercise, require_started_lesson_progress,
}
use hsk_3_0_app.Activity.Service.Recompute.{recompute_topic_progress, recompute_lesson_progress}

-- `SubmitLessonExerciseAttemptDto`
pub record Submission : Type 0 where
  pub answer : Json
  pub duration_seconds : Option ℕ

-- `LESSON_ACTIVITY_SCORING_VERSION`
abbrev pub scoring_version : String
scoring_version = "lesson-activity-v1"

-- `_max: { attemptNumber: true }` over a user's attempts at an exercise, 0 if there is none.
unfoldable pub max_attempt_number : List Attempt → (user_id exercise_id : ℕ) → ℕ
max_attempt_number [] user_id exercise_id = 0
max_attempt_number (a ∷ attempts) user_id exercise_id =
    let rest = max_attempt_number attempts user_id exercise_id in
    if (a.user_id == user_id) && (a.exercise_id == exercise_id)
    then max a.attempt_number rest
    else rest

module _ (store : Store) (content : Content) (grading : Grading) where
  -- The row that is created.
  unfoldable pub attempt_values :
      Db store
      → (user_id : ℕ) → Graph
      → Exercise
      → Submission
      → Score
      → (request_hash key : String) → (now : ℕ) → AttemptValues
  attempt_values db user_id graph found submission score request_hash key now = record {
    user_id = user_id;
    exercise_id = found.id;
    attempt_number = max_attempt_number (store.attempts.all db.attempts) user_id found.id + 1;
    answer = submission.answer;
    content_snapshot = record {
      exercise = found;
      lesson_id = graph.id;
      media = grading.project_public_exercise_media found.kind found.media;
      scoring_version = scoring_version;
    };
    exercise_version = found.version;
    is_correct = some score.is_correct;
    score = some score.score;
    duration_seconds = submission.duration_seconds;
    request_hash = some request_hash;
    feedback_version = some scoring_version;
    idempotency_key = some key;
    submitted_at = some now;
  }

  -- `if (exercise.topicId !== null) await this.recomputeTopicProgress(…)`
  unfoldable pub recompute_topic_of :
      Db store → (user_id : ℕ) → Graph → Exercise → (now : ℕ) → Db store
  recompute_topic_of db user_id graph found now = elim found.topic_id [
    | none ↦ db
    | some topic_id ↦ recompute_topic_progress store db user_id graph topic_id now
  ]

  -- The learning event of an attempt.
  abbrev pub attempt_event : Graph → Exercise → Attempt → (now : ℕ) → EventValues
  attempt_event graph found attempt now = record {
    kind = exercise_submitted;
    lesson_id = some graph.id;
    topic_id = found.topic_id;
    exercise_id = some found.id;
    attempt_id = some attempt.id;
    occurred_at = now;
  }

  -- The end of `submitAttempt`: the event is created, and the attempt is the answer.
  unfoldable pub finish_attempt :
      Db store → (user_id : ℕ) (key : String) → EventValues → Attempt → Db store × Reply
  finish_attempt db user_id key values attempt = (
    record db { events = (store.events.create db.events user_id key values).0 },
    attempt_reply attempt,
  )

  -- `lessonExerciseAttempt.create` of `submitAttempt`.
  unfoldable pub create_attempt :
      Db store
      → (user_id : ℕ) → Graph
      → Exercise
      → Submission
      → Score
      → (request_hash key : String) → (now : ℕ) → store.attempts.Rows × Attempt
  create_attempt db user_id graph found submission score request_hash key now =
      store.attempts.create db.attempts
        (attempt_values db user_id graph found submission score request_hash key now)

  -- `submitAttempt` under a key that has no event.
  unfoldable pub submit_afresh :
      Db store
      → (user_id : ℕ) (key request_hash : String) (now : ℕ) → Submission
      → Graph
      → Exercise
      → Outcome store
  submit_afresh db user_id key request_hash now submission graph found = do
    progress ← require_started_lesson_progress store db user_id graph.id
    score ← grading.score_lesson_exercise found submission.answer
    let made = create_attempt db user_id graph found submission score request_hash key now
    let placed = record db { attempts = made.0 }
    recomputed ←
        recompute_lesson_progress store (recompute_topic_of placed user_id graph found now) user_id
          graph now
    ok (finish_attempt recomputed user_id key (attempt_event graph found made.1 now) made.1)

  abbrev pub hash_is : Option String → String → Bool
  hash_is none hash = false
  hash_is (some h) hash = str_eq h hash

  -- `findFirst({ where: { id, userId, submittedAt: { not: null } } })`
  abbrev pub is_own_submitted : (attempt_id user_id : ℕ) → Attempt → Bool
  is_own_submitted attempt_id user_id a =
      a.id == attempt_id && a.user_id == user_id && is_some a.submitted_at

  -- `requireReplayAttempt`
  unfoldable pub require_replay_attempt :
      Db store → (user_id : ℕ) → StoredEvent → (request_hash : String) → Result Attempt
  require_replay_attempt db user_id event request_hash = do
    attempt_id ← require_some event.attempt_id activity_incomplete
    attempt ←
        require_some (find (is_own_submitted attempt_id user_id) (store.attempts.all db.attempts))
          key_reused
    require (hash_is attempt.request_hash request_hash) key_reused
    ok attempt

  -- The callback of `submitAttempt`.
  unfoldable pub submit_body :
      Db store
      → (user_id checked_at now exercise_id : ℕ) (key request_hash : String) → Submission
      → Outcome store
  submit_body db user_id checked_at now exercise_id key request_hash submission = do
    replay ← find_event store db user_id checked_at key
    elim replay [
      | some event ↦ do
        assert_event event exercise_submitted (exercise exercise_id)
        attempt ← require_replay_attempt db user_id event request_hash
        ok (db, attempt_reply attempt)
      | none ↦ do
        found ← require_public_exercise content exercise_id
        submit_afresh db user_id key request_hash now submission found.0 found.1
    ]

  unfoldable pub submit_attempt :
      Db store → Request → Option Thrown → (exercise_id : ℕ) → Submission → Outcome store
  submit_attempt db request fault exercise_id submission = do
    key ← parse_idempotency_key request.raw_key
    request_hash ←
        grading.build_activity_request_hash exercise_id submission.answer
          submission.duration_seconds
    write content request fault (
        submit_body db request.user_id request.checked_at request.now exercise_id key request_hash
          submission)
