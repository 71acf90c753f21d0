-- ===== src/Activity/Views.antt =====
-- The endpoints of lesson-activity.service.ts that only read, and lesson-activity.serializer.ts. A
-- lesson's, a topic's and an exercise's texts are left out of the answers.
use hsk_3_0_app.Base.{
  ℕ, Bool, false, Option, none, some, List, [], ◌∷◌, map, String, compare, Ordering, ◌==◌, ◌&&◌,
  not, if◌then◌else◌, find, filter, any, is_nat, is_some,
}
use hsk_3_0_app.Base.Sort.{sort, ◌or_else◌}
use hsk_3_0_app.Path.{Status, not_started, is_done}
use hsk_3_0_app.Activity.{
  Result, ok, err, ◌>>=◌, ExerciseType, Json, Exercise, Topic, Graph, LessonProgress, TopicProgress,
  Attempt, exercise_not_found, progress_not_found,
}
use hsk_3_0_app.Activity.Store.{Store, Db, Content, Grading}
use hsk_3_0_app.Activity.Progress.{NextAction}
use hsk_3_0_app.Activity.Service.Reads.{require_public_lesson, facts_attempts}
use hsk_3_0_app.Activity.Service.Recompute.{lesson_pointer}

-- `LessonAttemptSummary`
pub record AttemptSummary : Type 0 where
  pub attempt_id : ℕ
  pub exercise_id : ℕ
  pub attempt_number : ℕ
  pub is_correct : Option Bool
  pub score : Option ℕ
  pub duration_seconds : Option ℕ
  pub exercise_version : ℕ
  pub feedback_version : Option String
  pub explanation : Option String
  pub media : Json
  pub submitted_at : Option ℕ

-- `emptyProgressSummary` and what it stands in for.
pub record Summary : Type 0 where
  pub status : Status
  pub completion_percent : ℕ
  pub time_spent_seconds : ℕ
  pub started_at : Option ℕ
  pub completed_at : Option ℕ
  pub last_activity_at : Option ℕ

abbrev pub empty_progress_summary : Summary
empty_progress_summary = record {
  status = not_started;
  completion_percent = 0;
  time_spent_seconds = 0;
  started_at = none;
  completed_at = none;
  last_activity_at = none;
}

-- `serializeProgress`: the summary and the score.
unfoldable pub serialize_progress : Option LessonProgress → Summary × Option ℕ
serialize_progress none = (empty_progress_summary, none)
serialize_progress (some row) = (
  record {
    status = row.status;
    completion_percent = row.completion_percent;
    time_spent_seconds = row.time_spent_seconds;
    started_at = row.started_at;
    completed_at = row.completed_at;
    last_activity_at = row.last_activity_at;
  },
  row.score,
)

-- `facts.topicProgresses.get(topic.id) ?? this.emptyProgressSummary()`
unfoldable pub topic_summary : Option TopicProgress → Summary
topic_summary none = empty_progress_summary
topic_summary (some row) = record {
  status = row.status;
  completion_percent = row.completion_percent;
  time_spent_seconds = row.time_spent_seconds;
  started_at = row.started_at;
  completed_at = row.completed_at;
  last_activity_at = row.last_activity_at;
}

-- `publicExercises`
pub record ShownExercise : Type 0 where
  pub id : ℕ
  pub topic_id : Option ℕ
  pub kind : ExerciseType
  pub prompt : String
  pub content : Json
  pub version : ℕ
  pub order_index : ℕ
  pub media : Json
  pub latest_attempt : Option AttemptSummary

pub record ShownTopic : Type 0 where
  pub topic : Topic
  pub progress : Summary
  pub exercises : List ShownExercise

-- `nextAction`
pub data ShownAction : Type 0 where
  start_lesson : ShownAction
  next : NextAction → ShownAction

-- `data` of `getLessonActivity`.
pub record LessonView : Type 0 where
  pub lesson_id : ℕ
  pub order_index : ℕ
  pub level_id : ℕ
  pub progress : Summary × Option ℕ
  pub topics : List ShownTopic
  pub standalone_exercises : List ShownExercise
  pub current_topic : Option Topic
  pub current_exercise : Option ShownExercise
  pub next_action : ShownAction

-- `[{ attemptNumber: 'asc' }, { id: 'asc' }]`
abbrev pub compare_attempts : Attempt → Attempt → Ordering
compare_attempts left right =
    compare left.attempt_number right.attempt_number or_else compare left.id right.id

-- `[{ attemptNumber: 'desc' }, { id: 'desc' }]`
abbrev pub compare_latest : Attempt → Attempt → Ordering
compare_latest left right =
    compare right.attempt_number left.attempt_number or_else compare right.id left.id

-- `latest.has`, on the summaries that `latest` holds.
abbrev has_summary : List AttemptSummary → ℕ → Bool
has_summary latest id = any (λ (s : AttemptSummary). s.exercise_id == id) latest

-- `latest.get(id) ?? null`
abbrev summary_of : List AttemptSummary → ℕ → Option AttemptSummary
summary_of latest id = find (λ (s : AttemptSummary). s.exercise_id == id) latest

-- `graph.topics.find((topic) => topic.id === pointer.currentTopicId)`
abbrev pointed : {A : Type 0} → (A → ℕ) → Option ℕ → List A → Option A
pointed id wanted xs = find (λ x. is_nat wanted (id x)) xs

-- `progress?.status === 'done'`
abbrev pub is_over : Option LessonProgress → Bool
is_over none = false
is_over (some row) = is_done row.status

abbrev pub shown_action : Option LessonProgress → NextAction → ShownAction
shown_action none action = start_lesson
shown_action (some row) action = next action

module _ (store : Store) (content : Content) (grading : Grading) where
  -- `serializeLessonAttempt`: a snapshot is always an object.
  unfoldable pub serialize_lesson_attempt : Attempt → AttemptSummary
  serialize_lesson_attempt attempt = record {
    attempt_id = attempt.id;
    exercise_id = attempt.exercise_id;
    attempt_number = attempt.attempt_number;
    is_correct = attempt.is_correct;
    score = attempt.score;
    duration_seconds = attempt.duration_seconds;
    exercise_version = attempt.exercise_version;
    feedback_version = attempt.feedback_version;
    explanation = attempt.content_snapshot.exercise.explanation;
    media =
        grading.project_public_exercise_media attempt.content_snapshot.exercise.kind
          attempt.content_snapshot.media;
    submitted_at = attempt.submitted_at;
  }

  -- The loop of `latestAttempts`.
  unfoldable pub keep_latest : List AttemptSummary → List Attempt → List AttemptSummary
  keep_latest latest [] = latest
  keep_latest latest (attempt ∷ attempts) =
      keep_latest
        (if has_summary latest attempt.exercise_id
          then latest
          else serialize_lesson_attempt attempt ∷ latest)
        attempts

  -- `latestAttempts`
  unfoldable pub latest_attempts : Db store → (user_id : ℕ) → Graph → List AttemptSummary
  unfolding keep_latest sort
  latest_attempts db user_id graph =
      keep_latest [] (sort compare_latest (facts_attempts store db user_id graph))

  -- `getAttempts`; `is_visible` is the query for a public exercise of a ready lesson.
  unfoldable pub get_attempts :
      Db store → (is_visible : ℕ → Bool) (user_id exercise_id : ℕ) → Result (List AttemptSummary)
  unfolding sort
  get_attempts db is_visible user_id exercise_id =
      let attempts = sort compare_attempts (
        filter
          (λ (a : Attempt).
            a.user_id == user_id && a.exercise_id == exercise_id && is_some a.submitted_at)
          (store.attempts.all db.attempts)) in
      elim attempts [
        | [] ↦ if is_visible exercise_id then ok [] else err exercise_not_found
        | a ∷ rest ↦ ok (map serialize_lesson_attempt (a ∷ rest))
      ]

  -- `getLessonProgress`, less the lesson's title and slug.
  unfoldable pub get_lesson_progress : Db store → (user_id lesson_id : ℕ) → Result LessonProgress
  get_lesson_progress db user_id lesson_id =
      elim (store.progresses.find_unique db.progresses user_id lesson_id) [
        | none ↦ err progress_not_found
        | some row ↦ ok row
      ]

  unfoldable pub show_exercise : List AttemptSummary → Exercise → ShownExercise
  show_exercise latest exercise = record {
    id = exercise.id;
    topic_id = exercise.topic_id;
    kind = exercise.kind;
    prompt = exercise.prompt;
    content = exercise.content;
    version = exercise.version;
    order_index = exercise.order_index;
    media = grading.project_public_exercise_media exercise.kind exercise.media;
    latest_attempt = summary_of latest exercise.id;
  }

  -- What `getLessonActivity` shows of a lesson that it finds.
  unfoldable pub lesson_view : Db store → (user_id lesson_id : ℕ) → Graph → LessonView
  unfolding latest_attempts show_exercise serialize_progress topic_summary
  lesson_view db user_id lesson_id graph =
      let progress = store.progresses.find_unique db.progresses user_id lesson_id in
      let pointer = lesson_pointer store db user_id graph (is_over progress) in
      let shown = map (show_exercise (latest_attempts db user_id graph)) graph.exercises in
      record {
        lesson_id = graph.id;
        order_index = graph.order_index;
        level_id = graph.level_id;
        progress = serialize_progress progress;
        topics =
            map
              (λ (t : Topic). record {
                topic = t;
                progress =
                    topic_summary
                      (store.topic_progresses.find_unique db.topic_progresses user_id t.id);
                exercises = filter (λ (e : ShownExercise). is_nat e.topic_id t.id) shown;
              })
              graph.topics;
        standalone_exercises = filter (λ (e : ShownExercise). not (is_some e.topic_id)) shown;
        current_topic = pointed (λ (t : Topic). t.id) pointer.current_topic_id graph.topics;
        current_exercise = pointed (λ (e : ShownExercise). e.id) pointer.current_exercise_id shown;
        next_action = shown_action progress pointer.next_action;
      }

  -- `getLessonActivity`
  unfoldable pub get_lesson_activity : Db store → (user_id lesson_id : ℕ) → Result LessonView
  unfolding lesson_view
  get_lesson_activity db user_id lesson_id = do
    graph ← require_public_lesson content lesson_id
    ok (lesson_view db user_id lesson_id graph)
