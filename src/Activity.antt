-- ===== src/Activity.antt =====
-- The learner's activity on a lesson, backend/src/modules/learning/activity/: the rows that the
-- service reads and writes (backend/prisma/schema.prisma), its replies and its errors. Dates are
-- milliseconds.
pub mod Double
pub mod Progress
pub mod Store
pub mod Faults
pub mod Service
pub mod Evolves
pub mod Rows
pub mod Results
pub mod Effects
pub mod Inversion
pub mod History
pub mod Kept
pub mod Pointers
pub mod Attempts
pub mod Scores
pub mod Views
pub mod Offers
pub mod Memory
mod Tests
pub mod Replays
pub mod Gates
pub mod Submitted
pub mod Distinct
pub mod Graded
use hsk_3_0_app.Base.{ℕ, Bool, true, false, Option, List, String}
use hsk_3_0_app.Path.{Status}

-- `{ id, orderIndex }`
pub record OrderedExercise : Type 0 where
  pub id : ℕ
  pub order_index : ℕ

-- `{ id, orderIndex, exercises }`
pub record OrderedTopic : Type 0 where
  pub id : ℕ
  pub order_index : ℕ
  pub exercises : List OrderedExercise

-- `ExerciseType`
pub data ExerciseType : Type 0 where
  mcq fill_blank listening_choice arrange_sentence speaking_repeat : ExerciseType

-- JSON values. A number stands as its text.
mutual
  pub data Json : Type 0 where
    null : Json
    bool : Bool → Json
    num : String → Json
    str : String → Json
    arr : Items → Json
    obj : Fields → Json

  pub data Items : Type 0 where
    nil : Items
    item : Json → Items → Items

  pub data Fields : Type 0 where
    end : Fields
    field : String → Json → Fields → Fields

-- An exercise of `PUBLIC_LESSON_GRAPH_SELECT`.
pub record Exercise : Type 0 where
  pub id : ℕ
  pub topic_id : Option ℕ
  pub kind : ExerciseType
  pub prompt : String
  pub content : Json
  pub answer : Json
  pub explanation : Option String
  pub version : ℕ
  pub order_index : ℕ
  pub media : Json

-- A topic of `PUBLIC_LESSON_GRAPH_SELECT`, as far as the writes read it.
pub record Topic : Type 0 where
  pub id : ℕ
  pub order_index : ℕ

-- `PublicLessonGraph`, as far as the writes read it.
pub record Graph : Type 0 where
  pub id : ℕ
  pub level_id : ℕ
  pub order_index : ℕ
  pub topics : List Topic
  pub exercises : List Exercise

-- A row of `Progress`, under its user and lesson.
pub record LessonProgress : Type 0 where
  pub status : Status
  pub score : Option ℕ
  pub completion_percent : ℕ
  pub current_topic_id : Option ℕ
  pub current_exercise_id : Option ℕ
  pub time_spent_seconds : ℕ
  pub started_at : Option ℕ
  pub completed_at : Option ℕ
  pub last_activity_at : Option ℕ

-- A row of `UserTopicProgress`, under its user and topic.
pub record TopicProgress : Type 0 where
  pub status : Status
  pub completion_percent : ℕ
  pub time_spent_seconds : ℕ
  pub started_at : Option ℕ
  pub completed_at : Option ℕ
  pub last_activity_at : Option ℕ

-- `contentSnapshot`
pub record Snapshot : Type 0 where
  pub exercise : Exercise
  pub lesson_id : ℕ
  pub media : Json
  pub scoring_version : String

-- What the service writes of a row of `LessonExerciseAttempt`.
pub record AttemptValues : Type 0 where
  pub user_id : ℕ
  pub exercise_id : ℕ
  pub attempt_number : ℕ
  pub answer : Json
  pub content_snapshot : Snapshot
  pub exercise_version : ℕ
  pub is_correct : Option Bool
  pub score : Option ℕ
  pub duration_seconds : Option ℕ
  pub request_hash : Option String
  pub feedback_version : Option String
  pub idempotency_key : Option String
  pub submitted_at : Option ℕ

-- A row of `LessonExerciseAttempt`.
pub record Attempt : Type 0 where
  pub id : ℕ
  pub values : AttemptValues
  pub open values use *

-- `LearningEventType`
pub data EventType : Type 0 where
  lesson_started lesson_completed topic_started topic_completed exercise_submitted word_saved :
      EventType

-- What the service writes of a row of `LearningEvent`.
pub record EventValues : Type 0 where
  pub kind : EventType
  pub lesson_id : Option ℕ
  pub topic_id : Option ℕ
  pub exercise_id : Option ℕ
  pub attempt_id : Option ℕ
  pub occurred_at : ℕ

-- `StoredEvent`
pub record StoredEvent : Type 0 where
  pub id : ℕ
  pub created_at : ℕ
  pub values : EventValues
  pub open values use *

-- `LearningPlanItemStatus`
pub data PlanItemStatus : Type 0 where
  planned in_progress completed skipped : PlanItemStatus

-- A row of `LearningPlanItem`, with its plan's user and whether the plan is active.
pub record PlanItem : Type 0 where
  pub id : ℕ
  pub user_id : ℕ
  pub plan_is_active : Bool
  pub lesson_id : ℕ
  pub status : PlanItemStatus
  pub started_at : Option ℕ
  pub completed_at : Option ℕ

-- The exceptions that a write throws, one for each message.
pub data ActivityError : Type 0 where
  invalid_key key_expired : ActivityError
  account_not_available : ActivityError
  lesson_not_ready topic_not_found topic_not_public progress_not_found : ActivityError
  exercise_not_found exercise_not_public exercise_topic_not_public : ActivityError
  lesson_already_started lesson_locked lesson_not_started lesson_already_completed : ActivityError
  topic_already_started topic_not_started topic_already_completed : ActivityError
  topic_exercises_missing topics_missing standalone_missing : ActivityError
  key_reused activity_incomplete : ActivityError
  unsupported_exercise invalid_authoring invalid_answer : ActivityError
  unique_conflict retry_write write_timeout storage_unavailable not_persisted : ActivityError

pub data Result {ℓ} (A : Type ℓ) : Type ℓ where
  ok : A → Result A
  err : ActivityError → Result A

-- A statement after one that may throw; the second form drops the first one's value.
infixl 5 ◌>>=◌
infixl 5 ◌>>◌
abbrev pub ◌>>=◌ {ℓ κ} :
    {Before : Type ℓ} {After : Type κ} → Result Before → (Before → Result After) → Result After
err error >>= next = err error
ok value >>= next = next value

abbrev pub ◌>>◌ {ℓ} : {After : Type ℓ} → Result (Unit {0}) → Result After → Result After
check >> next = check >>= λ passed. next

-- `if (!test) throw error`
abbrev pub require : Bool → ActivityError → Result (Unit {0})
require test error = elim test [ true ↦ ok tt | false ↦ err error ]

-- `if (value === null) throw error`
abbrev pub require_some {ℓ} : {A : Type ℓ} → Option A → ActivityError → Result A
require_some o error = elim o [ Option.some a ↦ ok a | Option.none ↦ err error ]
