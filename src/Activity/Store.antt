-- ===== src/Activity/Store.antt =====
-- What the service relies on of its database client (Prisma over PostgreSQL, outside the
-- repository): for each table the calls that the service makes, and their documented behaviour.
-- A table with a unique key holds at most one row for a key, and a write is seen by later reads.
use hsk_3_0_app.Base.{
  ℕ, ◌≡◌, ◌≢◌, ◌↔◌, Bool, true, ◌&&◌, Option, some, List, ◌∷◌, map, String, ◌==◌, if◌then◌else◌,
  All,
}
use hsk_3_0_app.Activity.{
  LessonProgress, TopicProgress, AttemptValues, Attempt, EventValues, StoredEvent, PlanItem, Graph,
  Exercise, ExerciseType, Json, Result,
}

-- A table with the unique key (user, key): `findUnique`, and `create`, `update` or `upsert` of the
-- row of a key.
pub record Table (V : Type 0) : Type 1 where
  pub Rows : Type 0
  pub find_unique : Rows → (user key : ℕ) → Option V
  pub upsert : Rows → (user key : ℕ) → V → Rows
  pub find-upsert :
      (rows : Rows) (user key : ℕ) (row : V) (other j : ℕ)
      → find_unique (upsert rows user key row) other j
        ≡ (if (user == other) && (key == j) then some row else find_unique rows other j)

-- `LearningEvent`, with the unique key (user, idempotency key). The database numbers and dates a
-- new row.
pub record EventTable : Type 1 where
  pub Rows : Type 0
  pub same_key : String → String → Bool
  pub same_key_iff : (j k : String) → (same_key j k ≡ true) ↔ (j ≡ k)
  pub find_unique : Rows → (user : ℕ) (key : String) → Option StoredEvent
  pub create : Rows → (user : ℕ) (key : String) → EventValues → Rows × StoredEvent
  pub create-values :
      (rows : Rows) (user : ℕ) (key : String) (values : EventValues)
      → (create rows user key values).1.values ≡ values
  pub find-create :
      (rows : Rows) (user : ℕ) (key : String) (values : EventValues) (other : ℕ) (j : String)
      → find_unique (create rows user key values).0 other j ≡ (
          if (user == other) && same_key key j
          then some (create rows user key values).1
          else find_unique rows other j)

-- `LessonExerciseAttempt`: `all` is the content of the table, which the queries of the service
-- select from. The database numbers a new row.
pub record AttemptTable : Type 1 where
  pub Rows : Type 0
  pub all : Rows → List Attempt
  pub create : Rows → AttemptValues → Rows × Attempt
  pub create-values :
      (rows : Rows) (values : AttemptValues) → (create rows values).1.values ≡ values
  pub all-create :
      (rows : Rows) (values : AttemptValues)
      → all (create rows values).0 ≡ (create rows values).1 ∷ all rows
  pub create-fresh :
      (rows : Rows) (values : AttemptValues)
      → All (λ (a : Attempt). a.id ≢ (create rows values).1.id) (all rows)

-- `LearningPlanItem`: `updateMany`.
pub record PlanItemTable : Type 1 where
  pub Rows : Type 0
  pub all : Rows → List PlanItem
  pub update_many : Rows → (PlanItem → Bool) → (PlanItem → PlanItem) → Rows
  pub all-update_many :
      (rows : Rows) (test : PlanItem → Bool) (change : PlanItem → PlanItem)
      → all (update_many rows test change) ≡ map (λ i. if test i then change i else i) (all rows)

pub record Store : Type 1 where
  pub progresses : Table LessonProgress
  pub topic_progresses : Table TopicProgress
  pub attempts : AttemptTable
  pub events : EventTable
  pub plan_items : PlanItemTable

-- The state of the tables that the service writes.
pub record Db (store : Store) : Type 0 where
  pub progresses : store.progresses.Rows
  pub topic_progresses : store.topic_progresses.Rows
  pub attempts : store.attempts.Rows
  pub events : store.events.Rows
  pub plan_items : store.plan_items.Rows

-- A lesson that `buildLessonReadyWhere` admits.
pub record ReadyRow : Type 0 where
  pub id : ℕ
  pub level_id : ℕ
  pub order_index : ℕ

-- The tables that the service only reads: the account's state, and the published content.
pub record Content : Type 0 where
  -- `"User"` with this id, status 'active' and no `deletedAt`
  pub is_active : (user_id : ℕ) → Bool
  -- `lesson.findFirst` of a ready lesson by its id, with its public topics and exercises
  pub find_ready_lesson : (lesson_id : ℕ) → Option Graph
  -- the ready lessons
  pub ready_lessons : List ReadyRow
  -- the lesson of a topic, and of an exercise
  pub topic_lesson : (topic_id : ℕ) → Option ℕ
  pub exercise_lesson : (exercise_id : ℕ) → Option ℕ
  -- `where: { id }`
  pub find_ready_lesson-id :
      (lesson_id : ℕ) (graph : Graph)
      → find_ready_lesson lesson_id ≡ some graph
      → graph.id ≡ lesson_id

-- `LessonActivityScore`, without its version.
pub record Score : Type 0 where
  pub score : ℕ
  pub is_correct : Bool

-- The calls of the service into other files of the repository: the scorer, the hash of a request
-- and the projection of an exercise's media.
pub record Grading : Type 0 where
  pub score_lesson_exercise : Exercise → (submitted : Json) → Result Score
  pub build_activity_request_hash :
      (exercise_id : ℕ) (answer : Json) (duration_seconds : Option ℕ) → Result String
  pub project_public_exercise_media : ExerciseType → Json → Json
