-- ===== src/Activity/Service/Reads.antt =====
-- What the writes of lesson-activity.service.ts read and check before they write.
use hsk_3_0_app.Base.{
  ℕ, ◌+◌, Bool, false, not, ◌&&◌, ◌||◌, Option, none, some, List, [], ◌∷◌, map, String, compare,
  Ordering, ◌==◌, ltb, if◌then◌else◌, filter, find, any, contains, is_some, is_nat,
}
use hsk_3_0_app.Base.Sort.{sort, ◌or_else◌}
use hsk_3_0_app.Path.{Status, is_done, is_lesson_unlocked}
use hsk_3_0_app.Activity.{
  Result, ok, err, ◌>>=◌, ◌>>◌, require, require_some, StoredEvent, Attempt, Exercise, Topic, Graph,
  OrderedExercise, OrderedTopic, LessonProgress, key_expired, lesson_not_ready, topic_not_found,
  topic_not_public, exercise_not_found, exercise_not_public, exercise_topic_not_public,
  lesson_not_started, lesson_locked,
}
use hsk_3_0_app.Activity.Faults.{is_idempotency_key_expired}
use hsk_3_0_app.Activity.Store.{Store, Db, Content, ReadyRow}
use hsk_3_0_app.Activity.Progress.{ScoredAttempt}

-- `orderedTopics`
abbrev pub ordered_exercise : Exercise → OrderedExercise
ordered_exercise exercise = record { id = exercise.id; order_index = exercise.order_index }

-- The exercises of a topic.
abbrev pub topic_exercises : Graph → ℕ → List Exercise
topic_exercises graph topic_id =
    filter (λ exercise. is_nat exercise.topic_id topic_id) graph.exercises

unfoldable pub ordered_topics : Graph → List OrderedTopic
ordered_topics graph =
    map
      (λ topic. record {
        id = topic.id;
        order_index = topic.order_index;
        exercises = map ordered_exercise (topic_exercises graph topic.id);
      })
      graph.topics

unfoldable pub standalone_exercises : Graph → List OrderedExercise
standalone_exercises graph =
    map ordered_exercise (filter (λ exercise. not (is_some exercise.topic_id)) graph.exercises)

-- `new Set(ids)`, as a list of its members.
unfoldable pub distinct : List ℕ → List ℕ
distinct [] = []
distinct (x ∷ xs) = let rest = distinct xs in if contains xs x then rest else x ∷ rest

-- `totalDuration`
unfoldable pub total_duration : List Attempt → ℕ
total_duration [] = 0
total_duration (attempt ∷ attempts) = elim attempt.duration_seconds [
  | none ↦ total_duration attempts
  | some seconds ↦ seconds + total_duration attempts
]

-- What `calculateLessonScore` reads of an attempt.
abbrev pub scored : Attempt → ScoredAttempt
scored attempt = record { exercise_id = attempt.exercise_id; score = attempt.score }

-- `previous`: the ready lesson of the level that stands before in the order, if there is one.
abbrev stands_before : Graph → ReadyRow → Bool
stands_before graph row =
    row.level_id == graph.level_id
    && (ltb row.order_index graph.order_index
        || row.order_index == graph.order_index && ltb row.id graph.id)

-- `orderBy: [{ orderIndex: 'desc' }, { id: 'desc' }]`
abbrev compare_descending : ReadyRow → ReadyRow → Ordering
compare_descending left right =
    compare right.order_index left.order_index or_else compare right.id left.id

abbrev first {ℓ} : {A : Type ℓ} → List A → Option A
first [] = none
first (x ∷ xs) = some x

unfoldable pub previous_ready_lesson : Content → Graph → Option ReadyRow
unfolding sort
previous_ready_lesson content graph =
    first (sort compare_descending (filter (stands_before graph) content.ready_lessons))

-- `requirePublicLesson`
abbrev pub require_public_lesson : Content → ℕ → Result Graph
require_public_lesson content lesson_id =
    require_some (content.find_ready_lesson lesson_id) lesson_not_ready

-- `requirePublicTopic`
unfoldable pub require_public_topic : Content → ℕ → Result (Graph × Topic)
require_public_topic content topic_id = do
  lesson_id ← require_some (content.topic_lesson topic_id) topic_not_found
  graph ← require_public_lesson content lesson_id
  topic ← require_some (find (λ topic. topic.id == topic_id) graph.topics) topic_not_public
  ok (graph, topic)

-- `exercise.topicId !== null && !graph.topics.some(…)`
abbrev has_hidden_topic : Graph → Exercise → Bool
has_hidden_topic graph exercise = elim exercise.topic_id [
  | none ↦ false
  | some topic_id ↦ not (any (λ topic. topic.id == topic_id) graph.topics)
]

-- `requirePublicExercise`
unfoldable pub require_public_exercise : Content → ℕ → Result (Graph × Exercise)
require_public_exercise content exercise_id = do
  lesson_id ← require_some (content.exercise_lesson exercise_id) exercise_not_found
  graph ← require_public_lesson content lesson_id
  exercise ←
      require_some (find (λ exercise. exercise.id == exercise_id) graph.exercises)
        exercise_not_public
  require (not (has_hidden_topic graph exercise)) exercise_topic_not_public
  ok (graph, exercise)

module _ (store : Store) where
  -- `findEvent`: an expired key is refused.
  unfoldable pub find_event :
      Db store → (user_id checked_at : ℕ) (key : String) → Result (Option StoredEvent)
  find_event db user_id checked_at key = elim (store.events.find_unique db.events user_id key) [
    | none ↦ ok none
    | some event ↦
        if is_idempotency_key_expired event.created_at checked_at
        then err key_expired
        else ok (some event)
  ]

  -- `requireStartedLessonProgress`
  unfoldable pub require_started_lesson_progress :
      Db store → (user_id lesson_id : ℕ) → Result LessonProgress
  require_started_lesson_progress db user_id lesson_id =
      elim (store.progresses.find_unique db.progresses user_id lesson_id) [
        | none ↦ err lesson_not_started
        | some progress ↦
            if is_some progress.started_at then ok progress else err lesson_not_started
      ]

  -- `previousProgress?.status ?? null`
  abbrev previous_status : Db store → ℕ → Option ReadyRow → Option Status
  previous_status db user_id none = none
  previous_status db user_id (some previous) =
      elim (store.progresses.find_unique db.progresses user_id previous.id) [
        | none ↦ none
        | some progress ↦ some progress.status
      ]

  -- `assertLessonUnlocked`
  unfoldable pub assert_lesson_unlocked :
      Db store → Content → (user_id : ℕ) → Graph → (has_progress : Bool) → Result (Unit {0})
  unfolding previous_ready_lesson is_lesson_unlocked
  assert_lesson_unlocked db content user_id graph has_progress =
      let previous = previous_ready_lesson content graph in
      if has_progress
      then ok tt
      else require
          (is_lesson_unlocked (not (is_some previous)) (previous_status db user_id previous)
            has_progress)
          lesson_locked

  -- The submitted attempts of a user at the given exercises.
  unfoldable pub submitted_attempts :
      Db store → (user_id : ℕ) → (exercise_ids : List ℕ) → List Attempt
  submitted_attempts db user_id exercise_ids =
      filter
        (λ attempt.
          attempt.user_id == user_id
          && contains exercise_ids attempt.exercise_id
          && is_some attempt.submitted_at)
        (store.attempts.all db.attempts)

  -- `facts.attempts`
  abbrev pub facts_attempts : Db store → ℕ → Graph → List Attempt
  facts_attempts db user_id graph =
      submitted_attempts db user_id (map (λ (e : Exercise). e.id) graph.exercises)

  -- `facts.attemptedExerciseIds`
  abbrev pub attempted_exercise_ids : Db store → ℕ → Graph → List ℕ
  attempted_exercise_ids db user_id graph =
      map (λ (a : Attempt). a.exercise_id) (facts_attempts db user_id graph)

  -- `facts.topicProgresses.get(id)?.status === 'done'`
  abbrev pub topic_is_done : Db store → (user_id topic_id : ℕ) → Bool
  topic_is_done db user_id topic_id =
      elim (store.topic_progresses.find_unique db.topic_progresses user_id topic_id) [
        | none ↦ false
        | some progress ↦ is_done progress.status
      ]

  -- `completedTopicIds`: the ids of a lesson's topics are distinct.
  abbrev pub completed_topic_ids : Db store → ℕ → Graph → List ℕ
  completed_topic_ids db user_id graph =
      filter (topic_is_done db user_id) (map (λ (t : Topic). t.id) graph.topics)
