-- ===== src/Activity/Progress.antt =====
-- lesson-activity-progress.ts: percentages, scores and the next activity.
use hsk_3_0_app.Base.{
  ℕ, ◌+◌, ◌≡◌, refl, Bool, not, Option, none, some, List, [], ◌∷◌, compare, Ordering, ltb, min, max,
  ◌==◌, if◌then◌else◌, length, find, contains,
}
use hsk_3_0_app.Base.Sort.{sort, ◌or_else◌}
use hsk_3_0_app.Activity.{OrderedExercise, OrderedTopic}
use hsk_3_0_app.Activity.Double.{divide, scale, math_round}

-- `NextActivityAction`
pub data NextAction : Type 0 where
  start_topic submit_exercise complete_topic complete_lesson completed : NextAction

-- `NextActivityPointer`
pub record Pointer : Type 0 where
  pub current_topic_id : Option ℕ
  pub current_exercise_id : Option ℕ
  pub next_action : NextAction

unfoldable pub calculate_completion_percent : (completed_units total_units : ℕ) → ℕ
unfolding divide scale math_round
calculate_completion_percent completed_units total_units =
    if total_units == 0
    then 0
    else max 0 (min 100 (math_round (scale (divide completed_units total_units) 100)))

-- `{ exerciseId, score }`
pub record ScoredAttempt : Type 0 where
  pub exercise_id : ℕ
  pub score : Option ℕ

-- `bestScores.get`
unfoldable pub get_score : List (ℕ × ℕ) → ℕ → Option ℕ
get_score [] id = none
get_score ((j, s) ∷ rest) id = if j == id then some s else get_score rest id

-- `bestScores.set`: a map keeps the place of a key that it holds.
unfoldable pub set_score : List (ℕ × ℕ) → ℕ → ℕ → List (ℕ × ℕ)
set_score [] id score = (id, score) ∷ []
set_score ((j, s) ∷ rest) id score =
    let kept = (j, s) ∷ set_score rest id score in if j == id then (id, score) ∷ rest else kept

-- One round of the loop of `calculateLessonScore`.
unfoldable pub consider_attempt : List (ℕ × ℕ) → ScoredAttempt → List (ℕ × ℕ)
unfolding get_score set_score
consider_attempt best attempt = elim attempt.score [
  | none ↦ best
  | some score ↦ elim (get_score best attempt.exercise_id) [
    | none ↦ set_score best attempt.exercise_id score
    | some found ↦ if ltb found score then set_score best attempt.exercise_id score else best
  ]
]

unfoldable pub best_scores : List (ℕ × ℕ) → List ScoredAttempt → List (ℕ × ℕ)
unfolding consider_attempt
best_scores best [] = best
best_scores best (attempt ∷ attempts) = best_scores (consider_attempt best attempt) attempts

abbrev pub sum_scores : List (ℕ × ℕ) → ℕ
sum_scores [] = 0
sum_scores ((_, s) ∷ rest) = s + sum_scores rest

unfoldable pub calculate_lesson_score : List ScoredAttempt → Option ℕ
unfolding best_scores divide math_round
calculate_lesson_score attempts =
    let best = best_scores [] attempts in
    if length best == 0 then none else some (math_round (divide (sum_scores best) (length best)))

abbrev pub compare_exercises : OrderedExercise → OrderedExercise → Ordering
compare_exercises left right =
    compare left.order_index right.order_index or_else compare left.id right.id

abbrev pub compare_topics : OrderedTopic → OrderedTopic → Ordering
compare_topics left right =
    compare left.order_index right.order_index or_else compare left.id right.id

-- The first exercise in order that has not been attempted.
abbrev pub next_exercise : List OrderedExercise → List ℕ → Option OrderedExercise
next_exercise exercises attempted_exercise_ids =
    find (λ exercise. not (contains attempted_exercise_ids exercise.id))
      (sort compare_exercises exercises)

-- The end of `selectNextActivity`: the exercises without a topic.
unfoldable pub next_standalone : List OrderedExercise → List ℕ → Pointer
next_standalone standalone_exercises attempted_exercise_ids =
    elim (next_exercise standalone_exercises attempted_exercise_ids) [
      | some exercise ↦ record {
        current_topic_id = none;
        current_exercise_id = some exercise.id;
        next_action = submit_exercise;
      }
      | none ↦ record {
        current_topic_id = none;
        current_exercise_id = none;
        next_action = complete_lesson;
      }
    ]

-- The body of the loop over the topics, for a topic that is not completed.
unfoldable pub next_in_topic : OrderedTopic → List ℕ → Pointer
next_in_topic topic attempted_exercise_ids =
    elim (next_exercise topic.exercises attempted_exercise_ids) [
      | some exercise ↦ record {
        current_topic_id = some topic.id;
        current_exercise_id = some exercise.id;
        next_action = submit_exercise;
      }
      | none ↦ record {
        current_topic_id = some topic.id;
        current_exercise_id = none;
        next_action = complete_topic;
      }
    ]

unfoldable pub next_in_topics :
    List OrderedTopic
    → (standalone_exercises : List OrderedExercise)
      (completed_topic_ids attempted_exercise_ids : List ℕ)
    → Pointer
unfolding next_standalone next_in_topic
next_in_topics [] standalone completed_ids attempted = next_standalone standalone attempted
next_in_topics (topic ∷ topics) standalone completed_ids attempted =
    let rest = next_in_topics topics standalone completed_ids attempted in
    if contains completed_ids topic.id then rest else next_in_topic topic attempted

unfoldable pub select_next_activity :
    (topics : List OrderedTopic) (standalone_exercises : List OrderedExercise)
    (completed_topic_ids attempted_exercise_ids : List ℕ) (lesson_completed : Bool)
    → Pointer
unfolding next_in_topics sort
select_next_activity topics standalone completed_ids attempted lesson_completed =
    if lesson_completed
    then record { current_topic_id = none; current_exercise_id = none; next_action = completed }
    else next_in_topics (sort compare_topics topics) standalone completed_ids attempted

-- 1 of 3 units is 33 percent, and 23 of 40 units are 57: the double product is just below 57.5.
percents :
    (calculate_completion_percent 1 3 ≡ 33)
    × (calculate_completion_percent 23 40 ≡ 57)
    × (calculate_completion_percent 3 3 ≡ 100)
unfolding calculate_completion_percent
percents = (refl, refl, refl)
