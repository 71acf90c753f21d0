-- ===== src/Activity/Tests/Gates.antt =====
-- Completions and next activities, on a learner's way through one lesson.
use hsk_3_0_app.Base.{◌≡◌, refl, true, none, some, List, [], ◌∷◌, ◌↔◌, contains, false, filter, ◌<◌}
use hsk_3_0_app.Path.{Status}
use hsk_3_0_app.Activity.{ok, Exercise, Topic, Graph, OrderedTopic, Attempt, OrderedExercise}
use hsk_3_0_app.Activity.Store.{Db}
use hsk_3_0_app.Activity.Service.{Reply, attempt_reply, event_reply, lesson, topic}
use hsk_3_0_app.Activity.Progress.{NextAction, get_score, best_scores, select_next_activity}
use hsk_3_0_app.Activity.Views.{lesson_view}
use hsk_3_0_app.Activity.Pointers.{
  select_next_activity-complete_lesson, select_next_activity-unattempted,
}
use hsk_3_0_app.Activity.Offers.{complete_lesson-accepts}
use hsk_3_0_app.Activity.History.{run, submits}
use hsk_3_0_app.Activity.Service.Submit.{create_attempt}
use hsk_3_0_app.Activity.Attempts.{is_of, submit_attempt-above}
use hsk_3_0_app.Activity.Scores.{best_of, best_scores-best_of}
use hsk_3_0_app.Activity.Memory.{memory}
use hsk_3_0_app.Base.Lists.{All}
use hsk_3_0_app.Activity.Service.Reads.{
  require_public_lesson, topic_exercises, standalone_exercises, require_public_topic,
}
use hsk_3_0_app.Activity.Evolves.{lesson_columns, topic_columns, Done}
use hsk_3_0_app.Activity.Effects.{lesson_row, topic_row}
use hsk_3_0_app.Activity.Submitted.{HasSubmitted}
use hsk_3_0_app.Activity.Gates.{complete_topic-HasSubmitted, complete_lesson-HasSubmitted}
use hsk_3_0_app.Activity.Service.Completes.{complete_lesson}
use hsk_3_0_app.Activity.Tests.{
  act, sent, exercise_of, one_lesson, content, grading, asked, answered, topic_over, all_answered,
  over, runs,
}

complete_topic-HasSubmitted_example :
    (graph : Graph) × (found : Topic) × (require_public_topic content 10 ≡ ok (graph, found))
    × All (λ (e : Exercise). HasSubmitted memory answered 7 e.id) (topic_exercises graph 10)
    × Done topic_columns (topic_row memory topic_over 7 10)
unfolding runs
complete_topic-HasSubmitted_example =
    complete_topic-HasSubmitted memory content answered (asked "key-00004" 4000) none 10 "key-00004"
      (topic_over, event_reply (topic 10) Status.done 4 4000) refl refl refl

complete_lesson-HasSubmitted_example :
    (graph : Graph) × (require_public_lesson content 1 ≡ ok graph)
    × All (λ (t : Topic). Done topic_columns (topic_row memory all_answered 7 t.id)) graph.topics
    × All
        (λ (e : OrderedExercise). HasSubmitted memory all_answered 7 e.id)
        (standalone_exercises graph)
    × Done lesson_columns (lesson_row memory over 7 1)
unfolding runs
complete_lesson-HasSubmitted_example =
    complete_lesson-HasSubmitted memory content all_answered (asked "key-00006" 6000) none 1
      "key-00006" (over, event_reply (lesson 1) Status.done 6 6000) refl refl refl

complete_lesson-accepts_example :
    (out : Db memory × Reply) × (complete_lesson memory content all_answered
        (asked "key-00006" 6000)
        none
        1
      ≡ ok out)
unfolding runs
complete_lesson-accepts_example =
    complete_lesson-accepts memory content all_answered grading (asked "key-00006" 6000) 1
      "key-00006" (lesson_view memory content grading all_answered 7 1 one_lesson)
      (record {
        status = Status.learning;
        score = some 100;
        completion_percent = 100;
        current_topic_id = none;
        current_exercise_id = none;
        time_spent_seconds = 60;
        started_at = some 1000;
        completed_at = none;
        last_activity_at = some 5000;
      })
      refl refl refl refl refl refl refl

-- A topic with exercise 100, and exercise 101 without a topic.
abbrev outline : List OrderedTopic
outline =
    record { id = 10; order_index = 1; exercises = record { id = 100; order_index = 1 } ∷ [] } ∷ []

abbrev loose : List OrderedExercise
loose = record { id = 101; order_index = 1 } ∷ []

select_next_activity-complete_lesson_example :
    ((select_next_activity outline loose (10 ∷ []) (100 ∷ 101 ∷ []) false).next_action
      ≡ NextAction.complete_lesson)
    ↔ (true ≡ true)
unfolding runs
select_next_activity-complete_lesson_example =
    select_next_activity-complete_lesson outline loose (10 ∷ []) (100 ∷ 101 ∷ [])

select_next_activity-unattempted_example : contains (100 ∷ []) 101 ≡ false
unfolding runs
select_next_activity-unattempted_example =
    select_next_activity-unattempted outline loose (10 ∷ []) (100 ∷ []) false 101 refl

-- A second attempt at exercise 100.
abbrev twice : Db memory
twice = run memory grading answered (act "key-00033" 3500 (submits 100 sent) ∷ [])

abbrev second_made : Attempt
second_made =
    (create_attempt memory content grading answered 7 one_lesson (exercise_of 100 (some 10)) sent
      (record { score = 100; is_correct = true }) "hash" "key-00033" 3500).1

submit_attempt-above_example :
    (made : Attempt) × (attempt_reply second_made ≡ attempt_reply made)
    × (memory.attempts.all twice.attempts ≡ made ∷ memory.attempts.all answered.attempts)
    × (made.user_id ≡ 7)
    × (made.exercise_id ≡ 100)
    × (made.submitted_at ≡ some 3500)
    × All
        (λ (a : Attempt). a.attempt_number < made.attempt_number)
        (filter (is_of 7 100) (memory.attempts.all answered.attempts))
unfolding runs
submit_attempt-above_example =
    submit_attempt-above memory content grading answered (asked "key-00033" 3500) none 100 sent
      "key-00033" (twice, attempt_reply second_made) refl refl refl

best_scores-best_of_example :
    get_score
      (best_scores [] (
        record { exercise_id = 4; score = some 60 }
        ∷ record { exercise_id = 4; score = some 90 }
        ∷ record { exercise_id = 4; score = none }
        ∷ []))
      4
    ≡ some 90
unfolding runs best_of
best_scores-best_of_example =
    best_scores-best_of
      (record { exercise_id = 4; score = some 60 }
        ∷ record { exercise_id = 4; score = some 90 }
        ∷ record { exercise_id = 4; score = none }
        ∷ [])
      4
