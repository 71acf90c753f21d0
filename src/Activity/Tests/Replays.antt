-- ===== src/Activity/Tests/Replays.antt =====
-- Requests that are sent again, on a learner's way through one lesson.
use hsk_3_0_app.Base.{◌≡◌, refl, true, none, some}
use hsk_3_0_app.Path.{Status}
use hsk_3_0_app.Activity.{
  ok, Attempt, lesson_started, topic_started, topic_completed, lesson_completed,
}
use hsk_3_0_app.Activity.Memory.{memory, empty}
use hsk_3_0_app.Activity.Replays.{IsFresh, IsFresh-at}
use hsk_3_0_app.Activity.Replays.Starts.{start_lesson-replays, start_topic-replays}
use hsk_3_0_app.Activity.Replays.Completes.{complete_topic-replays, complete_lesson-replays}
use hsk_3_0_app.Activity.Replays.Submits.{submit_attempt-replays}
use hsk_3_0_app.Activity.Service.{event_reply, attempt_reply, lesson, topic, target_event}
use hsk_3_0_app.Activity.Service.Submit.{attempt_event, create_attempt, submit_attempt}
use hsk_3_0_app.Activity.Service.Starts.{start_lesson, start_topic}
use hsk_3_0_app.Activity.Service.Completes.{complete_topic, complete_lesson}
use hsk_3_0_app.Activity.Tests.{
  exercise_of, one_lesson, content, grading, asked, sent, started, topic_begun, answered,
  topic_over, all_answered, over, runs,
}

start_lesson-IsFresh : IsFresh memory started (asked "key-00001" 1000) 9000
unfolding runs
start_lesson-IsFresh =
    IsFresh-at memory started (asked "key-00001" 1000) 9000 "key-00001"
      (record { id = 1; created_at = 1000; values = target_event lesson_started 1 none 1000 }) refl
      refl refl

start_lesson-replays_example :
    start_lesson memory content started
      (record (asked "key-00001" 1000) { checked_at = 9000; now = 9000 })
      none
      1
    ≡ ok (started, event_reply (lesson 1) Status.learning 1 1000)
unfolding runs
start_lesson-replays_example =
    start_lesson-replays memory content empty (asked "key-00001" 1000) none 1
      (started, event_reply (lesson 1) Status.learning 1 1000) 9000 9000 refl start_lesson-IsFresh

start_topic-IsFresh : IsFresh memory topic_begun (asked "key-00002" 2000) 9000
unfolding runs
start_topic-IsFresh =
    IsFresh-at memory topic_begun (asked "key-00002" 2000) 9000 "key-00002"
      (record { id = 2; created_at = 2000; values = target_event topic_started 1 (some 10) 2000 })
      refl refl refl

start_topic-replays_example :
    start_topic memory content topic_begun
      (record (asked "key-00002" 2000) { checked_at = 9000; now = 9000 })
      none
      10
    ≡ ok (topic_begun, event_reply (topic 10) Status.learning 2 2000)
unfolding runs
start_topic-replays_example =
    start_topic-replays memory content started (asked "key-00002" 2000) none 10
      (topic_begun, event_reply (topic 10) Status.learning 2 2000) 9000 9000 refl
      start_topic-IsFresh

complete_topic-IsFresh : IsFresh memory topic_over (asked "key-00004" 4000) 9000
unfolding runs
complete_topic-IsFresh =
    IsFresh-at memory topic_over (asked "key-00004" 4000) 9000 "key-00004"
      (record { id = 4; created_at = 4000; values = target_event topic_completed 1 (some 10) 4000 })
      refl refl refl

complete_topic-replays_example :
    complete_topic memory content topic_over
      (record (asked "key-00004" 4000) { checked_at = 9000; now = 9000 })
      none
      10
    ≡ ok (topic_over, event_reply (topic 10) Status.done 4 4000)
unfolding runs
complete_topic-replays_example =
    complete_topic-replays memory content answered (asked "key-00004" 4000) none 10
      (topic_over, event_reply (topic 10) Status.done 4 4000) 9000 9000 refl complete_topic-IsFresh

complete_lesson-IsFresh : IsFresh memory over (asked "key-00006" 6000) 9000
unfolding runs
complete_lesson-IsFresh =
    IsFresh-at memory over (asked "key-00006" 6000) 9000 "key-00006"
      (record { id = 6; created_at = 6000; values = target_event lesson_completed 1 none 6000 })
      refl refl refl

complete_lesson-replays_example :
    complete_lesson memory content over
      (record (asked "key-00006" 6000) { checked_at = 9000; now = 9000 })
      none
      1
    ≡ ok (over, event_reply (lesson 1) Status.done 6 6000)
unfolding runs
complete_lesson-replays_example =
    complete_lesson-replays memory content all_answered (asked "key-00006" 6000) none 1
      (over, event_reply (lesson 1) Status.done 6 6000) 9000 9000 refl complete_lesson-IsFresh

-- The first attempt.
abbrev made : Attempt
made =
    (create_attempt memory content grading topic_begun 7 one_lesson (exercise_of 100 (some 10)) sent
      (record { score = 100; is_correct = true }) "hash" "key-00003" 3000).1

submit_attempt-IsFresh : IsFresh memory answered (asked "key-00003" 3000) 9000
unfolding runs
submit_attempt-IsFresh =
    IsFresh-at memory answered (asked "key-00003" 3000) 9000 "key-00003"
      (record {
        id = 3;
        created_at = 3000;
        values =
            attempt_event memory content grading one_lesson (exercise_of 100 (some 10)) made 3000;
      })
      refl refl refl

submit_attempt-replays_example :
    submit_attempt memory content grading answered
      (record (asked "key-00003" 3000) { checked_at = 9000; now = 9000 })
      none
      100
      sent
    ≡ ok (answered, attempt_reply made)
unfolding runs
submit_attempt-replays_example =
    submit_attempt-replays memory content grading topic_begun (asked "key-00003" 3000) none 100 sent
      (answered, attempt_reply made) 9000 9000 refl submit_attempt-IsFresh
