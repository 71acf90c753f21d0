-- ===== src/Activity/Tests/Kept.antt =====
-- What sequences of writes keep, on a learner's way through one lesson.
use hsk_3_0_app.Base.{ℕ, ◌≢◌, ◌≡◌, refl, none, some, arith}
use hsk_3_0_app.Activity.Memory.{memory, empty}
use hsk_3_0_app.Activity.{StoredEvent, lesson_started}
use hsk_3_0_app.Activity.Evolves.{lesson_columns, topic_columns, Coherent, Done}
use hsk_3_0_app.Activity.Effects.{lesson_row, topic_row}
use hsk_3_0_app.Activity.Kept.{
  run-lesson-Coherent, run-topic-Coherent, run-lesson-Done, run-topic-Done, run-foreign,
  run-find_unique,
}
use hsk_3_0_app.Activity.Service.{target_event}
use hsk_3_0_app.Activity.History.{run}
use hsk_3_0_app.Activity.Tests.{grading, over, way, later, runs}

run-lesson-Coherent_example :
    Coherent lesson_columns (lesson_row memory (run memory grading empty way) 7 1)
run-lesson-Coherent_example = run-lesson-Coherent memory grading empty way 7 1 tt

run-lesson-Done_example :
    Done lesson_columns (lesson_row memory (run memory grading over later) 7 1)
unfolding runs
run-lesson-Done_example = run-lesson-Done memory grading over later 7 1 refl

run-topic-Coherent_example :
    Coherent topic_columns (topic_row memory (run memory grading empty way) 7 10)
run-topic-Coherent_example = run-topic-Coherent memory grading empty way 7 10 tt

run-topic-Done_example : Done topic_columns (topic_row memory (run memory grading over later) 7 10)
unfolding runs
run-topic-Done_example = run-topic-Done memory grading over later 7 10 refl

apart : ◌≢◌ {A = ℕ} 8 7
apart h = omega (arith, h)

run-foreign_example :
    (lesson_row memory (run memory grading empty way) 8 1 ≡ none)
    × (topic_row memory (run memory grading empty way) 8 1 ≡ none)
run-foreign_example =
    run-foreign memory grading empty way 8 1
      (apart, (apart, (apart, (apart, (apart, (apart, tt))))))

-- The first event.
abbrev start_event : StoredEvent
start_event = record { id = 1; created_at = 1000; values = target_event lesson_started 1 none 1000 }

run-find_unique_example :
    memory.events.find_unique (run memory grading over later).events 7 "key-00001"
    ≡ some start_event
unfolding runs
run-find_unique_example = run-find_unique memory grading over later 7 "key-00001" start_event refl
