-- ===== src/Activity/Rows.antt =====
-- Each row that lesson-activity.service.ts writes evolves from the row that it replaces.
use hsk_3_0_app.Base.{ℕ, ◌≡◌, refl, true, false, Option, none, some, List, arith, is_some}
use hsk_3_0_app.Activity.{LessonProgress, TopicProgress, Graph, Attempt}
use hsk_3_0_app.Activity.Store.{Store, Db}
use hsk_3_0_app.Activity.Progress.{Pointer}
use hsk_3_0_app.Activity.Service.Recompute.{recomputed_topic, recomputed_lesson}
use hsk_3_0_app.Activity.Service.Starts.{
  started_lesson, started_topic, lesson_was_started, topic_was_started,
}
use hsk_3_0_app.Activity.Service.Completes.{completed_topic, completed_lesson}
use hsk_3_0_app.Activity.Evolves.{lesson_columns, topic_columns, Evolves}

pub started_lesson-Evolves :
    (existing : Option LessonProgress) (pointer : Pointer) (now : ℕ)
    → lesson_was_started existing ≡ false
    → Evolves lesson_columns existing (some (started_lesson existing pointer now))
unfolding started_lesson
started_lesson-Evolves none pointer now h = record {
  coherent = λ c. record { percent = λ d. cc; started = λ d. cc; finished = λ d. cc };
  done = λ d. absurd d;
  started = λ t d. absurd d;
}
started_lesson-Evolves (some row) pointer now h = record {
  coherent = λ c. record {
    percent = λ d. ground (arith, c.started, c.percent);
    started = λ d. ground (arith, c.started);
    finished = λ d. ground (arith, c.started);
  };
  done = λ d. ground arith;
  started = λ t d. ground arith;
}

-- The lesson's row after `startTopic`.
pub moved_lesson-Evolves :
    (row : LessonProgress) (topic_id exercise_id last_activity_at : Option ℕ)
    → Evolves lesson_columns (some row) (
        some (record row {
          current_topic_id = topic_id;
          current_exercise_id = exercise_id;
          last_activity_at = last_activity_at;
        }))
moved_lesson-Evolves row topic_id exercise_id last_activity_at = record {
  coherent = λ c. record { percent = c.percent; started = c.started; finished = c.finished };
  done = λ d. d;
  started = λ t d. d;
}

pub started_topic-Evolves :
    (existing : Option TopicProgress) (now : ℕ)
    → topic_was_started existing ≡ false
    → Evolves topic_columns existing (some (started_topic existing now))
unfolding started_topic
started_topic-Evolves none now h = record {
  coherent = λ c. record { percent = λ d. cc; started = λ d. cc; finished = λ d. cc };
  done = λ d. absurd d;
  started = λ t d. absurd d;
}
started_topic-Evolves (some row) now h = record {
  coherent = λ c. record {
    percent = λ d. ground (arith, c.started, c.percent);
    started = λ d. ground (arith, c.started);
    finished = λ d. ground (arith, c.started);
  };
  done = λ d. ground arith;
  started = λ t d. ground arith;
}

pub completed_topic-Evolves :
    (row : TopicProgress) (now : ℕ)
    → is_some row.started_at ≡ true
    → Evolves topic_columns (some row) (some (completed_topic row now))
unfolding completed_topic
completed_topic-Evolves row now h = record {
  coherent = λ c. record { percent = λ d. refl; started = λ d. h; finished = λ d. ground arith };
  done = λ d. refl;
  started = λ t d. d;
}

pub completed_lesson-Evolves :
    (row : LessonProgress) (attempts : List Attempt) (now : ℕ)
    → is_some row.started_at ≡ true
    → Evolves lesson_columns (some row) (some (completed_lesson row attempts now))
unfolding completed_lesson
completed_lesson-Evolves row attempts now h = record {
  coherent = λ c. record { percent = λ d. refl; started = λ d. h; finished = λ d. ground arith };
  done = λ d. refl;
  started = λ t d. d;
}

module _ (store : Store) where
  pub recomputed_topic-Evolves :
      (existing : Option TopicProgress) (attempts : List Attempt) (ids : List ℕ) (now : ℕ)
      → Evolves topic_columns existing (some (recomputed_topic store existing attempts ids now))
  unfolding recomputed_topic
  recomputed_topic-Evolves none attempts ids now = record {
    coherent = λ c. record { percent = λ d. cc; started = λ d. cc; finished = λ d. cc };
    done = λ d. absurd d;
    started = λ t d. absurd d;
  }
  recomputed_topic-Evolves (some row) attempts ids now = record {
    coherent = λ c. record {
      percent = λ d. ground arith;
      started = λ d. ground (arith, c.started);
      finished = λ d. ground (arith, c.finished);
    };
    done = λ d. ground arith;
    started = λ t d. ground arith;
  }

  pub recomputed_lesson-Evolves :
      (db : Db store) (user_id : ℕ) (graph : Graph) (row : LessonProgress) (now : ℕ)
      → Evolves lesson_columns (some row) (some (recomputed_lesson store db user_id graph row now))
  unfolding recomputed_lesson
  recomputed_lesson-Evolves db user_id graph row now = record {
    coherent = λ c. record {
      percent = λ d. ground arith;
      started = λ d. ground (arith, c.started);
      finished = λ d. ground (arith, c.finished);
    };
    done = λ d. ground arith;
    started = λ t d. d;
  }
