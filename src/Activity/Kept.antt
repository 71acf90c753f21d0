-- ===== src/Activity/Kept.antt =====
-- What no sequence of the writes of lesson-activity.service.ts breaks.
use hsk_3_0_app.Base.{ℕ, ◌≡◌, refl, ◌∙◌, ◌≢◌, inl, inr, Option, some, List, [], ◌∷◌, String, All}
use hsk_3_0_app.Activity.{ok, StoredEvent}
use hsk_3_0_app.Activity.Faults.{Thrown}
use hsk_3_0_app.Activity.Store.{Store, Db, Content, Grading}
use hsk_3_0_app.Activity.Service.{Request, Reply, commit}
use hsk_3_0_app.Activity.History.{
  Call, starts_lesson, starts_topic, completes_topic, completes_lesson, submits, Action, handle,
  perform, run,
}
use hsk_3_0_app.Activity.Results.{Result-cases}
use hsk_3_0_app.Activity.Evolves.{
  lesson_columns, topic_columns, Evolves, Evolves-refl, Evolves-trans, Coherent, Done, StartedAt,
}
use hsk_3_0_app.Activity.Effects.{lesson_row, topic_row, Effect, Effect-refl}
use hsk_3_0_app.Activity.Effects.Starts.{start_lesson-Effect, start_topic-Effect}
use hsk_3_0_app.Activity.Effects.Completes.{complete_topic-Effect, complete_lesson-Effect}
use hsk_3_0_app.Activity.Effects.Submits.{submit_attempt-Effect}

module _ (store : Store) (grading : Grading) where
  handle-Effect :
      (db : Db store) (content : Content) (request : Request) (fault : Option Thrown) (call : Call)
      (out : Db store × Reply)
      → handle store grading db content request fault call ≡ ok out
      → Effect store request.user_id db out.0
  unfolding handle
  handle-Effect db content request fault (starts_lesson id) out h =
      start_lesson-Effect store content db request fault id out h
  handle-Effect db content request fault (starts_topic id) out h =
      start_topic-Effect store content db request fault id out h
  handle-Effect db content request fault (completes_topic id) out h =
      complete_topic-Effect store content db request fault id out h
  handle-Effect db content request fault (completes_lesson id) out h =
      complete_lesson-Effect store content db request fault id out h
  handle-Effect db content request fault (submits id submission) out h =
      submit_attempt-Effect store content grading db request fault id submission out h

  perform-Effect :
      (db : Db store) (action : Action)
      → Effect store action.request.user_id db (commit db (perform store grading db action))
  unfolding perform commit
  perform-Effect db action = elim (Result-cases (perform store grading db action)) [
    | inr (error, failed) ↦ rw failed (Effect-refl store _ db)
    | inl (out, succeeded) ↦
        rw succeeded
          (handle-Effect db action.content action.request action.fault action.call out succeeded)
  ]

  lessons-evolve :
      (db : Db store) (actions : List Action) (user lesson_id : ℕ)
      → Evolves lesson_columns
          (lesson_row store db user lesson_id)
          (lesson_row store (run store grading db actions) user lesson_id)
  unfolding run
  lessons-evolve db [] user lesson_id = Evolves-refl _ _
  lessons-evolve db (action ∷ actions) user lesson_id =
      Evolves-trans _ ((perform-Effect db action).lessons.row user lesson_id)
        (lessons-evolve (commit db (perform store grading db action)) actions user lesson_id)

  topics-evolve :
      (db : Db store) (actions : List Action) (user topic_id : ℕ)
      → Evolves topic_columns
          (topic_row store db user topic_id)
          (topic_row store (run store grading db actions) user topic_id)
  unfolding run
  topics-evolve db [] user topic_id = Evolves-refl _ _
  topics-evolve db (action ∷ actions) user topic_id =
      Evolves-trans _ ((perform-Effect db action).topics.row user topic_id)
        (topics-evolve (commit db (perform store grading db action)) actions user topic_id)

  -- Whatever writes are made, by whom and in whatever order, with whatever failures: a learner's
  -- row of a lesson that was coherent, or missing, is so afterwards. Coherent: if it is done, it is at
  -- 100 percent and has the times of its start and of its completion.
  pub run-lesson-Coherent :
      (db : Db store) (actions : List Action) (user id : ℕ)
      → Coherent lesson_columns (lesson_row store db user id)
      → Coherent lesson_columns (lesson_row store (run store grading db actions) user id)
  run-lesson-Coherent db actions user id = (lessons-evolve db actions user id).coherent

  -- Whatever writes are made: a lesson that a learner has done stays done.
  pub run-lesson-Done :
      (db : Db store) (actions : List Action) (user id : ℕ)
      → Done lesson_columns (lesson_row store db user id)
      → Done lesson_columns (lesson_row store (run store grading db actions) user id)
  run-lesson-Done db actions user id = (lessons-evolve db actions user id).done

  -- Whatever writes are made: the time at which a learner has started a lesson is kept.
  pub run-lesson_started :
      (db : Db store) (actions : List Action) (user id t : ℕ)
      → StartedAt lesson_columns (lesson_row store db user id) t
      → StartedAt lesson_columns (lesson_row store (run store grading db actions) user id) t
  run-lesson_started db actions user id t = (lessons-evolve db actions user id).started t

  -- Whatever writes are made, by whom and in whatever order, with whatever failures: a learner's
  -- row of a topic that was coherent, or missing, is so afterwards. Coherent: if it is done, it is at
  -- 100 percent and has the times of its start and of its completion.
  pub run-topic-Coherent :
      (db : Db store) (actions : List Action) (user id : ℕ)
      → Coherent topic_columns (topic_row store db user id)
      → Coherent topic_columns (topic_row store (run store grading db actions) user id)
  run-topic-Coherent db actions user id = (topics-evolve db actions user id).coherent

  -- Whatever writes are made: a topic that a learner has done stays done.
  pub run-topic-Done :
      (db : Db store) (actions : List Action) (user id : ℕ)
      → Done topic_columns (topic_row store db user id)
      → Done topic_columns (topic_row store (run store grading db actions) user id)
  run-topic-Done db actions user id = (topics-evolve db actions user id).done

  -- Whatever writes are made: the time at which a learner has started a topic is kept.
  pub run-topic_started :
      (db : Db store) (actions : List Action) (user id t : ℕ)
      → StartedAt topic_columns (topic_row store db user id) t
      → StartedAt topic_columns (topic_row store (run store grading db actions) user id) t
  run-topic_started db actions user id t = (topics-evolve db actions user id).started t

  -- Writes that others make leave a learner's rows of lessons and topics as they are.
  pub run-foreign :
      (db : Db store) (actions : List Action) (user id : ℕ)
      → All (λ (action : Action). user ≢ action.request.user_id) actions
      → (lesson_row store (run store grading db actions) user id ≡ lesson_row store db user id)
        × (topic_row store (run store grading db actions) user id ≡ topic_row store db user id)
  unfolding run
  run-foreign db [] user id apart = (refl, refl)
  run-foreign db (action ∷ actions) user id (first, rest) =
      let effect = perform-Effect db action in
      let (lesson_same, topic_same) =
        run-foreign (commit db (perform store grading db action)) actions user id rest in
      (
        lesson_same ∙ effect.lessons.foreign user id first,
        topic_same ∙ effect.topics.foreign user id first,
      )

  -- Whatever writes are made: an event that is recorded under a learner's key stays as it is.
  pub run-find_unique :
      (db : Db store) (actions : List Action) (user : ℕ) (key : String) (event : StoredEvent)
      → store.events.find_unique db.events user key ≡ some event
      → store.events.find_unique (run store grading db actions).events user key ≡ some event
  unfolding run
  run-find_unique db [] user key event found = found
  run-find_unique db (action ∷ actions) user key event found =
      run-find_unique (commit db (perform store grading db action)) actions user key event
        ((perform-Effect db action).events user key event found)
