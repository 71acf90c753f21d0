-- ===== src/Activity/Effects/Submits.antt =====
-- What a successful `submitAttempt` does to the tables.
use hsk_3_0_app.Base.{ℕ, ◌≡◌, refl, subst, ◌∙◌, inl, inr, Option, Option-cases}
use hsk_3_0_app.Activity.{ok, Graph, Exercise}
use hsk_3_0_app.Activity.Faults.{Thrown}
use hsk_3_0_app.Activity.Store.{Store, Db, Content, Grading}
use hsk_3_0_app.Activity.Service.{Request, Reply}
use hsk_3_0_app.Activity.Service.Recompute.{recompute_topic_progress}
use hsk_3_0_app.Activity.Service.Submit.{
  Submission, recompute_topic_of, finish_attempt, submit_attempt,
}
use hsk_3_0_app.Activity.Evolves.{topic_columns, TableEvolves-refl, upsert-TableEvolves}
use hsk_3_0_app.Activity.Rows.{recomputed_topic-Evolves}
use hsk_3_0_app.Activity.Effects.{create-KeepsEvents, Effect, Effect-refl, Effect-trans}
use hsk_3_0_app.Activity.Inversion.Submits.{
  placed, submit_afresh-ok, submit_body-ok, submit_attempt-ok,
}
use hsk_3_0_app.Activity.Effects.Completes.{recompute_lesson_progress-Effect}

module _ (store : Store) (content : Content) (grading : Grading) where
  recompute_topic_of-Effect :
      (db : Db store) (user_id : ℕ) (graph : Graph) (found : Exercise) (now : ℕ)
      → Effect store user_id db
          (recompute_topic_of store content grading db user_id graph found now)
        × ((recompute_topic_of store content grading db user_id graph found now).events ≡ db.events)
  unfolding recompute_topic_of recompute_topic_progress
  recompute_topic_of-Effect db user_id graph found now = elim (Option-cases found.topic_id) [
    | inl missing ↦ rw missing (Effect-refl store user_id db, refl)
    | inr (topic_id, at) ↦ rw at (
      record {
        lessons = TableEvolves-refl _ _ _ _;
        topics =
            upsert-TableEvolves topic_columns store.topic_progresses _ _ _ _
              (recomputed_topic-Evolves store _ _ _ now);
        events = λ other j e h. h;
      },
      refl,
    )
  ]

  pub submit_attempt-Effect :
      (db : Db store) (request : Request) (fault : Option Thrown) (exercise_id : ℕ)
      (submission : Submission) (out : Db store × Reply)
      → submit_attempt store content grading db request fault exercise_id submission ≡ ok out
      → Effect store request.user_id db out.0
  unfolding finish_attempt
  submit_attempt-Effect db request fault exercise_id submission out h =
      let (key, hash, _, _, _, body) =
        submit_attempt-ok store content grading db request fault exercise_id submission out h in
      elim (submit_body-ok store content grading db _ _ _ _ key hash submission out body) [
        | inl (_, _, same) ↦
            subst (Effect store request.user_id db) same (Effect-refl store request.user_id db)
        | inr (graph, found, _, absent, afresh) ↦
            let (score, recomputed, again, made) =
              submit_afresh-ok store content grading db _ key hash _ submission graph found out
                afresh in
            let start =
              placed store content grading db request.user_id key hash request.now submission graph
                found score in
            let put : Effect store request.user_id db start = record {
              lessons = TableEvolves-refl _ _ _ _;
              topics = TableEvolves-refl _ _ _ _;
              events = λ other j e h. h;
            } in
            let (topic_moved, topic_events) =
              recompute_topic_of-Effect start request.user_id graph found request.now in
            let (lesson_moved, lesson_events) =
              recompute_lesson_progress-Effect store _ _ graph _ recomputed again in
            let events = lesson_events ∙ topic_events in
            let moved = Effect-trans store (Effect-trans store put topic_moved) lesson_moved in
            subst (λ (o : Db store × Reply). Effect store request.user_id db o.0) made
              (record {
                lessons = moved.lessons;
                topics = moved.topics;
                events = λ other j e h.
                    create-KeepsEvents store.events recomputed.events request.user_id key _
                      (rw events absent) other j e (moved.events other j e h);
              })
      ]
