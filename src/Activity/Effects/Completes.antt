-- ===== src/Activity/Effects/Completes.antt =====
-- What a successful `completeTopic` or `completeLesson` does to the tables.
use hsk_3_0_app.Base.{ℕ, ◌≡◌, refl, subst, inl, inr, Option}
use hsk_3_0_app.Activity.{ok, Graph}
use hsk_3_0_app.Activity.Faults.{Thrown}
use hsk_3_0_app.Activity.Store.{Store, Db, Content}
use hsk_3_0_app.Path.{Status}
use hsk_3_0_app.Activity.Service.{Request, Reply, finish, topic}
use hsk_3_0_app.Activity.Service.Recompute.{complete_active_plan_items, recompute_lesson_progress}
use hsk_3_0_app.Activity.Service.Completes.{
  complete_topic_places, complete_topic, complete_lesson_places, complete_lesson,
}
use hsk_3_0_app.Activity.Evolves.{
  lesson_columns, topic_columns, TableEvolves-refl, upsert-TableEvolves,
}
use hsk_3_0_app.Activity.Rows.{
  recomputed_lesson-Evolves, completed_topic-Evolves, completed_lesson-Evolves,
}
use hsk_3_0_app.Activity.Effects.{
  create-KeepsEvents, Effect, Effect-refl, Effect-trans, finish-Effect,
}
use hsk_3_0_app.Activity.Inversion.Completes.{
  recompute_lesson_progress-ok, complete_topic_afresh-ok, complete_topic_body-ok, complete_topic-ok,
  complete_lesson_afresh-ok, complete_lesson_body-ok, complete_lesson-ok,
}

-- A lesson's progress computed again.
pub recompute_lesson_progress-Effect :
    (store : Store) (db : Db store) (user_id : ℕ) (graph : Graph) (now : ℕ) (db' : Db store)
    → recompute_lesson_progress store db user_id graph now ≡ ok db'
    → Effect store user_id db db' × (db'.events ≡ db.events)
recompute_lesson_progress-Effect store db user_id graph now db' h =
    let (row, found, same) = recompute_lesson_progress-ok store db user_id graph now db' h in
    subst (λ (o : Db store). Effect store user_id db o × (o.events ≡ db.events)) same
      (
        record {
          lessons =
              upsert-TableEvolves lesson_columns store.progresses _ _ _ _
                (rw found (recomputed_lesson-Evolves store db user_id graph row now));
          topics = TableEvolves-refl _ _ _ _;
          events = λ other j e h. h;
        },
        refl,
      )

module _ (store : Store) (content : Content) where
  pub complete_topic-Effect :
      (db : Db store) (request : Request) (fault : Option Thrown) (topic_id : ℕ)
      (out : Db store × Reply)
      → complete_topic store content db request fault topic_id ≡ ok out
      → Effect store request.user_id db out.0
  unfolding finish complete_topic_places
  complete_topic-Effect db request fault topic_id out h =
      let (key, _, _, body) = complete_topic-ok store content db request fault topic_id out h in
      elim (complete_topic_body-ok store content db _ _ _ _ key out body) [
        | inl (_, _, same) ↦
            subst (Effect store request.user_id db) same (Effect-refl store request.user_id db)
        | inr (graph, _, absent, afresh) ↦
            let (row, found, started, _, recomputed, again, made) =
              complete_topic_afresh-ok store content db _ _ key _ graph out afresh in
            let places =
              complete_topic_places store content db request.user_id topic_id request.now row in
            let put : Effect store request.user_id db places = record {
              lessons = TableEvolves-refl _ _ _ _;
              topics =
                  upsert-TableEvolves topic_columns store.topic_progresses _ _ _ _
                    (rw found (completed_topic-Evolves row _ started));
              events = λ other j e h. h;
            } in
            let (moved, events) =
              recompute_lesson_progress-Effect store places _ graph _ recomputed again in
            subst (λ (o : Db store × Reply). Effect store request.user_id db o.0) made
              (Effect-trans store (Effect-trans store put moved) (
                finish-Effect store recomputed _ key _ (topic topic_id) Status.done
                  (rw events absent)))
      ]

  pub complete_lesson-Effect :
      (db : Db store) (request : Request) (fault : Option Thrown) (lesson_id : ℕ)
      (out : Db store × Reply)
      → complete_lesson store content db request fault lesson_id ≡ ok out
      → Effect store request.user_id db out.0
  unfolding finish complete_lesson_places complete_active_plan_items
  complete_lesson-Effect db request fault lesson_id out h =
      let (key, _, _, body) = complete_lesson-ok store content db request fault lesson_id out h in
      elim (complete_lesson_body-ok store content db _ _ _ _ key out body) [
        | inl (_, _, same) ↦
            subst (Effect store request.user_id db) same (Effect-refl store request.user_id db)
        | inr (graph, _, absent, afresh) ↦
            let (row, found, started, _, _, made) =
              complete_lesson_afresh-ok store content db _ _ key _ graph out afresh in
            subst (λ (o : Db store × Reply). Effect store request.user_id db o.0) made
              (record {
                lessons =
                    upsert-TableEvolves lesson_columns store.progresses _ _ _ _
                      (rw found (completed_lesson-Evolves row _ _ started));
                topics = TableEvolves-refl _ _ _ _;
                events = create-KeepsEvents store.events _ _ _ _ absent;
              })
      ]
