-- ===== src/Activity/Effects/Starts.antt =====
-- What a successful `startLesson` or `startTopic` does to the tables.
use hsk_3_0_app.Base.{ℕ, ◌≡◌, subst, inl, inr, Option}
use hsk_3_0_app.Activity.{ok}
use hsk_3_0_app.Activity.Faults.{Thrown}
use hsk_3_0_app.Activity.Store.{Store, Db, Content}
use hsk_3_0_app.Activity.Service.{Request, Reply, finish}
use hsk_3_0_app.Activity.Service.Recompute.{start_active_plan_items}
use hsk_3_0_app.Activity.Service.Starts.{
  start_lesson, start_lesson_places, start_topic, start_topic_places,
}
use hsk_3_0_app.Activity.Evolves.{
  lesson_columns, topic_columns, TableEvolves-refl, upsert-TableEvolves,
}
use hsk_3_0_app.Activity.Rows.{started_lesson-Evolves, started_topic-Evolves, moved_lesson-Evolves}
use hsk_3_0_app.Activity.Effects.{create-KeepsEvents, Effect, Effect-refl}
use hsk_3_0_app.Activity.Inversion.Starts.{
  start_lesson-ok, start_lesson_body-ok, start_lesson_afresh-ok, start_topic-ok,
  start_topic_body-ok, start_topic_afresh-ok,
}

module _ (store : Store) (content : Content) where
  pub start_lesson-Effect :
      (db : Db store) (request : Request) (fault : Option Thrown) (lesson_id : ℕ)
      (out : Db store × Reply)
      → start_lesson store content db request fault lesson_id ≡ ok out
      → Effect store request.user_id db out.0
  unfolding finish start_lesson_places start_active_plan_items
  start_lesson-Effect db request fault lesson_id out h =
      let (key, _, _, body) = start_lesson-ok store content db request fault lesson_id out h in
      elim (start_lesson_body-ok store content db _ _ _ _ key out body) [
        | inl (_, _, same) ↦
            subst (Effect store request.user_id db) same (Effect-refl store request.user_id db)
        | inr (graph, _, absent, afresh) ↦
            let (unstarted, made) =
              start_lesson_afresh-ok store content db _ _ key _ graph out afresh in
            subst (λ (o : Db store × Reply). Effect store request.user_id db o.0) made
              (record {
                lessons =
                    upsert-TableEvolves lesson_columns store.progresses _ _ _ _
                      (started_lesson-Evolves _ _ _ unstarted);
                topics = TableEvolves-refl _ _ _ _;
                events = create-KeepsEvents store.events _ _ _ _ absent;
              })
      ]

  pub start_topic-Effect :
      (db : Db store) (request : Request) (fault : Option Thrown) (topic_id : ℕ)
      (out : Db store × Reply)
      → start_topic store content db request fault topic_id ≡ ok out
      → Effect store request.user_id db out.0
  unfolding finish start_topic_places
  start_topic-Effect db request fault topic_id out h =
      let (key, _, _, body) = start_topic-ok store content db request fault topic_id out h in
      elim (start_topic_body-ok store content db _ _ _ _ key out body) [
        | inl (_, _, same) ↦
            subst (Effect store request.user_id db) same (Effect-refl store request.user_id db)
        | inr (graph, _, absent, afresh) ↦
            let (progress, found, unstarted, made) =
              start_topic_afresh-ok store content db _ _ key _ graph out afresh in
            subst (λ (o : Db store × Reply). Effect store request.user_id db o.0) made
              (record {
                lessons =
                    upsert-TableEvolves lesson_columns store.progresses _ _ _ _
                      (rw found (moved_lesson-Evolves progress _ _ _));
                topics =
                    upsert-TableEvolves topic_columns store.topic_progresses _ _ _ _
                      (started_topic-Evolves _ _ unstarted);
                events = create-KeepsEvents store.events _ _ _ _ absent;
              })
      ]
