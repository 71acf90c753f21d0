-- ===== src/Activity/Gates.antt =====
-- What `completeTopic` and `completeLesson` of lesson-activity.service.ts ask for before they write.
use hsk_3_0_app.Activity.Inversion.{key_unique}
use hsk_3_0_app.Base.{
  ℕ, ◌≡◌, refl, ap, subst, inl, inr, true, ◌&&◌, Option, none, String, map, arith, ◌==◌,
}
use hsk_3_0_app.Activity.{
  ok, Graph, Topic, LessonProgress, TopicProgress, Exercise, OrderedExercise,
}
use hsk_3_0_app.Activity.Faults.{Thrown, parse_idempotency_key}
use hsk_3_0_app.Activity.Store.{Store, Db, Content}
use hsk_3_0_app.Path.{is_done}
use hsk_3_0_app.Activity.Service.{Request, Reply, finish}
use hsk_3_0_app.Activity.Service.Reads.{
  require_public_lesson, require_public_topic, topic_exercises, standalone_exercises,
  facts_attempts,
}
use hsk_3_0_app.Activity.Service.Recompute.{complete_active_plan_items}
use hsk_3_0_app.Activity.Service.Completes.{
  completed_topic, completed_lesson, has_open_topic, has_open_standalone, complete_topic_places,
  complete_topic, complete_lesson_places, complete_lesson,
}
use hsk_3_0_app.Base.Lists.{All}
use hsk_3_0_app.Activity.Evolves.{lesson_columns, topic_columns, Done}
use hsk_3_0_app.Activity.Effects.{lesson_row, topic_row}
use hsk_3_0_app.Activity.Inversion.Completes.{
  recompute_lesson_progress-ok, complete_topic_afresh-ok, complete_topic_body-ok, complete_topic-ok,
  complete_lesson_afresh-ok, complete_lesson_body-ok, complete_lesson-ok,
}
use hsk_3_0_app.Activity.Submitted.{
  any-All, All-map, HasSubmitted, submitted_attempts-HasSubmitted, topic_is_attempted-HasSubmitted,
  topic_is_done-Done,
}

module _ (store : Store) where
  -- A row that was just written.
  pub upsert-Done :
      (rows : store.topic_progresses.Rows) (user topic_id : ℕ) (row : TopicProgress)
      → is_done row.status ≡ true
      → Done topic_columns (
          store.topic_progresses.find_unique
            (store.topic_progresses.upsert rows user topic_id row)
            user
            topic_id)
  upsert-Done rows user topic_id row h =
      let here : ((user == user) && (topic_id == topic_id)) ≡ true = ground arith in
      rw (store.topic_progresses.find-upsert rows user topic_id row user topic_id, here) h

  pub upsert-lesson_Done :
      (rows : store.progresses.Rows) (user lesson_id : ℕ) (row : LessonProgress)
      → is_done row.status ≡ true
      → Done lesson_columns (
          store.progresses.find_unique
            (store.progresses.upsert rows user lesson_id row)
            user
            lesson_id)
  upsert-lesson_Done rows user lesson_id row h =
      let here : ((user == user) && (lesson_id == lesson_id)) ≡ true = ground arith in
      rw (store.progresses.find-upsert rows user lesson_id row user lesson_id, here) h

  module _ (content : Content) where
    -- Where `completeTopic` succeeds under a key that has no event, the learner has a submitted
    -- attempt at every public exercise of the topic, and the topic is done afterwards.
    pub complete_topic-HasSubmitted :
        (db : Db store) (request : Request) (fault : Option Thrown) (topic_id : ℕ) (key : String)
        (out : Db store × Reply)
        → parse_idempotency_key request.raw_key ≡ ok key
        → store.events.find_unique db.events request.user_id key ≡ none
        → complete_topic store content db request fault topic_id ≡ ok out
        → (graph : Graph) × (found : Topic) × (require_public_topic content topic_id
            ≡ ok (graph, found))
          × All
              (λ (e : Exercise). HasSubmitted store db request.user_id e.id)
              (topic_exercises graph topic_id)
          × Done topic_columns (topic_row store out.0 request.user_id topic_id)
    unfolding finish complete_topic_places completed_topic
    complete_topic-HasSubmitted db request fault topic_id key out parsed absent h =
        let (j, parsed_j, _, body) =
          complete_topic-ok store content db request fault topic_id out h in
        let same = key_unique request.raw_key parsed_j parsed in
        elim (complete_topic_body-ok store content db _ _ _ _ j out body) [
          | inl (event, there, _) ↦
              cc (ap (store.events.find_unique db.events request.user_id) same)
          | inr (graph, (found, at), _, afresh) ↦
              let (row, _, _, attempted, recomputed, again, made) =
                complete_topic_afresh-ok store content db _ _ j _ graph out afresh in
              let (_, _, put) = recompute_lesson_progress-ok store _ _ graph _ recomputed again in
              (
                graph,
                found,
                at,
                topic_is_attempted-HasSubmitted store db _ (topic_exercises graph topic_id)
                    attempted,
                subst
                    (λ (o : Db store × Reply).
                      Done topic_columns (topic_row store o.0 request.user_id topic_id))
                    made
                    (subst
                      (λ (o : Db store).
                        Done topic_columns (topic_row store o request.user_id topic_id))
                      put
                      (upsert-Done db.topic_progresses _ topic_id (completed_topic row _) refl)),
              )
        ]

    -- Where `completeLesson` succeeds under a key that has no event, the learner has done every
    -- public topic of the lesson and has a submitted attempt at every public exercise without a
    -- topic, and the lesson is done afterwards.
    pub complete_lesson-HasSubmitted :
        (db : Db store) (request : Request) (fault : Option Thrown) (lesson_id : ℕ) (key : String)
        (out : Db store × Reply)
        → parse_idempotency_key request.raw_key ≡ ok key
        → store.events.find_unique db.events request.user_id key ≡ none
        → complete_lesson store content db request fault lesson_id ≡ ok out
        → (graph : Graph) × (require_public_lesson content lesson_id ≡ ok graph)
          × All
              (λ (t : Topic). Done topic_columns (topic_row store db request.user_id t.id))
              graph.topics
          × All
              (λ (e : OrderedExercise). HasSubmitted store db request.user_id e.id)
              (standalone_exercises graph)
          × Done lesson_columns (lesson_row store out.0 request.user_id lesson_id)
    unfolding finish complete_lesson_places complete_active_plan_items completed_lesson
        has_open_topic has_open_standalone
    complete_lesson-HasSubmitted db request fault lesson_id key out parsed absent h =
        let (j, parsed_j, _, body) =
          complete_lesson-ok store content db request fault lesson_id out h in
        let same = key_unique request.raw_key parsed_j parsed in
        elim (complete_lesson_body-ok store content db _ _ _ _ j out body) [
          | inl (event, there, _) ↦
              cc (ap (store.events.find_unique db.events request.user_id) same)
          | inr (graph, at, _, afresh) ↦
              let (row, _, _, topics, standalone, made) =
                complete_lesson_afresh-ok store content db _ _ j _ graph out afresh in
              (
                graph,
                at,
                All-map graph.topics
                    (λ t k. topic_is_done-Done store db request.user_id t.id (ground arith))
                    (any-All _ graph.topics topics),
                All-map (standalone_exercises graph)
                    (λ e k.
                      submitted_attempts-HasSubmitted store db request.user_id
                        (map (λ (e : Exercise). e.id) graph.exercises) e.id (ground arith))
                    (any-All _ (standalone_exercises graph) standalone),
                subst
                    (λ (o : Db store × Reply).
                      Done lesson_columns (lesson_row store o.0 request.user_id lesson_id))
                    made
                    (upsert-lesson_Done db.progresses _ lesson_id
                      (completed_lesson row (facts_attempts store db request.user_id graph) _)
                      refl),
              )
        ]
