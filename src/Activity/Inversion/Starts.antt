-- ===== src/Activity/Inversion/Starts.antt =====
-- What a successful `startLesson` or `startTopic` has read and written.
use hsk_3_0_app.Base.{
  ℕ, ◌≡◌, ◌⊎◌, inl, inr, true, false, Option, none, some, String, arith, Option-cases,
}
use hsk_3_0_app.Activity.{
  ok, Graph, Topic, LessonProgress, StoredEvent, lesson_started, topic_started,
}
use hsk_3_0_app.Activity.Faults.{Thrown, parse_idempotency_key}
use hsk_3_0_app.Activity.Store.{Store, Db, Content}
use hsk_3_0_app.Path.{learning}
use hsk_3_0_app.Activity.Service.{Request, write, Reply, finish, target_event, lesson, topic}
use hsk_3_0_app.Activity.Service.Reads.{
  find_event, require_public_lesson, require_public_topic, require_started_lesson_progress,
}
use hsk_3_0_app.Activity.Results.{Result-cases}
use hsk_3_0_app.Activity.Service.Starts.{
  lesson_was_started, topic_was_started, start_lesson, start_lesson_body, start_lesson_afresh,
  start_lesson_places, start_topic, start_topic_body, start_topic_afresh, start_topic_places,
}

module _ (store : Store) (content : Content) where
  pub start_lesson_afresh-ok :
      (db : Db store) (user_id lesson_id : ℕ) (key : String) (now : ℕ) (graph : Graph)
      (out : Db store × Reply)
      → start_lesson_afresh store content db user_id lesson_id key now graph ≡ ok out
      → (lesson_was_started (store.progresses.find_unique db.progresses user_id lesson_id) ≡ false)
        × (finish store
              (start_lesson_places store content db user_id lesson_id now graph)
              user_id
              key
              (target_event lesson_started lesson_id none now)
              (lesson lesson_id)
              learning
            ≡ out)
  unfolding start_lesson_afresh
  start_lesson_afresh-ok db user_id lesson_id key now graph out h = ground arith

  pub start_lesson_body-ok :
      (db : Db store) (user_id checked_at now lesson_id : ℕ) (key : String) (out : Db store × Reply)
      → start_lesson_body store content db user_id checked_at now lesson_id key ≡ ok out
      → ((event : StoredEvent) × (store.events.find_unique db.events user_id key ≡ some event)
          × (db ≡ out.0))
        ⊎ ((graph : Graph) × (require_public_lesson content lesson_id ≡ ok graph)
            × (store.events.find_unique db.events user_id key ≡ none)
            × (start_lesson_afresh store content db user_id lesson_id key now graph ≡ ok out))
  unfolding start_lesson_body find_event
  start_lesson_body-ok db user_id checked_at now lesson_id key out h =
      elim (Option-cases (content.find_ready_lesson lesson_id)) [
        | inl missing ↦ ground arith
        | inr (graph, found) ↦
            elim (Option-cases (store.events.find_unique db.events user_id key)) [
              | inl absent ↦ inr (graph, ground arith, absent, ground arith)
              | inr (event, there) ↦ inl (event, there, ground arith)
            ]
      ]

  pub start_lesson-ok :
      (db : Db store) (request : Request) (fault : Option Thrown) (lesson_id : ℕ)
      (out : Db store × Reply)
      → start_lesson store content db request fault lesson_id ≡ ok out
      → (key : String) × (parse_idempotency_key request.raw_key ≡ ok key)
        × (content.is_active request.user_id ≡ true)
        × (start_lesson_body store content db request.user_id request.checked_at request.now
              lesson_id key
            ≡ ok out)
  unfolding start_lesson write
  start_lesson-ok db request fault lesson_id out h =
      elim (Result-cases (parse_idempotency_key request.raw_key)) [
        | inr (e, refused) ↦ ground arith
        | inl (key, parsed) ↦ elim (Option-cases fault) [
          | inl fine ↦ (key, parsed, ground arith, ground arith)
          | inr (f, failed) ↦ ground arith
        ]
      ]

  pub start_topic_afresh-ok :
      (db : Db store) (user_id topic_id : ℕ) (key : String) (now : ℕ) (graph : Graph)
      (out : Db store × Reply)
      → start_topic_afresh store content db user_id topic_id key now graph ≡ ok out
      → (progress : LessonProgress) × (store.progresses.find_unique db.progresses user_id graph.id
          ≡ some progress)
        × (topic_was_started
              (store.topic_progresses.find_unique db.topic_progresses user_id topic_id)
            ≡ false)
        × (finish store
              (start_topic_places store content db user_id topic_id now graph progress)
              user_id
              key
              (target_event topic_started graph.id (some topic_id) now)
              (topic topic_id)
              learning
            ≡ out)
  unfolding start_topic_afresh require_started_lesson_progress
  start_topic_afresh-ok db user_id topic_id key now graph out h =
      elim (Option-cases (store.progresses.find_unique db.progresses user_id graph.id)) [
        | inl missing ↦ ground arith
        | inr (progress, found) ↦ (progress, found, ground arith, ground arith)
      ]

  pub start_topic_body-ok :
      (db : Db store) (user_id checked_at now topic_id : ℕ) (key : String) (out : Db store × Reply)
      → start_topic_body store content db user_id checked_at now topic_id key ≡ ok out
      → ((event : StoredEvent) × (store.events.find_unique db.events user_id key ≡ some event)
          × (db ≡ out.0))
        ⊎ ((graph : Graph) × ((found : Topic) × (require_public_topic content topic_id
                ≡ ok (graph, found)))
            × (store.events.find_unique db.events user_id key ≡ none)
            × (start_topic_afresh store content db user_id topic_id key now graph ≡ ok out))
  unfolding start_topic_body find_event
  start_topic_body-ok db user_id checked_at now topic_id key out h =
      elim (Result-cases (require_public_topic content topic_id)) [
        | inr (e, refused) ↦ ground arith
        | inl ((graph, found), at) ↦
            elim (Option-cases (store.events.find_unique db.events user_id key)) [
              | inl absent ↦ inr (graph, (found, at), absent, ground arith)
              | inr (event, there) ↦ inl (event, there, ground arith)
            ]
      ]

  pub start_topic-ok :
      (db : Db store) (request : Request) (fault : Option Thrown) (topic_id : ℕ)
      (out : Db store × Reply)
      → start_topic store content db request fault topic_id ≡ ok out
      → (key : String) × (parse_idempotency_key request.raw_key ≡ ok key)
        × (content.is_active request.user_id ≡ true)
        × (start_topic_body store content db request.user_id request.checked_at request.now topic_id
              key
            ≡ ok out)
  unfolding start_topic write
  start_topic-ok db request fault topic_id out h =
      elim (Result-cases (parse_idempotency_key request.raw_key)) [
        | inr (e, refused) ↦ ground arith
        | inl (key, parsed) ↦ elim (Option-cases fault) [
          | inl fine ↦ (key, parsed, ground arith, ground arith)
          | inr (f, failed) ↦ ground arith
        ]
      ]
