-- ===== src/Activity/Inversion/Completes.antt =====
-- What a successful `completeTopic` or `completeLesson` has read and written.
use hsk_3_0_app.Base.{
  ℕ, ◌≡◌, ◌⊎◌, inl, inr, true, false, Option, none, some, String, map, arith, Option-cases, is_some,
}
use hsk_3_0_app.Activity.{
  ok, Graph, Topic, LessonProgress, TopicProgress, StoredEvent, Exercise, lesson_completed,
  topic_completed,
}
use hsk_3_0_app.Activity.Faults.{Thrown, parse_idempotency_key}
use hsk_3_0_app.Activity.Store.{Store, Db, Content}
use hsk_3_0_app.Path.{Status}
use hsk_3_0_app.Activity.Service.{Request, write, Reply, finish, target_event, lesson, topic}
use hsk_3_0_app.Activity.Service.Reads.{
  find_event, require_public_lesson, require_public_topic, require_started_lesson_progress,
  topic_exercises,
}
use hsk_3_0_app.Activity.Service.Recompute.{recompute_lesson_progress, recomputed_lesson}
use hsk_3_0_app.Activity.Results.{Result-cases}
use hsk_3_0_app.Activity.Service.Completes.{
  require_started_topic, topic_is_attempted, has_open_topic, has_open_standalone,
  complete_topic_places, complete_topic_afresh, complete_topic_body, complete_topic,
  complete_lesson_places, complete_lesson_afresh, complete_lesson_body, complete_lesson,
}

-- The row that `recomputeLessonProgress` finds and writes.
pub recompute_lesson_progress-ok :
    (store : Store) (db : Db store) (user_id : ℕ) (graph : Graph) (now : ℕ) (db' : Db store)
    → recompute_lesson_progress store db user_id graph now ≡ ok db'
    → (row : LessonProgress) × (store.progresses.find_unique db.progresses user_id graph.id
        ≡ some row)
      × (record db {
        progresses =
            store.progresses.upsert db.progresses user_id graph.id
              (recomputed_lesson store db user_id graph row now);
      }
          ≡ db')
unfolding recompute_lesson_progress
recompute_lesson_progress-ok store db user_id graph now db' h =
    elim (Option-cases (store.progresses.find_unique db.progresses user_id graph.id)) [
      | inl missing ↦ absurd (ground arith)
      | inr (row, found) ↦ (row, found, ground arith)
    ]

module _ (store : Store) (content : Content) where
  pub complete_topic_afresh-ok :
      (db : Db store) (user_id topic_id : ℕ) (key : String) (now : ℕ) (graph : Graph)
      (out : Db store × Reply)
      → complete_topic_afresh store content db user_id topic_id key now graph ≡ ok out
      → (row : TopicProgress) × (store.topic_progresses.find_unique db.topic_progresses user_id
            topic_id
          ≡ some row)
        × (is_some row.started_at ≡ true)
        × (topic_is_attempted store db user_id
              (map (λ (e : Exercise). e.id) (topic_exercises graph topic_id))
            ≡ true)
        × (recomputed : Db store) × (recompute_lesson_progress store
              (complete_topic_places store content db user_id topic_id now row)
              user_id
              graph
              now
            ≡ ok recomputed)
        × (finish store recomputed user_id key
              (target_event topic_completed graph.id (some topic_id) now)
              (topic topic_id)
              Status.done
            ≡ out)
  unfolding complete_topic_afresh require_started_topic
  complete_topic_afresh-ok db user_id topic_id key now graph out h =
      elim (Option-cases
        (store.topic_progresses.find_unique db.topic_progresses user_id topic_id)) [
          | inl missing ↦ absurd (ground arith)
          | inr (row, found) ↦
              elim (Result-cases (
                recompute_lesson_progress store
                  (complete_topic_places store content db user_id topic_id now row) user_id graph
                  now)) [
                    | inr (e, refused) ↦ absurd (ground arith)
                    | inl (recomputed, done_so) ↦
                        (row, found, ground arith, ground arith, recomputed, done_so, ground arith)
                  ]
        ]

  pub complete_topic_body-ok :
      (db : Db store) (user_id checked_at now topic_id : ℕ) (key : String) (out : Db store × Reply)
      → complete_topic_body store content db user_id checked_at now topic_id key ≡ ok out
      → ((event : StoredEvent) × (store.events.find_unique db.events user_id key ≡ some event)
          × (db ≡ out.0))
        ⊎ ((graph : Graph) × ((found : Topic) × (require_public_topic content topic_id
                ≡ ok (graph, found)))
            × (store.events.find_unique db.events user_id key ≡ none)
            × (complete_topic_afresh store content db user_id topic_id key now graph ≡ ok out))
  unfolding complete_topic_body find_event
  complete_topic_body-ok db user_id checked_at now topic_id key out h =
      elim (Result-cases (require_public_topic content topic_id)) [
        | inr (e, refused) ↦ ground arith
        | inl ((graph, found), at) ↦
            elim (Option-cases (store.events.find_unique db.events user_id key)) [
              | inl absent ↦ inr (graph, (found, at), absent, ground arith)
              | inr (event, there) ↦ inl (event, there, ground arith)
            ]
      ]

  pub complete_topic-ok :
      (db : Db store) (request : Request) (fault : Option Thrown) (topic_id : ℕ)
      (out : Db store × Reply)
      → complete_topic store content db request fault topic_id ≡ ok out
      → (key : String) × (parse_idempotency_key request.raw_key ≡ ok key)
        × (content.is_active request.user_id ≡ true)
        × (complete_topic_body store content db request.user_id request.checked_at request.now
              topic_id key
            ≡ ok out)
  unfolding complete_topic write
  complete_topic-ok db request fault topic_id out h =
      elim (Result-cases (parse_idempotency_key request.raw_key)) [
        | inr (e, refused) ↦ ground arith
        | inl (key, parsed) ↦ elim (Option-cases fault) [
          | inl fine ↦ (key, parsed, ground arith, ground arith)
          | inr (f, failed) ↦ ground arith
        ]
      ]

  pub complete_lesson_afresh-ok :
      (db : Db store) (user_id lesson_id : ℕ) (key : String) (now : ℕ) (graph : Graph)
      (out : Db store × Reply)
      → complete_lesson_afresh store content db user_id lesson_id key now graph ≡ ok out
      → (row : LessonProgress) × (store.progresses.find_unique db.progresses user_id lesson_id
          ≡ some row)
        × (is_some row.started_at ≡ true)
        × (has_open_topic store db user_id graph ≡ false)
        × (has_open_standalone store db user_id graph ≡ false)
        × (finish store
              (complete_lesson_places store content db user_id lesson_id now graph row)
              user_id
              key
              (target_event lesson_completed lesson_id none now)
              (lesson lesson_id)
              Status.done
            ≡ out)
  unfolding complete_lesson_afresh require_started_lesson_progress
  complete_lesson_afresh-ok db user_id lesson_id key now graph out h =
      elim (Option-cases (store.progresses.find_unique db.progresses user_id lesson_id)) [
        | inl missing ↦ absurd (ground arith)
        | inr (row, found) ↦ (row, found, ground arith, ground arith, ground arith, ground arith)
      ]

  pub complete_lesson_body-ok :
      (db : Db store) (user_id checked_at now lesson_id : ℕ) (key : String) (out : Db store × Reply)
      → complete_lesson_body store content db user_id checked_at now lesson_id key ≡ ok out
      → ((event : StoredEvent) × (store.events.find_unique db.events user_id key ≡ some event)
          × (db ≡ out.0))
        ⊎ ((graph : Graph) × (require_public_lesson content lesson_id ≡ ok graph)
            × (store.events.find_unique db.events user_id key ≡ none)
            × (complete_lesson_afresh store content db user_id lesson_id key now graph ≡ ok out))
  unfolding complete_lesson_body find_event
  complete_lesson_body-ok db user_id checked_at now lesson_id key out h =
      elim (Result-cases (require_public_lesson content lesson_id)) [
        | inr (e, refused) ↦ ground arith
        | inl (graph, at) ↦ elim (Option-cases (store.events.find_unique db.events user_id key)) [
          | inl absent ↦ inr (graph, at, absent, ground arith)
          | inr (event, there) ↦ inl (event, there, ground arith)
        ]
      ]

  pub complete_lesson-ok :
      (db : Db store) (request : Request) (fault : Option Thrown) (lesson_id : ℕ)
      (out : Db store × Reply)
      → complete_lesson store content db request fault lesson_id ≡ ok out
      → (key : String) × (parse_idempotency_key request.raw_key ≡ ok key)
        × (content.is_active request.user_id ≡ true)
        × (complete_lesson_body store content db request.user_id request.checked_at request.now
              lesson_id key
            ≡ ok out)
  unfolding complete_lesson write
  complete_lesson-ok db request fault lesson_id out h =
      elim (Result-cases (parse_idempotency_key request.raw_key)) [
        | inr (e, refused) ↦ ground arith
        | inl (key, parsed) ↦ elim (Option-cases fault) [
          | inl fine ↦ (key, parsed, ground arith, ground arith)
          | inr (f, failed) ↦ ground arith
        ]
      ]
