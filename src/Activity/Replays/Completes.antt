-- ===== src/Activity/Replays/Completes.antt =====
-- `completeTopic` and `completeLesson`, sent again.
use hsk_3_0_app.Base.{
  ℕ, ◌≡◌, refl, subst, inl, inr, false, Option, none, some, String, arith, Option-cases,
}
use hsk_3_0_app.Activity.{ok, Graph, Topic, StoredEvent, lesson_completed, topic_completed}
use hsk_3_0_app.Activity.Faults.{is_idempotency_key_expired, Thrown}
use hsk_3_0_app.Activity.Store.{Store, Db, Content}
use hsk_3_0_app.Path.{Status}
use hsk_3_0_app.Activity.Service.{
  event_result, assert_event, Request, write, Reply, target_event, lesson, topic,
}
use hsk_3_0_app.Activity.Service.Reads.{find_event, require_public_topic}
use hsk_3_0_app.Activity.Results.{Result-cases}
use hsk_3_0_app.Activity.Service.Completes.{
  complete_topic_body, complete_topic, complete_lesson_body, complete_lesson,
}
use hsk_3_0_app.Activity.Inversion.Completes.{
  complete_lesson_afresh-ok, complete_lesson-ok, complete_topic_afresh-ok, complete_topic-ok,
}
use hsk_3_0_app.Activity.Replays.{Recorded, IsFresh, finish-Recorded}

module _ (store : Store) (content : Content) where
  complete_topic-accepts :
      (topic_id : ℕ) (event : StoredEvent) (l : ℕ) (t : Option ℕ) (now : ℕ)
      → event.values ≡ target_event topic_completed l (some topic_id) now
      → assert_event event topic_completed (topic topic_id) ≡ ok tt
  unfolding assert_event
  complete_topic-accepts topic_id event l t now same = rw same (ground arith)

  complete_topic_body-Recorded :
      (db : Db store) (user_id checked_at now topic_id : ℕ) (key : String) (out : Db store × Reply)
      → complete_topic_body store content db user_id checked_at now topic_id key ≡ ok out
      → (graph : Graph) × (found : Topic) × (require_public_topic content topic_id
          ≡ ok (graph, found))
        × Recorded store user_id key topic_completed (topic topic_id) Status.done out
  unfolding complete_topic_body find_event
  complete_topic_body-Recorded db user_id checked_at now topic_id key out h =
      elim (Result-cases (require_public_topic content topic_id)) [
        | inr (e, refused) ↦ absurd (ground arith)
        | inl ((graph, found), at) ↦
            elim (Option-cases (store.events.find_unique db.events user_id key)) [
              | inl absent ↦
                  let (_, _, _, _, recomputed, _, made) =
                    complete_topic_afresh-ok store content db user_id topic_id key now graph out
                      (ground arith) in
                  (
                    graph,
                    found,
                    at,
                    subst (Recorded store user_id key topic_completed (topic topic_id) Status.done)
                        made
                        (finish-Recorded store recomputed user_id key topic_completed _
                          (topic topic_id) Status.done
                          (λ event. complete_topic-accepts topic_id event graph.id none now)),
                  )
              | inr (event, there) ↦
                  let same : (db, event_result event (topic topic_id) Status.done) ≡ out =
                    ground arith in
                  let accepted : assert_event event topic_completed (topic topic_id) ≡ ok tt =
                    ground arith in
                  (
                    graph,
                    found,
                    at,
                    subst (Recorded store user_id key topic_completed (topic topic_id) Status.done)
                        same
                        (record { event = event; there = there; accepted = accepted; told = refl }),
                  )
            ]
      ]

  complete_topic_body-again :
      (user_id checked_at now topic_id : ℕ) (key : String) (out : Db store × Reply) (graph : Graph)
      (found : Topic)
      → require_public_topic content topic_id ≡ ok (graph, found)
      → (recorded : Recorded store user_id key topic_completed (topic topic_id) Status.done out)
      → is_idempotency_key_expired recorded.event.created_at checked_at ≡ false
      → complete_topic_body store content out.0 user_id checked_at now topic_id key ≡ ok out
  unfolding complete_topic_body find_event
  complete_topic_body-again user_id checked_at now topic_id key out graph found at recorded fresh =
      ground (arith, recorded.there, recorded.accepted, recorded.told)

  -- A request of `complete_topic` that succeeds, with or without writing, is answered in the same
  -- way when it is sent again before its key expires, over the same content and without an error
  -- of the database, and the tables stay as they are.
  pub complete_topic-replays :
      (db : Db store) (request : Request) (fault : Option Thrown) (topic_id : ℕ)
      (out : Db store × Reply) (checked_at now : ℕ)
      → complete_topic store content db request fault topic_id ≡ ok out
      → IsFresh store out.0 request checked_at
      → complete_topic store content out.0
          (record request { checked_at = checked_at; now = now })
          none
          topic_id
        ≡ ok out
  unfolding complete_topic write IsFresh
  complete_topic-replays db request fault topic_id out checked_at now h fresh =
      let (key, parsed, active, body) =
        complete_topic-ok store content db request fault topic_id out h in
      let (graph, found, at, recorded) =
        complete_topic_body-Recorded db request.user_id request.checked_at request.now topic_id key
          out body in
      rw (parsed, active)
        (complete_topic_body-again request.user_id checked_at now topic_id key out graph found at
          recorded (fresh key recorded.event parsed recorded.there))

  complete_lesson-accepts :
      (lesson_id : ℕ) (event : StoredEvent) (l : ℕ) (t : Option ℕ) (now : ℕ)
      → event.values ≡ target_event lesson_completed lesson_id t now
      → assert_event event lesson_completed (lesson lesson_id) ≡ ok tt
  unfolding assert_event
  complete_lesson-accepts lesson_id event l t now same = rw same (ground arith)

  complete_lesson_body-Recorded :
      (db : Db store) (user_id checked_at now lesson_id : ℕ) (key : String) (out : Db store × Reply)
      → complete_lesson_body store content db user_id checked_at now lesson_id key ≡ ok out
      → (graph : Graph) × (content.find_ready_lesson lesson_id ≡ some graph)
        × Recorded store user_id key lesson_completed (lesson lesson_id) Status.done out
  unfolding complete_lesson_body find_event
  complete_lesson_body-Recorded db user_id checked_at now lesson_id key out h =
      elim (Option-cases (content.find_ready_lesson lesson_id)) [
        | inl missing ↦ absurd (ground arith)
        | inr (graph, at) ↦ elim (Option-cases (store.events.find_unique db.events user_id key)) [
          | inl absent ↦
              let (_, _, _, _, _, made) =
                complete_lesson_afresh-ok store content db user_id lesson_id key now graph out
                  (ground arith) in
              (
                graph,
                at,
                subst (Recorded store user_id key lesson_completed (lesson lesson_id) Status.done)
                    made
                    (finish-Recorded store _ user_id key lesson_completed _ (lesson lesson_id)
                      Status.done
                      (λ event. complete_lesson-accepts lesson_id event graph.id none now)),
              )
          | inr (event, there) ↦
              let same : (db, event_result event (lesson lesson_id) Status.done) ≡ out =
                ground arith in
              let accepted : assert_event event lesson_completed (lesson lesson_id) ≡ ok tt =
                ground arith in
              (
                graph,
                at,
                subst (Recorded store user_id key lesson_completed (lesson lesson_id) Status.done)
                    same
                    (record { event = event; there = there; accepted = accepted; told = refl }),
              )
        ]
      ]

  complete_lesson_body-again :
      (user_id checked_at now lesson_id : ℕ) (key : String) (out : Db store × Reply) (graph : Graph)
      → content.find_ready_lesson lesson_id ≡ some graph
      → (recorded : Recorded store user_id key lesson_completed (lesson lesson_id) Status.done out)
      → is_idempotency_key_expired recorded.event.created_at checked_at ≡ false
      → complete_lesson_body store content out.0 user_id checked_at now lesson_id key ≡ ok out
  unfolding complete_lesson_body find_event
  complete_lesson_body-again user_id checked_at now lesson_id key out graph at recorded fresh =
      ground (arith, recorded.there, recorded.accepted, recorded.told)

  -- A request of `complete_lesson` that succeeds, with or without writing, is answered in the same
  -- way when it is sent again before its key expires, over the same content and without an error
  -- of the database, and the tables stay as they are.
  pub complete_lesson-replays :
      (db : Db store) (request : Request) (fault : Option Thrown) (lesson_id : ℕ)
      (out : Db store × Reply) (checked_at now : ℕ)
      → complete_lesson store content db request fault lesson_id ≡ ok out
      → IsFresh store out.0 request checked_at
      → complete_lesson store content out.0
          (record request { checked_at = checked_at; now = now })
          none
          lesson_id
        ≡ ok out
  unfolding complete_lesson write IsFresh
  complete_lesson-replays db request fault lesson_id out checked_at now h fresh =
      let (key, parsed, active, body) =
        complete_lesson-ok store content db request fault lesson_id out h in
      let (graph, at, recorded) =
        complete_lesson_body-Recorded db request.user_id request.checked_at request.now lesson_id
          key out body in
      rw (parsed, active)
        (complete_lesson_body-again request.user_id checked_at now lesson_id key out graph at
          recorded (fresh key recorded.event parsed recorded.there))
