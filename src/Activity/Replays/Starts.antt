-- ===== src/Activity/Replays/Starts.antt =====
-- `startLesson` and `startTopic`, sent again.
use hsk_3_0_app.Base.{
  ℕ, ◌≡◌, refl, subst, inl, inr, false, Option, none, some, String, arith, Option-cases,
}
use hsk_3_0_app.Activity.{ok, Graph, Topic, StoredEvent, lesson_started, topic_started}
use hsk_3_0_app.Activity.Faults.{is_idempotency_key_expired, Thrown}
use hsk_3_0_app.Activity.Store.{Store, Db, Content}
use hsk_3_0_app.Path.{learning}
use hsk_3_0_app.Activity.Service.{
  event_result, assert_event, Request, write, Reply, target_event, lesson, topic,
}
use hsk_3_0_app.Activity.Service.Reads.{find_event, require_public_topic}
use hsk_3_0_app.Activity.Results.{Result-cases}
use hsk_3_0_app.Activity.Service.Starts.{
  start_lesson, start_lesson_body, start_topic, start_topic_body,
}
use hsk_3_0_app.Activity.Inversion.Starts.{
  start_lesson_afresh-ok, start_lesson-ok, start_topic_afresh-ok, start_topic-ok,
}
use hsk_3_0_app.Activity.Replays.{Recorded, IsFresh, finish-Recorded}

module _ (store : Store) (content : Content) where
  start_lesson-accepts :
      (lesson_id : ℕ) (event : StoredEvent) (l : ℕ) (t : Option ℕ) (now : ℕ)
      → event.values ≡ target_event lesson_started lesson_id t now
      → assert_event event lesson_started (lesson lesson_id) ≡ ok tt
  unfolding assert_event
  start_lesson-accepts lesson_id event l t now same = rw same (ground arith)

  start_lesson_body-Recorded :
      (db : Db store) (user_id checked_at now lesson_id : ℕ) (key : String) (out : Db store × Reply)
      → start_lesson_body store content db user_id checked_at now lesson_id key ≡ ok out
      → (graph : Graph) × (content.find_ready_lesson lesson_id ≡ some graph)
        × Recorded store user_id key lesson_started (lesson lesson_id) learning out
  unfolding start_lesson_body find_event
  start_lesson_body-Recorded db user_id checked_at now lesson_id key out h =
      elim (Option-cases (content.find_ready_lesson lesson_id)) [
        | inl missing ↦ absurd (ground arith)
        | inr (graph, at) ↦ elim (Option-cases (store.events.find_unique db.events user_id key)) [
          | inl absent ↦
              let (_, made) =
                start_lesson_afresh-ok store content db user_id lesson_id key now graph out
                  (ground arith) in
              (
                graph,
                at,
                subst (Recorded store user_id key lesson_started (lesson lesson_id) learning) made (
                    finish-Recorded store _ user_id key lesson_started _ (lesson lesson_id) learning
                      (λ event. start_lesson-accepts lesson_id event graph.id none now)),
              )
          | inr (event, there) ↦
              let same : (db, event_result event (lesson lesson_id) learning) ≡ out =
                ground arith in
              let accepted : assert_event event lesson_started (lesson lesson_id) ≡ ok tt =
                ground arith in
              (
                graph,
                at,
                subst (Recorded store user_id key lesson_started (lesson lesson_id) learning) same
                    (record { event = event; there = there; accepted = accepted; told = refl }),
              )
        ]
      ]

  start_lesson_body-again :
      (user_id checked_at now lesson_id : ℕ) (key : String) (out : Db store × Reply) (graph : Graph)
      → content.find_ready_lesson lesson_id ≡ some graph
      → (recorded : Recorded store user_id key lesson_started (lesson lesson_id) learning out)
      → is_idempotency_key_expired recorded.event.created_at checked_at ≡ false
      → start_lesson_body store content out.0 user_id checked_at now lesson_id key ≡ ok out
  unfolding start_lesson_body find_event
  start_lesson_body-again user_id checked_at now lesson_id key out graph at recorded fresh =
      ground (arith, recorded.there, recorded.accepted, recorded.told)

  -- A request of `start_lesson` that succeeds, with or without writing, is answered in the same
  -- way when it is sent again before its key expires, over the same content and without an error
  -- of the database, and the tables stay as they are.
  pub start_lesson-replays :
      (db : Db store) (request : Request) (fault : Option Thrown) (lesson_id : ℕ)
      (out : Db store × Reply) (checked_at now : ℕ)
      → start_lesson store content db request fault lesson_id ≡ ok out
      → IsFresh store out.0 request checked_at
      → start_lesson store content out.0
          (record request { checked_at = checked_at; now = now })
          none
          lesson_id
        ≡ ok out
  unfolding start_lesson write IsFresh
  start_lesson-replays db request fault lesson_id out checked_at now h fresh =
      let (key, parsed, active, body) =
        start_lesson-ok store content db request fault lesson_id out h in
      let (graph, at, recorded) =
        start_lesson_body-Recorded db request.user_id request.checked_at request.now lesson_id key
          out body in
      rw (parsed, active)
        (start_lesson_body-again request.user_id checked_at now lesson_id key out graph at recorded
          (fresh key recorded.event parsed recorded.there))

  start_topic-accepts :
      (topic_id : ℕ) (event : StoredEvent) (l : ℕ) (t : Option ℕ) (now : ℕ)
      → event.values ≡ target_event topic_started l (some topic_id) now
      → assert_event event topic_started (topic topic_id) ≡ ok tt
  unfolding assert_event
  start_topic-accepts topic_id event l t now same = rw same (ground arith)

  start_topic_body-Recorded :
      (db : Db store) (user_id checked_at now topic_id : ℕ) (key : String) (out : Db store × Reply)
      → start_topic_body store content db user_id checked_at now topic_id key ≡ ok out
      → (graph : Graph) × (found : Topic) × (require_public_topic content topic_id
          ≡ ok (graph, found))
        × Recorded store user_id key topic_started (topic topic_id) learning out
  unfolding start_topic_body find_event
  start_topic_body-Recorded db user_id checked_at now topic_id key out h =
      elim (Result-cases (require_public_topic content topic_id)) [
        | inr (e, refused) ↦ absurd (ground arith)
        | inl ((graph, found), at) ↦
            elim (Option-cases (store.events.find_unique db.events user_id key)) [
              | inl absent ↦
                  let (_, _, _, made) =
                    start_topic_afresh-ok store content db user_id topic_id key now graph out
                      (ground arith) in
                  (
                    graph,
                    found,
                    at,
                    subst (Recorded store user_id key topic_started (topic topic_id) learning) made
                        (finish-Recorded store _ user_id key topic_started _ (topic topic_id)
                          learning (λ event. start_topic-accepts topic_id event graph.id none now)),
                  )
              | inr (event, there) ↦
                  let same : (db, event_result event (topic topic_id) learning) ≡ out =
                    ground arith in
                  let accepted : assert_event event topic_started (topic topic_id) ≡ ok tt =
                    ground arith in
                  (
                    graph,
                    found,
                    at,
                    subst (Recorded store user_id key topic_started (topic topic_id) learning) same
                        (record { event = event; there = there; accepted = accepted; told = refl }),
                  )
            ]
      ]

  start_topic_body-again :
      (user_id checked_at now topic_id : ℕ) (key : String) (out : Db store × Reply) (graph : Graph)
      (found : Topic)
      → require_public_topic content topic_id ≡ ok (graph, found)
      → (recorded : Recorded store user_id key topic_started (topic topic_id) learning out)
      → is_idempotency_key_expired recorded.event.created_at checked_at ≡ false
      → start_topic_body store content out.0 user_id checked_at now topic_id key ≡ ok out
  unfolding start_topic_body find_event
  start_topic_body-again user_id checked_at now topic_id key out graph found at recorded fresh =
      ground (arith, recorded.there, recorded.accepted, recorded.told)

  -- A request of `start_topic` that succeeds, with or without writing, is answered in the same
  -- way when it is sent again before its key expires, over the same content and without an error
  -- of the database, and the tables stay as they are.
  pub start_topic-replays :
      (db : Db store) (request : Request) (fault : Option Thrown) (topic_id : ℕ)
      (out : Db store × Reply) (checked_at now : ℕ)
      → start_topic store content db request fault topic_id ≡ ok out
      → IsFresh store out.0 request checked_at
      → start_topic store content out.0
          (record request { checked_at = checked_at; now = now })
          none
          topic_id
        ≡ ok out
  unfolding start_topic write IsFresh
  start_topic-replays db request fault topic_id out checked_at now h fresh =
      let (key, parsed, active, body) =
        start_topic-ok store content db request fault topic_id out h in
      let (graph, found, at, recorded) =
        start_topic_body-Recorded db request.user_id request.checked_at request.now topic_id key out
          body in
      rw (parsed, active)
        (start_topic_body-again request.user_id checked_at now topic_id key out graph found at
          recorded (fresh key recorded.event parsed recorded.there))
