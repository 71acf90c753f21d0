-- ===== src/Activity/Replays/Submits.antt =====
-- `submitAttempt`, sent again.
use text.Mathlib.TextPositions.{eq_refl}
use hsk_3_0_app.Base.{
  ℕ, ◌≡◌, refl, sym, ap, subst, ◌∙◌, inl, inr, Bool, true, false, ◌&&◌, Option, none, some, String,
  arith, ◌==◌, Option-cases, is_some, find, find-mem, ==_iff,
}
use hsk_3_0_app.Activity.{
  exercise_submitted, ok, Graph, EventValues, StoredEvent, Attempt, AttemptValues, Exercise,
}
use hsk_3_0_app.Activity.Faults.{is_idempotency_key_expired, Thrown}
use hsk_3_0_app.Activity.Store.{Store, Db, Content, Grading}
use hsk_3_0_app.Activity.Service.{attempt_reply, exercise, assert_event, Request, write, Reply}
use hsk_3_0_app.Activity.Service.Reads.{find_event, require_public_exercise}
use hsk_3_0_app.Activity.Service.Recompute.{recompute_topic_progress, recompute_lesson_progress}
use hsk_3_0_app.Activity.Results.{Result-cases}
use hsk_3_0_app.Activity.Service.Submit.{
  Submission, create_attempt, attempt_values, recompute_topic_of, attempt_event, finish_attempt,
  submit_afresh, require_replay_attempt, submit_body, submit_attempt,
}
use hsk_3_0_app.Activity.Inversion.Submits.{placed, submit_afresh-ok, submit_attempt-ok}
use hsk_3_0_app.Activity.Inversion.Completes.{recompute_lesson_progress-ok}
use hsk_3_0_app.Activity.Replays.{IsFresh}

pub require_public_exercise-id :
    (content : Content) (exercise_id : ℕ) (graph : Graph) (found : Exercise)
    → require_public_exercise content exercise_id ≡ ok (graph, found)
    → found.id ≡ exercise_id
unfolding require_public_exercise
require_public_exercise-id content exercise_id graph found h =
    elim (Option-cases (content.exercise_lesson exercise_id)) [
      | inl missing ↦ absurd (ground arith)
      | inr (lesson_id, at) ↦ elim (Option-cases (content.find_ready_lesson lesson_id)) [
        | inl hidden ↦ absurd (ground arith)
        | inr (g, there) ↦
            let test : Exercise → Bool = λ e. e.id == exercise_id in
            elim (Option-cases (find test g.exercises)) [
              | inl none_found ↦ absurd (ground arith)
              | inr (e, here) ↦
                  let same : e ≡ found = ground arith in
                  subst (λ (x : Exercise). x.id ≡ exercise_id) same
                    ((==_iff _ _).0 (find-mem test g.exercises here).1)
            ]
      ]
    ]

module _ (store : Store) (content : Content) (grading : Grading) where
  accepts :
      (event : StoredEvent) (values : EventValues) (id : ℕ)
      → event.values ≡ values
      → values.kind ≡ exercise_submitted
      → values.exercise_id ≡ some id
      → assert_event event exercise_submitted (exercise id) ≡ ok tt
  unfolding assert_event
  accepts event values id written kind about = rw (written, kind, about) (ground arith)

  -- The key has an event of an attempt with this hash, and the answer is the attempt.
  record Recorded (user_id exercise_id : ℕ) (key request_hash : String) (out : Db store × Reply)
      : Type 0 where
    pub event : StoredEvent
    pub attempt : Attempt
    pub there : store.events.find_unique out.0.events user_id key ≡ some event
    pub accepted : assert_event event exercise_submitted (exercise exercise_id) ≡ ok tt
    pub again :
        require_replay_attempt store content grading out.0 user_id event request_hash ≡ ok attempt
    pub told : (out.0, attempt_reply attempt) ≡ out

  pub recompute-attempts :
      (db : Db store) (user_id : ℕ) (graph : Graph) (found : Exercise) (now : ℕ)
      (recomputed : Db store)
      → recompute_lesson_progress store
          (recompute_topic_of store content grading db user_id graph found now)
          user_id
          graph
          now
        ≡ ok recomputed
      → recomputed.attempts ≡ db.attempts
  unfolding recompute_topic_of recompute_topic_progress
  recompute-attempts db user_id graph found now recomputed h =
      let (_, _, same) = recompute_lesson_progress-ok store _ user_id graph now recomputed h in
      sym (ap (λ (o : Db store). o.attempts) same) ∙ elim (Option-cases found.topic_id) [
        | inl missing ↦ rw missing refl
        | inr (topic_id, at) ↦ rw at refl
      ]

  replayed_attempt :
      (db : Db store) (rows : store.attempts.Rows) (user_id : ℕ) (key request_hash : String)
      (values : AttemptValues) (event : StoredEvent)
      → db.attempts ≡ (store.attempts.create rows values).0
      → values.user_id ≡ user_id
      → values.request_hash ≡ some request_hash
      → is_some values.submitted_at ≡ true
      → event.attempt_id ≡ some (store.attempts.create rows values).1.id
      → require_replay_attempt store content grading db user_id event request_hash
        ≡ ok (store.attempts.create rows values).1
  unfolding require_replay_attempt
  replayed_attempt db rows user_id key request_hash values event here owner hashed submitted
        linked =
      let made = (store.attempts.create rows values).1 in
      let written = store.attempts.create-values rows values in
      let own : made.user_id ≡ user_id = ap (λ (v : AttemptValues). v.user_id) written ∙ owner in
      let hash : made.request_hash ≡ some request_hash =
        ap (λ (v : AttemptValues). v.request_hash) written ∙ hashed in
      let sent : is_some made.submitted_at ≡ true =
        ap (λ (v : AttemptValues). is_some v.submitted_at) written ∙ submitted in
      rw (here, store.attempts.all-create rows values, linked)
        (ground (arith, own, hash, sent, eq_refl request_hash))

  submit_afresh-Recorded :
      (db : Db store) (user_id : ℕ) (key request_hash : String) (now : ℕ) (submission : Submission)
      (graph : Graph) (found : Exercise) (out : Db store × Reply)
      → submit_afresh store content grading db user_id key request_hash now submission graph found
        ≡ ok out
      → Recorded user_id found.id key request_hash out
  unfolding finish_attempt create_attempt attempt_values
  submit_afresh-Recorded db user_id key request_hash now submission graph found out h =
      let (score, recomputed, done_so, made) =
        submit_afresh-ok store content grading db user_id key request_hash now submission graph
          found out h in
      let start =
        placed store content grading db user_id key request_hash now submission graph found score in
      let row =
        create_attempt store content grading db user_id graph found submission score request_hash
          key now in
      let values = attempt_event store content grading graph found row.1 now in
      let event = (store.events.create recomputed.events user_id key values).1 in
      let written = store.events.create-values recomputed.events user_id key values in
      let here : ((user_id == user_id) && store.events.same_key key key) ≡ true =
        rw ((store.events.same_key_iff key key).1 refl) (ground arith) in
      let last : Db store = record recomputed {
        events = (store.events.create recomputed.events user_id key values).0;
      } in
      subst (Recorded user_id found.id key request_hash) made (record {
        event = event;
        attempt = row.1;
        there =
            rw (store.events.find-create recomputed.events user_id key values user_id key, here)
              refl;
        accepted = accepts event values found.id written refl (ground arith);
        again =
            replayed_attempt last db.attempts user_id key request_hash _ event
              (recompute-attempts start user_id graph found now recomputed done_so) refl refl refl
              (ap (λ (v : EventValues). v.attempt_id) written);
        told = refl;
      })

  submit_body-Recorded :
      (db : Db store) (user_id checked_at now exercise_id : ℕ) (key request_hash : String)
      (submission : Submission) (out : Db store × Reply)
      → submit_body store content grading db user_id checked_at now exercise_id key request_hash
          submission
        ≡ ok out
      → Recorded user_id exercise_id key request_hash out
  unfolding submit_body find_event
  submit_body-Recorded db user_id checked_at now exercise_id key request_hash submission out h =
      elim (Option-cases (store.events.find_unique db.events user_id key)) [
        | inl absent ↦ elim (Result-cases (require_public_exercise content exercise_id)) [
          | inr (e, refused) ↦ absurd (ground arith)
          | inl ((graph, found), at) ↦
              subst (λ id. Recorded user_id id key request_hash out)
                (require_public_exercise-id content exercise_id graph found at)
                (submit_afresh-Recorded db user_id key request_hash now submission graph found out
                  (ground arith))
        ]
        | inr (event, there) ↦
            elim (Result-cases
              (require_replay_attempt store content grading db user_id event request_hash)) [
                | inr (e, refused) ↦ absurd (ground arith)
                | inl (attempt, again) ↦
                    let same : (db, attempt_reply attempt) ≡ out = ground arith in
                    let accepted : assert_event event exercise_submitted (exercise exercise_id)
                        ≡ ok tt =
                      ground arith in
                    subst (Recorded user_id exercise_id key request_hash) same (record {
                      event = event;
                      attempt = attempt;
                      there = there;
                      accepted = accepted;
                      again = again;
                      told = refl;
                    })
              ]
      ]

  submit_body-again :
      (user_id checked_at now exercise_id : ℕ) (key request_hash : String) (submission : Submission)
      (out : Db store × Reply) (recorded : Recorded user_id exercise_id key request_hash out)
      → is_idempotency_key_expired recorded.event.created_at checked_at ≡ false
      → submit_body store content grading out.0 user_id checked_at now exercise_id key request_hash
          submission
        ≡ ok out
  unfolding submit_body find_event
  submit_body-again user_id checked_at now exercise_id key request_hash submission out recorded
        fresh =
      ground (arith, recorded.there, recorded.accepted, recorded.again, recorded.told)

  -- A request of `submitAttempt` that succeeds, with or without writing, is answered with the same
  -- attempt when it is sent again before its key expires, over the same content and without an
  -- error of the database, and the tables stay as they are: no second attempt is made.
  pub submit_attempt-replays :
      (db : Db store) (request : Request) (fault : Option Thrown) (exercise_id : ℕ)
      (submission : Submission) (out : Db store × Reply) (checked_at now : ℕ)
      → submit_attempt store content grading db request fault exercise_id submission ≡ ok out
      → IsFresh store out.0 request checked_at
      → submit_attempt store content grading out.0
          (record request { checked_at = checked_at; now = now })
          none
          exercise_id
          submission
        ≡ ok out
  unfolding submit_attempt write IsFresh
  submit_attempt-replays db request fault exercise_id submission out checked_at now h fresh =
      let (key, hash, parsed, active, hashed, body) =
        submit_attempt-ok store content grading db request fault exercise_id submission out h in
      let recorded =
        submit_body-Recorded db request.user_id request.checked_at request.now exercise_id key hash
          submission out body in
      rw (parsed, hashed, active)
        (submit_body-again request.user_id checked_at now exercise_id key hash submission out
          recorded (fresh key recorded.event parsed recorded.there))
