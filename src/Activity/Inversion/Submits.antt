-- ===== src/Activity/Inversion/Submits.antt =====
-- What a successful `submitAttempt` has read and written.
use hsk_3_0_app.Base.{ℕ, ◌≡◌, ◌⊎◌, inl, inr, true, Option, none, some, String, arith, Option-cases}
use hsk_3_0_app.Activity.{ok, Graph, StoredEvent, Exercise}
use hsk_3_0_app.Activity.Faults.{Thrown, parse_idempotency_key}
use hsk_3_0_app.Activity.Store.{Store, Db, Content, Grading, Score}
use hsk_3_0_app.Activity.Service.{Request, write, Reply}
use hsk_3_0_app.Activity.Service.Reads.{
  find_event, require_public_exercise, require_started_lesson_progress,
}
use hsk_3_0_app.Activity.Service.Recompute.{recompute_lesson_progress}
use hsk_3_0_app.Activity.Results.{Result-cases}
use hsk_3_0_app.Activity.Service.Submit.{
  Submission, create_attempt, recompute_topic_of, attempt_event, finish_attempt, submit_afresh,
  require_replay_attempt, submit_body, submit_attempt,
}

module _ (store : Store) (content : Content) (grading : Grading) where
  -- The state after the attempt is created.
  abbrev pub placed :
      Db store
      → (user_id : ℕ) (key request_hash : String) (now : ℕ) → Submission
      → Graph
      → Exercise
      → Score
      → Db store
  placed db user_id key request_hash now submission graph found score = record db {
    attempts =
        (create_attempt store content grading db user_id graph found submission score request_hash
          key now).0;
  }

  pub submit_afresh-graded :
      (db : Db store) (user_id : ℕ) (key request_hash : String) (now : ℕ) (submission : Submission)
      (graph : Graph) (found : Exercise) (out : Db store × Reply)
      → submit_afresh store content grading db user_id key request_hash now submission graph found
        ≡ ok out
      → (score : Score) × (grading.score_lesson_exercise found submission.answer ≡ ok score)
        × (recomputed : Db store) × (recompute_lesson_progress store
              (recompute_topic_of store content grading
                (placed db user_id key request_hash now submission graph found score)
                user_id
                graph
                found
                now)
              user_id
              graph
              now
            ≡ ok recomputed)
        × (finish_attempt store content grading recomputed user_id key
              (attempt_event store content grading graph found
                (create_attempt store content grading db user_id graph found submission score
                  request_hash key now).1
                now)
              (create_attempt store content grading db user_id graph found submission score
                request_hash key now).1
            ≡ out)
  unfolding submit_afresh
  submit_afresh-graded db user_id key request_hash now submission graph found out h =
      elim (Result-cases (require_started_lesson_progress store db user_id graph.id)) [
        | inr (e, refused) ↦ absurd (ground arith)
        | inl (progress, started) ↦
            elim (Result-cases (grading.score_lesson_exercise found submission.answer)) [
              | inr (e, refused) ↦ absurd (ground arith)
              | inl (score, scored) ↦
                  elim (Result-cases (
                    recompute_lesson_progress store
                      (recompute_topic_of store content grading
                        (placed db user_id key request_hash now submission graph found score)
                        user_id graph found now)
                      user_id graph now)) [
                        | inr (e, refused) ↦ absurd (ground arith)
                        | inl (recomputed, done_so) ↦
                            (score, scored, recomputed, done_so, ground arith)
                      ]
            ]
      ]

  pub submit_afresh-ok :
      (db : Db store) (user_id : ℕ) (key request_hash : String) (now : ℕ) (submission : Submission)
      (graph : Graph) (found : Exercise) (out : Db store × Reply)
      → submit_afresh store content grading db user_id key request_hash now submission graph found
        ≡ ok out
      → (score : Score) × (recomputed : Db store) × (recompute_lesson_progress store
            (recompute_topic_of store content grading
              (placed db user_id key request_hash now submission graph found score)
              user_id
              graph
              found
              now)
            user_id
            graph
            now
          ≡ ok recomputed)
        × (finish_attempt store content grading recomputed user_id key
              (attempt_event store content grading graph found
                (create_attempt store content grading db user_id graph found submission score
                  request_hash key now).1
                now)
              (create_attempt store content grading db user_id graph found submission score
                request_hash key now).1
            ≡ out)
  submit_afresh-ok db user_id key request_hash now submission graph found out h =
      let (score, scored, recomputed, done_so, made) =
        submit_afresh-graded db user_id key request_hash now submission graph found out h in
      (score, recomputed, done_so, made)

  pub submit_body-ok :
      (db : Db store) (user_id checked_at now exercise_id : ℕ) (key request_hash : String)
      (submission : Submission) (out : Db store × Reply)
      → submit_body store content grading db user_id checked_at now exercise_id key request_hash
          submission
        ≡ ok out
      → ((event : StoredEvent) × (store.events.find_unique db.events user_id key ≡ some event)
          × (db ≡ out.0))
        ⊎ ((graph : Graph) × (found : Exercise) × (require_public_exercise content exercise_id
              ≡ ok (graph, found))
            × (store.events.find_unique db.events user_id key ≡ none)
            × (submit_afresh store content grading db user_id key request_hash now submission graph
                  found
                ≡ ok out))
  unfolding submit_body find_event
  submit_body-ok db user_id checked_at now exercise_id key request_hash submission out h =
      elim (Option-cases (store.events.find_unique db.events user_id key)) [
        | inl absent ↦ elim (Result-cases (require_public_exercise content exercise_id)) [
          | inr (e, refused) ↦ absurd (ground arith)
          | inl ((graph, found), at) ↦ inr (graph, found, at, absent, ground arith)
        ]
        | inr (event, there) ↦
            elim (Result-cases
              (require_replay_attempt store content grading db user_id event request_hash)) [
                | inr (e, refused) ↦ absurd (ground arith)
                | inl (attempt, at) ↦ inl (event, there, ground arith)
              ]
      ]

  pub submit_attempt-ok :
      (db : Db store) (request : Request) (fault : Option Thrown) (exercise_id : ℕ)
      (submission : Submission) (out : Db store × Reply)
      → submit_attempt store content grading db request fault exercise_id submission ≡ ok out
      → (key request_hash : String) × (parse_idempotency_key request.raw_key ≡ ok key)
        × (content.is_active request.user_id ≡ true)
        × (grading.build_activity_request_hash exercise_id submission.answer
              submission.duration_seconds
            ≡ ok request_hash)
        × (submit_body store content grading db request.user_id request.checked_at request.now
              exercise_id key request_hash submission
            ≡ ok out)
  unfolding submit_attempt write
  submit_attempt-ok db request fault exercise_id submission out h =
      elim (Result-cases (parse_idempotency_key request.raw_key)) [
        | inr (e, refused) ↦ absurd (ground arith)
        | inl (key, parsed) ↦
            elim (Result-cases (
              grading.build_activity_request_hash exercise_id submission.answer
                submission.duration_seconds)) [
                  | inr (e, refused) ↦ absurd (ground arith)
                  | inl (request_hash, hashed) ↦ elim (Option-cases fault) [
                    | inl fine ↦ (key, request_hash, parsed, ground arith, hashed, ground arith)
                    | inr (f, failed) ↦ absurd (ground arith)
                  ]
                ]
      ]
