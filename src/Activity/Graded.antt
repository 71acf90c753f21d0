-- ===== src/Activity/Graded.antt =====
-- `submitAttempt` of lesson-activity.service.ts over the scorer of lesson-activity-scorer.ts.
use hsk_3_0_app.Base.{ℕ, ◌≡◌, sym, ap, ◌∙◌, inl, inr, true, false, Option, none, some, String, Memᴰ}
use hsk_3_0_app.Activity.{Result, ok, ExerciseType, Json, Graph, Exercise, Attempt, AttemptValues}
use hsk_3_0_app.Activity.Faults.{Thrown, parse_idempotency_key}
use hsk_3_0_app.Activity.Store.{Store, Db, Content, Grading, Score}
use hsk_3_0_app.Activity.Service.{attempt_reply, Request, Reply}
use hsk_3_0_app.Activity.Service.Reads.{require_public_exercise}
use hsk_3_0_app.Activity.Service.Submit.{
  Submission, create_attempt, attempt_values, finish_attempt, submit_attempt,
}
use hsk_3_0_app.Activity.Inversion.{key_unique}
use hsk_3_0_app.Activity.Inversion.Submits.{submit_afresh-graded, submit_body-ok, submit_attempt-ok}
use hsk_3_0_app.Activity.Results.{ok-injective}
use hsk_3_0_app.Authoring.{Unicode, draft, passed, AuthoringValue}
use hsk_3_0_app.Authoring.Input.{validate_lesson_exercise_authoring}
use hsk_3_0_app.Authoring.Score.{score_lesson_exercise, scoring_input, is_speaking, score_of}
use hsk_3_0_app.Authoring.RoundTrip.{right_answers, score_lesson_exercise-right}

-- The calls of the service, with the scorer of the repository.
abbrev pub graded :
    Unicode
    → ((exercise_id : ℕ) (answer : Json) (duration_seconds : Option ℕ) → Result String)
    → (ExerciseType → Json → Json)
    → Grading
graded unicode hash media = record {
  score_lesson_exercise = λ found submitted.
      score_lesson_exercise unicode found.kind found.content found.answer submitted;
  build_activity_request_hash = hash;
  project_public_exercise_media = media;
}

module _ (store : Store) (content : Content) (unicode : Unicode)
    (hash : (exercise_id : ℕ) (answer : Json) (duration_seconds : Option ℕ) → Result String)
    (media : ExerciseType → Json → Json) where
  -- An answer that the author has accepted, submitted under a key that has no event to an exercise
  -- that is not a speaking one, is answered with an attempt that is correct and has the score 100,
  -- where the call succeeds and normalizing to NFKC twice is the same as once.
  pub submit_attempt-right :
      ((s : String) → unicode.nfkc (unicode.nfkc s) ≡ unicode.nfkc s)
      → (db : Db store) (request : Request) (fault : Option Thrown) (exercise_id : ℕ)
        (submission : Submission) (key : String) (graph : Graph) (found : Exercise)
        (value : AuthoringValue) (out : Db store × Reply)
      → parse_idempotency_key request.raw_key ≡ ok key
      → store.events.find_unique db.events request.user_id key ≡ none
      → require_public_exercise content exercise_id ≡ ok (graph, found)
      → is_speaking found.kind ≡ false
      → validate_lesson_exercise_authoring unicode
          (scoring_input found.kind found.content found.answer)
          draft
        ≡ passed value
      → Memᴰ submission.answer (right_answers value.authored)
      → submit_attempt store content
          (graded unicode hash media)
          db
          request
          fault
          exercise_id
          submission
        ≡ ok out
      → (made : Attempt) × (out.1 ≡ attempt_reply made)
        × (made.score ≡ some 100)
        × (made.is_correct ≡ some true)
  unfolding finish_attempt create_attempt attempt_values
  submit_attempt-right idempotent db request fault exercise_id submission key graph found value out
        parsed absent public silent valid right h =
      let grading = graded unicode hash media in
      let (j, request_hash, parsed_j, _, _, body) =
        submit_attempt-ok store content grading db request fault exercise_id submission out h in
      let same = key_unique request.raw_key parsed_j parsed in
      elim (submit_body-ok store content grading db _ _ _ _ j request_hash submission out body) [
        | inl (event, there, _) ↦ cc (ap (store.events.find_unique db.events request.user_id) same)
        | inr (g, f, at, _, afresh) ↦
            let (score, scored, recomputed, done_so, made) =
              submit_afresh-graded store content grading db request.user_id j request_hash
                request.now submission g f out afresh in
            let values =
              attempt_values store content grading db request.user_id g f submission score
                request_hash j request.now in
            let row = (store.attempts.create db.attempts values).1 in
            let written = store.attempts.create-values db.attempts values in
            let named : f ≡ found =
              ap (λ (p : Graph × Exercise). p.1) (ok-injective (sym at ∙ public)) in
            let sure =
              score_lesson_exercise-right unicode idempotent found.kind found.content found.answer
                submission.answer value silent valid right in
            let hundred : score ≡ score_of true = ok-injective (
              sym scored
              ∙ ap
                  (λ (x : Exercise).
                    score_lesson_exercise unicode x.kind x.content x.answer submission.answer)
                  named
              ∙ sure) in
            (
              row,
              sym (ap (λ (o : Db store × Reply). o.1) made),
              ap (λ (v : AttemptValues). v.score) written
                  ∙ ap (λ (s : Score). some s.score) hundred,
              ap (λ (v : AttemptValues). v.is_correct) written
                  ∙ ap (λ (s : Score). some s.is_correct) hundred,
            )
      ]
