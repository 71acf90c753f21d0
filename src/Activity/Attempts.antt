-- ===== src/Activity/Attempts.antt =====
-- The attempt that `submitAttempt` of lesson-activity.service.ts adds.
use hsk_3_0_app.Activity.Inversion.{key_unique}
use hsk_3_0_app.Base.{
  ℕ, ◌≡◌, sym, ap, ◌∙◌, inl, inr, Bool, ◌&&◌, Option, none, some, String, List, arith, ◌==◌,
  Bool-cases, [], ◌∷◌, All, filter, ◌≤◌, ◌<◌, ◌+◌,
}
use hsk_3_0_app.Activity.{ok, Attempt, AttemptValues}
use hsk_3_0_app.Activity.Faults.{Thrown, parse_idempotency_key}
use hsk_3_0_app.Activity.Store.{Store, Db, Content, Grading}
use hsk_3_0_app.Activity.Service.{attempt_reply, Request, Reply}
use hsk_3_0_app.Activity.Service.Submit.{
  Submission, create_attempt, attempt_values, max_attempt_number, finish_attempt, submit_attempt,
}
use hsk_3_0_app.Activity.Inversion.Submits.{
  placed, submit_afresh-ok, submit_body-ok, submit_attempt-ok,
}
use hsk_3_0_app.Activity.Replays.Submits.{require_public_exercise-id, recompute-attempts}

-- An attempt of the user at the exercise.
abbrev pub is_of : (user_id exercise_id : ℕ) → Attempt → Bool
is_of user_id exercise_id a = a.user_id == user_id && a.exercise_id == exercise_id

All-weaken :
    (n m : ℕ) (xs : List Attempt)
    → n ≤ m
    → All (λ (a : Attempt). a.attempt_number ≤ n) xs
    → All (λ (a : Attempt). a.attempt_number ≤ m) xs
All-weaken n m [] h below = tt
All-weaken n m (x ∷ xs) h (first, rest) = (omega (arith, h, first), All-weaken n m xs h rest)

max_attempt_number-All :
    (xs : List Attempt) (user_id exercise_id : ℕ)
    → All
        (λ (a : Attempt). a.attempt_number ≤ max_attempt_number xs user_id exercise_id)
        (filter (is_of user_id exercise_id) xs)
unfolding max_attempt_number
max_attempt_number-All [] user_id exercise_id = tt
max_attempt_number-All (x ∷ xs) user_id exercise_id =
    let rest = max_attempt_number-All xs user_id exercise_id in
    elim (Bool-cases (is_of user_id exercise_id x)) [
      | inl own ↦
          rw own
            (omega arith, All-weaken _ _ (filter (is_of user_id exercise_id) xs) (omega arith) rest)
      | inr other ↦ rw other rest
    ]

All-below :
    (n m : ℕ) (xs : List Attempt)
    → m ≡ n + 1
    → All (λ (a : Attempt). a.attempt_number ≤ n) xs
    → All (λ (a : Attempt). a.attempt_number < m) xs
All-below n m [] h below = tt
All-below n m (x ∷ xs) h (first, rest) = (omega (arith, h, first), All-below n m xs h rest)

module _ (store : Store) (content : Content) (grading : Grading) where
  -- Where `submitAttempt` succeeds under a key that has no event, it adds one attempt, the one that
  -- it answers with: of this user at this exercise, submitted, and with a number above those of all
  -- earlier attempts of this user at this exercise.
  pub submit_attempt-above :
      (db : Db store) (request : Request) (fault : Option Thrown) (exercise_id : ℕ)
      (submission : Submission) (key : String) (out : Db store × Reply)
      → parse_idempotency_key request.raw_key ≡ ok key
      → store.events.find_unique db.events request.user_id key ≡ none
      → submit_attempt store content grading db request fault exercise_id submission ≡ ok out
      → (made : Attempt) × (out.1 ≡ attempt_reply made)
        × (store.attempts.all out.0.attempts ≡ made ∷ store.attempts.all db.attempts)
        × (made.user_id ≡ request.user_id)
        × (made.exercise_id ≡ exercise_id)
        × (made.submitted_at ≡ some request.now)
        × All
            (λ (a : Attempt). a.attempt_number < made.attempt_number)
            (filter (is_of request.user_id exercise_id) (store.attempts.all db.attempts))
  unfolding finish_attempt create_attempt attempt_values
  submit_attempt-above db request fault exercise_id submission key out parsed absent h =
      let (j, hash, parsed_j, _, _, body) =
        submit_attempt-ok store content grading db request fault exercise_id submission out h in
      let same = key_unique request.raw_key parsed_j parsed in
      elim (submit_body-ok store content grading db _ _ _ _ j hash submission out body) [
        | inl (event, there, _) ↦ cc (ap (store.events.find_unique db.events request.user_id) same)
        | inr (graph, found, at, _, afresh) ↦
            let (score, recomputed, done_so, made) =
              submit_afresh-ok store content grading db request.user_id j hash request.now
                submission graph found out afresh in
            let values =
              attempt_values store content grading db request.user_id graph found submission score
                hash j request.now in
            let row = (store.attempts.create db.attempts values).1 in
            let written = store.attempts.create-values db.attempts values in
            let id = require_public_exercise-id content exercise_id graph found at in
            let number : row.attempt_number
                ≡ max_attempt_number (store.attempts.all db.attempts) request.user_id exercise_id
                  + 1 =
              ap (λ (v : AttemptValues). v.attempt_number) written
              ∙ ap (λ n. max_attempt_number (store.attempts.all db.attempts) request.user_id n + 1)
                  id in
            let attempts =
              recompute-attempts store content grading
                (placed store content grading db request.user_id j hash request.now submission graph
                  found score)
                request.user_id graph found request.now recomputed done_so in
            (
              row,
              sym (ap (λ (o : Db store × Reply). o.1) made),
              sym (ap (λ (o : Db store × Reply). store.attempts.all o.0.attempts) made)
                  ∙ ap store.attempts.all attempts
                  ∙ store.attempts.all-create db.attempts values,
              ap (λ (v : AttemptValues). v.user_id) written,
              ap (λ (v : AttemptValues). v.exercise_id) written ∙ id,
              ap (λ (v : AttemptValues). v.submitted_at) written,
              All-below _ _ _ number (
                  max_attempt_number-All (store.attempts.all db.attempts) request.user_id
                    exercise_id),
            )
      ]
