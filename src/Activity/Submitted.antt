-- ===== src/Activity/Submitted.antt =====
-- The learners' submitted attempts, as the guards of completeTopic and completeLesson in
-- lesson-activity.service.ts see them.
use hsk_3_0_app.Base.{
  ℕ, ◌≡◌, refl, subst, inl, inr, Bool, true, false, List, map, arith, ◌==◌, Bool-cases,
  Option-cases, is_some, [], ◌∷◌, Memᴰ, any, contains, filter, ==_iff,
}
use hsk_3_0_app.Activity.{Attempt, Exercise}
use hsk_3_0_app.Activity.Store.{Store, Db}
use hsk_3_0_app.Activity.Service.Reads.{submitted_attempts, topic_is_done}
use hsk_3_0_app.Activity.Service.Completes.{topic_is_attempted}
use hsk_3_0_app.Base.Lists.{All}
use hsk_3_0_app.Activity.Evolves.{topic_columns, Done}
use hsk_3_0_app.Activity.Effects.{topic_row}
use hsk_3_0_app.Activity.Distinct.{distinct-holds}

pub any-All {ℓ} :
    {A : Type ℓ} (f : A → Bool) (xs : List A) → any f xs ≡ false → All (λ x. f x ≡ false) xs
any-All f [] h = tt
any-All f (x ∷ xs) h = (ground arith, any-All f xs (ground arith))

pub All-map {ℓ κ κ'} :
    {A : Type ℓ} {P : A → Type κ} {Q : A → Type κ'} (xs : List A)
    → ((x : A) → P x → Q x)
    → All P xs
    → All Q xs
All-map [] f h = tt
All-map (x ∷ xs) f (p, ps) = (f x p, All-map xs f ps)

All-contains :
    {Q : Exercise → Type 0} (ids : List ℕ) (xs : List Exercise)
    → ((y : ℕ) → contains (map (λ (e : Exercise). e.id) xs) y ≡ true → contains ids y ≡ true)
    → ((e : Exercise) → contains ids e.id ≡ true → Q e)
    → All Q xs
All-contains ids [] h q = tt
All-contains ids (x ∷ xs) h q =
    (q x (h x.id (ground arith)), All-contains ids xs (λ y k. h y (ground arith)) q)

-- A submitted attempt among those that a filter keeps.
kept :
    (test : Attempt → Bool) (xs : List Attempt) (id : ℕ)
    → contains (map (λ (a : Attempt). a.exercise_id) (filter test xs)) id ≡ true
    → (a : Attempt) × Memᴰ a xs × (test a ≡ true) × (a.exercise_id ≡ id)
kept test [] id h = cc
kept test (x ∷ xs) id h = elim (Bool-cases (test x)) [
  | inr dropped ↦
      let (a, m, passes, same) = kept test xs id (ground arith) in (a, Memᴰ.tail m, passes, same)
  | inl passes ↦ elim (Bool-cases (x.exercise_id == id)) [
    | inl here ↦ (x, Memᴰ.head refl, passes, (==_iff _ _).0 here)
    | inr elsewhere ↦
        let (a, m, passes, same) = kept test xs id (ground arith) in (a, Memᴰ.tail m, passes, same)
  ]
]

kept-contains :
    (test : Attempt → Bool) (ids : List ℕ)
    → ((a : Attempt) → test a ≡ true → contains ids a.exercise_id ≡ true)
    → (xs : List Attempt) (y : ℕ)
    → contains (map (λ (a : Attempt). a.exercise_id) (filter test xs)) y ≡ true
    → contains ids y ≡ true
kept-contains test ids w xs y h =
    let (a, _, passes, same) = kept test xs y h in
    subst (λ n. contains ids n ≡ true) same (w a passes)

module _ (store : Store) where
  -- The user has a submitted attempt at the exercise.
  pub HasSubmitted : Db store → (user exercise_id : ℕ) → Type 0
  HasSubmitted db user exercise_id =
      (a : Attempt) × Memᴰ a (store.attempts.all db.attempts)
      × (a.user_id ≡ user)
      × (a.exercise_id ≡ exercise_id)
      × (is_some a.submitted_at ≡ true)

  pub submitted_attempts-HasSubmitted :
      (db : Db store) (user : ℕ) (ids : List ℕ) (id : ℕ)
      → contains (map (λ (a : Attempt). a.exercise_id) (submitted_attempts store db user ids)) id
        ≡ true
      → HasSubmitted db user id
  unfolding submitted_attempts HasSubmitted
  submitted_attempts-HasSubmitted db user ids id h =
      let (a, m, passes, same) = kept _ (store.attempts.all db.attempts) id h in
      (a, m, ground arith, same, ground arith)

  pub topic_is_attempted-HasSubmitted :
      (db : Db store) (user : ℕ) (xs : List Exercise)
      → topic_is_attempted store db user (map (λ (e : Exercise). e.id) xs) ≡ true
      → All (λ (e : Exercise). HasSubmitted db user e.id) xs
  unfolding topic_is_attempted submitted_attempts
  topic_is_attempted-HasSubmitted db user xs h =
      let ids = map (λ (e : Exercise). e.id) xs in
      All-contains (map (λ (a : Attempt). a.exercise_id) (submitted_attempts store db user ids)) xs
        (distinct-holds _ ids
          (kept-contains _ ids (λ a k. ground arith) (store.attempts.all db.attempts))
          ((==_iff _ _).0 h))
        (λ e k. submitted_attempts-HasSubmitted db user ids e.id k)

  pub topic_is_done-Done :
      (db : Db store) (user topic_id : ℕ)
      → topic_is_done store db user topic_id ≡ true
      → Done topic_columns (topic_row store db user topic_id)
  topic_is_done-Done db user topic_id h =
      elim (Option-cases (store.topic_progresses.find_unique db.topic_progresses user topic_id)) [
        | inl missing ↦ absurd (ground arith)
        | inr (row, found) ↦ rw found (ground arith)
      ]
