-- ===== src/Activity/Pointers.antt =====
-- What `selectNextActivity` of lesson-activity-progress.ts points at.
use hsk_3_0_app.Base.{
  ℕ, ◌≡◌, refl, sym, ap, ◌∙◌, subst, ◌↔◌, inl, inr, Bool, true, false, not, ◌&&◌, none, some, List,
  [], ◌∷◌, Ordering, arith, find, all, contains, Bool-cases, Option-cases, find-mem,
}
use hsk_3_0_app.Base.Sort.{insert, sort}
use hsk_3_0_app.Activity.{OrderedExercise, OrderedTopic}
use hsk_3_0_app.Activity.Progress.{
  NextAction, start_topic, submit_exercise, complete_topic, complete_lesson, completed,
  compare_exercises, compare_topics, next_exercise, next_standalone, next_in_topic, next_in_topics,
  select_next_activity,
}

module _ {A : Type 0} (cmp : A → A → Ordering) (f : A → Bool) where
  all-insert : (x : A) (ys : List A) → all f (insert cmp x ys) ≡ (f x && all f ys)
  unfolding insert
  all-insert x [] = refl
  all-insert x (y ∷ ys) = let rest = all-insert x ys in ground arith

  all-sort : (xs : List A) → all f (sort cmp xs) ≡ all f xs
  unfolding sort
  all-sort [] = refl
  all-sort (x ∷ xs) = all-insert x (sort cmp xs) ∙ ap (λ b. f x && b) (all-sort xs)

find-none-all :
    {A : Type 0} (f : A → Bool) (xs : List A) → find (λ x. not (f x)) xs ≡ none → all f xs ≡ true
find-none-all f [] h = refl
find-none-all f (x ∷ xs) h = let rest = find-none-all f xs in ground arith

all-find-none :
    {A : Type 0} (f : A → Bool) (xs : List A) → all f xs ≡ true → find (λ x. not (f x)) xs ≡ none
all-find-none f [] h = refl
all-find-none f (x ∷ xs) h = let rest = all-find-none f xs in ground arith

-- Every exercise has been attempted; every topic has been completed.
abbrev pub all_attempted : List OrderedExercise → List ℕ → Bool
all_attempted exercises attempted = all (λ (e : OrderedExercise). contains attempted e.id) exercises

abbrev pub all_completed : List OrderedTopic → List ℕ → Bool
all_completed topics completed_ids = all (λ (t : OrderedTopic). contains completed_ids t.id) topics

abbrev is_complete_lesson : NextAction → Bool
is_complete_lesson complete_lesson = true
is_complete_lesson _ = false

is_complete_lesson_iff : (a : NextAction) → (is_complete_lesson a ≡ true) ↔ (a ≡ complete_lesson)
is_complete_lesson_iff complete_lesson = (λ h. refl, λ h. refl)
is_complete_lesson_iff start_topic = (λ h. cc, λ h. cc)
is_complete_lesson_iff submit_exercise = (λ h. cc, λ h. cc)
is_complete_lesson_iff complete_topic = (λ h. cc, λ h. cc)
is_complete_lesson_iff completed = (λ h. cc, λ h. cc)

next_standalone-all :
    (standalone : List OrderedExercise) (attempted : List ℕ)
    → is_complete_lesson (next_standalone standalone attempted).next_action
      ≡ all_attempted standalone attempted
unfolding next_standalone
next_standalone-all standalone attempted =
    let f : OrderedExercise → Bool = λ e. contains attempted e.id in
    let same = all-sort compare_exercises f standalone in
    elim (Option-cases (next_exercise standalone attempted)) [
      | inl missing ↦
          let held = find-none-all f (sort compare_exercises standalone) missing in
          rw (missing, is_complete_lesson) (sym held ∙ same)
      | inr (e, found) ↦
          rw (found, is_complete_lesson)
            (elim (Bool-cases (all f standalone)) [
              | inr missing ↦ sym missing
              | inl shut ↦
                  let gone = all-find-none f (sort compare_exercises standalone) (same ∙ shut) in cc
            ])
    ]

next_in_topics-all :
    (topics : List OrderedTopic) (standalone : List OrderedExercise)
    (completed_ids attempted : List ℕ)
    → is_complete_lesson (next_in_topics topics standalone completed_ids attempted).next_action
      ≡ (all_completed topics completed_ids && all_attempted standalone attempted)
unfolding next_in_topics next_in_topic
next_in_topics-all [] standalone completed_ids attempted = next_standalone-all standalone attempted
next_in_topics-all (t ∷ topics) standalone completed_ids attempted =
    let rest = next_in_topics-all topics standalone completed_ids attempted in
    elim (Bool-cases (contains completed_ids t.id)) [
      | inl over ↦ rw over rest
      | inr pending ↦ rw pending (elim (Option-cases (next_exercise t.exercises attempted)) [
        | inl missing ↦ rw (missing, is_complete_lesson) refl
        | inr (e, found) ↦ rw (found, is_complete_lesson) refl
      ])
    ]

-- For a lesson that is not completed, the next activity is to complete it exactly when every topic
-- is completed and every exercise without a topic has been attempted.
pub select_next_activity-complete_lesson :
    (topics : List OrderedTopic) (standalone : List OrderedExercise)
    (completed_ids attempted : List ℕ)
    → ((select_next_activity topics standalone completed_ids attempted false).next_action
        ≡ complete_lesson)
      ↔ ((all_completed topics completed_ids && all_attempted standalone attempted) ≡ true)
unfolding select_next_activity
select_next_activity-complete_lesson topics standalone completed_ids attempted =
    let (to, from) =
      is_complete_lesson_iff
        (next_in_topics (sort compare_topics topics) standalone completed_ids
          attempted).next_action in
    let same =
      next_in_topics-all (sort compare_topics topics) standalone completed_ids attempted
      ∙ ap (λ b. b && all_attempted standalone attempted)
          (all-sort compare_topics (λ t. contains completed_ids t.id) topics) in
    (λ h. sym same ∙ from h, λ h. to (same ∙ h))

next_exercise-unattempted :
    (exercises : List OrderedExercise) (attempted : List ℕ) {e : OrderedExercise}
    → next_exercise exercises attempted ≡ some e
    → contains attempted e.id ≡ false
next_exercise-unattempted exercises attempted found =
    let (_, passes) =
      find-mem (λ (e : OrderedExercise). not (contains attempted e.id))
        (sort compare_exercises exercises) found in
    ground arith

next_in_topics-unattempted :
    (topics : List OrderedTopic) (standalone : List OrderedExercise)
    (completed_ids attempted : List ℕ) (id : ℕ)
    → (next_in_topics topics standalone completed_ids attempted).current_exercise_id ≡ some id
    → contains attempted id ≡ false
unfolding next_in_topics next_in_topic next_standalone
next_in_topics-unattempted [] standalone completed_ids attempted id h =
    elim (Option-cases (next_exercise standalone attempted)) [
      | inl missing ↦ absurd (ground arith)
      | inr (e, found) ↦
          let same : e.id ≡ id = ground arith in
          subst (λ n. contains attempted n ≡ false) same
            (next_exercise-unattempted standalone attempted {e = e} found)
    ]
next_in_topics-unattempted (t ∷ topics) standalone completed_ids attempted id h =
    elim (Bool-cases (contains completed_ids t.id)) [
      | inl over ↦
          next_in_topics-unattempted topics standalone completed_ids attempted id (ground arith)
      | inr pending ↦ elim (Option-cases (next_exercise t.exercises attempted)) [
        | inl missing ↦ absurd (ground arith)
        | inr (e, found) ↦
            let same : e.id ≡ id = ground arith in
            subst (λ n. contains attempted n ≡ false) same
              (next_exercise-unattempted t.exercises attempted {e = e} found)
      ]
    ]

-- The exercise that is pointed at has not been attempted.
pub select_next_activity-unattempted :
    (topics : List OrderedTopic) (standalone : List OrderedExercise)
    (completed_ids attempted : List ℕ) (lesson_completed : Bool) (id : ℕ)
    → (select_next_activity topics standalone completed_ids attempted
        lesson_completed).current_exercise_id
      ≡ some id
    → contains attempted id ≡ false
unfolding select_next_activity
select_next_activity-unattempted topics standalone completed_ids attempted true id h =
    absurd (ground arith)
select_next_activity-unattempted topics standalone completed_ids attempted false id h =
    next_in_topics-unattempted (sort compare_topics topics) standalone completed_ids attempted id h
