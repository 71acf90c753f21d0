-- ===== src/Activity/Scores.antt =====
-- The best scores that `calculateLessonScore` of lesson-activity-progress.ts collects.
use hsk_3_0_app.Base.{
  ℕ, ◌≡◌, refl, ap, ◌∙◌, inl, inr, false, Option, none, some, List, [], ◌∷◌, max, arith, ◌==◌, ltb,
  if◌then◌else◌, Bool-cases, Option-cases, ==_iff,
}
use hsk_3_0_app.Activity.Progress.{
  ScoredAttempt, get_score, set_score, consider_attempt, best_scores,
}

-- The higher one of two scores, where there are two.
abbrev pub higher : Option ℕ → Option ℕ → Option ℕ
higher none other = other
higher (some s) none = some s
higher (some s) (some t) = some (max s t)

-- The highest score of the attempts at an exercise.
unfoldable pub best_of : List ScoredAttempt → ℕ → Option ℕ
best_of [] id = none
best_of (attempt ∷ attempts) id =
    let rest = best_of attempts id in
    if attempt.exercise_id == id then higher attempt.score rest else rest

higher_assoc : (a b c : Option ℕ) → higher (higher a b) c ≡ higher a (higher b c)
higher_assoc none b c = refl
higher_assoc (some a) none c = refl
higher_assoc (some a) (some b) none = refl
higher_assoc (some a) (some b) (some c) = ap some (omega arith)

get_score-set_score :
    (best : List (ℕ × ℕ)) (j s id : ℕ)
    → get_score (set_score best j s) id ≡ (if j == id then some s else get_score best id)
unfolding get_score set_score
get_score-set_score [] j s id = refl
get_score-set_score ((k, t) ∷ best) j s id =
    let rest = get_score-set_score best j s id in
    elim (Bool-cases (k == j)) [
      | inl same ↦ elim (Bool-cases (j == id)) [
        | inl here ↦ rw (same, here) refl
        | inr elsewhere ↦
            let apart : (k == id) ≡ false = ground arith in rw (same, elsewhere, apart) refl
      ]
      | inr other ↦ elim (Bool-cases (k == id)) [
        | inl here ↦ let apart : (j == id) ≡ false = ground arith in rw (other, here, apart) refl
        | inr elsewhere ↦ rw (other, elsewhere) rest
      ]
    ]

get_score-consider_attempt :
    (best : List (ℕ × ℕ)) (attempt : ScoredAttempt) (id : ℕ)
    → get_score (consider_attempt best attempt) id ≡ (
        if attempt.exercise_id == id
        then higher (get_score best id) attempt.score
        else get_score best id)
unfolding consider_attempt
get_score-consider_attempt best attempt id =
    let j = attempt.exercise_id in
    elim (Option-cases attempt.score) [
      | inl unscored ↦ elim (Bool-cases (j == id)) [
        | inr elsewhere ↦ rw (unscored, elsewhere) refl
        | inl here ↦ elim (Option-cases (get_score best id)) [
          | inl missing ↦ rw (unscored, here, missing) refl
          | inr (found, at) ↦ rw (unscored, here, at) refl
        ]
      ]
      | inr (score, scored) ↦
          let put = get_score-set_score best j score id in
          elim (Bool-cases (j == id)) [
            | inr elsewhere ↦ elim (Option-cases (get_score best j)) [
              | inl missing ↦ ground (arith, put)
              | inr (found, at) ↦ ground (arith, put)
            ]
            | inl here ↦
                let same : get_score best j ≡ get_score best id =
                  ap (get_score best) ((==_iff j id).0 here) in
                elim (Option-cases (get_score best id)) [
                  | inl missing ↦ let gone = same ∙ missing in ground (arith, put)
                  | inr (found, at) ↦
                      let there = same ∙ at in
                      elim (Bool-cases (ltb found score)) [
                        | inl higher_now ↦
                            let top : max found score ≡ score = ground arith in ground (arith, put)
                        | inr lower ↦
                            let top : max found score ≡ found = ground arith in ground (arith, put)
                      ]
                ]
          ]
    ]

get_score-best_scores :
    (best : List (ℕ × ℕ)) (attempts : List ScoredAttempt) (id : ℕ)
    → get_score (best_scores best attempts) id ≡ higher (get_score best id) (best_of attempts id)
unfolding best_scores best_of
get_score-best_scores best [] id = elim (Option-cases (get_score best id)) [
  | inl missing ↦ rw missing refl
  | inr (found, at) ↦ rw at refl
]
get_score-best_scores best (attempt ∷ attempts) id =
    let rest = get_score-best_scores (consider_attempt best attempt) attempts id in
    let considered = get_score-consider_attempt best attempt id in
    elim (Bool-cases (attempt.exercise_id == id)) [
      | inl here ↦
          rest
          ∙ rw (considered, here)
              (higher_assoc (get_score best id) attempt.score (best_of attempts id))
      | inr elsewhere ↦ rest ∙ rw (considered, elsewhere) refl
    ]

-- The score that `calculateLessonScore` keeps for an exercise is the highest one among the attempts
-- at it, and there is none exactly where no attempt at it has a score.
pub best_scores-best_of :
    (attempts : List ScoredAttempt) (id : ℕ)
    → get_score (best_scores [] attempts) id ≡ best_of attempts id
unfolding get_score
best_scores-best_of attempts id = get_score-best_scores [] attempts id
