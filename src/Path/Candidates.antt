-- ===== src/Path/Candidates.antt =====
-- The two nested loops of `selectNextLesson` as one loop over pairs.
use mathlib.Core.List.{Memᴰ}
use hsk_3_0_app.Base.{
  ℕ, ◌≡◌, refl, sym, ap, subst, ◌∙◌, ◌⊎◌, inl, inr, Bool, true, Option, none, some, List, [], ◌∷◌,
  ◌++◌, arith, Option-cases,
}
use hsk_3_0_app.Path.{PathLesson, Status, learning, not_started, is_learning}
use hsk_3_0_app.Path.Newest.{step, newest}
use hsk_3_0_app.Path.Select.{
  PathLevel, Candidate, lesson_is_learning, consider_lesson, recent_in_level, recent_in_levels,
}

-- A lesson that one of the levels holds.
pub record Offered (levels : List PathLevel) (level : PathLevel) (lesson : PathLesson)
    : Type 0 where
  pub given : Memᴰ level levels
  pub held : Memᴰ lesson level.lessons

abbrev pub test : Candidate → Bool
test c = lesson_is_learning c.lesson

abbrev pub activity : Candidate → Option ℕ
activity c = c.lesson.last_activity_at

-- The pairs that the two nested loops visit.
abbrev pub candidates_of : PathLevel → List PathLesson → List Candidate
candidates_of level [] = []
candidates_of level (lesson ∷ lessons) =
    record { level = level; lesson = lesson } ∷ candidates_of level lessons

abbrev pub candidates : List PathLevel → List Candidate
candidates [] = []
candidates (level ∷ levels) = candidates_of level level.lessons ++ candidates levels

consider_lesson-eq-step :
    (level : PathLevel) (recent : Option Candidate) (lesson : PathLesson)
    → consider_lesson level recent lesson
      ≡ step test activity recent (record { level = level; lesson = lesson })
unfolding consider_lesson
consider_lesson-eq-step level none lesson = ground arith
consider_lesson-eq-step level (some found) lesson = ground arith

recent_in_level-eq-newest :
    (level : PathLevel) (recent : Option Candidate) (lessons : List PathLesson)
    (rest : List Candidate)
    → newest test activity (recent_in_level level recent lessons) rest
      ≡ newest test activity recent (candidates_of level lessons ++ rest)
unfolding recent_in_level newest
recent_in_level-eq-newest level recent [] rest = refl
recent_in_level-eq-newest level recent (lesson ∷ lessons) rest =
    recent_in_level-eq-newest level (consider_lesson level recent lesson) lessons rest
    ∙ ap (λ c. newest test activity c (candidates_of level lessons ++ rest))
        (consider_lesson-eq-step level recent lesson)

pub recent_in_levels-eq-newest :
    (recent : Option Candidate) (levels : List PathLevel)
    → recent_in_levels recent levels ≡ newest test activity recent (candidates levels)
unfolding recent_in_levels newest
recent_in_levels-eq-newest recent [] = refl
recent_in_levels-eq-newest recent (level ∷ levels) =
    recent_in_levels-eq-newest (recent_in_level level recent level.lessons) levels
    ∙ recent_in_level-eq-newest level recent level.lessons (candidates levels)

mem-candidates_of :
    (level : PathLevel) {lesson : PathLesson} {lessons : List PathLesson} (rest : List Candidate)
    → Memᴰ lesson lessons
    → Memᴰ (record { level = level; lesson = lesson }) (candidates_of level lessons ++ rest)
mem-candidates_of level rest (Memᴰ.head e) =
    Memᴰ.head (ap (λ x. record { level = level; lesson = x }) e)
mem-candidates_of level rest (Memᴰ.tail m) = Memᴰ.tail (mem-candidates_of level rest m)

mem-candidates_later :
    (level : PathLevel) (lessons : List PathLesson) {c : Candidate} {rest : List Candidate}
    → Memᴰ c rest
    → Memᴰ c (candidates_of level lessons ++ rest)
mem-candidates_later level [] m = m
mem-candidates_later level (lesson ∷ lessons) m = Memᴰ.tail (mem-candidates_later level lessons m)

pub mem-candidates :
    {level : PathLevel} {lesson : PathLesson} {levels : List PathLevel}
    → Memᴰ level levels
    → Memᴰ lesson level.lessons
    → Memᴰ (record { level = level; lesson = lesson }) (candidates levels)
mem-candidates {level} {lesson} (Memᴰ.head {x} {xs} e) m =
    subst
      (λ y.
        Memᴰ (record { level = level; lesson = lesson })
          (candidates_of y y.lessons ++ candidates xs))
      e (mem-candidates_of level (candidates xs) m)
mem-candidates (Memᴰ.tail {x} {xs} there) m =
    mem-candidates_later x x.lessons (mem-candidates there m)

of_candidates_of :
    (level : PathLevel) (lessons : List PathLesson) {c : Candidate} {rest : List Candidate}
    → Memᴰ c (candidates_of level lessons ++ rest)
    → ((c.level ≡ level) × Memᴰ c.lesson lessons) ⊎ Memᴰ c rest
of_candidates_of level [] m = inr m
of_candidates_of level (lesson ∷ lessons) (Memᴰ.head e) =
    inl (ap (λ (d : Candidate). d.level) e, Memᴰ.head (ap (λ (d : Candidate). d.lesson) e))
of_candidates_of level (lesson ∷ lessons) (Memᴰ.tail m) = elim (of_candidates_of level lessons m) [
  | inl (same, held) ↦ inl (same, Memᴰ.tail held)
  | inr later ↦ inr later
]

pub of_candidates :
    (levels : List PathLevel) {c : Candidate}
    → Memᴰ c (candidates levels)
    → Offered levels c.level c.lesson
of_candidates [] m = elim m [ ]
of_candidates (level ∷ levels) {c} m = elim (of_candidates_of level level.lessons m) [
  | inl (same, held) ↦ record {
    given = Memᴰ.head same;
    held = subst (λ (y : PathLevel). Memᴰ c.lesson y.lessons) (sym same) held;
  }
  | inr later ↦
      let rest = of_candidates levels later in
      record { given = Memᴰ.tail rest.given; held = rest.held }
]

is_learning-eq : (s : Status) → is_learning s ≡ true → s ≡ learning
is_learning-eq learning h = refl
is_learning-eq Status.done h = cc
is_learning-eq not_started h = cc

pub lesson_is_learning_iff :
    (lesson : PathLesson)
    → (lesson_is_learning lesson ≡ true → lesson.status ≡ some learning)
      × (lesson.status ≡ some learning → lesson_is_learning lesson ≡ true)
lesson_is_learning_iff lesson = elim (Option-cases lesson.status) [
  | inl missing ↦ (λ h. ground arith, λ h. ground arith)
  | inr (s, found) ↦ (λ h. found ∙ ap some (is_learning-eq s (ground arith)), λ h. ground arith)
]
