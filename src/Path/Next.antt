-- ===== src/Path/Next.antt =====
-- What `selectNextLesson` guarantees about the lesson that it returns.
use mathlib.Core.List.{Memᴰ}
use hsk_3_0_app.Base.{
  find-mem, ℕ, ◌≡◌, refl, sym, subst, ◌∙◌, ◌⊎◌, inl, inr, true, Option, none, some, List, [], ◌∷◌,
  arith, leb, ◌==◌, find, Bool-cases, Option-cases,
}
use hsk_3_0_app.Base.Sort.{sort, mem-sort, mem-of_sort}
use hsk_3_0_app.Path.{PathLesson, LessonState, current, locked, available, learning}
use hsk_3_0_app.Path.Newest.{newest-mem, newest-beats, NoLaterThan, is_more_recent-NoLaterThan}
use hsk_3_0_app.Path.Select.{
  PathLevel, NextLesson, to_next_lesson, is_current, current_of, Candidate, recent_in_levels,
  first_higher, select_for_target, compare_levels, select_next_lesson,
}
use hsk_3_0_app.Path.Candidates.{
  Offered, test, activity, candidates, recent_in_levels-eq-newest, mem-candidates, of_candidates,
  lesson_is_learning_iff,
}

-- A lesson that is offered and current in its level.
abbrev IsCurrentOf : List PathLevel → NextLesson → Type 0
IsCurrentOf levels next =
    (level : PathLevel) × (lesson : PathLesson) × Offered levels level lesson
    × (next ≡ to_next_lesson level lesson)
    × (lesson.state ≡ current)

is_current-eq : (s : LessonState) → is_current s ≡ true → s ≡ current
is_current-eq current h = refl
is_current-eq LessonState.done h = cc
is_current-eq available h = cc
is_current-eq locked h = cc

current_of-IsCurrentOf :
    (levels : List PathLevel) (level : PathLevel) (lesson : PathLesson)
    → Memᴰ level levels
    → current_of level ≡ some lesson
    → IsCurrentOf levels (to_next_lesson level lesson)
unfolding current_of
current_of-IsCurrentOf levels level lesson given e =
    let (held, state) = find-mem (λ (l : PathLesson). is_current l.state) level.lessons e in
    (level, lesson, record { given = given; held = held }, refl, is_current-eq lesson.state state)

IsCurrentOf-tail :
    (level : PathLevel) {levels : List PathLevel} {next : NextLesson}
    → IsCurrentOf levels next
    → IsCurrentOf (level ∷ levels) next
IsCurrentOf-tail level (l, lesson, o, same, state) =
    (l, lesson, record { given = Memᴰ.tail o.given; held = o.held }, same, state)

first_higher-IsCurrentOf :
    (target : ℕ) (levels : List PathLevel) {next : NextLesson}
    → first_higher target levels ≡ some next
    → IsCurrentOf levels next
unfolding first_higher
first_higher-IsCurrentOf target [] e = cc
first_higher-IsCurrentOf target (level ∷ levels) {next} e =
    elim (Bool-cases (leb level.order_index target)) [
      | inl low ↦
          IsCurrentOf-tail level
            (first_higher-IsCurrentOf target levels {next = next} (ground arith))
      | inr high ↦ elim (Option-cases (current_of level)) [
        | inl missing ↦
            IsCurrentOf-tail level
              (first_higher-IsCurrentOf target levels {next = next} (ground arith))
        | inr (lesson, found) ↦
            let same : to_next_lesson level lesson ≡ next = ground arith in
            subst (IsCurrentOf (level ∷ levels)) same
              (current_of-IsCurrentOf (level ∷ levels) level lesson (Memᴰ.head refl) found)
      ]
    ]

select_for_target-IsCurrentOf :
    (target : ℕ) (levels : List PathLevel) {next : NextLesson}
    → select_for_target target levels ≡ some next
    → IsCurrentOf levels next
unfolding select_for_target
select_for_target-IsCurrentOf target levels {next} e =
    elim (Option-cases (find (λ (level : PathLevel). level.order_index == target) levels)) [
      | inl missing ↦ first_higher-IsCurrentOf target levels {next = next} (ground arith)
      | inr (level, at) ↦
          let (given, _) = find-mem (λ (l : PathLevel). l.order_index == target) levels at in
          elim (Option-cases (current_of level)) [
            | inl none_current ↦ first_higher-IsCurrentOf target levels {next = next} (ground arith)
            | inr (lesson, found) ↦
                let same : to_next_lesson level lesson ≡ next = ground arith in
                subst (IsCurrentOf levels) same
                  (current_of-IsCurrentOf levels level lesson given found)
          ]
    ]

-- The levels in order hold what the given levels hold.
Offered-of_sort :
    (given : List PathLevel) (level : PathLevel) (lesson : PathLesson)
    → Offered (sort compare_levels given) level lesson
    → Offered given level lesson
Offered-of_sort given level lesson o = record {
  given = mem-of_sort compare_levels given o.given;
  held = o.held;
}

-- What the nested loops find.
recent_in_levels-Offered :
    (levels : List PathLevel) {best : Candidate}
    → recent_in_levels none levels ≡ some best
    → Offered levels best.level best.lesson × (best.lesson.status ≡ some learning)
recent_in_levels-Offered levels {best} e =
    elim (newest-mem test activity none (candidates levels) {r = best}
      (sym (recent_in_levels-eq-newest none levels) ∙ e)) [
        | inl absent ↦ cc
        | inr (m, passes) ↦ (of_candidates levels m, (lesson_is_learning_iff best.lesson).0 passes)
      ]

select-none_recent :
    (given : List PathLevel) (target : Option ℕ) (next : NextLesson)
    → recent_in_levels none (sort compare_levels given) ≡ none
    → select_next_lesson given target ≡ some next
    → (level : PathLevel) × (lesson : PathLesson) × Offered given level lesson
      × (next ≡ to_next_lesson level lesson)
      × ((lesson.status ≡ some learning) ⊎ (lesson.state ≡ current))
unfolding select_next_lesson
select-none_recent given none next missing e = ground arith
select-none_recent given (some t) next missing e =
    let (level, lesson, o, same, state) =
      select_for_target-IsCurrentOf t (sort compare_levels given) {next = next} (ground arith) in
    (level, lesson, Offered-of_sort given level lesson o, same, inr state)

-- Every lesson that is returned is one of the given ones, under its own level, and either the
-- learner is on it or it is the current lesson of its level.
pub select_next_lesson-Offered :
    (given : List PathLevel) (target : Option ℕ) (next : NextLesson)
    → select_next_lesson given target ≡ some next
    → (level : PathLevel) × (lesson : PathLesson) × Offered given level lesson
      × (next ≡ to_next_lesson level lesson)
      × ((lesson.status ≡ some learning) ⊎ (lesson.state ≡ current))
unfolding select_next_lesson
select_next_lesson-Offered given target next e =
    let levels = sort compare_levels given in
    elim (Option-cases (recent_in_levels none levels)) [
      | inr (best, found) ↦
          let (o, learns) = recent_in_levels-Offered levels found in
          (
            best.level,
            best.lesson,
            Offered-of_sort given best.level best.lesson o,
            ground arith,
            inl learns,
          )
      | inl missing ↦ select-none_recent given target next missing e
    ]

-- Where the learner is on a lesson, a lesson that the learner is on is returned, whatever the goal,
-- and its last activity is the latest of those lessons' activities, where they have one.
pub select_next_lesson-most_recent :
    (given : List PathLevel) (target : Option ℕ) (level : PathLevel) (lesson : PathLesson)
    → Offered given level lesson
    → lesson.status ≡ some learning
    → (best_level : PathLevel) × (best : PathLesson) × Offered given best_level best
      × (best.status ≡ some learning)
      × (select_next_lesson given target ≡ some (to_next_lesson best_level best))
      × NoLaterThan lesson.last_activity_at best.last_activity_at
unfolding select_next_lesson
select_next_lesson-most_recent given target level lesson o learns =
    let levels = sort compare_levels given in
    let m = mem-candidates (mem-sort compare_levels o.given) o.held in
    let (best, picked, later) =
      newest-beats test activity none m ((lesson_is_learning_iff lesson).1 learns) in
    let found = recent_in_levels-eq-newest none levels ∙ picked in
    let (offered, status) = recent_in_levels-Offered levels found in
    (
      best.level,
      best.lesson,
      Offered-of_sort given best.level best.lesson offered,
      status,
      rw (found, select_next_lesson),
      is_more_recent-NoLaterThan _ _ later,
    )
