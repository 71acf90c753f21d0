-- ===== src/Path/Select.antt =====
-- `selectNextLesson` of the learning path policy: the lesson to continue, over all levels.
use hsk_3_0_app.Base.{
  ℕ, Bool, true, false, not, Option, none, some, List, [], ◌∷◌, compare, Ordering, String, leb,
  ◌==◌, if◌then◌else◌, find,
}
use hsk_3_0_app.Base.Sort.{sort}
use hsk_3_0_app.Path.{PathLesson, LessonState, current, is_learning, is_more_recent}

-- `LearningPathLevel`
pub record PathLevel : Type 0 where
  pub code : String
  pub order_index : ℕ
  pub lessons : List PathLesson

-- `NextLesson`
pub record NextLesson : Type 0 where
  pub lesson_id : ℕ
  pub title : String
  pub slug : String
  pub level_code : String
  pub position : ℕ

unfoldable pub to_next_lesson : PathLevel → PathLesson → NextLesson
to_next_lesson level lesson = record {
  lesson_id = lesson.id;
  title = lesson.title;
  slug = lesson.slug;
  level_code = level.code;
  position = lesson.position;
}

abbrev pub is_current : LessonState → Bool
is_current current = true
is_current _ = false

unfoldable pub current_of : PathLevel → Option PathLesson
current_of level = find (λ lesson. is_current lesson.state) level.lessons

-- `{ level, lesson }` in the loop of `selectNextLesson`.
pub record Candidate : Type 0 where
  pub level : PathLevel
  pub lesson : PathLesson

-- `lesson.status === 'learning'`
abbrev pub lesson_is_learning : PathLesson → Bool
lesson_is_learning lesson = elim lesson.status [ none ↦ false | some s ↦ is_learning s ]

-- One round of the inner loop.
unfoldable pub consider_lesson : PathLevel → Option Candidate → PathLesson → Option Candidate
consider_lesson level recent lesson =
    if not (lesson_is_learning lesson) then recent else elim recent [
      | none ↦ some (record { level = level; lesson = lesson })
      | some best ↦
          if is_more_recent lesson.last_activity_at best.lesson.last_activity_at
          then some (record { level = level; lesson = lesson })
          else some best
    ]

unfoldable pub recent_in_level : PathLevel → Option Candidate → List PathLesson → Option Candidate
recent_in_level level recent [] = recent
recent_in_level level recent (lesson ∷ lessons) =
    recent_in_level level (consider_lesson level recent lesson) lessons

unfoldable pub recent_in_levels : Option Candidate → List PathLevel → Option Candidate
recent_in_levels recent [] = recent
recent_in_levels recent (level ∷ levels) =
    recent_in_levels (recent_in_level level recent level.lessons) levels

-- The last loop of `selectNextLesson`.
unfoldable pub first_higher : (target : ℕ) → List PathLevel → Option NextLesson
first_higher target [] = none
first_higher target (level ∷ levels) =
    let rest = first_higher target levels in
    if leb level.order_index target
    then rest
    else elim (current_of level) [ some lesson ↦ some (to_next_lesson level lesson) | none ↦ rest ]

-- The lesson for a goal: the current one of the goal's level, else of the first higher level.
unfoldable pub select_for_target : (target : ℕ) → List PathLevel → Option NextLesson
unfolding first_higher
select_for_target target levels = elim (find (λ level. level.order_index == target) levels) [
  | none ↦ first_higher target levels
  | some level ↦ elim (current_of level) [
    | some lesson ↦ some (to_next_lesson level lesson)
    | none ↦ first_higher target levels
  ]
]

abbrev pub compare_levels : PathLevel → PathLevel → Ordering
compare_levels left right = compare left.order_index right.order_index

unfoldable pub select_next_lesson :
    (levels : List PathLevel) (target_level_order_index : Option ℕ) → Option NextLesson
unfolding recent_in_levels recent_in_level consider_lesson select_for_target current_of
    to_next_lesson
select_next_lesson given target_level_order_index =
    let levels = sort compare_levels given in
    elim (recent_in_levels none levels) [
      | some recent ↦ some (to_next_lesson recent.level recent.lesson)
      | none ↦ elim target_level_order_index [
        | none ↦ none
        | some target ↦ select_for_target target levels
      ]
    ]
