-- ===== src/Path.antt =====
-- The learning path policy, backend/src/modules/learning/path/learning-path.policy.ts: the unlock
-- rule, the path of one level, and the choice of the next lesson. Dates are milliseconds, and
-- `null` and `undefined` are `none`.
pub mod Rows
pub mod Laws
pub mod States
pub mod Newest
pub mod Recent
pub mod Select
pub mod Candidates
pub mod Next
pub mod Service
mod Tests
use hsk_3_0_app.Base.{
  ℕ, ◌+◌, Bool, true, false, not, ◌&&◌, ◌||◌, Option, none, some, List, [], ◌∷◌, map, compare,
  Ordering, String, ltb, ◌==◌, if◌then◌else◌, find, is_some,
}
use hsk_3_0_app.Base.Sort.{sort, ◌or_else◌}

-- `ProgressStatus`
pub data Status : Type 0 where
  not_started learning done : Status

abbrev pub is_done : Status → Bool
is_done done = true
is_done _ = false

abbrev pub is_learning : Status → Bool
is_learning learning = true
is_learning _ = false

-- `LearningPathProgress`
pub record PathProgress : Type 0 where
  pub status : Status
  pub completion_percent : ℕ
  pub last_activity_at : Option ℕ

-- `LearningPathReadyLesson`
pub record ReadyLesson : Type 0 where
  pub id : ℕ
  pub title : String
  pub slug : String
  pub order_index : ℕ

-- `LearningPathLessonState`
pub data LessonState : Type 0 where
  done current available locked : LessonState

-- `LearningPathLesson`
pub record PathLesson : Type 0 where
  pub id : ℕ
  pub title : String
  pub slug : String
  pub position : ℕ
  pub state : LessonState
  pub completion_percent : ℕ
  pub status : Option Status
  pub last_activity_at : Option ℕ

-- `previousStatus === 'done'`, false on `null`
abbrev pub status_is_done : Option Status → Bool
status_is_done none = false
status_is_done (some s) = is_done s

unfoldable pub is_lesson_unlocked :
    (is_first : Bool) (previous_status : Option Status) (has_progress : Bool) → Bool
is_lesson_unlocked is_first previous_status has_progress =
    is_first || status_is_done previous_status || has_progress

abbrev pub compare_ready_lessons : ReadyLesson → ReadyLesson → Ordering
compare_ready_lessons left right =
    compare left.order_index right.order_index or_else compare left.id right.id

unfoldable pub is_more_recent : (candidate best : Option ℕ) → Bool
is_more_recent none best = false
is_more_recent (some t) none = true
is_more_recent (some t) (some b) = ltb b t

-- A row of `rows` in `buildLevelPath`. Its position identifies it.
pub record PathRow : Type 0 where
  pub lesson : ReadyLesson
  pub progress : Option PathProgress
  pub position : ℕ
  pub unlocked : Bool

-- `progress?.status ?? null`
abbrev pub status_of : Option PathProgress → Option Status
status_of none = none
status_of (some p) = some p.status

-- `progress?.lastActivityAt ?? null`
abbrev pub activity_of : Option PathProgress → Option ℕ
activity_of none = none
activity_of (some p) = p.last_activity_at

-- `progress?.completionPercent ?? 0`
abbrev pub percent_of : Option PathProgress → ℕ
percent_of none = 0
percent_of (some p) = p.completion_percent

-- `row.progress?.status === 'learning'`
abbrev pub row_is_learning : PathRow → Bool
row_is_learning row = elim row.progress [ none ↦ false | some p ↦ is_learning p.status ]

-- `row.progress?.status === 'done'`
abbrev pub row_is_done : PathRow → Bool
row_is_done row = status_is_done (status_of row.progress)

-- `progressByLessonId.get`
abbrev pub ProgressMap : Type 0
ProgressMap = ℕ → Option PathProgress

module _ (progress_by_lesson_id : ProgressMap) where
  -- The previous row's progress, `null` at index 0.
  abbrev pub previous_progress : Option ReadyLesson → Option PathProgress
  previous_progress none = none
  previous_progress (some l) = progress_by_lesson_id l.id

  abbrev pub path_row : (index : ℕ) (previous : Option ReadyLesson) (lesson : ReadyLesson) → PathRow
  path_row index previous lesson = record {
    lesson = lesson;
    progress = progress_by_lesson_id lesson.id;
    position = index + 1;
    unlocked =
        is_lesson_unlocked (index == 0) (status_of (previous_progress previous))
          (is_some (progress_by_lesson_id lesson.id));
  }

  -- `ordered.map((lesson, index) => …)` from an index on; `previous` is `ordered[index - 1]`.
  pub rows_from : (index : ℕ) (previous : Option ReadyLesson) → List ReadyLesson → List PathRow
  rows_from index previous [] = []
  rows_from index previous (lesson ∷ rest) =
      path_row index previous lesson ∷ rows_from (index + 1) (some lesson) rest

-- One round of the loop over `rows`.
pub consider_row : Option PathRow → PathRow → Option PathRow
consider_row chosen row =
    if not row.unlocked || not (row_is_learning row) then chosen else elim chosen [
      | none ↦ some row
      | some found ↦
          if is_more_recent (activity_of row.progress) (activity_of found.progress)
          then some row
          else some found
    ]

pub most_recent_row : Option PathRow → List PathRow → Option PathRow
most_recent_row chosen [] = chosen
most_recent_row chosen (row ∷ rows) = most_recent_row (consider_row chosen row) rows

-- `current ??= rows.find(…)`
pub current_row : List PathRow → Option PathRow
unfolding most_recent_row consider_row is_more_recent
current_row rows = elim (most_recent_row none rows) [
  | some row ↦ some row
  | none ↦ find (λ row. row.unlocked && not (row_is_done row)) rows
]

-- `row === current`
abbrev pub is_row : PathRow → Option PathRow → Bool
is_row row none = false
is_row row (some chosen) = row.position == chosen.position

pub row_state : Option PathRow → PathRow → LessonState
row_state chosen row =
    if row_is_done row
    then LessonState.done
    else if is_row row chosen
    then current
    else if row.unlocked
    then available
    else locked

pub to_path_lesson : Option PathRow → PathRow → PathLesson
unfolding row_state
to_path_lesson chosen row = record {
  id = row.lesson.id;
  title = row.lesson.title;
  slug = row.lesson.slug;
  position = row.position;
  state = row_state chosen row;
  completion_percent = percent_of row.progress;
  status = status_of row.progress;
  last_activity_at = activity_of row.progress;
}

pub level_rows : List ReadyLesson → ProgressMap → List PathRow
unfolding rows_from is_lesson_unlocked
level_rows ready progress_by_lesson_id =
    rows_from progress_by_lesson_id 0 none (sort compare_ready_lessons ready)

unfoldable pub build_level_path : List ReadyLesson → ProgressMap → List PathLesson
unfolding level_rows current_row to_path_lesson sort
build_level_path ready progress_by_lesson_id =
    let rows = level_rows ready progress_by_lesson_id in
    map (to_path_lesson (current_row rows)) rows
