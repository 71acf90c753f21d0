-- ===== src/Path/Service.antt =====
-- backend/src/modules/learning/path/learning-path.service.ts: the levels with their paths, from the
-- rows that the queries return, and the answer of `getPath`. The onboarding's next step and the
-- goal's other fields are left out.
use hsk_3_0_app.Base.{
  ℕ, ◌≡◌, refl, sym, ap, ◌∙◌, inl, inr, Bool, true, false, Option, none, some, List, [], ◌∷◌, ◌++◌,
  map, String, arith, ◌==◌, if◌then◌else◌, filter, length, Bool-cases, subst, All,
}
use mathlib.Core.List.{Perm, append_assoc, append-nil}
use hsk_3_0_app.Path.{
  PathProgress, ReadyLesson, PathLesson, LessonState, ProgressMap, build_level_path,
}
use hsk_3_0_app.Path.Select.{PathLevel, NextLesson, select_next_lesson}
use hsk_3_0_app.Path.Recent.{build_level_path-perm}

-- A row of `levels`.
pub record LevelRow : Type 0 where
  pub id : ℕ
  pub code : String
  pub name : String
  pub order_index : ℕ

-- A row of `readyLessons`.
pub record ReadyLessonRow : Type 0 where
  pub level_id : ℕ
  pub lesson : ReadyLesson

-- A row of `progresses`.
pub record ProgressRow : Type 0 where
  pub lesson_id : ℕ
  pub progress : PathProgress

-- `new Map(progresses.map(…))`: a later row of a lesson replaces an earlier one.
unfoldable pub progress_map : List ProgressRow → ProgressMap
progress_map [] id = none
progress_map (row ∷ rows) id = elim (progress_map rows id) [
  | some progress ↦ some progress
  | none ↦ if row.lesson_id == id then some row.progress else none
]

-- `lessonsByLevelId`: the lists by level.
abbrev pub LessonLists : Type 0
LessonLists = List (ℕ × List ReadyLesson)

-- `lessonsByLevelId.get(id) ?? []`
unfoldable pub lessons_of : LessonLists → ℕ → List ReadyLesson
lessons_of [] id = []
lessons_of (entry ∷ lists) id =
    let rest = lessons_of lists id in if entry.0 == id then entry.1 else rest

-- `list.push(lesson); lessonsByLevelId.set(levelId, list)`
unfoldable pub push_lesson : LessonLists → ReadyLessonRow → LessonLists
push_lesson [] row = (row.level_id, row.lesson ∷ []) ∷ []
push_lesson (entry ∷ lists) row =
    let rest = push_lesson lists row in
    if entry.0 == row.level_id then (entry.0, entry.1 ++ row.lesson ∷ []) ∷ lists else entry ∷ rest

-- The loop over `readyLessons`.
unfoldable pub group_lessons : LessonLists → List ReadyLessonRow → LessonLists
unfolding push_lesson
group_lessons lists [] = lists
group_lessons lists (row ∷ rows) = group_lessons (push_lesson lists row) rows

-- An item of `pathLevels`: the level's id and name, and what the policy reads.
pub record ServedLevel : Type 0 where
  pub id : ℕ
  pub name : String
  pub level : PathLevel

unfoldable pub load_path_levels :
    List LevelRow → List ReadyLessonRow → List ProgressRow → List ServedLevel
unfolding group_lessons lessons_of progress_map build_level_path
load_path_levels levels ready_lessons progresses =
    let lists = group_lessons [] ready_lessons in
    map
      (λ (row : LevelRow). record {
        id = row.id;
        name = row.name;
        level = record {
          code = row.code;
          order_index = row.order_index;
          lessons = build_level_path (lessons_of lists row.id) (progress_map progresses);
        };
      })
      levels

abbrev is_done_state : LessonState → Bool
is_done_state LessonState.done = true
is_done_state _ = false

-- An item of `levels` in the answer of `getPath`.
pub record LevelAnswer : Type 0 where
  pub served : ServedLevel
  pub lesson_count : ℕ
  pub completed_count : ℕ

pub record PathAnswer : Type 0 where
  pub levels : List LevelAnswer
  pub next_lesson : Option NextLesson

-- `getPath`; `target` is the order of the goal's level.
unfoldable pub get_path :
    List LevelRow → List ReadyLessonRow → List ProgressRow → (target : Option ℕ) → PathAnswer
unfolding load_path_levels select_next_lesson
get_path levels ready_lessons progresses target =
    let served = load_path_levels levels ready_lessons progresses in
    record {
      levels =
          map
            (λ (s : ServedLevel). record {
              served = s;
              lesson_count = length s.level.lessons;
              completed_count =
                  length (filter (λ (l : PathLesson). is_done_state l.state) s.level.lessons);
            })
            served;
      next_lesson = select_next_lesson (map (λ (s : ServedLevel). s.level) served) target;
    }

-- The row of a level that is served.
abbrev pub served_row : ServedLevel → LevelRow
served_row s = record {
  id = s.id;
  code = s.level.code;
  name = s.name;
  order_index = s.level.order_index;
}

-- The ready lessons of a level, in the order of the query.
pub ready_in : List ReadyLessonRow → ℕ → List ReadyLesson
ready_in [] id = []
ready_in (row ∷ rows) id =
    let rest = ready_in rows id in if row.level_id == id then row.lesson ∷ rest else rest

lessons_of-push_lesson :
    (lists : LessonLists) (row : ReadyLessonRow) (id : ℕ)
    → lessons_of (push_lesson lists row) id
      ≡ (lessons_of lists id ++ (if row.level_id == id then row.lesson ∷ [] else []))
unfolding lessons_of push_lesson
lessons_of-push_lesson [] row id = elim (Bool-cases (row.level_id == id)) [
  | inl here ↦ rw here refl
  | inr elsewhere ↦ rw elsewhere refl
]
lessons_of-push_lesson (entry ∷ lists) row id =
    let rest = lessons_of-push_lesson lists row id in
    elim (Bool-cases (entry.0 == row.level_id)) [
      | inl own ↦ elim (Bool-cases (entry.0 == id)) [
        | inl here ↦
            let same : (row.level_id == id) ≡ true = ground arith in rw (own, here, same) refl
        | inr elsewhere ↦
            let differs : (row.level_id == id) ≡ false = ground arith in
            rw (own, elsewhere, differs) (sym (append-nil _))
      ]
      | inr other ↦ elim (Bool-cases (entry.0 == id)) [
        | inl here ↦
            let differs : (row.level_id == id) ≡ false = ground arith in
            rw (other, here, differs) (sym (append-nil _))
        | inr elsewhere ↦ rw (other, elsewhere) rest
      ]
    ]

lessons_of-group_lessons :
    (lists : LessonLists) (rows : List ReadyLessonRow) (id : ℕ)
    → lessons_of (group_lessons lists rows) id ≡ (lessons_of lists id ++ ready_in rows id)
unfolding group_lessons ready_in
lessons_of-group_lessons lists [] id = sym (append-nil _)
lessons_of-group_lessons lists (row ∷ rows) id =
    let rest = lessons_of-group_lessons (push_lesson lists row) rows id in
    let pushed = lessons_of-push_lesson lists row id in
    elim (Bool-cases (row.level_id == id)) [
      | inl here ↦
          rest
          ∙ rw (pushed, here)
              (append_assoc (lessons_of lists id) (row.lesson ∷ []) (ready_in rows id))
      | inr elsewhere ↦
          rest
          ∙ rw (pushed, elsewhere)
              (ap (λ l. l ++ ready_in rows id) (append-nil (lessons_of lists id)))
    ]

-- The levels that are served are the given ones, in their order, with or without ready lessons, and
-- each shows the ready lessons of its own and no others, each as often as the query returns it.
pub load_path_levels-perm :
    (levels : List LevelRow) (ready_lessons : List ReadyLessonRow) (progresses : List ProgressRow)
    → (map served_row (load_path_levels levels ready_lessons progresses) ≡ levels)
      × All
          (λ (s : ServedLevel).
            Perm
              (map (λ (l : PathLesson). l.id) s.level.lessons)
              (map (λ (l : ReadyLesson). l.id) (ready_in ready_lessons s.id)))
          (load_path_levels levels ready_lessons progresses)
unfolding load_path_levels
load_path_levels-perm [] ready_lessons progresses = (refl, tt)
load_path_levels-perm (row ∷ rows) ready_lessons progresses =
    let (same, shows) = load_path_levels-perm rows ready_lessons progresses in
    (
      ap (◌∷◌ row) same,
      (
        subst
            (λ lessons.
              Perm
                (map (λ (l : PathLesson). l.id)
                  (build_level_path (lessons_of (group_lessons [] ready_lessons) row.id)
                    (progress_map progresses)))
                (map (λ (l : ReadyLesson). l.id) lessons))
            (lessons_of-group_lessons [] ready_lessons row.id)
            (build_level_path-perm (lessons_of (group_lessons [] ready_lessons) row.id)
              (progress_map progresses)),
        shows,
      ),
    )
