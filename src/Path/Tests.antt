-- ===== src/Path/Tests.antt =====
-- A level of four lessons: the tests of the learning path policy, and the witnesses.
use hsk_3_0_app.Base.{
  ℕ, ◌+◌, ◌≡◌, refl, Option, none, some, List, [], ◌∷◌, map, ◌==◌, if◌then◌else◌, get_elem?, Memᴰ,
  ◌⊎◌, ◌↔◌, ◌≢◌, All,
}
use mathlib.Core.List.{Perm}
use hsk_3_0_app.Base.Sort.{sort}
use hsk_3_0_app.Path.{
  Status, learning, done, ReadyLesson, LessonState, current, available, locked, PathLesson,
  ProgressMap, is_lesson_unlocked, is_more_recent, consider_row, most_recent_row, current_row,
  row_state, to_path_lesson, level_rows, rows_from, build_level_path, status_of,
}
use hsk_3_0_app.Path.Laws.{ordered}
use hsk_3_0_app.Path.States.{
  IsClosed, build_level_path-states, build_level_path-current_unique, build_level_path-has_current,
}
use hsk_3_0_app.Path.Newest.{NoLaterThan}
use hsk_3_0_app.Path.Recent.{build_level_path-most_recent, build_level_path-perm}
use hsk_3_0_app.Path.Select.{
  PathLevel, to_next_lesson, current_of, consider_lesson, recent_in_level, recent_in_levels,
  first_higher, select_for_target, select_next_lesson,
}
use hsk_3_0_app.Path.Service.{
  LevelRow, ReadyLessonRow, ServedLevel, served_row, ready_in, load_path_levels,
  load_path_levels-perm,
}
use hsk_3_0_app.Path.Candidates.{Offered}
use hsk_3_0_app.Path.Next.{select_next_lesson-Offered, select_next_lesson-most_recent}

runs : Unit {0}
unfolding sort is_lesson_unlocked is_more_recent consider_row most_recent_row current_row row_state
    to_path_lesson level_rows rows_from build_level_path to_next_lesson current_of consider_lesson
    recent_in_level recent_in_levels first_higher select_for_target select_next_lesson
runs = tt

abbrev ready_lesson : ℕ → ReadyLesson
ready_lesson id = record { id = id; title = "title"; slug = "slug"; order_index = id }

-- The lessons, out of order.
abbrev ready : List ReadyLesson
ready = ready_lesson 3 ∷ ready_lesson 1 ∷ ready_lesson 4 ∷ ready_lesson 2 ∷ []

-- Lesson 1 is done, and lesson 2 is being learned.
abbrev progress_of : ProgressMap
progress_of id =
    if id == 1
    then some (record { status = done; completion_percent = 100; last_activity_at = some 9 })
    else if id == 2
    then some (record { status = learning; completion_percent = 50; last_activity_at = some 5 })
    else none

abbrev shown : ℕ → LessonState → ℕ → Option Status → Option ℕ → PathLesson
shown id state percent status at = record {
  id = id;
  title = "title";
  slug = "slug";
  position = id;
  state = state;
  completion_percent = percent;
  status = status;
  last_activity_at = at;
}

abbrev second : PathLesson
second = shown 2 current 50 (some learning) (some 5)

abbrev path : List PathLesson
path =
    shown 1 LessonState.done 100 (some done) (some 9)
    ∷ second
    ∷ shown 3 locked 0 none none
    ∷ shown 4 locked 0 none none
    ∷ []

path_test : build_level_path ready progress_of ≡ path
unfolding runs
path_test = refl

-- The level of that path, and a level where nothing is done.
abbrev first_level : PathLevel
first_level = record { code = "hsk1"; order_index = 1; lessons = path }

abbrev second_level : PathLevel
second_level = record { code = "hsk2"; order_index = 2; lessons = shown 9 current 0 none none ∷ [] }

abbrev levels : List PathLevel
levels = second_level ∷ first_level ∷ []

select_tests :
    (select_next_lesson levels none ≡ some (to_next_lesson first_level second))
    × (select_next_lesson (second_level ∷ []) (some 1)
        ≡ some (to_next_lesson second_level (shown 9 current 0 none none)))
    × (select_next_lesson (second_level ∷ []) (some 3) ≡ none)
    × (select_next_lesson (second_level ∷ []) none ≡ none)
unfolding runs
select_tests = (refl, refl, refl, refl)

build_level_path-states_example :
    (lesson : ReadyLesson) × (get_elem? (ordered ready) 2 ≡ some lesson)
    × (3 ≡ lesson.id)
    × (3 ≡ 2 + 1)
    × ((locked ≡ locked) ↔ IsClosed (ordered ready) progress_of 2 lesson)
    × ((locked ≡ LessonState.done) ↔ (status_of (progress_of lesson.id) ≡ some done))
unfolding runs
build_level_path-states_example =
    build_level_path-states ready progress_of 2 (shown 3 locked 0 none none) refl

build_level_path-current_unique_example : ◌≡◌ {A = ℕ} 1 1
unfolding runs
build_level_path-current_unique_example =
    build_level_path-current_unique ready progress_of 1 1 second second refl refl refl refl

build_level_path-has_current_example :
    ((i : ℕ) × (l : PathLesson) × (get_elem? (build_level_path ready progress_of) i ≡ some l)
      × (l.state ≡ current))
    ↔ ((i : ℕ) × (lesson : ReadyLesson) × (get_elem? (ordered ready) i ≡ some lesson)
        × (¬ IsClosed (ordered ready) progress_of i lesson)
        × (status_of (progress_of lesson.id) ≢ some done))
build_level_path-has_current_example = build_level_path-has_current ready progress_of

-- Lesson 1 is done, and lessons 2, 3 and 4 are being learned, 3 the last.
abbrev busy : ProgressMap
busy id =
    if id == 1
    then some (record { status = done; completion_percent = 100; last_activity_at = some 9 })
    else some (record {
      status = learning;
      completion_percent = 50;
      last_activity_at = if id == 2 then some 5 else if id == 3 then some 8 else none;
    })

abbrev busy_second : PathLesson
busy_second = shown 2 available 50 (some learning) (some 5)

abbrev busy_third : PathLesson
busy_third = shown 3 current 50 (some learning) (some 8)

abbrev busy_path : List PathLesson
busy_path =
    shown 1 LessonState.done 100 (some done) (some 9)
    ∷ busy_second
    ∷ busy_third
    ∷ shown 4 available 50 (some learning) none
    ∷ []

busy_test : build_level_path ready busy ≡ busy_path
unfolding runs
busy_test = refl

build_level_path-most_recent_example :
    (some learning ≡ some learning) × NoLaterThan (some 5) (some 8)
unfolding runs
build_level_path-most_recent_example =
    build_level_path-most_recent ready busy 2 1 busy_third busy_second refl refl refl refl

build_level_path-perm_example :
    Perm
      (map (λ (l : PathLesson). l.id) (build_level_path ready progress_of))
      (map (λ (l : ReadyLesson). l.id) ready)
build_level_path-perm_example = build_level_path-perm ready progress_of

select_next_lesson-Offered_example :
    (level : PathLevel) × (lesson : PathLesson) × Offered levels level lesson
    × (to_next_lesson first_level second ≡ to_next_lesson level lesson)
    × ((lesson.status ≡ some learning) ⊎ (lesson.state ≡ current))
unfolding runs
select_next_lesson-Offered_example =
    select_next_lesson-Offered levels none (to_next_lesson first_level second) refl

abbrev busy_level : PathLevel
busy_level = record { code = "hsk1"; order_index = 1; lessons = busy_path }

abbrev busy_levels : List PathLevel
busy_levels = second_level ∷ busy_level ∷ []

busy_select_test :
    select_next_lesson busy_levels (some 2) ≡ some (to_next_lesson busy_level busy_third)
unfolding runs
busy_select_test = refl

select_next_lesson-most_recent_example :
    (best_level : PathLevel) × (best : PathLesson) × Offered busy_levels best_level best
    × (best.status ≡ some learning)
    × (select_next_lesson busy_levels (some 2) ≡ some (to_next_lesson best_level best))
    × NoLaterThan (some 5) best.last_activity_at
select_next_lesson-most_recent_example =
    select_next_lesson-most_recent busy_levels (some 2) busy_level busy_second
      (record { given = Memᴰ.tail (Memᴰ.head refl); held = Memᴰ.tail (Memᴰ.head refl) }) refl

abbrev rows : List ReadyLessonRow
rows =
    record { level_id = 5; lesson = ready_lesson 1 }
    ∷ record { level_id = 6; lesson = ready_lesson 7 }
    ∷ record { level_id = 5; lesson = ready_lesson 2 }
    ∷ []

-- The last level has no ready lesson.
abbrev level_rows_of : List LevelRow
level_rows_of =
    record { id = 5; code = "hsk1"; name = "one"; order_index = 1 }
    ∷ record { id = 6; code = "hsk2"; name = "two"; order_index = 2 }
    ∷ record { id = 8; code = "hsk3"; name = "three"; order_index = 3 }
    ∷ []

load_path_levels-perm_example :
    (map served_row (load_path_levels level_rows_of rows []) ≡ level_rows_of)
    × All
        (λ (s : ServedLevel).
          Perm
            (map (λ (l : PathLesson). l.id) s.level.lessons)
            (map (λ (l : ReadyLesson). l.id) (ready_in rows s.id)))
        (load_path_levels level_rows_of rows [])
load_path_levels-perm_example = load_path_levels-perm level_rows_of rows []
