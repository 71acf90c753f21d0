-- ===== src/Path/States.antt =====
-- What the states of `buildLevelPath` mean.
use mathlib.Core.Bool.{false≢true}
use mathlib.Core.Option.{some-injective}
use hsk_3_0_app.Base.{
  ℕ, zero, suc, ◌+◌, ◌≡◌, refl, sym, ap, ◌∙◌, ◌≢◌, ◌↔◌, inl, inr, true, false, Option, none, some,
  List, arith, get_elem?, Option-cases, Bool-cases,
}
use hsk_3_0_app.Path.{
  PathRow, ReadyLesson, ProgressMap, PathLesson, LessonState, current, locked, row_is_done,
  current_row, status_of, status_is_done, is_lesson_unlocked, Status, done, learning, not_started,
  level_rows, build_level_path, to_path_lesson, row_state,
}
use hsk_3_0_app.Path.Rows.{IsOpen, current_row-IsOpen, current_row-none}
use hsk_3_0_app.Path.Laws.{ordered, row_at, path-at, at-path, row-of, is_row_iff}

-- The lesson at index `i` of the level is closed: it is not the first, the one before it is not
-- done, and the learner has no progress on it.
pub record IsClosed (ls : List ReadyLesson) (p : ProgressMap) (i : ℕ) (lesson : ReadyLesson)
    : Type 0 where
  pub not_first : i ≢ 0
  pub untouched : p lesson.id ≡ none
  pub waiting :
      (j : ℕ) (l : ReadyLesson)
      → suc j ≡ i
      → get_elem? ls j ≡ some l
      → status_of (p l.id) ≢ some done

status_is_done_iff : (s : Option Status) → (status_is_done s ≡ true) ↔ (s ≡ some done)
status_is_done_iff none = (λ h. cc, λ h. cc)
status_is_done_iff (some done) = (λ h. refl, λ h. refl)
status_is_done_iff (some learning) = (λ h. cc, λ h. cc)
status_is_done_iff (some not_started) = (λ h. cc, λ h. cc)

module _ (ready : List ReadyLesson) (p : ProgressMap) where
  locked-IsClosed :
      (i : ℕ) (lesson : ReadyLesson)
      → (row_at ready p i lesson).unlocked ≡ false
      → IsClosed (ordered ready) p i lesson
  unfolding is_lesson_unlocked
  locked-IsClosed zero lesson h = cc
  locked-IsClosed (suc i) lesson h = record {
    not_first = omega arith;
    untouched = ground arith;
    waiting = λ j l next at e.
        let here : j ≡ i = omega arith in
        ground
          (arith, ap (get_elem? (ordered ready)) here, status_is_done_iff (status_of (p l.id)));
  }

  IsClosed-locked :
      (i : ℕ) (lesson : ReadyLesson)
      → get_elem? (ordered ready) i ≡ some lesson
      → IsClosed (ordered ready) p i lesson
      → (row_at ready p i lesson).unlocked ≡ false
  unfolding is_lesson_unlocked
  IsClosed-locked zero lesson h c = absurd (c.not_first refl)
  IsClosed-locked (suc i) lesson h c = elim (Option-cases (get_elem? (ordered ready) i)) [
    | inl missing ↦ ground arith
    | inr (l, at) ↦ ground (arith, c.waiting i l refl at, status_is_done_iff (status_of (p l.id)))
  ]

  -- A row's state against the row itself.
  row_state-locked :
      (r : PathRow) (i : ℕ)
      → get_elem? (level_rows ready p) i ≡ some r
      → (row_is_done r ≡ true → r.unlocked ≡ true)
      → (row_state (current_row (level_rows ready p)) r ≡ locked) ↔ (r.unlocked ≡ false)
  unfolding row_state
  row_state-locked r i at opens =
      ground (arith, is_row_iff ready p i r at, current_row-IsOpen (level_rows ready p) {r = r})

  row_state-done :
      (r : PathRow) (i : ℕ)
      → get_elem? (level_rows ready p) i ≡ some r
      → (row_state (current_row (level_rows ready p)) r ≡ LessonState.done) ↔ (row_is_done r ≡ true)
  unfolding row_state
  row_state-done r i at = ground arith

  row_state-current :
      (r : PathRow) (i : ℕ)
      → get_elem? (level_rows ready p) i ≡ some r
      → (row_state (current_row (level_rows ready p)) r ≡ current)
        ↔ (current_row (level_rows ready p) ≡ some r)
  unfolding row_state
  row_state-current r i at =
      ground (arith, is_row_iff ready p i r at, current_row-IsOpen (level_rows ready p) {r = r})

  -- Progress opens a row.
  row_at-opens :
      (i : ℕ) (lesson : ReadyLesson)
      → row_is_done (row_at ready p i lesson) ≡ true
      → (row_at ready p i lesson).unlocked ≡ true
  unfolding is_lesson_unlocked
  row_at-opens i lesson h = ground arith

  locked_iff :
      (i : ℕ) (lesson : ReadyLesson)
      → get_elem? (ordered ready) i ≡ some lesson
      → ((row_at ready p i lesson).unlocked ≡ false) ↔ IsClosed (ordered ready) p i lesson
  locked_iff i lesson here = (locked-IsClosed i lesson, IsClosed-locked i lesson here)

  -- Each lesson of the path stands where the order puts it, under the position that counts from 1.
  -- It is locked exactly when it is not the first, the lesson before it is not done and the learner
  -- has no progress on it; it is done exactly when its progress is.
  pub build_level_path-states :
      (i : ℕ) (l : PathLesson)
      → get_elem? (build_level_path ready p) i ≡ some l
      → (lesson : ReadyLesson) × (get_elem? (ordered ready) i ≡ some lesson)
        × (l.id ≡ lesson.id)
        × (l.position ≡ i + 1)
        × ((l.state ≡ locked) ↔ IsClosed (ordered ready) p i lesson)
        × ((l.state ≡ LessonState.done) ↔ (status_of (p lesson.id) ≡ some done))
  unfolding to_path_lesson
  build_level_path-states i l e =
      let (lesson, here, same, at) = path-at ready p i {l = l} e in
      let shut = row_state-locked _ i at (row_at-opens i lesson) in
      let closed = locked_iff i lesson here in
      let finished = row_state-done _ i at in
      let status = status_is_done_iff (status_of (p lesson.id)) in
      (
        lesson,
        here,
        ap (λ (q : PathLesson). q.id) same,
        ap (λ (q : PathLesson). q.position) same,
        rw same (λ h. closed.0 (shut.0 h), λ h. shut.1 (closed.1 h)),
        rw same (λ h. status.0 (finished.0 h), λ h. finished.1 (status.1 h)),
      )

  -- A lesson of the path is current exactly when the row at its index is the current row.
  pub path-current :
      (i : ℕ) (l : PathLesson)
      → get_elem? (build_level_path ready p) i ≡ some l
      → (lesson : ReadyLesson) × (get_elem? (ordered ready) i ≡ some lesson)
        × (l ≡ to_path_lesson (current_row (level_rows ready p)) (row_at ready p i lesson))
        × ((l.state ≡ current)
            ↔ (current_row (level_rows ready p) ≡ some (row_at ready p i lesson)))
  unfolding to_path_lesson
  path-current i l e =
      let (lesson, here, same, at) = path-at ready p i {l = l} e in
      let (to, from) = row_state-current _ i at in
      (
        lesson,
        here,
        same,
        (
          λ h. to (sym (ap (λ (q : PathLesson). q.state) same) ∙ h),
          λ h. ap (λ (q : PathLesson). q.state) same ∙ from h,
        ),
      )

  -- No two lessons of a level are current.
  pub build_level_path-current_unique :
      (i j : ℕ) (l m : PathLesson)
      → get_elem? (build_level_path ready p) i ≡ some l
      → get_elem? (build_level_path ready p) j ≡ some m
      → l.state ≡ current
      → m.state ≡ current
      → i ≡ j
  build_level_path-current_unique i j l m at_i at_j e f =
      let (_, _, _, (is_i, _)) = path-current i l at_i in
      let (_, _, _, (is_j, _)) = path-current j m at_j in
      let one = some-injective _ _ (sym (is_i e) ∙ is_j f) in
      omega (arith, ap (λ (r : PathRow). r.position) one)

  -- What the current row says of its lesson.
  open_lesson :
      (i : ℕ) (lesson : ReadyLesson)
      → get_elem? (ordered ready) i ≡ some lesson
      → IsOpen (row_at ready p i lesson)
      → (¬ IsClosed (ordered ready) p i lesson) × (status_of (p lesson.id) ≢ some done)
  open_lesson i lesson here o = (
    λ c. false≢true (sym (IsClosed-locked i lesson here c) ∙ o.unlocked),
    λ e. false≢true (sym o.undone ∙ (status_is_done_iff _).1 e),
  )

  -- A row that can be continued makes a row current.
  some_current :
      (i : ℕ) (lesson : ReadyLesson)
      → get_elem? (ordered ready) i ≡ some lesson
      → ¬ IsClosed (ordered ready) p i lesson
      → status_of (p lesson.id) ≢ some done
      → (r : PathRow) × (current_row (level_rows ready p) ≡ some r)
  some_current i lesson here opened undone =
      elim (Option-cases (current_row (level_rows ready p))) [
        | inr found ↦ found
        | inl missing ↦ elim (Bool-cases (row_at ready p i lesson).unlocked) [
          | inl unlocked ↦
              let finished =
                current_row-none _ i missing (at-path ready p i lesson here).0 unlocked in
              absurd (undone ((status_is_done_iff _).0 finished))
          | inr shut ↦ absurd (opened (locked-IsClosed i lesson shut))
        ]
      ]

  -- A level has a current lesson exactly when one of its lessons is neither closed nor done.
  pub build_level_path-has_current :
      ((i : ℕ) × (l : PathLesson) × (get_elem? (build_level_path ready p) i ≡ some l)
        × (l.state ≡ current))
      ↔ ((i : ℕ) × (lesson : ReadyLesson) × (get_elem? (ordered ready) i ≡ some lesson)
          × (¬ IsClosed (ordered ready) p i lesson)
          × (status_of (p lesson.id) ≢ some done))
  unfolding to_path_lesson
  build_level_path-has_current = (
    λ (i, l, at, e).
        let (lesson, here, _, (is_current, _)) = path-current i l at in
        let (_, opened) = current_row-IsOpen (level_rows ready p) (is_current e) in
        let (free, undone) = open_lesson i lesson here opened in (i, lesson, here, free, undone),
    λ (i, lesson, here, free, undone).
        let (r, found) = some_current i lesson here free undone in
        let ((j, at), _) = current_row-IsOpen (level_rows ready p) found in
        let (other, there, same) = row-of ready p j at in
        let (row_there, listed) = at-path ready p j other there in
        (j, _, listed, (row_state-current _ j row_there).1 (found ∙ ap some (sym same))),
  )
