-- ===== src/Path/Recent.antt =====
-- The loop that picks the learner's most recent lesson in `buildLevelPath`, and what the whole
-- path keeps of the level: its lessons and their positions.
use mathlib.Core.Option.{some-injective}
use mathlib.Core.List.{Perm, map-map}
use mathlib.Core.List.Perm
use hsk_3_0_app.Base.{
  ℕ, ◌+◌, ◌≡◌, refl, sym, ap, subst, ◌∙◌, inl, inr, Bool, true, false, ◌&&◌, Option, none, some,
  List, [], ◌∷◌, map, arith, get_elem?, Option-cases, mem-get_elem?,
}
use hsk_3_0_app.Base.Sort.{sort-perm}
use hsk_3_0_app.Path.{
  PathRow, PathProgress, not_started, ReadyLesson, ProgressMap, PathLesson, current, rows_from,
  row_is_learning, consider_row, most_recent_row, current_row, activity_of, status_of, Status,
  learning, is_learning, is_lesson_unlocked, level_rows, build_level_path, to_path_lesson,
  compare_ready_lessons,
}
use hsk_3_0_app.Path.Laws.{ordered, row_at, path-at}
use hsk_3_0_app.Path.States.{path-current}
use hsk_3_0_app.Path.Newest.{
  step, newest, NotBefore, newest-beats, newest-mem, NoLaterThan, is_more_recent-NoLaterThan,
}

-- The rows that the loop looks at.
abbrev ongoing : PathRow → Bool
ongoing row = row.unlocked && row_is_learning row

abbrev activity : PathRow → Option ℕ
activity row = activity_of row.progress

consider_row-eq-step :
    (chosen : Option PathRow) (row : PathRow)
    → consider_row chosen row ≡ step ongoing activity chosen row
unfolding consider_row
consider_row-eq-step none row = ground arith
consider_row-eq-step (some found) row = ground arith

most_recent_row-eq-newest :
    (chosen : Option PathRow) (rows : List PathRow)
    → most_recent_row chosen rows ≡ newest ongoing activity chosen rows
unfolding most_recent_row newest
most_recent_row-eq-newest chosen [] = refl
most_recent_row-eq-newest chosen (row ∷ rows) =
    most_recent_row-eq-newest (consider_row chosen row) rows
    ∙ ap (λ c. newest ongoing activity c rows) (consider_row-eq-step chosen row)

-- The current row was active no earlier than any row that the learner is on, and is such a row.
current_row-beats :
    (rows : List PathRow) (i : ℕ) (row : PathRow)
    → get_elem? rows i ≡ some row
    → ongoing row ≡ true
    → (best : PathRow) × (current_row rows ≡ some best)
      × (row_is_learning best ≡ true)
      × NotBefore ongoing activity best row
unfolding current_row
current_row-beats rows i row at o =
    let (best, found, later) = newest-beats ongoing activity none (mem-get_elem? rows i at) o in
    let picked = most_recent_row-eq-newest none rows ∙ found in
    elim (newest-mem ongoing activity none rows found) [
      | inl absent ↦ cc
      | inr (_, passes) ↦ (best, rw (picked, current_row), ground arith, later)
    ]

row_is_learning-status :
    (r : PathRow) → row_is_learning r ≡ true → status_of r.progress ≡ some learning
row_is_learning-status r h = go r.progress h
  where
    go :
        (o : Option PathProgress)
        → (elim o [ none ↦ false | some q ↦ is_learning q.status ]) ≡ true
        → status_of o ≡ some learning
    go none k = cc
    go (some q) k = ap some (status q.status k)
      where
        status : (t : Status) → is_learning t ≡ true → t ≡ learning
        status learning k = refl
        status Status.done k = cc
        status not_started k = cc

module _ (ready : List ReadyLesson) (p : ProgressMap) where
  row_at-ongoing :
      (i : ℕ) (lesson : ReadyLesson)
      → status_of (p lesson.id) ≡ some learning
      → ongoing (row_at ready p i lesson) ≡ true
  unfolding is_lesson_unlocked
  row_at-ongoing i lesson e = elim (Option-cases (p lesson.id)) [
    | inl missing ↦ ground arith
    | inr (progress, found) ↦ ground arith
  ]

  -- Where the learner is on a lesson of the level, the current lesson is one that the learner is
  -- on, and its last activity is the latest of those lessons' activities, where they have one.
  pub build_level_path-most_recent :
      (i j : ℕ) (l m : PathLesson)
      → get_elem? (build_level_path ready p) i ≡ some l
      → get_elem? (build_level_path ready p) j ≡ some m
      → l.state ≡ current
      → m.status ≡ some learning
      → (l.status ≡ some learning) × NoLaterThan m.last_activity_at l.last_activity_at
  unfolding to_path_lesson
  build_level_path-most_recent i j l m at_i at_j e f =
      let (_, _, l_same, (is_current, _)) = path-current ready p i l at_i in
      let (other, _, m_same, at) = path-at ready p j {l = m} at_j in
      let status = sym (ap (λ (q : PathLesson). q.status) m_same) ∙ f in
      let (best, found, learns, later) =
        current_row-beats _ j _ at (row_at-ongoing j other status) in
      let row = row_at ready p i (path-current ready p i l at_i).0 in
      let here = some-injective _ _ (sym found ∙ is_current e) in
      (
        ap (λ (q : PathLesson). q.status) l_same
            ∙ row_is_learning-status row (subst (λ r. row_is_learning r ≡ true) here learns),
        rw (l_same, m_same)
            (is_more_recent-NoLaterThan _ _
              (subst (λ r. NotBefore ongoing activity r (row_at ready p j other)) here later)),
      )

  ids-rows_from :
      (n : ℕ) (previous : Option ReadyLesson) (ls : List ReadyLesson)
      → map (λ (r : PathRow). r.lesson.id) (rows_from p n previous ls)
        ≡ map (λ (l : ReadyLesson). l.id) ls
  unfolding rows_from
  ids-rows_from n previous [] = refl
  ids-rows_from n previous (l ∷ ls) = ap (◌∷◌ l.id) (ids-rows_from (n + 1) (some l) ls)

  -- The path shows the ready lessons of the level, each as often as it is given.
  pub build_level_path-perm :
      Perm
        (map (λ (l : PathLesson). l.id) (build_level_path ready p))
        (map (λ (l : ReadyLesson). l.id) ready)
  unfolding build_level_path level_rows to_path_lesson
  build_level_path-perm =
      let same = map-map (λ (l : PathLesson). l.id) _ _ ∙ ids-rows_from 0 none (ordered ready) in
      subst (λ ids. Perm ids (map (λ (l : ReadyLesson). l.id) ready)) (sym same)
        (Perm.map _ (sort-perm compare_ready_lessons ready))
