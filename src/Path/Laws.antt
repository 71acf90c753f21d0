-- ===== src/Path/Laws.antt =====
-- The states of a level's lessons in `buildLevelPath`.
use mathlib.Core.Option
use hsk_3_0_app.Base.{
  ℕ, ◌+◌, ◌≡◌, sym, ap, ◌∙◌, ◌↔◌, inl, inr, true, none, some, List, arith, ◌==◌, get_elem?,
  Option-cases, ==_iff, ==_refl, get_elem?-map,
}
use hsk_3_0_app.Base.Sort.{sort}
use hsk_3_0_app.Path.{
  PathRow, ReadyLesson, ProgressMap, PathLesson, path_row, current_row, compare_ready_lessons,
  level_rows, build_level_path, to_path_lesson, is_row,
}
use hsk_3_0_app.Path.Rows.{before, get_elem?-rows_from, current_row-IsOpen}

abbrev pub ordered : List ReadyLesson → List ReadyLesson
ordered ready = sort compare_ready_lessons ready

module _ (ready : List ReadyLesson) (p : ProgressMap) where
  abbrev pub row_at : ℕ → ReadyLesson → PathRow
  row_at i lesson = path_row p i (before none (ordered ready) i) lesson

  level_rows-at :
      (i : ℕ)
      → get_elem? (level_rows ready p) i ≡ Option.map (row_at i) (get_elem? (ordered ready) i)
  unfolding level_rows
  level_rows-at i =
      let start : 0 + i ≡ i = omega arith in
      get_elem?-rows_from p 0 none (ordered ready) i
      ∙ ap
          (λ k.
            Option.map (path_row p k (before none (ordered ready) i)) (get_elem? (ordered ready) i))
          start

  pub row-of :
      (i : ℕ) {r : PathRow}
      → get_elem? (level_rows ready p) i ≡ some r
      → (lesson : ReadyLesson) × (get_elem? (ordered ready) i ≡ some lesson) × (row_at i lesson ≡ r)
  row-of i e = (Option.map-eq-some_iff _ _).0 (sym (level_rows-at i) ∙ e)

  row-position :
      (i : ℕ) {r : PathRow} → get_elem? (level_rows ready p) i ≡ some r → r.position ≡ i + 1
  row-position i e = let (_, _, same) = row-of i e in ap (λ (r : PathRow). r.position) (sym same)

  -- An element of the path is the translation of the row at its index.
  pub path-at :
      (i : ℕ) {l : PathLesson}
      → get_elem? (build_level_path ready p) i ≡ some l
      → (lesson : ReadyLesson) × (get_elem? (ordered ready) i ≡ some lesson)
        × (l ≡ to_path_lesson (current_row (level_rows ready p)) (row_at i lesson))
        × (get_elem? (level_rows ready p) i ≡ some (row_at i lesson))
  unfolding build_level_path
  path-at i {l} e =
      let (r, at, same) =
        (Option.map-eq-some_iff _ _).0
          (sym (get_elem?-map (to_path_lesson (current_row (level_rows ready p))) _ i) ∙ e) in
      let (lesson, here, row_same) = row-of i at in
      (
        lesson,
        here,
        sym same ∙ ap (to_path_lesson (current_row (level_rows ready p))) (sym row_same),
        rw row_same at,
      )

  -- The other way round: what stands at an index of the path.
  pub at-path :
      (i : ℕ) (lesson : ReadyLesson)
      → get_elem? (ordered ready) i ≡ some lesson
      → (get_elem? (level_rows ready p) i ≡ some (row_at i lesson))
        × (get_elem? (build_level_path ready p) i
            ≡ some (to_path_lesson (current_row (level_rows ready p)) (row_at i lesson)))
  unfolding build_level_path
  at-path i lesson here =
      let at = level_rows-at i ∙ ap (Option.map (row_at i)) here in
      (
        at,
        get_elem?-map (to_path_lesson (current_row (level_rows ready p))) _ i
            ∙ ap (Option.map (to_path_lesson (current_row (level_rows ready p)))) at,
      )

  -- A row with the position of the current row is the current row.
  pub is_row_iff :
      (i : ℕ) (r : PathRow)
      → get_elem? (level_rows ready p) i ≡ some r
      → (is_row r (current_row (level_rows ready p)) ≡ true)
        ↔ (current_row (level_rows ready p) ≡ some r)
  is_row_iff i r at = elim (Option-cases (current_row (level_rows ready p))) [
    | inl empty ↦ rw empty (λ h. cc, λ h. cc)
    | inr (c, e) ↦
        let ((j, at_j), _) = current_row-IsOpen (level_rows ready p) e in
        let from : (r.position == c.position) ≡ true → some c ≡ some r = λ h.
          let here : j ≡ i =
            omega
              (arith, row-position i at, row-position j at_j, (==_iff r.position c.position).0 h) in
          sym at_j ∙ ap (get_elem? (level_rows ready p)) here ∙ at in
        rw e (from, λ h. ground (arith, ==_refl r.position))
  ]
