-- ===== src/Path/Rows.antt =====
-- The rows of a level: what stands at each index, and which row is current.
use hsk_3_0_app.Base.{
  ℕ, zero, suc, ◌+◌, ◌≡◌, refl, sym, ap, subst, ◌∙◌, ◌⊎◌, inl, inr, Bool, true, false, not, ◌&&◌,
  Option, none, some, List, [], ◌∷◌, arith, find, get_elem?, Option-cases, Bool-cases,
}
use mathlib.Core.Option
use hsk_3_0_app.Path.{
  PathRow, ReadyLesson, ProgressMap, path_row, rows_from, row_is_done, consider_row,
  most_recent_row, current_row,
}

-- The element before index `i`, when `previous` stands before the list.
abbrev pub before {ℓ} : {A : Type ℓ} → Option A → List A → ℕ → Option A
before previous xs zero = previous
before previous xs (suc i) = get_elem? xs i

before-cons :
    (l : ReadyLesson) (ls : List ReadyLesson) (i : ℕ) → before (some l) ls i ≡ get_elem? (l ∷ ls) i
before-cons l ls zero = refl
before-cons l ls (suc i) = refl

pub get_elem?-rows_from :
    (p : ProgressMap) (index : ℕ) (previous : Option ReadyLesson) (ls : List ReadyLesson) (i : ℕ)
    → get_elem? (rows_from p index previous ls) i
      ≡ Option.map (λ l. path_row p (index + i) (before previous ls i) l) (get_elem? ls i)
unfolding rows_from
get_elem?-rows_from p index previous [] i = refl
get_elem?-rows_from p index previous (l ∷ ls) zero =
    ap (λ k. some (path_row p k previous l)) (omega arith)
get_elem?-rows_from p index previous (l ∷ ls) (suc i) =
    let shift : index + 1 + i ≡ index + suc i = omega arith in
    rw (← before-cons l ls i, ← shift) (get_elem?-rows_from p (index + 1) (some l) ls i)

-- A row that stands in the list, with its index.
abbrev pub At : List PathRow → PathRow → Type 0
At rows r = (i : ℕ) × (get_elem? rows i ≡ some r)

-- A row that can be continued: open to the learner and not done.
pub record IsOpen (r : PathRow) : Type 0 where
  pub unlocked : r.unlocked ≡ true
  pub undone : row_is_done r ≡ false

consider_row-cases :
    (chosen : Option PathRow) (row : PathRow)
    → (consider_row chosen row ≡ chosen) ⊎ ((consider_row chosen row ≡ some row) × IsOpen row)
unfolding consider_row
consider_row-cases chosen row = ground arith

most_recent_row-At :
    (chosen : Option PathRow) (rows : List PathRow) {r : PathRow}
    → most_recent_row chosen rows ≡ some r
    → (chosen ≡ some r) ⊎ (At rows r × IsOpen r)
unfolding most_recent_row
most_recent_row-At chosen [] e = inl e
most_recent_row-At chosen (row ∷ rows) {r} e =
    elim (most_recent_row-At (consider_row chosen row) rows e) [
      | inl kept ↦ elim (consider_row-cases chosen row) [
        | inl same ↦ inl (sym same ∙ kept)
        | inr (taken, opened) ↦
            let same : row ≡ r = ground arith in inr ((0, ap some same), subst IsOpen same opened)
      ]
      | inr ((i, at), opened) ↦ inr ((suc i, at), opened)
    ]

find-At :
    (p : PathRow → Bool) (rows : List PathRow) {r : PathRow}
    → find p rows ≡ some r
    → At rows r × (p r ≡ true)
find-At p [] e = cc
find-At p (row ∷ rows) {r} e = elim (Bool-cases (p row)) [
  | inl yes_p ↦
      let same : row ≡ r = ground arith in ((0, ap some same), subst (λ q. p q ≡ true) same yes_p)
  | inr no_p ↦
      let found = find-At p rows {r = r} (ground arith) in ((suc found.0.0, found.0.1), found.1)
]

-- The current row is one of the rows, and it can be continued.
pub current_row-IsOpen :
    (rows : List PathRow) {r : PathRow} → current_row rows ≡ some r → At rows r × IsOpen r
unfolding current_row
current_row-IsOpen rows {r} e = elim (Option-cases (most_recent_row none rows)) [
  | inl none_learning ↦
      let (at, test) =
        find-At (λ row. row.unlocked && not (row_is_done row)) rows {r = r} (ground arith) in
      (at, record { unlocked = ground arith; undone = ground arith })
  | inr (best, found) ↦ elim (most_recent_row-At none rows {r = r} (ground arith)) [
    | inl absent ↦ cc
    | inr both ↦ both
  ]
]

find-none :
    (p : PathRow → Bool) (rows : List PathRow) (i : ℕ) {r : PathRow}
    → find p rows ≡ none
    → get_elem? rows i ≡ some r
    → p r ≡ false
find-none p [] i e at = cc
find-none p (row ∷ rows) zero {r} e at = elim (Bool-cases (p row)) [
  | inl holds ↦ ground arith
  | inr fails ↦ let same : row ≡ r = ground arith in subst (λ q. p q ≡ false) same fails
]
find-none p (row ∷ rows) (suc i) {r} e at = find-none p rows i {r = r} (ground arith) at

-- With no current row, no row can be continued.
pub current_row-none :
    (rows : List PathRow) (i : ℕ) {r : PathRow}
    → current_row rows ≡ none
    → get_elem? rows i ≡ some r
    → r.unlocked ≡ true
    → row_is_done r ≡ true
unfolding current_row
current_row-none rows i {r} e at opened = elim (Option-cases (most_recent_row none rows)) [
  | inl none_learning ↦
      let closed =
        find-none (λ row. row.unlocked && not (row_is_done row)) rows i {r = r} (ground arith) at in
      ground arith
  | inr (best, found) ↦ ground arith
]
