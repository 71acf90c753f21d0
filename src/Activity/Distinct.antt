-- ===== src/Activity/Distinct.antt =====
-- `distinct` as a set: a set of as many members as a list, all of them in the list, holds the list.
use hsk_3_0_app.Base.{
  ℕ, ◌+◌, ◌≤◌, ◌≡◌, refl, sym, ◌∙◌, inl, inr, true, false, List, [], ◌∷◌, arith, ◌==◌,
  if◌then◌else◌, Bool-cases, contains, length,
}
use hsk_3_0_app.Activity.Service.Reads.{distinct}

remove : ℕ → List ℕ → List ℕ
remove d [] = []
remove d (x ∷ xs) = let rest = remove d xs in if x == d then xs else x ∷ rest

length-remove : (d : ℕ) (xs : List ℕ) → contains xs d ≡ true → length xs ≡ length (remove d xs) + 1
unfolding remove
length-remove d [] h = cc
length-remove d (x ∷ xs) h = elim (Bool-cases (x == d)) [
  | inl same ↦ rw same (omega arith)
  | inr differs ↦ let rest = length-remove d xs (ground arith) in rw differs (omega (arith, rest))
]

contains-remove :
    (d y : ℕ) (xs : List ℕ)
    → contains xs y ≡ true
    → (d == y) ≡ false
    → contains (remove d xs) y ≡ true
unfolding remove
contains-remove d y [] h differs = cc
contains-remove d y (x ∷ xs) h differs = elim (Bool-cases (x == d)) [
  | inl same ↦ rw same (ground arith)
  | inr other ↦ rw other (elim (Bool-cases (x == y)) [
    | inl here ↦ ground arith
    | inr elsewhere ↦ let rest = contains-remove d y xs (ground arith) differs in ground arith
  ])
]

pub NoDup : List ℕ → Type 0
NoDup [] = Unit
NoDup (x ∷ xs) = (contains xs x ≡ false) × NoDup xs

abbrev Within : List ℕ → List ℕ → Type 0
Within xs ys = (y : ℕ) → contains xs y ≡ true → contains ys y ≡ true

length-Within : (xs ys : List ℕ) → NoDup xs → Within xs ys → length xs ≤ length ys
unfolding NoDup
length-Within [] ys n w = omega arith
length-Within (x ∷ xs) ys (fresh, n) w =
    let here : contains ys x ≡ true = w x (ground arith) in
    let rest =
      length-Within xs (remove x ys) n
        (λ y h. contains-remove x y ys (w y (ground arith)) (ground arith)) in
    omega (arith, rest, length-remove x ys here)

-- A list of distinct members of `ys`, as long as `ys`.
full-Within : (xs ys : List ℕ) → NoDup xs → Within xs ys → length xs ≡ length ys → Within ys xs
unfolding NoDup
full-Within xs ys n w same y h = elim (Bool-cases (contains xs y)) [
  | inl held ↦ held
  | inr missing ↦
      let more =
        length-Within (y ∷ xs) ys (missing, n)
          (λ z k. elim (Bool-cases (y == z)) [
            | inl here ↦ ground arith
            | inr elsewhere ↦ w z (ground arith)
          ]) in
      absurd (omega (arith, more, same))
]

contains-distinct : (xs : List ℕ) (y : ℕ) → contains (distinct xs) y ≡ contains xs y
unfolding distinct
contains-distinct [] y = refl
contains-distinct (x ∷ xs) y =
    let rest = contains-distinct xs y in
    elim (Bool-cases (contains xs x)) [
      | inl again ↦ rw again (ground arith)
      | inr fresh ↦ rw fresh (ground arith)
    ]

distinct-NoDup : (xs : List ℕ) → NoDup (distinct xs)
unfolding distinct NoDup
distinct-NoDup [] = tt
distinct-NoDup (x ∷ xs) = elim (Bool-cases (contains xs x)) [
  | inl again ↦ rw again (distinct-NoDup xs)
  | inr fresh ↦ rw fresh (contains-distinct xs x ∙ fresh, distinct-NoDup xs)
]

pub distinct-holds :
    (xs ys : List ℕ)
    → ((y : ℕ) → contains xs y ≡ true → contains ys y ≡ true)
    → length (distinct xs) ≡ length ys
    → (y : ℕ) → contains ys y ≡ true
    → contains xs y ≡ true
distinct-holds xs ys w same y h =
    sym (contains-distinct xs y)
    ∙ full-Within (distinct xs) ys (distinct-NoDup xs)
        (λ z k. w z (sym (contains-distinct xs z) ∙ k)) same y h
