-- ===== src/Base/Sort.antt =====
-- `[...xs].sort(compare)`: the language sorts stably, so the result is the one of insertion.
use Prim.Native.Nat.{Ordering}
use mathlib.Core.Path.{◌≡◌, refl}
use mathlib.Core.Logic.{◌≢◌, ◌⊎◌, inl, inr}
use mathlib.Core.List.{Memᴰ, List, [], ◌∷◌, Perm}
use mathlib.Core.List.Perm
use native.Mathlib.Omega.{arith}
use hsk_3_0_app.Base.Lists.{All, length}

-- The comparator's sign: `lt` for a negative number, `gt` for a positive one.
module _ {ℓ} {A : Type ℓ} (cmp : A → A → Ordering) where
  unfoldable pub insert : A → List A → List A
  insert x [] = x ∷ []
  insert x (y ∷ ys) =
      let later = y ∷ insert x ys in elim (cmp x y) [ Ordering.gt ↦ later | _ ↦ x ∷ y ∷ ys ]

  unfoldable pub sort : List A → List A
  unfolding insert
  sort [] = []
  sort (x ∷ xs) = insert x (sort xs)

  pub insert-perm : (x : A) (ys : List A) → Perm (insert x ys) (x ∷ ys)
  unfolding insert
  insert-perm x [] = Perm.rfl
  insert-perm x (y ∷ ys) =
      let later = Perm.trans (Perm.cons y (insert-perm x ys)) (Perm.swap x y ys) in
      ground (arith, later, Perm.refl (x ∷ y ∷ ys))

  -- Sorting rearranges.
  pub sort-perm : (xs : List A) → Perm (sort xs) xs
  unfolding sort
  sort-perm [] = Perm.rfl
  sort-perm (x ∷ xs) = Perm.trans (insert-perm x (sort xs)) (Perm.cons x (sort-perm xs))

  pub length-insert : (x : A) (ys : List A) → length (insert x ys) ≡ length (x ∷ ys)
  unfolding insert
  length-insert x [] = refl
  length-insert x (y ∷ ys) = ground (arith, length-insert x ys)

  pub length-sort : (xs : List A) → length (sort xs) ≡ length xs
  unfolding sort
  length-sort [] = refl
  length-sort (x ∷ xs) = omega (arith, length-insert x (sort xs), length-sort xs)

  pub All-insert {κ} : (P : A → Type κ) (x : A) (ys : List A) → P x → All P ys → All P (insert x ys)
  unfolding insert
  All-insert P x [] p h = (p, tt)
  All-insert P x (y ∷ ys) p h = let rest = All-insert P x ys p h.1 in ground (arith, rest)

  pub All-sort {κ} : (P : A → Type κ) (xs : List A) → All P xs → All P (sort xs)
  unfolding sort
  All-sort P [] h = tt
  All-sort P (x ∷ xs) h = All-insert P x (sort xs) h.0 (All-sort P xs h.1)

-- `first || second` on comparator results: `second` counts only where `first` is 0.
infixr 40 ◌or_else◌
abbrev pub ◌or_else◌ : Ordering → Ordering → Ordering
Ordering.eq or_else b = b
Ordering.lt or_else b = Ordering.lt
Ordering.gt or_else b = Ordering.gt

module _ {ℓ} {A : Type ℓ} (cmp : A → A → Ordering) where
  -- A comparator that is consistent, as `sort` asks.
  pub record IsOrder : Type ℓ where
    pub total : (x y : A) → cmp x y ≡ Ordering.gt → cmp y x ≢ Ordering.gt
    pub trans : (x y z : A) → cmp x y ≢ Ordering.gt → cmp y z ≢ Ordering.gt → cmp x z ≢ Ordering.gt

  abbrev pub IsBelow : A → List A → Type 0
  IsBelow x ys = All (λ y. cmp x y ≢ Ordering.gt) ys

  -- No element is greater than a later one.
  abbrev pub IsSorted : List A → Type 0
  IsSorted [] = Unit
  IsSorted (x ∷ xs) = IsBelow x xs × IsSorted xs

  module _ (order : IsOrder) where
    IsBelow-le : (x y : A) (zs : List A) → cmp x y ≢ Ordering.gt → IsBelow y zs → IsBelow x zs
    IsBelow-le x y [] h b = tt
    IsBelow-le x y (z ∷ zs) h b = (order.trans x y z h b.0, IsBelow-le x y zs h b.1)

    insert-IsSorted : (x : A) (ys : List A) → IsSorted ys → IsSorted (insert cmp x ys)
    unfolding insert
    insert-IsSorted x [] s = (tt, tt)
    insert-IsSorted x (y ∷ ys) (b, s) = ground (
      arith,
      order.total x y,
      All-insert cmp (λ z. cmp y z ≢ Ordering.gt) x ys,
      insert-IsSorted x ys s,
      IsBelow-le x y ys,
    )

    -- Sorting sorts.
    pub sort-IsSorted : (xs : List A) → IsSorted (sort cmp xs)
    unfolding sort
    sort-IsSorted [] = tt
    sort-IsSorted (x ∷ xs) = insert-IsSorted x (sort cmp xs) (sort-IsSorted xs)

module _ {ℓ} {A : Type ℓ} (cmp : A → A → Ordering) where
  insert-cases :
      (x y : A) (ys : List A)
      → (insert cmp x (y ∷ ys) ≡ y ∷ insert cmp x ys) ⊎ (insert cmp x (y ∷ ys) ≡ x ∷ y ∷ ys)
  unfolding insert
  insert-cases x y ys = ground arith

  mem-insert : {a : A} (x : A) (ys : List A) → Memᴰ a (x ∷ ys) → Memᴰ a (insert cmp x ys)
  unfolding insert
  mem-insert x [] m = m
  mem-insert x (y ∷ ys) m = elim (insert-cases x y ys) [
    | inr e ↦ rw e m
    | inl e ↦ rw e (later (λ (k : Memᴰ _ (x ∷ ys)). mem-insert x ys k) m)
  ]
    where
      later :
          {a : A}
          → (Memᴰ a (x ∷ ys) → Memᴰ a (insert cmp x ys))
          → Memᴰ a (x ∷ y ∷ ys)
          → Memᴰ a (y ∷ insert cmp x ys)
      later ih (Memᴰ.head e) = Memᴰ.tail (ih (Memᴰ.head e))
      later ih (Memᴰ.tail (Memᴰ.head e)) = Memᴰ.head e
      later ih (Memᴰ.tail (Memᴰ.tail m)) = Memᴰ.tail (ih (Memᴰ.tail m))

  mem-of_insert : {a : A} (x : A) (ys : List A) → Memᴰ a (insert cmp x ys) → Memᴰ a (x ∷ ys)
  unfolding insert
  mem-of_insert x [] m = m
  mem-of_insert x (y ∷ ys) m = elim (insert-cases x y ys) [
    | inr e ↦ rw e at m
    | inl e ↦ sooner (λ (k : Memᴰ _ (insert cmp x ys)). mem-of_insert x ys k) (rw e at m)
  ]
    where
      sooner :
          {a : A}
          → (Memᴰ a (insert cmp x ys) → Memᴰ a (x ∷ ys))
          → Memᴰ a (y ∷ insert cmp x ys)
          → Memᴰ a (x ∷ y ∷ ys)
      sooner ih (Memᴰ.head e) = Memᴰ.tail (Memᴰ.head e)
      sooner ih (Memᴰ.tail m) = swap (ih m)
        where
          swap : {a : A} → Memᴰ a (x ∷ ys) → Memᴰ a (x ∷ y ∷ ys)
          swap (Memᴰ.head e) = Memᴰ.head e
          swap (Memᴰ.tail m) = Memᴰ.tail (Memᴰ.tail m)

  -- Sorting keeps the members.
  pub mem-sort : {a : A} {xs : List A} → Memᴰ a xs → Memᴰ a (sort cmp xs)
  unfolding sort
  mem-sort (Memᴰ.head {x} {xs} e) = mem-insert x (sort cmp xs) (Memᴰ.head e)
  mem-sort (Memᴰ.tail {x} {xs} m) = mem-insert x (sort cmp xs) (Memᴰ.tail (mem-sort m))

  pub mem-of_sort : {a : A} (xs : List A) → Memᴰ a (sort cmp xs) → Memᴰ a xs
  unfolding sort
  mem-of_sort [] m = m
  mem-of_sort (x ∷ xs) m =
      step (λ (k : Memᴰ _ (sort cmp xs)). mem-of_sort xs k) (mem-of_insert x (sort cmp xs) m)
    where
      step :
          {a : A} → (Memᴰ a (sort cmp xs) → Memᴰ a xs) → Memᴰ a (x ∷ sort cmp xs) → Memᴰ a (x ∷ xs)
      step ih (Memᴰ.head e) = Memᴰ.head e
      step ih (Memᴰ.tail m) = Memᴰ.tail (ih m)
