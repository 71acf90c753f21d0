-- ===== src/Path/Newest.antt =====
-- The selection that both loops of the policy make: among the items that pass a test, the first
-- one with the latest activity.
use mathlib.Core.List.{Memᴰ}
use hsk_3_0_app.Base.{
  ℕ, ◌≡◌, refl, sym, subst, ◌∙◌, ◌⊎◌, inl, inr, Bool, true, false, Option, none, some, List, [],
  ◌∷◌, ◌≤◌, arith, if◌then◌else◌, Bool-cases,
}
use hsk_3_0_app.Path.{is_more_recent}

-- No time, or a time that the other is not before: `null` comes before every time.
abbrev pub NoLaterThan : (a b : Option ℕ) → Type 0
NoLaterThan none b = Unit
NoLaterThan (some t) none = ⊥
NoLaterThan (some t) (some u) = t ≤ u

pub is_more_recent-NoLaterThan : (a b : Option ℕ) → is_more_recent a b ≡ false → NoLaterThan a b
unfolding is_more_recent
is_more_recent-NoLaterThan none b h = tt
is_more_recent-NoLaterThan (some t) none h = cc
is_more_recent-NoLaterThan (some t) (some u) h = ground arith

pub is_more_recent_trans :
    (a b c : Option ℕ)
    → is_more_recent a b ≡ false
    → is_more_recent b c ≡ false
    → is_more_recent a c ≡ false
unfolding is_more_recent
is_more_recent_trans none b c h k = refl
is_more_recent_trans (some a) none c h k = cc
is_more_recent_trans (some a) (some b) none h k = cc
is_more_recent_trans (some a) (some b) (some c) h k = ground arith

pub is_more_recent_irrefl : (a : Option ℕ) → is_more_recent a a ≡ false
unfolding is_more_recent
is_more_recent_irrefl none = refl
is_more_recent_irrefl (some a) = ground arith

pub is_more_recent-asymm : (a b : Option ℕ) → is_more_recent a b ≡ true → is_more_recent b a ≡ false
unfolding is_more_recent
is_more_recent-asymm none b h = cc
is_more_recent-asymm (some a) none h = refl
is_more_recent-asymm (some a) (some b) h = ground arith

module _ {A : Type 0} (test : A → Bool) (activity : A → Option ℕ) where
  abbrev pub newer : Option A → A → Option A
  newer none x = some x
  newer (some best) x = if is_more_recent (activity x) (activity best) then some x else some best

  abbrev pub step : Option A → A → Option A
  step chosen x = if test x then newer chosen x else chosen

  unfoldable pub newest : Option A → List A → Option A
  newest chosen [] = chosen
  newest chosen (x ∷ xs) = newest (step chosen x) xs

  -- `found` was not active before `x`.
  abbrev pub NotBefore : A → A → Type 0
  NotBefore found x = is_more_recent (activity x) (activity found) ≡ false

  NotBefore-trans : (a b c : A) → NotBefore b a → NotBefore c b → NotBefore c a
  NotBefore-trans a b c h k = is_more_recent_trans _ (activity b) _ h k

  step-keeps : (found x : A) → (best : A) × (step (some found) x ≡ some best) × NotBefore best found
  step-keeps found x = elim (Bool-cases (test x)) [
    | inr fails ↦ (found, rw fails, is_more_recent_irrefl _)
    | inl passes ↦ elim (Bool-cases (is_more_recent (activity x) (activity found))) [
      | inl later ↦ (x, rw (passes, later), is_more_recent-asymm _ _ later)
      | inr earlier ↦ (found, rw (passes, earlier), is_more_recent_irrefl _)
    ]
  ]

  step-beats :
      (chosen : Option A) (x : A)
      → test x ≡ true
      → (best : A) × (step chosen x ≡ some best) × NotBefore best x
  step-beats none x passes = (x, rw passes, is_more_recent_irrefl _)
  step-beats (some found) x passes =
      elim (Bool-cases (is_more_recent (activity x) (activity found))) [
        | inl later ↦ (x, rw (passes, later), is_more_recent_irrefl _)
        | inr earlier ↦ (found, rw (passes, earlier), earlier)
      ]

  newest-keeps :
      (found : A) (xs : List A)
      → (best : A) × (newest (some found) xs ≡ some best) × NotBefore best found
  unfolding newest
  newest-keeps found [] = (found, refl, is_more_recent_irrefl _)
  newest-keeps found (x ∷ xs) =
      let (next, took, first) = step-keeps found x in
      let (best, rest, later) = newest-keeps next xs in
      (best, rw took rest, NotBefore-trans found next best first later)

  -- An item that passes is not active after the chosen one.
  pub newest-beats :
      {x : A} (chosen : Option A) {xs : List A}
      → Memᴰ x xs
      → test x ≡ true
      → (best : A) × (newest chosen xs ≡ some best) × NotBefore best x
  unfolding newest
  newest-beats {x} chosen (Memᴰ.head {x = y} {xs = ys} same) passes =
      let (next, took, first) = step-beats chosen y (subst (λ z. test z ≡ true) same passes) in
      let (best, rest, later) = newest-keeps next ys in
      (
        best,
        rw took rest,
        NotBefore-trans x next best (subst (λ z. NotBefore next z) (sym same) first) later,
      )
  newest-beats chosen (Memᴰ.tail {x = y} m) passes = newest-beats (step chosen y) m passes

  step-cases :
      (chosen : Option A) (x : A)
      → (step chosen x ≡ chosen) ⊎ ((step chosen x ≡ some x) × (test x ≡ true))
  step-cases none x = ground arith
  step-cases (some found) x = ground arith

  -- The chosen item is one of the items, and it passes.
  pub newest-mem :
      (chosen : Option A) (xs : List A) {r : A}
      → newest chosen xs ≡ some r
      → (chosen ≡ some r) ⊎ (Memᴰ r xs × (test r ≡ true))
  unfolding newest
  newest-mem chosen [] e = inl e
  newest-mem chosen (x ∷ xs) {r} e = elim (newest-mem (step chosen x) xs e) [
    | inr (m, passes) ↦ inr (Memᴰ.tail m, passes)
    | inl kept ↦ elim (step-cases chosen x) [
      | inl same ↦ inl (sym same ∙ kept)
      | inr (taken, passes) ↦
          let here : x ≡ r = ground arith in
          inr (Memᴰ.head (sym here), subst (λ z. test z ≡ true) here passes)
    ]
  ]
