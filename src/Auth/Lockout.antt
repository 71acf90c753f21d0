-- ===== src/Auth/Lockout.antt =====
-- How often auth.service.ts lets the password of one account be tried.
use hsk_3_0_app.Base.{
  ℕ, ◌+◌, ◌-◌, ◌≤◌, ◌<◌, ◌==◌, ◌≡◌, refl, sym, ap, ◌∙◌, subst, inl, inr, Bool, true, false, ◌&&◌,
  Option, none, some, List, [], ◌∷◌, leb, if◌then◌else◌, filter, All, arith, Bool-cases,
  Option-cases, max,
}
use hsk_3_0_app.Auth.{User, update_where, find_user, minutes}
use hsk_3_0_app.Auth.Login.{
  reserve_login_attempt, is_unlocked, claim_attempt, max_login_attempts, lockout_minutes,
}

-- The ids of the rows are distinct: the table's primary key.
abbrev pub HasIds : List User → Type 0
HasIds [] = Unit
HasIds (row ∷ rows) = (find_user rows row.id ≡ none) × HasIds rows

-- How many of the attempts at these times are let through, where none succeeds.
unfoldable pub claimed_attempts : List User → (user_id : ℕ) → (times : List ℕ) → ℕ
unfolding reserve_login_attempt
claimed_attempts users user_id [] = 0
claimed_attempts users user_id (now ∷ times) =
    let reserved = reserve_login_attempt users user_id now in
    let rest = claimed_attempts reserved.0 user_id times in if reserved.1 then rest + 1 else rest

-- The row of a user after an attempt, and whether it is let through.
abbrev attempt : (now : ℕ) → Option User → Option User × Bool
attempt now none = (none, false)
attempt now (some row) =
    if is_unlocked now row then (some (claim_attempt now row), true) else (some row, false)

reserve_none :
    (users : List User) (user_id now : ℕ)
    → find_user users user_id ≡ none
    → (filter (λ (row : User). row.id == user_id && is_unlocked now row) users ≡ [])
      × (update_where
            (λ (row : User). row.id == user_id && is_unlocked now row)
            (claim_attempt now)
            users
          ≡ users)
reserve_none [] user_id now h = (refl, refl)
reserve_none (row ∷ rows) user_id now h = elim (Bool-cases (row.id == user_id)) [
  | inl here ↦ absurd (ground arith)
  | inr away ↦
      let (a, b) = reserve_none rows user_id now (ground arith) in
      (rw (away, a) refl, rw (away, b) refl)
]

pub reserve-attempt :
    (users : List User) (user_id now : ℕ)
    → HasIds users
    → (find_user (reserve_login_attempt users user_id now).0 user_id
        ≡ (attempt now (find_user users user_id)).0)
      × ((reserve_login_attempt users user_id now).1 ≡ (attempt now (find_user users user_id)).1)
unfolding reserve_login_attempt
reserve-attempt [] user_id now h = (refl, refl)
reserve-attempt (row ∷ rows) user_id now (fresh, h) = elim (Bool-cases (row.id == user_id)) [
  | inr away ↦ let (a, b) = reserve-attempt rows user_id now h in (rw (away, away) a, rw away b)
  | inl here ↦
      let same : row.id ≡ user_id = ground arith in
      let (none_claimed, kept) =
        reserve_none rows user_id now (subst (λ i. find_user rows i ≡ none) same fresh) in
      elim (Bool-cases (is_unlocked now row)) [
        | inl unlocked ↦ (rw (here, unlocked, here) refl, rw (here, unlocked, none_claimed) refl)
        | inr locked ↦ (rw (here, locked, here) refl, rw (here, locked, none_claimed) refl)
      ]
]

-- Only an account that is not locked has an attempt let through.
pub reserve-unlocked :
    (users : List User) (row : User) (now : ℕ)
    → HasIds users
    → find_user users row.id ≡ some row
    → (reserve_login_attempt users row.id now).1 ≡ true
    → is_unlocked now row ≡ true
reserve-unlocked users row now h own reserved =
    let passes = (reserve-attempt users row.id now h).1 in
    let passed : (attempt now (some row)).1 ≡ true =
      ap (λ o. (attempt now o).1) (sym own) ∙ sym passes ∙ reserved in
    elim (Bool-cases (is_unlocked now row)) [
      | inl unlocked ↦ unlocked
      | inr locked ↦ let wrong = rw locked at passed in absurd (ground arith)
    ]

reserve-HasIds :
    (users : List User) (user_id now : ℕ)
    → HasIds users
    → HasIds (reserve_login_attempt users user_id now).0
unfolding reserve_login_attempt
reserve-HasIds users user_id now h =
    update-HasIds (λ (row : User). row.id == user_id && is_unlocked now row) users h
  where
    update-find_none :
        (test : User → Bool) (rows : List User) (id : ℕ)
        → find_user rows id ≡ none
        → find_user (update_where test (claim_attempt now) rows) id ≡ none
    update-find_none test [] id none_found = refl
    update-find_none test (row ∷ rows) id none_found =
        let rest = update-find_none test rows id in
        elim (Bool-cases (test row)) [ inl e ↦ ground arith | inr e ↦ ground arith ]

    update-HasIds :
        (test : User → Bool) (rows : List User)
        → HasIds rows
        → HasIds (update_where test (claim_attempt now) rows)
    update-HasIds test [] keyed = tt
    update-HasIds test (row ∷ rows) (fresh, keyed) =
        let apart = update-find_none test rows row.id fresh in
        let rest = update-HasIds test rows keyed in
        elim (Bool-cases (test row)) [ inl e ↦ rw e (apart, rest) | inr e ↦ rw e (apart, rest) ]

-- How many attempts before `last` the row still lets through.
abbrev attempts_left : (last : ℕ) → Option User → ℕ
attempts_left last none = 0
attempts_left last (some row) = elim row.lock_until [
  | none ↦ max 1 (max_login_attempts - row.failed_login_attempts)
  | some until ↦ if leb last until then 0 else max_login_attempts
]

attempts_left-le-max : (last : ℕ) (o : Option User) → attempts_left last o ≤ max_login_attempts
attempts_left-le-max last none = omega arith
attempts_left-le-max last (some row) = elim (Option-cases row.lock_until) [
  | inl e ↦ rw e (omega arith)
  | inr (until, e) ↦ rw e (ground arith)
]

attempt-left :
    (start last now : ℕ) (o : Option User) (n : ℕ)
    → (start ≤ now) × (now < last)
    → last ≤ start + minutes lockout_minutes
    → n ≤ attempts_left last (attempt now o).0
    → (if (attempt now o).1 then n + 1 else n) ≤ attempts_left last o
attempt-left start last now none n inside window h = h
attempt-left start last now (some row) n inside window h = elim (Option-cases row.lock_until) [
  | inl e ↦ ground arith
  | inr (until, e) ↦ ground arith
]

claimed_attempts-le-left :
    (start last : ℕ) (times : List ℕ) (users : List User) (user_id : ℕ)
    → HasIds users
    → last ≤ start + minutes lockout_minutes
    → All (λ t. (start ≤ t) × (t < last)) times
    → claimed_attempts users user_id times ≤ attempts_left last (find_user users user_id)
unfolding claimed_attempts
claimed_attempts-le-left start last [] users user_id h window inside = omega arith
claimed_attempts-le-left start last (now ∷ times) users user_id h window (first, inside) =
    let (row, passes) = reserve-attempt users user_id now h in
    let rest =
      claimed_attempts-le-left start last times (reserve_login_attempt users user_id now).0 user_id
        (reserve-HasIds users user_id now h) window inside in
    rw passes (
      attempt-left start last now (find_user users user_id)
        (claimed_attempts (reserve_login_attempt users user_id now).0 user_id times) first window
        (subst
          (λ o.
            claimed_attempts (reserve_login_attempt users user_id now).0 user_id times
            ≤ attempts_left last o)
          row rest))

-- Within any 15 minutes, at most 5 attempts at the password of an account are let through, in
-- whatever order they arrive and whatever its row held before, as long as none of them succeeds.
pub claimed_attempts-le-max :
    (start : ℕ) (times : List ℕ) (users : List User) (user_id : ℕ)
    → HasIds users
    → All (λ t. (start ≤ t) × (t < start + minutes lockout_minutes)) times
    → claimed_attempts users user_id times ≤ max_login_attempts
claimed_attempts-le-max start times users user_id h inside =
    let bound =
      claimed_attempts-le-left start (start + minutes lockout_minutes) times users user_id h
        (omega arith) inside in
    omega (
      arith,
      bound,
      attempts_left-le-max (start + minutes lockout_minutes) (find_user users user_id),
    )
