-- ===== src/Auth/Purge.antt =====
-- backend/src/modules/auth/jobs/purge-expired-sessions.job.ts: the deletion of the old sessions. A
-- batch takes the first rows of the table that are old; the log line is left out.
use native.Mathlib.Nat.{mul-suc}
use hsk_3_0_app.Base.{
  ℕ, zero, suc, ◌+◌, ◌*◌, ◌≤◌, ◌≡◌, refl, ap, ◌∙◌, inl, inr, Bool, not, List, [], ◌∷◌,
  if◌then◌else◌, filter, arith, Bool-cases, length, ltb, min,
}
use hsk_3_0_app.Auth.{UserSession, days}

-- `"expiresAt" < CURRENT_TIMESTAMP - INTERVAL '30 days'`
abbrev pub is_old : (now : ℕ) → UserSession → Bool
is_old now row = ltb (row.expires_at + days 30) now

-- `DELETE … WHERE id IN (SELECT … LIMIT n)`: the rows that are left, and how many are deleted.
unfoldable pub delete_first :
    (limit : ℕ) (test : UserSession → Bool) → List UserSession → List UserSession × ℕ
delete_first limit test [] = ([], 0)
delete_first zero test (row ∷ rows) = (row ∷ rows, 0)
delete_first (suc limit) test (row ∷ rows) =
    let taken = delete_first limit test rows in
    let passed = delete_first (suc limit) test rows in
    if test row then (taken.0, taken.1 + 1) else (row ∷ passed.0, passed.1)

-- The loop of `purge`, with the rounds that are left.
unfoldable pub purge_loop :
    (batch rounds now total_deleted : ℕ) → List UserSession → List UserSession × ℕ
unfolding delete_first
purge_loop batch zero now total_deleted sessions = (sessions, total_deleted)
purge_loop batch (suc rounds) now total_deleted sessions =
    let result = delete_first batch (is_old now) sessions in
    let rest = purge_loop batch rounds now (total_deleted + result.1) result.0 in
    if ltb result.1 batch then (result.0, total_deleted + result.1) else rest

-- `purge`: 1000 rounds at most of 1000 rows each.
unfoldable pub purge : (now : ℕ) → List UserSession → List UserSession × ℕ
unfolding purge_loop
purge now sessions = purge_loop 1000 1000 now 0 sessions

-- How many rows pass the test.
abbrev count : (UserSession → Bool) → List UserSession → ℕ
count test rows = length (filter test rows)

delete_first-count :
    (limit : ℕ) (test : UserSession → Bool) (rows : List UserSession)
    → ((delete_first limit test rows).1 ≡ min limit (count test rows))
      × (count test rows
          ≡ count test (delete_first limit test rows).0 + (delete_first limit test rows).1)
      × (filter (λ row. not (test row)) (delete_first limit test rows).0
          ≡ filter (λ row. not (test row)) rows)
unfolding delete_first
delete_first-count zero test [] = (omega arith, refl, refl)
delete_first-count (suc limit) test [] = (omega arith, refl, refl)
delete_first-count zero test (row ∷ rows) = (omega arith, omega arith, refl)
delete_first-count (suc limit) test (row ∷ rows) =
    let (a, b, c) = delete_first-count limit test rows in
    let (d, e, f) = delete_first-count (suc limit) test rows in
    elim (Bool-cases (test row)) [
      | inl old ↦ rw old (omega (arith, a), omega (arith, b), c)
      | inr kept ↦ rw (kept, kept) (omega (arith, d), omega (arith, e), ap (λ xs. row ∷ xs) f)
    ]

filter_none :
    (test : UserSession → Bool) (rows : List UserSession)
    → count test rows ≡ 0
    → filter test rows ≡ []
filter_none test rows h = go (filter test rows) h
  where
    go : (xs : List UserSession) → length xs ≡ 0 → xs ≡ []
    go [] h = refl
    go (x ∷ xs) h = absurd (ground arith)

-- What the loop has done: no old row is left, the old rows are counted, the others are as they were.
abbrev IsPurged : (now total : ℕ) (rows : List UserSession) → List UserSession × ℕ → Type 0
IsPurged now total rows result =
    (filter (is_old now) result.0 ≡ [])
    × (result.1 ≡ total + count (is_old now) rows)
    × (filter (λ row. not (is_old now row)) result.0 ≡ filter (λ row. not (is_old now row)) rows)

purge_loop-IsPurged :
    (batch rounds now total : ℕ) (rows : List UserSession)
    → count (is_old now) rows ≤ batch * rounds
    → IsPurged now total rows (purge_loop batch rounds now total rows)
unfolding purge_loop
purge_loop-IsPurged batch zero now total rows few =
    let nothing : count (is_old now) rows ≡ 0 = omega (arith, few) in
    (filter_none (is_old now) rows nothing, omega (arith, nothing), refl)
purge_loop-IsPurged batch (suc rounds) now total rows few =
    let result = delete_first batch (is_old now) rows in
    let (taken, left, kept) = delete_first-count batch (is_old now) rows in
    let more : batch * suc rounds ≡ batch * rounds + batch = mul-suc batch rounds in
    elim (Bool-cases (ltb result.1 batch)) [
      | inl last ↦
          let nothing : count (is_old now) result.0 ≡ 0 = ground arith in
          rw last (filter_none (is_old now) result.0 nothing, omega (arith, left, nothing), kept)
      | inr full ↦
          let full_batch : result.1 ≡ batch = ground arith in
          let (a, b, c) =
            purge_loop-IsPurged batch rounds now (total + result.1) result.0
              (omega (arith, few, left, full_batch, more)) in
          rw full (a, omega (arith, b, left), c ∙ kept)
    ]

-- The purge ends with no session left that expired more than 30 days ago, has deleted those and no
-- others, and returns how many they were: where there are at most a million of them.
pub purge_complete :
    (now : ℕ) (sessions : List UserSession)
    → length (filter (is_old now) sessions) ≤ 1000000
    → (filter (is_old now) (purge now sessions).0 ≡ [])
      × ((purge now sessions).1 ≡ length (filter (is_old now) sessions))
      × (filter (λ row. not (is_old now row)) (purge now sessions).0
          ≡ filter (λ row. not (is_old now row)) sessions)
unfolding purge
purge_complete now sessions few =
    let (a, b, c) = purge_loop-IsPurged 1000 1000 now 0 sessions few in (a, omega (arith, b), c)
