-- ===== src/RateLimit/Window.antt =====
-- How many hits of a key postgres-throttler.storage.ts lets pass.
use text.Mathlib.Text.{◌==◌ as str_eq}
use text.Mathlib.TextPositions.{eq_refl}
use text.Mathlib.TextEquality.{eq_iff}
use hsk_3_0_app.Base.{
  ℕ, ◌+◌, ◌-◌, ◌≤◌, ◌<◌, ◌≡◌, refl, sym, ap, ◌∙◌, subst, inl, inr, false, Option, none, some, List,
  [], ◌∷◌, String, ltb, if◌then◌else◌, All, arith, Bool-cases,
}
use hsk_3_0_app.RateLimit.{Counter, Limits, first_hit, next_hit, upsert_counter, count_hit, row_of}

-- The row of a key after a hit.
abbrev pub hit_row : Limits → (now : ℕ) (key : String) → Option Counter → Counter
hit_row limits now key none = first_hit limits now key
hit_row limits now key (some counter) = next_hit limits now counter

pub upsert_counter-eq-hit_row :
    (counters : List Counter) (key : String) (limits : Limits) (now : ℕ)
    → (upsert_counter counters key limits now).1 ≡ hit_row limits now key (row_of counters key)
unfolding upsert_counter
upsert_counter-eq-hit_row [] key limits now = refl
upsert_counter-eq-hit_row (c ∷ counters) key limits now =
    let rest = upsert_counter-eq-hit_row counters key limits now in
    elim (Bool-cases (str_eq c.key key)) [
      | inl here ↦ rw here refl
      | inr elsewhere ↦ rw elsewhere rest
    ]

row_of-upsert_counter :
    (counters : List Counter) (key : String) (limits : Limits) (now : ℕ)
    → row_of (upsert_counter counters key limits now).0 key
      ≡ some (upsert_counter counters key limits now).1
unfolding upsert_counter next_hit first_hit
row_of-upsert_counter [] key limits now = rw (eq_refl key) refl
row_of-upsert_counter (c ∷ counters) key limits now =
    let rest = row_of-upsert_counter counters key limits now in
    elim (Bool-cases (str_eq c.key key)) [
      | inl here ↦ rw (here, here) refl
      | inr elsewhere ↦ rw (elsewhere, elsewhere) rest
    ]

-- A hit of one key leaves the counters of the others as they are.
pub row_of-count_hit_ne :
    (counters : List Counter) (key other : String) (limits : Limits) (now : ℕ)
    → str_eq key other ≡ false
    → row_of (count_hit counters key limits now).0 other ≡ row_of counters other
unfolding count_hit upsert_counter first_hit next_hit
row_of-count_hit_ne [] key other limits now apart = rw apart refl
row_of-count_hit_ne (c ∷ counters) key other limits now apart =
    let rest = row_of-count_hit_ne counters key other limits now apart in
    elim (Bool-cases (str_eq c.key key)) [
      | inl here ↦
          let named : c.key ≡ key = (eq_iff c.key key).0 here in
          let away : str_eq c.key other ≡ false =
            subst (λ k. str_eq k other ≡ false) (sym named) apart in
          rw (here, away) refl
      | inr elsewhere ↦ rw elsewhere (elim (Bool-cases (str_eq c.key other)) [
        | inl found ↦ rw found refl
        | inr missing ↦ rw missing rest
      ])
    ]

-- How many of the hits at these times are not blocked.
unfoldable pub allowed_hits : List Counter → (key : String) → Limits → (times : List ℕ) → ℕ
unfolding count_hit
allowed_hits counters key limits [] = 0
allowed_hits counters key limits (now ∷ times) =
    let hit = count_hit counters key limits now in
    let rest = allowed_hits hit.0 key limits times in if hit.1.is_blocked then rest else rest + 1

next_hit-open :
    (limits : Limits) (start last now : ℕ) (counter : Counter)
    → (start ≤ now) × (now < last)
    → last ≤ start + limits.block_duration
    → last ≤ counter.expire_at
    → last ≤ (next_hit limits now counter).expire_at
unfolding next_hit
next_hit-open limits start last now counter first block until = ground arith

next_hit-counted :
    (limits : Limits) (start last now : ℕ) (counter : Counter) (n : ℕ)
    → (start ≤ now) × (now < last)
    → last ≤ counter.expire_at
    → n ≤ limits.limit - (next_hit limits now counter).points
    → (if ltb limits.limit (next_hit limits now counter).points then n else n + 1)
      ≤ limits.limit - counter.points
unfolding next_hit
next_hit-counted limits start last now counter n first until h = ground arith

allowed_hits-within :
    (limits : Limits) (start last : ℕ) (times : List ℕ) (counters : List Counter) (key : String)
    (counter : Counter)
    → last ≤ start + limits.block_duration
    → All (λ t. (start ≤ t) × (t < last)) times
    → row_of counters key ≡ some counter
    → last ≤ counter.expire_at
    → allowed_hits counters key limits times ≤ limits.limit - counter.points
unfolding allowed_hits count_hit
allowed_hits-within limits start last [] counters key counter block inside here until = omega arith
allowed_hits-within limits start last (now ∷ times) counters key counter block (first, inside) here
      until =
    let after = next_hit limits now counter in
    let row : (upsert_counter counters key limits now).1 ≡ after =
      upsert_counter-eq-hit_row counters key limits now ∙ ap (hit_row limits now key) here in
    let rest =
      allowed_hits-within limits start last times (upsert_counter counters key limits now).0 key
        after block inside (row_of-upsert_counter counters key limits now ∙ ap some row)
        (next_hit-open limits start last now counter first block until) in
    rw row (next_hit-counted limits start last now counter _ first until rest)

hit_row-first :
    (limits : Limits) (start : ℕ) (key : String) (old : Option Counter)
    → limits.ttl ≤ limits.block_duration
    → ((counter : Counter) → old ≡ some counter → counter.expire_at ≤ start)
    → ((hit_row limits start key old).points ≡ 1)
      × (start + limits.ttl ≤ (hit_row limits start key old).expire_at)
unfolding first_hit next_hit
hit_row-first limits start key none longer over = (refl, ground arith)
hit_row-first limits start key (some counter) longer over =
    let gone = over counter refl in (ground arith, ground arith)

-- From a hit that meets no counter, or an expired one, until its window ends, at most `limit` hits
-- of the key pass, in whatever order they arrive: where a block lasts at least as long as a window.
pub allowed_hits-le-limit :
    (counters : List Counter) (key : String) (limits : Limits) (start : ℕ) (times : List ℕ)
    → limits.ttl ≤ limits.block_duration
    → ((counter : Counter) → row_of counters key ≡ some counter → counter.expire_at ≤ start)
    → All (λ t. (start ≤ t) × (t < start + limits.ttl)) times
    → allowed_hits counters key limits (start ∷ times) ≤ limits.limit
unfolding allowed_hits count_hit
allowed_hits-le-limit counters key limits start times longer over inside =
    let row = upsert_counter-eq-hit_row counters key limits start in
    let (one, until) = hit_row-first limits start key (row_of counters key) longer over in
    let rest =
      allowed_hits-within limits start (start + limits.ttl) times
        (upsert_counter counters key limits start).0 key
        (hit_row limits start key (row_of counters key)) (omega (arith, longer)) inside
        (row_of-upsert_counter counters key limits start ∙ ap some row) until in
    rw (row, one) (ground (arith, rest, one))
