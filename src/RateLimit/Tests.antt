-- ===== src/RateLimit/Tests.antt =====
-- Two hits in a window of 100 milliseconds: the tests of the rate limits, and the witnesses.
use hsk_3_0_app.Base.{◌≤◌, ◌≡◌, refl, true, none, List, [], ◌∷◌, arith, ◌^◌}
use hsk_3_0_app.RateLimit.{
  Counter, Limits, first_hit, next_hit, upsert_counter, count_hit, increment, reset, delete_batch,
  purge_batches, purge_expired,
}
use hsk_3_0_app.RateLimit.Window.{allowed_hits, allowed_hits-le-limit}
use hsk_3_0_app.RateLimit.Cleanup.{count_hit-purge_expired}

runs : Unit {0}
unfolding first_hit next_hit upsert_counter count_hit increment reset delete_batch purge_batches
    purge_expired allowed_hits
runs = tt

abbrev two : Limits
two = record { ttl = 100; limit = 2; block_duration = 100 }

abbrev old : List Counter
old = record { key = "k"; points = 3; expire_at = 5 } ∷ []

allowed_test : allowed_hits old "k" two (10 ∷ 11 ∷ 12 ∷ 13 ∷ 109 ∷ []) ≡ 2
unfolding runs
allowed_test = refl

-- A block that is shorter than the window lets a third hit pass within the window.
short_block_test :
    allowed_hits [] "k" (record { ttl = 100; limit = 2; block_duration = 10 }) (0 ∷ 1 ∷ 2 ∷ 20 ∷ [])
    ≡ 3
unfolding runs
short_block_test = refl

refused_test :
    (increment old "k" (record { ttl = 0; limit = 2; block_duration = 100 }) 10 ≡ none)
    × (increment old "k" (record { ttl = 2 ^ 40; limit = 2; block_duration = 100 }) 10 ≡ none)
unfolding runs
refused_test = (refl, refl)

allowed_hits-le-limit_example : allowed_hits old "k" two (10 ∷ 11 ∷ 12 ∷ 13 ∷ 109 ∷ []) ≤ 2
allowed_hits-le-limit_example =
    allowed_hits-le-limit old "k" two 10 (11 ∷ 12 ∷ 13 ∷ 109 ∷ []) (omega arith)
      (λ c h. ground arith)
      (
        (omega arith, omega arith),
        (
          (omega arith, omega arith),
          ((omega arith, omega arith), ((omega arith, omega arith), tt)),
        ),
      )

count_hit-purge_expired_example :
    (count_hit (purge_expired (λ batch row. true) 20 old).0 "k" two 30).1
    ≡ (count_hit old "k" two 30).1
unfolding runs
count_hit-purge_expired_example =
    count_hit-purge_expired (λ batch row. true) 20 30 old "k" two (refl, tt) (omega arith)
