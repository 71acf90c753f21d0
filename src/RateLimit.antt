-- ===== src/RateLimit.antt =====
-- backend/src/infrastructure/rate-limit/postgres-throttler.storage.ts: the counters of the rate
-- limits, one for each key, as its SQL statements change them. Times are milliseconds of the
-- database's clock. The timer that starts the cleanup is left out.
pub mod Window
pub mod Cleanup
mod Tests
use text.Mathlib.Text.{◌==◌ as str_eq}
use hsk_3_0_app.Base.{
  ℕ, zero, suc, ◌+◌, ◌-◌, ◌/◌, ◌^◌, Bool, ◌&&◌, not, Option, none, some, List, [], ◌∷◌, String, ltb,
  leb, if◌then◌else◌, filter, find, length,
}

-- A row of `RateLimitCounter`.
pub record Counter : Type 0 where
  pub key : String
  pub points : ℕ
  pub expire_at : ℕ

-- `ThrottlerStorageRecord`
pub record ThrottlerRecord : Type 0 where
  pub total_hits : ℕ
  pub time_to_expire : ℕ
  pub is_blocked : Bool
  pub time_to_block_expire : ℕ

-- The arguments `ttl`, `limit` and `blockDuration` of `increment`.
pub record Limits : Type 0 where
  pub ttl : ℕ
  pub limit : ℕ
  pub block_duration : ℕ

-- `assertWholeNumber`, for a number that is whole.
abbrev pub is_whole_number : (value minimum : ℕ) → Bool
is_whole_number value minimum = leb value (2 ^ 53 - 1) && leb minimum value

-- A parameter that its cast `::integer` accepts.
abbrev pub fits_integer : ℕ → Bool
fits_integer value = leb value (2 ^ 31 - 1)

-- The row that is inserted, `EXCLUDED` on a conflict.
unfoldable pub first_hit : Limits → (now : ℕ) (key : String) → Counter
first_hit limits now key = record {
  key = key;
  points = 1;
  expire_at = now + (if ltb limits.limit 1 then limits.block_duration else limits.ttl);
}

-- `DO UPDATE SET`
unfoldable pub next_hit : Limits → (now : ℕ) → Counter → Counter
unfolding first_hit
next_hit limits now counter = record {
  key = counter.key;
  points =
      if leb counter.expire_at now
      then 1
      else if ltb limits.limit counter.points
      then counter.points
      else counter.points + 1;
  expire_at =
      if leb counter.expire_at now
      then (first_hit limits now counter.key).expire_at
      else if ltb limits.limit counter.points
      then counter.expire_at
      else if ltb limits.limit (counter.points + 1)
      then now + limits.block_duration
      else counter.expire_at;
}

-- `INSERT … ON CONFLICT ("key")`: the rows, and the row that is returned.
unfoldable pub upsert_counter :
    List Counter → (key : String) → Limits → (now : ℕ) → List Counter × Counter
unfolding next_hit first_hit
upsert_counter [] key limits now = let made = first_hit limits now key in (made ∷ [], made)
upsert_counter (counter ∷ counters) key limits now =
    let rest = upsert_counter counters key limits now in
    if str_eq counter.key key
    then (next_hit limits now counter ∷ counters, next_hit limits now counter)
    else (counter ∷ rest.0, rest.1)

-- `GREATEST(0, CEIL(EXTRACT(EPOCH FROM …)))`
abbrev pub seconds_to_expire : Counter → (now : ℕ) → ℕ
seconds_to_expire counter now = (counter.expire_at - now + 999) / 1000

abbrev pub throttler_record : Limits → (now : ℕ) → Counter → ThrottlerRecord
throttler_record limits now row = record {
  total_hits = row.points;
  time_to_expire = seconds_to_expire row now;
  is_blocked = ltb limits.limit row.points;
  time_to_block_expire = if ltb limits.limit row.points then seconds_to_expire row now else 0;
}

-- The statement of `increment`, and what it returns.
unfoldable pub count_hit :
    List Counter → (key : String) → Limits → (now : ℕ) → List Counter × ThrottlerRecord
unfolding upsert_counter
count_hit counters key limits now =
    let made = upsert_counter counters key limits now in
    (made.0, throttler_record limits now made.1)

-- `increment`: `none` where it throws.
unfoldable pub increment :
    List Counter → (key : String) → Limits → (now : ℕ) → Option (List Counter × ThrottlerRecord)
unfolding count_hit
increment counters key limits now =
    if is_whole_number limits.ttl 1
      && is_whole_number limits.limit 0
      && is_whole_number limits.block_duration 1
      && fits_integer limits.ttl
      && fits_integer limits.limit
      && fits_integer limits.block_duration
    then some (count_hit counters key limits now)
    else none

-- `reset`
unfoldable pub reset : List Counter → (key : String) → List Counter
reset counters key = filter (λ counter. not (str_eq counter.key key)) counters

-- One batch of `purgeExpired`: `taken` are the rows that the limit and the locks leave to it.
unfoldable pub delete_batch : (taken : Counter → Bool) (now : ℕ) → List Counter → List Counter
delete_batch taken now counters =
    filter (λ counter. not (leb counter.expire_at now && taken counter)) counters

-- `CLEANUP_BATCH_SIZE`
abbrev pub cleanup_batch_size : ℕ
cleanup_batch_size = 1000

-- `CLEANUP_MAX_BATCHES`
abbrev pub cleanup_max_batches : ℕ
cleanup_max_batches = 10

-- The loop of `purgeExpired`, with the batches that are left: the rows, and how many are deleted.
unfoldable pub purge_batches :
    (batches : ℕ) (taken : ℕ → Counter → Bool) (now deleted : ℕ) → List Counter → List Counter × ℕ
unfolding delete_batch
purge_batches zero taken now deleted counters = (counters, deleted)
purge_batches (suc batches) taken now deleted counters =
    let left = delete_batch (taken batches) now counters in
    let count = length counters - length left in
    let rest = purge_batches batches taken now (deleted + count) left in
    if ltb count cleanup_batch_size then (left, deleted + count) else rest

-- `purgeExpired`
unfoldable pub purge_expired :
    (taken : ℕ → Counter → Bool) (now : ℕ) → List Counter → List Counter × ℕ
unfolding purge_batches
purge_expired taken now counters = purge_batches cleanup_max_batches taken now 0 counters

-- `counter."key" = key`
abbrev pub row_of : List Counter → (key : String) → Option Counter
row_of counters key = find (λ (counter : Counter). str_eq counter.key key) counters
