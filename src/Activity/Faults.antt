-- ===== src/Activity/Faults.antt =====
-- lesson-activity-persistence.ts, and the key of lesson-activity-idempotency.ts: how an error of
-- the database is classified, and which idempotency keys are accepted.
use Prim.Native.Char.{code}
use text.Mathlib.Text.{◌==◌ as str_eq}
use hsk_3_0_app.Base.{
  ℕ, zero, suc, ◌*◌, ◌-◌, Bool, false, ◌&&◌, ◌||◌, Option, none, some, List, [], ◌∷◌, ◌++◌, String,
  leb, ltb, ◌==◌, if◌then◌else◌, any, all, length,
}
use hsk_3_0_app.Activity.{
  ActivityError, Result, ok, err, invalid_key, retry_write, write_timeout, storage_unavailable,
  not_persisted,
}

-- The code points of a text.
abbrev pub codes : String → List ℕ
codes String.[] = []
codes (String.◌∷◌ c s) = code c ∷ codes s

abbrev between : ℕ → ℕ → ℕ → Bool
between lo hi c = leb lo c && leb c hi

abbrev is_digit : ℕ → Bool
is_digit = between b'0' b'9'

abbrev is_upper : ℕ → Bool
is_upper = between b'A' b'Z'

abbrev is_lower : ℕ → Bool
is_lower = between b'a' b'z'

-- `[A-Za-z0-9]`
abbrev pub is_alphanumeric : ℕ → Bool
is_alphanumeric c = is_upper c || is_lower c || is_digit c

-- `[A-Za-z0-9._:-]`
abbrev pub is_key_character : ℕ → Bool
is_key_character c = is_alphanumeric c || c == b'.' || c == b'_' || c == b':' || c == b'-'

-- `IDEMPOTENCY_KEY_PATTERN`
unfoldable pub matches_key_pattern : List ℕ → Bool
matches_key_pattern [] = false
matches_key_pattern (first ∷ rest) =
    is_alphanumeric first
    && all is_key_character rest
    && leb 7 (length rest)
    && leb (length rest) 127

-- `parseIdempotencyKey`; `none` is a value that is no string.
unfoldable pub parse_idempotency_key : Option String → Result String
unfolding matches_key_pattern
parse_idempotency_key none = err invalid_key
parse_idempotency_key (some value) =
    if matches_key_pattern (codes value) then ok value else err invalid_key

-- `IDEMPOTENCY_KEY_TTL_MS`
abbrev pub idempotency_key_ttl_ms : ℕ
idempotency_key_ttl_ms = 24 * 60 * 60 * 1000

-- `isIdempotencyKeyExpired`: an age below 0 is no age above the limit.
unfoldable pub is_idempotency_key_expired : (stored_at now : ℕ) → Bool
is_idempotency_key_expired stored_at now = ltb idempotency_key_ttl_ms (now - stored_at)

-- A thrown value, as `collectSafeErrorCodes` reads it: `null` or `undefined`, another value that is
-- no object, or an object with its three code fields (`none` where the field is no string).
pub data Thrown : Type 0 where
  nullish : Thrown
  plain : Thrown
  object : (code sql_state sqlstate : Option String) (cause meta : Thrown) → Thrown

abbrev code_of : Option String → List String
code_of none = []
code_of (some c) = c ∷ []

-- `record.cause ?? record.meta`
abbrev next_error : (cause meta : Thrown) → Thrown
next_error nullish meta = meta
next_error plain meta = plain
next_error (object c s t cause inner) meta = object c s t cause inner

-- `collectSafeErrorCodes`, with the rounds that are left of 4.
unfoldable pub collect_safe_error_codes : (rounds : ℕ) → Thrown → List String
collect_safe_error_codes zero current = []
collect_safe_error_codes (suc rounds) nullish = []
collect_safe_error_codes (suc rounds) plain = []
collect_safe_error_codes (suc rounds) (object c s t cause meta) =
    code_of c ++ code_of s ++ code_of t ++ collect_safe_error_codes rounds (next_error cause meta)

-- `LessonActivityPersistenceErrorKind`
pub data FaultKind : Type 0 where
  unique_conflict concurrent_retry timeout connection_error unknown : FaultKind

abbrev pub has : List String → String → Bool
has codes_seen c = any (λ d. str_eq d c) codes_seen

-- `/^08[A-Z0-9]{3}$/`
abbrev is_class_08 : List ℕ → Bool
is_class_08 (a ∷ b ∷ c ∷ d ∷ e ∷ []) =
    a == b'0' && b == b'8' && all (λ x. is_upper x || is_digit x) (c ∷ d ∷ e ∷ [])
is_class_08 _ = false

abbrev connection_codes : List String
connection_codes = "P1000" ∷ "P1001" ∷ "P1002" ∷ "P1003" ∷ "P1008" ∷ "P1017" ∷ "P2024" ∷ []

unfoldable pub classify_codes : List String → FaultKind
classify_codes found =
    if has found "P2002" || has found "23505"
    then FaultKind.unique_conflict
    else if has found "P2034" || has found "40P01"
    then concurrent_retry
    else if has found "P2028" || has found "55P03" || has found "57014"
    then timeout
    else if any (λ c. is_class_08 (codes c) || has connection_codes c) found
    then connection_error
    else unknown

unfoldable pub classify_lesson_activity_persistence_error : Thrown → FaultKind
unfolding classify_codes collect_safe_error_codes
classify_lesson_activity_persistence_error error = classify_codes (collect_safe_error_codes 4 error)

-- The exception that `write` throws for an error of the database.
unfoldable pub fault_error : FaultKind → ActivityError
fault_error FaultKind.unique_conflict = ActivityError.unique_conflict
fault_error concurrent_retry = retry_write
fault_error timeout = write_timeout
fault_error connection_error = storage_unavailable
fault_error unknown = not_persisted
