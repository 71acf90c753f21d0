-- ===== src/Auth/Login/Attempts.antt =====
-- The throttle of an email and the lock of an account in auth.service.ts.
use hsk_3_0_app.Base.{
  concat, ℕ, ◌+◌, ◌*◌, ◌==◌, Bool, true, ◌&&◌, Option, none, some, List, String, leb, if◌then◌else◌,
  filter, length,
}
use hsk_3_0_app.RateLimit.{Counter, ThrottlerRecord, Limits, increment}
use hsk_3_0_app.Auth.{
  User, Db, Hosts, Answer, answered, refused, throttled, db_error, update_where, minutes,
}
use hsk_3_0_app.Auth.Login.Accounts.{with_counters}

-- `LOGIN_EMAIL_FAILURE_LIMIT` in `LOGIN_EMAIL_WINDOW_MS`
abbrev pub login_email_limits : Limits
login_email_limits = record { ttl = 15 * 60000; limit = 5; block_duration = 15 * 60000 }

-- The key of `consumeLoginEmailAttempt`.
abbrev pub login_email_key : Hosts → (email : String) → String
login_email_key host email = host.sha256 (concat "login:email:" email)

-- Whether an attempt passes the throttle.
unfoldable pub admit_attempt : Db → Option (List Counter × ThrottlerRecord) → Db × Answer (Unit {0})
admit_attempt db none = (db, refused db_error)
admit_attempt db (some (counters, made)) =
    (with_counters db counters, if made.is_blocked then refused throttled else answered tt)

-- `consumeLoginEmailAttempt`
unfoldable pub consume_login_email_attempt :
    Hosts → Db → (email : String) (now : ℕ) → Db × Answer (Unit {0})
unfolding increment admit_attempt
consume_login_email_attempt host db email now =
    admit_attempt db (increment db.counters (login_email_key host email) login_email_limits now)

-- `MAX_LOGIN_ATTEMPTS`
abbrev pub max_login_attempts : ℕ
max_login_attempts = 5

-- `LOCKOUT_MINUTES`
abbrev pub lockout_minutes : ℕ
lockout_minutes = 15

-- The `WHERE` of `reserveLoginAttempt`, for the row of the user.
abbrev pub is_unlocked : (now : ℕ) → User → Bool
is_unlocked now row = elim row.lock_until [ none ↦ true | some until ↦ leb until now ]

-- `CASE WHEN "lockUntil" IS NULL THEN "failedLoginAttempts" + 1 ELSE 1 END`
abbrev pub next_attempts : User → ℕ
next_attempts row = elim row.lock_until [ none ↦ row.failed_login_attempts + 1 | some until ↦ 1 ]

-- The `SET` of `reserveLoginAttempt`.
abbrev pub claim_attempt : (now : ℕ) → User → User
claim_attempt now row = record {
  id = row.id;
  email = row.email;
  password = row.password;
  name = row.name;
  role = row.role;
  status = row.status;
  failed_login_attempts = next_attempts row;
  lock_until =
      if leb max_login_attempts (next_attempts row)
      then some (now + minutes lockout_minutes)
      else none;
  email_verified_at = row.email_verified_at;
  last_login_at = row.last_login_at;
  deleted_at = row.deleted_at;
}

-- `reserveLoginAttempt`
unfoldable pub reserve_login_attempt : List User → (user_id now : ℕ) → List User × Bool
reserve_login_attempt users user_id now =
    let claimed = filter (λ (row : User). row.id == user_id && is_unlocked now row) users in
    (
      update_where (λ (row : User). row.id == user_id && is_unlocked now row) (claim_attempt now)
          users,
      length claimed == 1,
    )
