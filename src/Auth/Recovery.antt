-- ===== src/Auth/Recovery.antt =====
-- The emailed tokens: auth.service.ts, send-password-reset.job.ts and send-email-verification.job.ts.
-- The mail itself is left out.
use mathlib.Core.Option
use text.Mathlib.Text.{◌==◌ as str_eq}
use hsk_3_0_app.Base.{
  concat, ℕ, ◌+◌, ◌*◌, ◌==◌, Bool, ◌&&◌, ◌||◌, not, Option, none, some, List, ◌∷◌, String, any, ltb,
  if◌then◌else◌, find, filter, is_some,
}
use hsk_3_0_app.RateLimit.{Limits, increment}
use hsk_3_0_app.Auth.{
  User, UserSession, EmailedToken, Db, Hosts, Answer, answered, refused, Job,
  send_email_verification, send_password_reset, weak_password, invalid_verification_token,
  invalid_reset_token, db_error, find_user, find_email, is_available, update_where, minutes,
}
use hsk_3_0_app.Auth.Sessions.{is_unrevoked}
use hsk_3_0_app.Auth.Login.{
  is_blacklisted, normalize_email, hash_password, with_users, with_counters,
}

abbrev pub with_jobs : Db → List Job → Db
with_jobs db jobs = record {
  users = db.users;
  sessions = db.sessions;
  reset_tokens = db.reset_tokens;
  verification_tokens = db.verification_tokens;
  deletion_requests = db.deletion_requests;
  counters = db.counters;
  jobs = jobs;
  audits = db.audits;
  next_user_id = db.next_user_id;
  next_session_id = db.next_session_id;
}

abbrev pub with_verification_tokens : Db → List EmailedToken → Db
with_verification_tokens db tokens = record {
  users = db.users;
  sessions = db.sessions;
  reset_tokens = db.reset_tokens;
  verification_tokens = tokens;
  deletion_requests = db.deletion_requests;
  counters = db.counters;
  jobs = db.jobs;
  audits = db.audits;
  next_user_id = db.next_user_id;
  next_session_id = db.next_session_id;
}

abbrev pub with_reset_tokens : Db → List EmailedToken → Db
with_reset_tokens db tokens = record {
  users = db.users;
  sessions = db.sessions;
  reset_tokens = tokens;
  verification_tokens = db.verification_tokens;
  deletion_requests = db.deletion_requests;
  counters = db.counters;
  jobs = db.jobs;
  audits = db.audits;
  next_user_id = db.next_user_id;
  next_session_id = db.next_session_id;
}

-- `"tokenHash" = $1 AND "usedAt" IS NULL AND "expiresAt" > CURRENT_TIMESTAMP`
abbrev pub is_live : (token_hash : String) (now : ℕ) → EmailedToken → Bool
is_live token_hash now row =
    str_eq row.token_hash token_hash && not (is_some row.used_at) && ltb now row.expires_at

-- `SET "usedAt" = CURRENT_TIMESTAMP`
abbrev pub used : (now : ℕ) → EmailedToken → EmailedToken
used now row = record {
  user_id = row.user_id;
  token_hash = row.token_hash;
  expires_at = row.expires_at;
  used_at = some now;
  created_at = row.created_at;
}

-- The tokens of a user that are not used, deleted.
abbrev pub delete_unused : (user_id : ℕ) → List EmailedToken → List EmailedToken
delete_unused user_id tokens =
    filter (λ (row : EmailedToken). not (row.user_id == user_id && not (is_some row.used_at)))
      tokens

-- `requestEmailVerification`
unfoldable pub request_email_verification : Db → (user_id : ℕ) → Db
request_email_verification db user_id = elim (find_user db.users user_id) [
  | none ↦ db
  | some row ↦
      if not (is_available row) || is_some row.email_verified_at
      then db
      else with_jobs db (send_email_verification row.id ∷ db.jobs)
]

-- `COALESCE("emailVerifiedAt", CURRENT_TIMESTAMP)`
abbrev pub verified : (now : ℕ) → User → User
verified now row = record {
  id = row.id;
  email = row.email;
  password = row.password;
  name = row.name;
  role = row.role;
  status = row.status;
  failed_login_attempts = row.failed_login_attempts;
  lock_until = row.lock_until;
  email_verified_at = elim row.email_verified_at [ none ↦ some now | some at ↦ some at ];
  last_login_at = row.last_login_at;
  deleted_at = row.deleted_at;
}

-- `confirmEmailVerification`
unfoldable pub confirm_email_verification :
    Hosts → Db → (token : String) (now : ℕ) → Db × Answer (Unit {0})
confirm_email_verification host db token now =
    let live = is_live (host.sha256 token) now in
    elim (find live db.verification_tokens) [
      | none ↦ (db, refused invalid_verification_token)
      | some claimed ↦
          let updates : User → Bool = λ row. row.id == claimed.user_id && is_available row in
          if any updates db.users
          then (
            with_verification_tokens (with_users db (update_where updates (verified now) db.users))
                (update_where live (used now) db.verification_tokens),
            answered tt,
          )
          else (db, refused invalid_verification_token)
    ]

-- `PASSWORD_RESET_EMAIL_LIMIT` in `PASSWORD_RESET_EMAIL_WINDOW_MS`
abbrev pub password_reset_email_limits : Limits
password_reset_email_limits = record { ttl = 60 * 60000; limit = 3; block_duration = 60 * 60000 }

-- The end of `requestPasswordReset`.
unfoldable pub send_reset_job : Db → (email : String) → Db
send_reset_job db email = elim (find_email db.users email) [
  | none ↦ db
  | some row ↦ if is_available row then with_jobs db (send_password_reset row.id ∷ db.jobs) else db
]

-- `requestPasswordReset`
unfoldable pub request_password_reset :
    Hosts → Db → (raw_email : String) (now : ℕ) → Db × Answer (Unit {0})
unfolding increment send_reset_job
request_password_reset host db raw_email now =
    let email = normalize_email host raw_email in
    elim (increment db.counters (host.sha256 (concat "password-reset:email:" email))
      password_reset_email_limits now) [
        | none ↦ (db, refused db_error)
        | some (counters, made) ↦ (
          if made.is_blocked || ltb password_reset_email_limits.limit made.total_hits
              then with_counters db counters
              else send_reset_job (with_counters db counters) email,
          answered tt,
        )
      ]

-- `SET password = $1`
abbrev pub with_password : (password_hash : String) → User → User
with_password password_hash row = record {
  id = row.id;
  email = row.email;
  password = password_hash;
  name = row.name;
  role = row.role;
  status = row.status;
  failed_login_attempts = row.failed_login_attempts;
  lock_until = row.lock_until;
  email_verified_at = row.email_verified_at;
  last_login_at = row.last_login_at;
  deleted_at = row.deleted_at;
}

-- `"userId" = $1 AND "revokedAt" IS NULL`, revoked; the reason is left.
abbrev pub revoke_silently : (user_id now : ℕ) → List UserSession → List UserSession
revoke_silently user_id now sessions =
    update_where (λ (row : UserSession). row.user_id == user_id && is_unrevoked row)
      (λ row. record {
        id = row.id;
        user_id = row.user_id;
        token_hash = row.token_hash;
        created_at = row.created_at;
        last_seen_at = row.last_seen_at;
        expires_at = row.expires_at;
        revoked_at = some now;
        revocation_reason = row.revocation_reason;
      })
      sessions

-- The tables after the transaction of `confirmPasswordReset`.
abbrev pub reset_account : Db → (user_id : ℕ) (token_hash password_hash : String) (now : ℕ) → Db
reset_account db user_id token_hash password_hash now = record {
  users =
      update_where (λ (row : User). row.id == user_id && is_available row)
        (with_password password_hash) db.users;
  sessions = revoke_silently user_id now db.sessions;
  reset_tokens =
      delete_unused user_id (update_where (is_live token_hash now) (used now) db.reset_tokens);
  verification_tokens = db.verification_tokens;
  deletion_requests = db.deletion_requests;
  counters = db.counters;
  jobs = db.jobs;
  audits = db.audits;
  next_user_id = db.next_user_id;
  next_session_id = db.next_session_id;
}

-- `confirmPasswordReset`, with the salt that argon2 draws.
unfoldable pub confirm_password_reset :
    Hosts → Db → (token new_password salt : String) (now : ℕ) → Db × Answer (Unit {0})
confirm_password_reset host db token new_password salt now =
    if is_blacklisted host new_password
    then (db, refused weak_password)
    else elim (find (is_live (host.sha256 token) now) db.reset_tokens) [
      | none ↦ (db, refused invalid_reset_token)
      | some claimed ↦
          if any (λ (row : User). row.id == claimed.user_id && is_available row) db.users
          then (
            reset_account db claimed.user_id (host.sha256 token)
                (hash_password host salt new_password) now,
            answered tt,
          )
          else (db, refused invalid_reset_token)
    ]

-- The row of a token that a job inserts.
abbrev pub emailed_token :
    Hosts → (user_id : ℕ) (raw_token : String) (now lifetime : ℕ) → EmailedToken
emailed_token host user_id raw_token now lifetime = record {
  user_id = user_id;
  token_hash = host.sha256 raw_token;
  expires_at = now + lifetime;
  used_at = none;
  created_at = now;
}

-- The transaction of both jobs: `none` where the hash is taken.
abbrev pub replace_token :
    Hosts
    → (user_id : ℕ) (raw_token : String) (now lifetime : ℕ) → List EmailedToken
    → Option (List EmailedToken)
replace_token host user_id raw_token now lifetime tokens =
    let left = delete_unused user_id tokens in
    if any (λ (row : EmailedToken). str_eq row.token_hash (host.sha256 raw_token)) left
    then none
    else some (emailed_token host user_id raw_token now lifetime ∷ left)

-- `process` of `SendPasswordResetJob`, up to the mail.
unfoldable pub process_password_reset :
    Hosts → Db → (user_id : ℕ) (raw_token : String) (now : ℕ) → Option Db
process_password_reset host db user_id raw_token now = elim (find_user db.users user_id) [
  | none ↦ some db
  | some row ↦
      if is_available row
      then Option.map (with_reset_tokens db)
          (replace_token host row.id raw_token now (minutes 30) db.reset_tokens)
      else some db
]

-- `process` of `SendEmailVerificationJob`, up to the mail.
unfoldable pub process_email_verification :
    Hosts → Db → (user_id : ℕ) (raw_token : String) (now : ℕ) → Option Db
process_email_verification host db user_id raw_token now = elim (find_user db.users user_id) [
  | none ↦ some db
  | some row ↦
      if not (is_available row) || is_some row.email_verified_at
      then some db
      else Option.map (with_verification_tokens db)
          (replace_token host row.id raw_token now (minutes (24 * 60)) db.verification_tokens)
]
