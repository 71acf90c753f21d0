-- ===== src/Auth.antt =====
-- backend/src/modules/auth/: the rows of the accounts, their sessions and their emailed tokens
-- (backend/prisma/schema.prisma), what the service is given, and its errors. Times are milliseconds.
pub mod Sessions
pub mod Login
pub mod Recovery
pub mod Lockout
pub mod Final
pub mod Once
pub mod Access
pub mod Reuse
pub mod Reset
pub mod SignIn
pub mod Purge
mod Tests
use Prim.Native.String.{String}
use text.Mathlib.Text.{◌==◌ as str_eq}
use hsk_3_0_app.Base.{
  true, false, if◌then◌else◌, ℕ, suc, ◌+◌, ◌*◌, ◌==◌, Bool, ◌&&◌, not, Option, none, some, List, [],
  ◌∷◌, any, find, is_some,
}
use hsk_3_0_app.RateLimit.{Counter}

-- `Role`
pub data Role : Type 0 where
  user admin : Role

-- `AccountStatus`
pub data AccountStatus : Type 0 where
  active suspended deletion_pending anonymized : AccountStatus

abbrev pub is_active_status : AccountStatus → Bool
is_active_status active = true
is_active_status suspended = false
is_active_status deletion_pending = false
is_active_status anonymized = false

abbrev pub is_deletion_pending : AccountStatus → Bool
is_deletion_pending deletion_pending = true
is_deletion_pending active = false
is_deletion_pending suspended = false
is_deletion_pending anonymized = false

-- A row of `User`, as far as the module reads and writes it.
pub record User : Type 0 where
  pub id : ℕ
  pub email : String
  pub password : String
  pub name : Option String
  pub role : Role
  pub status : AccountStatus
  pub failed_login_attempts : ℕ
  pub lock_until : Option ℕ
  pub email_verified_at : Option ℕ
  pub last_login_at : Option ℕ
  pub deleted_at : Option ℕ

-- A row of `UserSession`.
pub record UserSession : Type 0 where
  pub id : ℕ
  pub user_id : ℕ
  pub token_hash : String
  pub created_at : ℕ
  pub last_seen_at : ℕ
  pub expires_at : ℕ
  pub revoked_at : Option ℕ
  pub revocation_reason : Option String

-- A row of `PasswordResetToken` or of `EmailVerificationToken`.
pub record EmailedToken : Type 0 where
  pub user_id : ℕ
  pub token_hash : String
  pub expires_at : ℕ
  pub used_at : Option ℕ
  pub created_at : ℕ

-- `PrivacyRequestStatus`
pub data RequestStatus : Type 0 where
  requested processing completed failed cancelled : RequestStatus

-- A row of `AccountDeletionRequest`.
pub record DeletionRequest : Type 0 where
  pub id : ℕ
  pub user_id : ℕ
  pub status : RequestStatus
  pub scheduled_at : Option ℕ
  pub cancelled_at : Option ℕ

-- A job that `JobQueuePort.send` takes, with the id of its payload.
pub data Job : Type 0 where
  send_email_verification send_password_reset : (user_id : ℕ) → Job

-- A row of `AuditLog`, for the action `account.deletion_cancelled`.
pub record AuditEntry : Type 0 where
  pub actor_id : ℕ
  pub request_id : ℕ

-- The tables, the queue and the ids that the database gives out next.
pub record Db : Type 0 where
  pub users : List User
  pub sessions : List UserSession
  pub reset_tokens : List EmailedToken
  pub verification_tokens : List EmailedToken
  pub deletion_requests : List DeletionRequest
  pub counters : List Counter
  pub jobs : List Job
  pub audits : List AuditEntry
  pub next_user_id : ℕ
  pub next_session_id : ℕ

-- The claims of an access token.
pub record Claims : Type 0 where
  pub sub : ℕ
  pub email : String
  pub role : Role
  pub sid : ℕ

-- What the service is given: the runtime's strings and digests, argon2, the signer of access tokens
-- and the configuration. `argon2_verify` is false where the library throws.
pub record Hosts : Type 0 where
  pub trim : String → String
  pub to_lower_case : String → String
  pub sha256 : String → String
  pub argon2_hash : (salt password : String) → String
  pub argon2_verify : (hash password : String) → Bool
  pub sign_async : (secret kid : String) → Claims → String
  pub pepper : Option String
  pub jwt_secrets : String → Option String
  pub active_kid : Option String
  pub refresh_token_ttl_days : Option ℕ

-- The exceptions: each stands for its class and its message. `db_error` is an error that the
-- database answers, which the service does not catch.
pub data AuthError : Type 0 where
  email_exists weak_password invalid_credentials account_locked throttled : AuthError
  invalid_refresh_token invalid_jwt_secret account_not_available : AuthError
  invalid_verification_token invalid_reset_token db_error : AuthError

pub data Answer {ℓ} (A : Type ℓ) : Type ℓ where
  answered : A → Answer A
  refused : AuthError → Answer A

-- `findUnique({ where: { id } })`
abbrev pub find_user : List User → (id : ℕ) → Option User
find_user users id = find (λ (row : User). row.id == id) users

-- `findUnique({ where: { email } })`
abbrev pub find_email : List User → (email : String) → Option User
find_email users email = find (λ (row : User). str_eq row.email email) users

-- `status = 'active' AND "deletedAt" IS NULL`
abbrev pub is_available : User → Bool
is_available row = is_active_status row.status && not (is_some row.deleted_at)

-- An `UPDATE` of the rows that pass the test.
abbrev pub update_where {ℓ} : {A : Type ℓ} → (A → Bool) → (A → A) → List A → List A
update_where test change [] = []
update_where test change (row ∷ rows) =
    let rest = update_where test change rows in if test row then change row ∷ rest else row ∷ rest

-- The unique index on `tokenHash`.
abbrev pub has_session_hash : List UserSession → (token_hash : String) → Bool
has_session_hash sessions token_hash =
    any (λ (row : UserSession). str_eq row.token_hash token_hash) sessions

-- `n * INTERVAL '1 minute'`
abbrev pub minutes : ℕ → ℕ
minutes n = n * 60000

-- `n * INTERVAL '1 day'`
abbrev pub days : ℕ → ℕ
days n = n * 86400000
