-- ===== src/Auth/Login/SignIn.antt =====
-- `login` of auth.service.ts.
use hsk_3_0_app.Base.{
  ℕ, ◌==◌, Bool, false, ◌&&◌, not, Option, none, some, List, [], ◌∷◌, String, any, ltb, leb,
  if◌then◌else◌, filter, is_some,
}
use hsk_3_0_app.RateLimit.{reset}
use hsk_3_0_app.Auth.{
  User, Db, Hosts, Answer, answered, refused, active, DeletionRequest, requested, cancelled,
  invalid_credentials, account_locked, find_email, is_available, is_deletion_pending, update_where,
}
use hsk_3_0_app.Auth.Sessions.{Tokens, create_session_and_sign_token}
use hsk_3_0_app.Auth.Login.Accounts.{
  normalize_email, verify_password, with_cancellation, with_counters, with_users,
}
use hsk_3_0_app.Auth.Login.Attempts.{
  consume_login_email_attempt, login_email_key, reserve_login_attempt,
}

-- The `SET` of a successful sign-in.
abbrev pub signed_in : (now : ℕ) → User → User
signed_in now row = record {
  id = row.id;
  email = row.email;
  password = row.password;
  name = row.name;
  role = row.role;
  status = row.status;
  failed_login_attempts = 0;
  lock_until = none;
  email_verified_at = row.email_verified_at;
  last_login_at = some now;
  deleted_at = row.deleted_at;
}

-- The `SET` that takes an account out of its deletion.
abbrev pub restored : (now : ℕ) → User → User
restored now row = record {
  id = row.id;
  email = row.email;
  password = row.password;
  name = row.name;
  role = row.role;
  status = active;
  failed_login_attempts = 0;
  lock_until = none;
  email_verified_at = row.email_verified_at;
  last_login_at = some now;
  deleted_at = none;
}

-- `status = 'requested' AND "scheduledAt" > CURRENT_TIMESTAMP`
abbrev pub is_open_request : (now : ℕ) → DeletionRequest → Bool
is_open_request now row = elim row.status [
  | requested ↦ elim row.scheduled_at [ none ↦ false | some at ↦ ltb now at ]
  | _ ↦ false
]

-- `ORDER BY id DESC LIMIT 1`
abbrev pub latest_request : List DeletionRequest → Option DeletionRequest
latest_request [] = none
latest_request (row ∷ rows) = elim (latest_request rows) [
  | none ↦ some row
  | some found ↦ if leb row.id found.id then some found else some row
]

-- The request that a sign-in would cancel; `none` where the account is not pending deletion.
unfoldable pub pending_request : Db → User → (now : ℕ) → Option DeletionRequest
pending_request db row now =
    if is_deletion_pending row.status
    then latest_request (
        filter (λ (r : DeletionRequest). r.user_id == row.id && is_open_request now r)
          db.deletion_requests)
    else none

-- The transaction that cancels the deletion, `none` where it is refused.
unfoldable pub cancel_deletion : Db → User → DeletionRequest → (now : ℕ) → Option Db
cancel_deletion db row request now =
    let cancels : DeletionRequest → Bool = λ r. r.id == request.id && is_open_request now r in
    let requests =
      update_where cancels
        (λ r. record {
          id = r.id;
          user_id = r.user_id;
          status = cancelled;
          scheduled_at = r.scheduled_at;
          cancelled_at = some now;
        })
        db.deletion_requests in
    let users =
      update_where (λ (u : User). u.id == row.id && is_deletion_pending u.status) (restored now)
        db.users in
    if any cancels db.deletion_requests
    then some (
        with_users
          (with_cancellation db requests (record { actor_id = row.id; request_id = request.id }))
          users)
    else none

-- What a sign-in writes once the password is right.
unfoldable pub settle_login : Db → User → Option DeletionRequest → (now : ℕ) → Option Db
unfolding cancel_deletion
settle_login db row (some request) now = cancel_deletion db row request now
settle_login db row none now =
    some (with_users db (update_where (λ (u : User). u.id == row.id) (signed_in now) db.users))

-- What `login` is sent, and the token that it draws.
pub record Credentials : Type 0 where
  pub email : String
  pub password : String
  pub raw_refresh_token : String

-- The end of `login`, once an attempt at the account is reserved.
unfoldable pub check_password :
    Hosts → Db → User → Option DeletionRequest → Credentials → (now : ℕ) → Db × Answer Tokens
unfolding settle_login create_session_and_sign_token
check_password host db row request dto now =
    if verify_password host dto.password row.password
    then elim (settle_login db row request now) [
      | none ↦ (db, refused invalid_credentials)
      | some after ↦
          create_session_and_sign_token host
            (with_counters after
              (reset after.counters (login_email_key host (normalize_email host dto.email))))
            row dto.raw_refresh_token now
    ]
    else (db, refused invalid_credentials)

-- The part of `login` that follows the lookup of the account.
unfoldable pub login_account : Hosts → Db → User → Credentials → (now : ℕ) → Db × Answer Tokens
unfolding pending_request reserve_login_attempt check_password
login_account host db row dto now =
    let request = pending_request db row now in
    let reserved = reserve_login_attempt db.users row.id now in
    if not (is_some request) && not (is_available row)
    then (db, refused invalid_credentials)
    else if reserved.1
    then check_password host (with_users db reserved.0) row request dto now
    else (with_users db reserved.0, refused account_locked)

-- The part of `login` that follows the throttle.
unfoldable pub login_unthrottled : Hosts → Db → Credentials → (now : ℕ) → Db × Answer Tokens
unfolding login_account
login_unthrottled host db dto now = elim (find_email db.users (normalize_email host dto.email)) [
  | none ↦ (db, refused invalid_credentials)
  | some row ↦ login_account host db row dto now
]

-- What `login` makes of the throttle's answer.
unfoldable pub continue_login :
    Hosts → Credentials → (now : ℕ) → Db × Answer (Unit {0}) → Db × Answer Tokens
unfolding login_unthrottled
continue_login host dto now (db, refused error) = (db, refused error)
continue_login host dto now (db, answered _) = login_unthrottled host db dto now

-- `login`
unfoldable pub login : Hosts → Db → Credentials → (now : ℕ) → Db × Answer Tokens
unfolding consume_login_email_attempt continue_login
login host db dto now =
    continue_login host dto now
      (consume_login_email_attempt host db (normalize_email host dto.email) now)
