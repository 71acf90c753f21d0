-- ===== src/Auth/Tests.antt =====
-- One account with a session, a rotated session and a reset token: the tests of the sign-in and of its
-- sessions, and the witnesses.
use text.Mathlib.Text.{◌==◌ as str_eq}
use hsk_3_0_app.Base.{
  concat, ℕ, ◌≤◌, ◌==◌, ◌≡◌, ◌≢◌, refl, ◌&&◌, not, Option, none, some, List, [], ◌∷◌, String,
  length, filter, All, arith, Memᴰ, ◌+◌, ◌*◌, ltb, if◌then◌else◌,
}
use hsk_3_0_app.RateLimit.{first_hit, next_hit, upsert_counter, count_hit, increment, reset}
use hsk_3_0_app.Auth.{
  User, UserSession, EmailedToken, Db, Hosts, Role, AccountStatus, answered, refused, find_email,
  invalid_refresh_token, invalid_reset_token, account_not_available, invalid_credentials,
  account_locked,
}
use hsk_3_0_app.Auth.Sessions.{
  insert_session, sign_token, answer_tokens, create_session_and_sign_token, finish_refresh,
  finish_claimed, refresh_transaction, revoke_user, revoke_found, revoke_reused, finish_answer,
  refresh, logout, validate, Tokens, is_unrevoked,
}
use hsk_3_0_app.Auth.Login.{
  consume_login_email_attempt, admit_attempt, reserve_login_attempt, pending_request,
  cancel_deletion, settle_login, check_password, login_account, login_unthrottled, continue_login,
  login, register, Credentials,
}
use hsk_3_0_app.Auth.Recovery.{confirm_password_reset}
use hsk_3_0_app.Auth.Lockout.{claimed_attempts, claimed_attempts-le-max}
use hsk_3_0_app.Auth.Final.{step, run, deletes, signs_in, claims}
use hsk_3_0_app.Auth.Once.{refresh-run_refused}
use hsk_3_0_app.Auth.Access.{logout-run_refused}
use hsk_3_0_app.Auth.Reuse.{unrevoked_of, refresh-reuse}
use hsk_3_0_app.Auth.Reset.{is_target, confirm_password_reset-answered, confirm_password_reset-used}
use hsk_3_0_app.Auth.SignIn.{IsAdmitted, login-answered}
use hsk_3_0_app.Auth.Purge.{is_old, delete_first, purge_loop, purge, purge_complete}

runs : Unit {0}
unfolding first_hit next_hit upsert_counter count_hit increment reset insert_session sign_token
    answer_tokens create_session_and_sign_token finish_refresh finish_claimed refresh_transaction
    revoke_user revoke_found revoke_reused finish_answer refresh logout validate
    consume_login_email_attempt admit_attempt reserve_login_attempt pending_request cancel_deletion
    settle_login check_password login_account login_unthrottled continue_login login register
    confirm_password_reset claimed_attempts step run delete_first purge_loop
runs = tt

-- Digests that keep the text apart.
abbrev host : Hosts
host = record {
  trim = λ s. s;
  to_lower_case = λ s. s;
  sha256 = λ s. concat "#" s;
  argon2_hash = λ salt password. concat "$argon2id$" (concat salt password);
  argon2_verify = λ hash password. str_eq hash (concat "$argon2id$s" password);
  sign_async = λ secret kid c. "jwt";
  pepper = none;
  jwt_secrets = λ kid. some "secret";
  active_kid = none;
  refresh_token_ttl_days = none;
}

abbrev ann : User
ann = record {
  id = 1;
  email = "ann@x.vn";
  password = "$argon2id$spass";
  name = none;
  role = Role.user;
  status = AccountStatus.active;
  failed_login_attempts = 0;
  lock_until = none;
  email_verified_at = none;
  last_login_at = none;
  deleted_at = none;
}

abbrev session :
    (id : ℕ) (token_hash : String) (revoked_at : Option ℕ) (reason : Option String) → UserSession
session id token_hash revoked_at reason = record {
  id = id;
  user_id = 1;
  token_hash = token_hash;
  created_at = 0;
  last_seen_at = 0;
  expires_at = 1000000;
  revoked_at = revoked_at;
  revocation_reason = reason;
}

abbrev old_session : UserSession
old_session = session 1 "#old" (some 100) (some "rotated")

abbrev current_session : UserSession
current_session = session 2 "#now" none none

abbrev reset_token : EmailedToken
reset_token = record {
  user_id = 1;
  token_hash = "#mail";
  expires_at = 5000;
  used_at = none;
  created_at = 0;
}

abbrev db : Db
db = record {
  users = ann ∷ [];
  sessions = old_session ∷ current_session ∷ [];
  reset_tokens = reset_token ∷ [];
  verification_tokens = [];
  deletion_requests = [];
  counters = [];
  jobs = [];
  audits = [];
  next_user_id = 2;
  next_session_id = 3;
}

abbrev tokens : (raw : String) (expires_at : ℕ) → Tokens
tokens raw expires_at = record {
  id = 1;
  email = "ann@x.vn";
  role = Role.user;
  name = none;
  access_token = "jwt";
  refresh_token = raw;
  refresh_token_expires_at = expires_at;
}

abbrev refreshed : Db
refreshed = (refresh host db "now" "next" 200 201).0

-- A sign-in and a purge between the two uses of the token.
refresh-run_refused_example :
    (refresh host
      (run host refreshed (signs_in ann "other" 300 ∷ deletes (λ s. s.id == 1) ∷ []))
      "now"
      "again"
      400
      401).1
    ≡ refused invalid_refresh_token
unfolding runs
refresh-run_refused_example =
    refresh-run_refused host db refreshed "now" "next" 200 201 (tokens "next" 2592000200)
      (signs_in ann "other" 300 ∷ deletes (λ s. s.id == 1) ∷ []) "again" 400 401 (refl, (refl, tt))
      refl refl

refresh-reuse_example :
    ((refresh host db "old" "next" 20000 20001).1 ≡ refused invalid_refresh_token)
    × (unrevoked_of 1 (refresh host db "old" "next" 20000 20001).0.sessions
        ≡ (if ltb 20001 (100 + 10 * 1000) then unrevoked_of 1 db.sessions else []))
refresh-reuse_example =
    refresh-reuse host db "old" "next" 20000 20001 100 old_session (refl, (refl, tt))
      (Memᴰ.head refl) refl refl refl

-- The grace period ends after 10 seconds.
grace_test :
    (length (unrevoked_of 1 (refresh host db "old" "next" 10098 10099).0.sessions) ≡ 1)
    × ((refresh host db "old" "next" 10098 10099).1 ≡ refused invalid_refresh_token)
    × (length (unrevoked_of 1 (refresh host db "old" "next" 10099 10100).0.sessions) ≡ 0)
unfolding runs
grace_test = (refl, refl, refl)

validate_test :
    (validate db 1 (some 2) 300
      ≡ answered (record { id = 1; email = "ann@x.vn"; role = Role.user; sid = 2 }))
    × (validate db 2 (some 2) 300 ≡ refused account_not_available)
    × (validate db 1 none 300 ≡ refused account_not_available)
unfolding runs
validate_test = (refl, refl, refl)

logout-run_refused_example :
    validate
      (run host (logout db 2 200) (claims "#now" "next" 300 ∷ signs_in ann "other" 400 ∷ []))
      1
      (some 2)
      500
    ≡ refused account_not_available
logout-run_refused_example =
    logout-run_refused host db 2 200 (claims "#now" "next" 300 ∷ signs_in ann "other" 400 ∷ []) 1
      500 (omega arith)

claimed_attempts_test :
    claimed_attempts (ann ∷ []) 1 (0 ∷ 1 ∷ 2 ∷ 3 ∷ 4 ∷ 5 ∷ 899999 ∷ 900004 ∷ []) ≡ 6
unfolding runs
claimed_attempts_test = refl

claimed_attempts-le-max_example : claimed_attempts (ann ∷ []) 1 (0 ∷ 1 ∷ 2 ∷ 3 ∷ 4 ∷ 5 ∷ 6 ∷ []) ≤ 5
claimed_attempts-le-max_example =
    claimed_attempts-le-max 0 (0 ∷ 1 ∷ 2 ∷ 3 ∷ 4 ∷ 5 ∷ 6 ∷ []) (ann ∷ []) 1 (refl, tt)
      (
        (omega arith, omega arith),
        (
          (omega arith, omega arith),
          (
            (omega arith, omega arith),
            (
              (omega arith, omega arith),
              (
                (omega arith, omega arith),
                ((omega arith, omega arith), ((omega arith, omega arith), tt)),
              ),
            ),
          ),
        ),
      )

abbrev good : Credentials
good = record { email = "ann@x.vn"; password = "pass"; raw_refresh_token = "fresh" }

abbrev bad : Credentials
bad = record { email = "ann@x.vn"; password = "guess"; raw_refresh_token = "fresh" }

abbrev unknown : Credentials
unknown = record { email = "bob@x.vn"; password = "guess"; raw_refresh_token = "fresh" }

wrong_password_test : (login host db bad 10).1 ≡ refused invalid_credentials
unfolding runs
wrong_password_test = refl

-- The attempts of an address, spread so that its window ends before the lock of the account.
abbrev after_logins : Credentials → List ℕ → Db
after_logins dto [] = db
after_logins dto (now ∷ times) = (login host (after_logins dto times) dto now).0

-- The lock shows that an address is registered: an unknown one is answered in another way.
locked_test :
    ((login host (after_logins bad (800000 ∷ 3 ∷ 2 ∷ 1 ∷ 0 ∷ [])) bad 900001).1
      ≡ refused account_locked)
    × ((login host (after_logins unknown (800000 ∷ 3 ∷ 2 ∷ 1 ∷ 0 ∷ [])) unknown 900001).1
        ≡ refused invalid_credentials)
unfolding runs
locked_test = (refl, refl)

login-answered_example :
    (row : User) × (find_email db.users "ann@x.vn" ≡ some row) × IsAdmitted host db row good 10
unfolding runs
login-answered_example =
    login-answered host db (login host db good 10).0 good 10 (tokens "fresh" 2592000010) (refl, tt)
      refl

abbrev reset_done : Db
reset_done = (confirm_password_reset host db "mail" "new" "s" 50).0

confirm_password_reset-answered_example :
    All
      (λ (row : User). row.password ≡ "$argon2id$snew")
      (filter (is_target reset_token) reset_done.users)
    × (filter (λ (s : UserSession). s.user_id == 1 && is_unrevoked s) reset_done.sessions ≡ [])
unfolding runs
confirm_password_reset-answered_example =
    confirm_password_reset-answered host db reset_done "mail" "new" "s" 50 reset_token refl refl

confirm_password_reset-used_example :
    (confirm_password_reset host reset_done "mail" "again" "t" 60).1 ≢ answered tt
unfolding runs
confirm_password_reset-used_example =
    confirm_password_reset-used host db reset_done "mail" "new" "s" "again" "t" 50 60 refl
      (omega arith)

reset_late_test :
    confirm_password_reset host db "mail" "new" "s" 5000 ≡ (db, refused invalid_reset_token)
unfolding runs
reset_late_test = refl

purge_complete_example :
    (filter (is_old 3000000000) (purge 3000000000 db.sessions).0 ≡ [])
    × ((purge 3000000000 db.sessions).1 ≡ 2)
    × (filter (λ row. not (is_old 3000000000 row)) (purge 3000000000 db.sessions).0 ≡ [])
purge_complete_example = purge_complete 3000000000 db.sessions (omega arith)
