-- ===== src/Auth/SignIn.antt =====
-- What a successful sign-in of auth.service.ts implies.
use text.Mathlib.Text.{◌==◌ as str_eq}
use hsk_3_0_app.Base.{
  ℕ, ◌==◌, ◌≡◌, refl, sym, ap, subst, inl, inr, ◌⊎◌, Bool, true, false, ◌&&◌, not, Option, none,
  some, List, arith, Bool-cases, Option-cases, is_some, Memᴰ, find-mem, ==_refl,
}
use hsk_3_0_app.RateLimit.{Counter, ThrottlerRecord, increment}
use hsk_3_0_app.Auth.{
  User, Db, Hosts, answered, find_email, find_user, is_available, DeletionRequest,
}
use hsk_3_0_app.Auth.Sessions.{Tokens}
use hsk_3_0_app.Auth.Login.{
  Credentials, login, login_account, consume_login_email_attempt, normalize_email, verify_password,
  pending_request, reserve_login_attempt, check_password, is_unlocked, with_users,
  login_unthrottled, continue_login, admit_attempt, with_counters, login_email_key,
  login_email_limits,
}
use hsk_3_0_app.Auth.Lockout.{HasIds, reserve-unlocked}

mem-find_user :
    (row : User) {rows : List User} → Memᴰ row rows → HasIds rows → find_user rows row.id ≡ some row
mem-find_user row (Memᴰ.head {x} {xs} same) (fresh, keyed) =
    let e : (x.id == row.id) ≡ true =
      subst (λ (r : User). (r.id == row.id) ≡ true) same (==_refl row.id) in
    rw e (ap some (sym same))
mem-find_user row (Memᴰ.tail {x} {xs} m) (fresh, keyed) =
    let rest = mem-find_user row m keyed in
    elim (Bool-cases (x.id == row.id)) [ inl e ↦ absurd (ground arith) | inr e ↦ rw e rest ]

check_password-answered :
    (host : Hosts) (db after : Db) (row : User) (request : Option DeletionRequest)
    (dto : Credentials) (now : ℕ) (tokens : Tokens)
    → check_password host db row request dto now ≡ (after, answered tokens)
    → verify_password host dto.password row.password ≡ true
unfolding check_password
check_password-answered host db after row request dto now tokens e = ground arith

-- What a sign-in that succeeds has found of the account.
abbrev pub IsAdmitted : Hosts → Db → User → Credentials → (now : ℕ) → Type 0
IsAdmitted host db row dto now =
    (verify_password host dto.password row.password ≡ true)
    × (is_unlocked now row ≡ true)
    × ((is_available row ≡ true) ⊎ (is_some (pending_request db row now) ≡ true))

account-answered :
    (host : Hosts) (db after : Db) (row : User) (dto : Credentials) (now : ℕ) (tokens : Tokens)
    → HasIds db.users
    → find_user db.users row.id ≡ some row
    → login_account host db row dto now ≡ (after, answered tokens)
    → IsAdmitted host db row dto now
unfolding login_account
account-answered host db after row dto now tokens keyed own e =
    let request = pending_request db row now in
    elim (Bool-cases (not (is_some request) && not (is_available row))) [
      | inl closed ↦ absurd (ground arith)
      | inr ready ↦ elim (Bool-cases (reserve_login_attempt db.users row.id now).1) [
        | inr locked ↦ absurd (ground arith)
        | inl reserved ↦ (
          check_password-answered host (with_users db (reserve_login_attempt db.users row.id now).0)
              after row request dto now tokens (rw (ready, reserved) at e),
          reserve-unlocked db.users row now keyed own reserved,
          either (is_some request) (is_available row) ready,
        )
      ]
    ]
  where
    either : (a b : Bool) → not a && not b ≡ false → (b ≡ true) ⊎ (a ≡ true)
    either true b h = inr refl
    either false true h = inl refl
    either false false h = absurd (ground arith)

unthrottled-answered :
    (host : Hosts) (db after : Db) (dto : Credentials) (now : ℕ) (tokens : Tokens)
    → HasIds db.users
    → login_unthrottled host db dto now ≡ (after, answered tokens)
    → (row : User) × (find_email db.users (normalize_email host dto.email) ≡ some row)
      × IsAdmitted host db row dto now
unfolding login_unthrottled
unthrottled-answered host db after dto now tokens keyed e =
    elim (Option-cases (find_email db.users (normalize_email host dto.email))) [
      | inl missing ↦ absurd (ground arith)
      | inr (row, found) ↦
          let (m, named) =
            find-mem (λ (r : User). str_eq r.email (normalize_email host dto.email)) db.users
              {x = row} found in
          (
            row,
            found,
            account-answered host db after row dto now tokens keyed (mem-find_user row m keyed)
                (rw (login_unthrottled, found) at e),
          )
    ]

continue-answered :
    (host : Hosts) (db after : Db) (dto : Credentials) (now : ℕ) (tokens : Tokens)
    (o : Option (List Counter × ThrottlerRecord))
    → HasIds db.users
    → continue_login host dto now (admit_attempt db o) ≡ (after, answered tokens)
    → (row : User) × (find_email db.users (normalize_email host dto.email) ≡ some row)
      × IsAdmitted host db row dto now
unfolding continue_login admit_attempt pending_request
continue-answered host db after dto now tokens none keyed e = absurd (ground arith)
continue-answered host db after dto now tokens (some (counters, made)) keyed e =
    elim (Bool-cases made.is_blocked) [
      | inl blocked ↦ absurd (ground arith)
      | inr passes ↦
          unthrottled-answered host (with_counters db counters) after dto now tokens keyed
            (rw passes at e)
    ]

-- A sign-in succeeds only for a registered email, with the password of that account, while it is not
-- locked, and if it is active or its deletion may still be cancelled.
pub login-answered :
    (host : Hosts) (db after : Db) (dto : Credentials) (now : ℕ) (tokens : Tokens)
    → HasIds db.users
    → login host db dto now ≡ (after, answered tokens)
    → (row : User) × (find_email db.users (normalize_email host dto.email) ≡ some row)
      × IsAdmitted host db row dto now
unfolding login consume_login_email_attempt
login-answered host db after dto now tokens keyed e =
    continue-answered host db after dto now tokens
      (increment db.counters (login_email_key host (normalize_email host dto.email))
        login_email_limits now)
      keyed e
