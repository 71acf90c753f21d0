-- ===== src/Auth/Reset.antt =====
-- What confirmPasswordReset of auth.service.ts does on each of its outcomes.
use mathlib.Core.Option
use hsk_3_0_app.Base.{
  ℕ, ◌≤◌, ◌==◌, ◌≡◌, ◌≢◌, refl, sym, ap, ◌∙◌, subst, inl, inr, ◌⊎◌, Bool, true, ◌&&◌, none, some,
  List, [], ◌∷◌, String, find, filter, any, All, arith, Bool-cases, Option-cases,
}
use hsk_3_0_app.Auth.{
  User, UserSession, EmailedToken, Db, Hosts, Answer, answered, refused, update_where, is_available,
  weak_password, invalid_reset_token,
}
use hsk_3_0_app.Auth.Sessions.{is_unrevoked}
use hsk_3_0_app.Auth.Login.{is_blacklisted, hash_password}
use hsk_3_0_app.Auth.Recovery.{
  confirm_password_reset, is_live, used, delete_unused, revoke_silently, with_password,
  reset_account,
}

-- The account that a token resets.
abbrev pub is_target : EmailedToken → User → Bool
is_target claimed row = row.id == claimed.user_id && is_available row

-- The three outcomes.
confirm-cases :
    (host : Hosts) (db : Db) (token new_password salt : String) (now : ℕ)
    → (confirm_password_reset host db token new_password salt now ≡ (db, refused weak_password))
      ⊎ ((confirm_password_reset host db token new_password salt now
            ≡ (db, refused invalid_reset_token))
          ⊎ ((claimed : EmailedToken) × (find (is_live (host.sha256 token) now) db.reset_tokens
                ≡ some claimed)
              × (any (is_target claimed) db.users ≡ true)
              × (confirm_password_reset host db token new_password salt now ≡ (
                reset_account db claimed.user_id
                    (host.sha256 token)
                    (hash_password host salt new_password)
                    now,
                answered tt,
              ))))
unfolding confirm_password_reset
confirm-cases host db token new_password salt now =
    elim (Bool-cases (is_blacklisted host new_password)) [
      | inl weak ↦ rw weak (inl refl)
      | inr strong ↦ elim (Option-cases (find (is_live (host.sha256 token) now) db.reset_tokens)) [
        | inl e ↦ rw (strong, e) (inr (inl refl))
        | inr (claimed, e) ↦ elim (Bool-cases (any (is_target claimed) db.users)) [
          | inl updated ↦ rw (strong, e, updated) (inr (inr (claimed, refl, updated, refl)))
          | inr away ↦ rw (strong, e, away) (inr (inl refl))
        ]
      ]
    ]

revoke_silently-none :
    (user_id now : ℕ) (rows : List UserSession)
    → filter
        (λ (s : UserSession). s.user_id == user_id && is_unrevoked s)
        (revoke_silently user_id now rows)
      ≡ []
revoke_silently-none user_id now [] = refl
revoke_silently-none user_id now (row ∷ rows) =
    let rest = revoke_silently-none user_id now rows in
    elim (Bool-cases (row.user_id == user_id)) [
      | inr other ↦ rw (other, other) rest
      | inl here ↦ elim (Bool-cases (is_unrevoked row)) [
        | inl live ↦ rw (here, live, here) rest
        | inr ended ↦ rw (here, ended, here, ended) rest
      ]
    ]

used-find-none :
    (user_id : ℕ) (token_hash : String) (now later : ℕ) (rows : List EmailedToken)
    → now ≤ later
    → find
        (is_live token_hash later)
        (delete_unused user_id (update_where (is_live token_hash now) (used now) rows))
      ≡ none
used-find-none user_id token_hash now later [] order = refl
used-find-none user_id token_hash now later (row ∷ rows) order =
    let rest = used-find-none user_id token_hash now later rows order in
    elim (Bool-cases (is_live token_hash now row)) [
      | inl live ↦ ground arith
      | inr gone ↦ ground arith
    ]

with_password-All :
    (claimed : EmailedToken) (password_hash : String) (rows : List User)
    → All
        (λ (row : User). row.password ≡ password_hash)
        (filter
          (is_target claimed)
          (update_where (is_target claimed) (with_password password_hash) rows))
with_password-All claimed password_hash [] = tt
with_password-All claimed password_hash (row ∷ rows) =
    let rest = with_password-All claimed password_hash rows in
    elim (Bool-cases (is_target claimed row)) [
      | inl here ↦ rw (here, here) (refl, rest)
      | inr other ↦ rw (other, other) rest
    ]

confirm-reset_account :
    (host : Hosts) (db after : Db) (token new_password salt : String) (now : ℕ)
    (claimed : EmailedToken)
    → find (is_live (host.sha256 token) now) db.reset_tokens ≡ some claimed
    → confirm_password_reset host db token new_password salt now ≡ (after, answered tt)
    → reset_account db claimed.user_id
        (host.sha256 token)
        (hash_password host salt new_password)
        now
      ≡ after
confirm-reset_account host db after token new_password salt now claimed found e =
    elim (confirm-cases host db token new_password salt now) [
      | inl weak ↦ absurd (ground arith)
      | inr (inl bad) ↦ absurd (ground arith)
      | inr (inr (other, at, target, made)) ↦
          let same : other ≡ claimed = Option.some-injective _ _ (sym at ∙ found) in
          ap
            (λ (c : EmailedToken).
              reset_account db c.user_id (host.sha256 token) (hash_password host salt new_password)
                now)
            (sym same)
          ∙ ap (λ (p : Db × Answer (Unit {0})). p.0) (sym made ∙ e)
    ]

-- A successful password reset sets the new password of the token's account and revokes all the
-- sessions of the account.
pub confirm_password_reset-answered :
    (host : Hosts) (db after : Db) (token new_password salt : String) (now : ℕ)
    (claimed : EmailedToken)
    → find (is_live (host.sha256 token) now) db.reset_tokens ≡ some claimed
    → confirm_password_reset host db token new_password salt now ≡ (after, answered tt)
    → All
        (λ (row : User). row.password ≡ hash_password host salt new_password)
        (filter (is_target claimed) after.users)
      × (filter (λ (s : UserSession). s.user_id == claimed.user_id && is_unrevoked s) after.sessions
          ≡ [])
confirm_password_reset-answered host db after token new_password salt now claimed found e =
    let same = confirm-reset_account host db after token new_password salt now claimed found e in
    let hash = hash_password host salt new_password in
    (
      subst
          (λ (d : Db).
            All (λ (row : User). row.password ≡ hash) (filter (is_target claimed) d.users))
          same (with_password-All claimed hash db.users),
      subst
          (λ (d : Db).
            filter (λ (s : UserSession). s.user_id == claimed.user_id && is_unrevoked s) d.sessions
            ≡ [])
          same (revoke_silently-none claimed.user_id now db.sessions),
    )

-- The token of a successful password reset resets no password at a later time.
pub confirm_password_reset-used :
    (host : Hosts) (db after : Db) (token new_password salt another another_salt : String)
    (now later : ℕ)
    → confirm_password_reset host db token new_password salt now ≡ (after, answered tt)
    → now ≤ later
    → (confirm_password_reset host after token another another_salt later).1 ≢ answered tt
confirm_password_reset-used host db after token new_password salt another another_salt now later e
      order again =
    elim (confirm-cases host db token new_password salt now) [
      | inl weak ↦ absurd (ground arith)
      | inr (inl bad) ↦ absurd (ground arith)
      | inr (inr (claimed, at, target, made)) ↦
          let same = ap (λ (p : Db × Answer (Unit {0})). p.0) (sym made ∙ e) in
          let gone : find (is_live (host.sha256 token) later) after.reset_tokens ≡ none =
            subst (λ (d : Db). find (is_live (host.sha256 token) later) d.reset_tokens ≡ none) same
              (used-find-none claimed.user_id (host.sha256 token) now later db.reset_tokens
                order) in
          elim (confirm-cases host after token another another_salt later) [
            | inl weak ↦ absurd (ground arith)
            | inr (inl bad) ↦ absurd (ground arith)
            | inr (inr (other, found, aim, done)) ↦ absurd (ground arith)
          ]
    ]
