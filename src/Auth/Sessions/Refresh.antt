-- ===== src/Auth/Sessions/Refresh.antt =====
-- `refresh` of auth.service.ts: how a refresh token is rotated, and what follows its reuse.
use text.Mathlib.Text.{◌==◌ as str_eq}
use hsk_3_0_app.Base.{
  ℕ, ◌+◌, ◌*◌, ◌==◌, Bool, false, ◌&&◌, Option, none, some, List, [], ◌∷◌, map, String, ltb,
  if◌then◌else◌, filter,
}
use hsk_3_0_app.Auth.{
  User, UserSession, Db, Hosts, Answer, refused, invalid_refresh_token, db_error, find_user,
  is_available, update_where,
}
use hsk_3_0_app.Auth.Sessions.Issue.{
  Tokens, answer_tokens, insert_session, is_unrevoked, revoked_with, with_sessions,
}

-- The rows that a refresh claims: `tokenHash` is the token's, not revoked, not expired.
abbrev pub is_claimable : (token_hash : String) (now : ℕ) → UserSession → Bool
is_claimable token_hash now row =
    str_eq row.token_hash token_hash && is_unrevoked row && ltb now row.expires_at

-- `RefreshTxResult`
pub data RefreshTxResult : Type 0 where
  issued : User → UserSession → RefreshTxResult
  account_inactive not_claimed : RefreshTxResult

-- `"revocationReason" = 'account_inactive'` for the claimed row.
abbrev pub mark_inactive : (id now : ℕ) → List UserSession → List UserSession
mark_inactive id now sessions =
    update_where (λ (row : UserSession). row.id == id)
      (λ row. record {
        id = row.id;
        user_id = row.user_id;
        token_hash = row.token_hash;
        created_at = row.created_at;
        last_seen_at = now;
        expires_at = row.expires_at;
        revoked_at = row.revoked_at;
        revocation_reason = some "account_inactive";
      })
      sessions

-- The end of the transaction, for the row that is claimed.
unfoldable pub finish_refresh :
    Hosts
    → Db
    → UserSession
    → (raw_refresh_token : String) (now : ℕ) → Option (Db × RefreshTxResult)
unfolding insert_session
finish_refresh host db session raw_refresh_token now =
    let inactive =
      some (with_sessions db (mark_inactive session.id now db.sessions), account_inactive) in
    elim (find_user db.users session.user_id) [
      | none ↦ inactive
      | some row ↦
          if is_available row
          then elim (insert_session host db row.id raw_refresh_token now) [
            | none ↦ none
            | some (after, made) ↦ some (after, issued row made)
          ]
          else inactive
    ]

-- What the transaction makes of the rows that it has claimed.
unfoldable pub finish_claimed :
    Hosts
    → Db
    → (claimed : List UserSession) (raw_refresh_token : String) (now : ℕ)
    → Option (Db × RefreshTxResult)
unfolding finish_refresh
finish_claimed host db [] raw_refresh_token now = some (db, not_claimed)
finish_claimed host db (session ∷ []) raw_refresh_token now =
    finish_refresh host db session raw_refresh_token now
finish_claimed host db (_ ∷ _ ∷ _) raw_refresh_token now = some (db, not_claimed)

-- The transaction of `refresh`: `none` where it fails and nothing is written.
unfoldable pub refresh_transaction :
    Hosts → Db → (token_hash raw_refresh_token : String) (now : ℕ) → Option (Db × RefreshTxResult)
unfolding finish_claimed
refresh_transaction host db token_hash raw_refresh_token now =
    let rotated = revoked_with (some "rotated") now in
    finish_claimed host
      (with_sessions db (update_where (is_claimable token_hash now) rotated db.sessions))
      (map rotated (filter (is_claimable token_hash now) db.sessions)) raw_refresh_token now

-- `REFRESH_REUSE_GRACE_SECONDS`
abbrev pub refresh_reuse_grace_seconds : ℕ
refresh_reuse_grace_seconds = 10

-- `"tokenHash" = … AND "revocationReason" = 'rotated'`
abbrev pub is_rotated : (token_hash : String) → UserSession → Bool
is_rotated token_hash row =
    str_eq row.token_hash token_hash
    && elim row.revocation_reason [ none ↦ false | some reason ↦ str_eq reason "rotated" ]

-- `isWithinGrace`: null, which is falsy, for a row that is not revoked.
abbrev pub is_within_grace : (now : ℕ) → UserSession → Bool
is_within_grace now row = elim row.revoked_at [
  | none ↦ false
  | some revoked_at ↦ ltb now (revoked_at + refresh_reuse_grace_seconds * 1000)
]

-- The sessions of a user that are not revoked, revoked.
unfoldable pub revoke_user :
    (user_id : ℕ) (reason : Option String) (now : ℕ) → List UserSession → List UserSession
revoke_user user_id reason now sessions =
    update_where (λ (row : UserSession). row.user_id == user_id && is_unrevoked row)
      (revoked_with reason now) sessions

-- What is made of the rows of a token that was rotated before.
unfoldable pub revoke_found : Db → (rotated_sessions : List UserSession) (now : ℕ) → Db
unfolding revoke_user
revoke_found db [] now = db
revoke_found db (row ∷ _) now =
    if is_within_grace now row
    then db
    else with_sessions db (revoke_user row.user_id (some "refresh_reuse") now db.sessions)

-- What follows a token that is not claimed.
unfoldable pub revoke_reused : Db → (token_hash : String) (now : ℕ) → Db
unfolding revoke_found
revoke_reused db token_hash now = revoke_found db (filter (is_rotated token_hash) db.sessions) now

-- What `refresh` does after its transaction.
unfoldable pub finish_answer :
    Hosts
    → Db
    → (token_hash raw_refresh_token : String) (later : ℕ) → Option (Db × RefreshTxResult)
    → Db × Answer Tokens
unfolding answer_tokens revoke_reused
finish_answer host db token_hash raw_refresh_token later none = (db, refused db_error)
finish_answer host db token_hash raw_refresh_token later (some (after, issued row session)) =
    (after, answer_tokens host row session raw_refresh_token)
finish_answer host db token_hash raw_refresh_token later (some (after, account_inactive)) =
    (after, refused invalid_refresh_token)
finish_answer host db token_hash raw_refresh_token later (some (after, not_claimed)) =
    (revoke_reused after token_hash later, refused invalid_refresh_token)

-- `refresh`, with the token that is drawn, and the times of the transaction and of what follows it.
unfoldable pub refresh :
    Hosts → Db → (refresh_token raw_refresh_token : String) (now later : ℕ) → Db × Answer Tokens
unfolding refresh_transaction finish_answer
refresh host db refresh_token raw_refresh_token now later =
    let token_hash = host.sha256 refresh_token in
    finish_answer host db token_hash raw_refresh_token later
      (refresh_transaction host db token_hash raw_refresh_token now)
