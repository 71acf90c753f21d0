-- ===== src/Auth/Sessions/Issue.antt =====
-- How auth.service.ts opens a session and signs its tokens.
use text.Mathlib.Text.{◌==◌ as str_eq}
use hsk_3_0_app.Base.{
  ℕ, ◌+◌, ◌^◌, Bool, ◌&&◌, ◌-◌, not, Option, none, some, List, ◌∷◌, String, leb, if◌then◌else◌,
  is_some,
}
use hsk_3_0_app.Auth.{
  User, UserSession, Db, Hosts, Role, Answer, answered, refused, invalid_jwt_secret, db_error,
  has_session_hash, days,
}

-- `revokedAt = null`
abbrev pub is_unrevoked : UserSession → Bool
is_unrevoked row = not (is_some row.revoked_at)

abbrev pub with_sessions : Db → List UserSession → Db
with_sessions db sessions = record {
  users = db.users;
  sessions = sessions;
  reset_tokens = db.reset_tokens;
  verification_tokens = db.verification_tokens;
  deletion_requests = db.deletion_requests;
  counters = db.counters;
  jobs = db.jobs;
  audits = db.audits;
  next_user_id = db.next_user_id;
  next_session_id = db.next_session_id;
}

-- `SET "revokedAt" = CURRENT_TIMESTAMP, "revocationReason" = …, "lastSeenAt" = CURRENT_TIMESTAMP`
abbrev pub revoked_with : (reason : Option String) (now : ℕ) → UserSession → UserSession
revoked_with reason now row = record {
  id = row.id;
  user_id = row.user_id;
  token_hash = row.token_hash;
  created_at = row.created_at;
  last_seen_at = now;
  expires_at = row.expires_at;
  revoked_at = some now;
  revocation_reason = reason;
}

-- `getRefreshTokenTtlDays`
abbrev pub refresh_token_ttl_days : Option ℕ → ℕ
refresh_token_ttl_days none = 30
refresh_token_ttl_days (some configured) =
    if leb configured (2 ^ 53 - 1) && leb 1 configured && leb configured 90 then configured else 30

-- The row that `insertSession` writes.
abbrev pub new_session :
    Hosts → Db → (user_id : ℕ) (raw_refresh_token : String) (now : ℕ) → UserSession
new_session host db user_id raw_refresh_token now = record {
  id = db.next_session_id;
  user_id = user_id;
  token_hash = host.sha256 raw_refresh_token;
  created_at = now;
  last_seen_at = now;
  expires_at = now + days (refresh_token_ttl_days host.refresh_token_ttl_days);
  revoked_at = none;
  revocation_reason = none;
}

-- `insertSession`, with the token that is drawn: `none` where the hash is taken.
unfoldable pub insert_session :
    Hosts → Db → (user_id : ℕ) (raw_refresh_token : String) (now : ℕ) → Option (Db × UserSession)
insert_session host db user_id raw_refresh_token now =
    let made = new_session host db user_id raw_refresh_token now in
    if has_session_hash db.sessions (host.sha256 raw_refresh_token)
    then none
    else some (
      record {
        users = db.users;
        sessions = made ∷ db.sessions;
        reset_tokens = db.reset_tokens;
        verification_tokens = db.verification_tokens;
        deletion_requests = db.deletion_requests;
        counters = db.counters;
        jobs = db.jobs;
        audits = db.audits;
        next_user_id = db.next_user_id;
        next_session_id = db.next_session_id + 1;
      },
      made,
    )

-- `signToken`
unfoldable pub sign_token : Hosts → User → (sid : ℕ) → Answer String
sign_token host row sid =
    let kid : String = elim host.active_kid [ none ↦ "v1" | some kid ↦ kid ] in
    elim (host.jwt_secrets kid) [
      | none ↦ refused invalid_jwt_secret
      | some secret ↦
          if str_eq secret ""
          then refused invalid_jwt_secret
          else answered (
              host.sign_async secret kid
                (record { sub = row.id; email = row.email; role = row.role; sid = sid }))
    ]

-- What a sign-in or a refresh answers.
pub record Tokens : Type 0 where
  pub id : ℕ
  pub email : String
  pub role : Role
  pub name : Option String
  pub access_token : String
  pub refresh_token : String
  pub refresh_token_expires_at : ℕ

abbrev pub tokens_of : User → UserSession → (raw_refresh_token access_token : String) → Tokens
tokens_of row session raw_refresh_token access_token = record {
  id = row.id;
  email = row.email;
  role = row.role;
  name = row.name;
  access_token = access_token;
  refresh_token = raw_refresh_token;
  refresh_token_expires_at = session.expires_at;
}

-- `signToken`, and the answer around it.
unfoldable pub answer_tokens :
    Hosts → User → UserSession → (raw_refresh_token : String) → Answer Tokens
unfolding sign_token
answer_tokens host row session raw_refresh_token = elim (sign_token host row session.id) [
  | refused error ↦ refused error
  | answered access_token ↦ answered (tokens_of row session raw_refresh_token access_token)
]

-- `createSessionAndSignToken`
unfoldable pub create_session_and_sign_token :
    Hosts → Db → User → (raw_refresh_token : String) (now : ℕ) → Db × Answer Tokens
unfolding insert_session answer_tokens
create_session_and_sign_token host db row raw_refresh_token now =
    elim (insert_session host db row.id raw_refresh_token now) [
      | none ↦ (db, refused db_error)
      | some (after, session) ↦ (after, answer_tokens host row session raw_refresh_token)
    ]
