-- ===== src/Auth/Login/Accounts.antt =====
-- Passwords and registration of auth.service.ts.
use text.Mathlib.Text.{◌==◌ as str_eq, starts_with}
use hsk_3_0_app.Base.{
  concat, ℕ, ◌+◌, Bool, ◌&&◌, Option, none, some, List, [], ◌∷◌, String, any, if◌then◌else◌,
  is_some,
}
use hsk_3_0_app.RateLimit.{Counter}
use hsk_3_0_app.Auth.{
  AuditEntry, User, Db, Hosts, Answer, refused, Role, active, DeletionRequest,
  send_email_verification, email_exists, weak_password, find_email,
}
use hsk_3_0_app.Auth.Sessions.{Tokens, create_session_and_sign_token}

abbrev pub with_users : Db → List User → Db
with_users db users = record {
  users = users;
  sessions = db.sessions;
  reset_tokens = db.reset_tokens;
  verification_tokens = db.verification_tokens;
  deletion_requests = db.deletion_requests;
  counters = db.counters;
  jobs = db.jobs;
  audits = db.audits;
  next_user_id = db.next_user_id;
  next_session_id = db.next_session_id;
}

abbrev pub with_counters : Db → List Counter → Db
with_counters db counters = record {
  users = db.users;
  sessions = db.sessions;
  reset_tokens = db.reset_tokens;
  verification_tokens = db.verification_tokens;
  deletion_requests = db.deletion_requests;
  counters = counters;
  jobs = db.jobs;
  audits = db.audits;
  next_user_id = db.next_user_id;
  next_session_id = db.next_session_id;
}

abbrev pub with_cancellation : Db → List DeletionRequest → AuditEntry → Db
with_cancellation db requests entry = record {
  users = db.users;
  sessions = db.sessions;
  reset_tokens = db.reset_tokens;
  verification_tokens = db.verification_tokens;
  deletion_requests = requests;
  counters = db.counters;
  jobs = db.jobs;
  audits = entry ∷ db.audits;
  next_user_id = db.next_user_id;
  next_session_id = db.next_session_id;
}

-- `WEAK_PASSWORDS`
abbrev pub weak_passwords : List String
weak_passwords =
    "123456" ∷ "123456789" ∷ "12345678" ∷ "qwerty" ∷ "password" ∷ "password123" ∷ "111111"
    ∷ "abc123" ∷ "letmein" ∷ "admin" ∷ "welcome" ∷ "iloveyou" ∷ []

-- `assertPasswordNotBlacklisted` throws.
abbrev pub is_blacklisted : Hosts → (password : String) → Bool
is_blacklisted host password = any (str_eq (host.to_lower_case password)) weak_passwords

-- `normalizeEmail`
abbrev pub normalize_email : Hosts → (email : String) → String
normalize_email host email = host.to_lower_case (host.trim email)

-- `getPepper`
abbrev pub get_pepper : Hosts → String
get_pepper host = elim host.pepper [ none ↦ "" | some pepper ↦ pepper ]

-- `hashPasswordWithPepper`, with the salt that argon2 draws.
abbrev pub hash_password : Hosts → (salt password : String) → String
hash_password host salt password = host.argon2_hash salt (concat password (get_pepper host))

-- `verifyPasswordWithPepper`
abbrev pub verify_password : Hosts → (password hash : String) → Bool
verify_password host password hash =
    starts_with hash "$argon2id$" && host.argon2_verify hash (concat password (get_pepper host))

-- What `register` is sent, and what it draws.
pub record Registration : Type 0 where
  pub email : String
  pub password : String
  pub name : Option String
  pub salt : String
  pub raw_refresh_token : String

-- The row that `user.create` writes, by the defaults of the schema.
abbrev pub new_user : Hosts → Db → Registration → User
new_user host db dto = record {
  id = db.next_user_id;
  email = normalize_email host dto.email;
  password = hash_password host dto.salt dto.password;
  name = dto.name;
  role = Role.user;
  status = active;
  failed_login_attempts = 0;
  lock_until = none;
  email_verified_at = none;
  last_login_at = none;
  deleted_at = none;
}

-- The transaction of `register`.
abbrev pub create_user : Hosts → Db → Registration → Db
create_user host db dto = record {
  users = new_user host db dto ∷ db.users;
  sessions = db.sessions;
  reset_tokens = db.reset_tokens;
  verification_tokens = db.verification_tokens;
  deletion_requests = db.deletion_requests;
  counters = db.counters;
  jobs = send_email_verification db.next_user_id ∷ db.jobs;
  audits = db.audits;
  next_user_id = db.next_user_id + 1;
  next_session_id = db.next_session_id;
}

-- `register`
unfoldable pub register : Hosts → Db → Registration → (now : ℕ) → Db × Answer Tokens
unfolding create_session_and_sign_token
register host db dto now =
    if is_some (find_email db.users (normalize_email host dto.email))
    then (db, refused email_exists)
    else if is_blacklisted host dto.password
    then (db, refused weak_password)
    else create_session_and_sign_token host (create_user host db dto) (new_user host db dto)
        dto.raw_refresh_token now
