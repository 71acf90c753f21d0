-- ===== src/Auth/Final.antt =====
-- Any sequence of the writes that change the sessions, each a statement or a transaction of
-- backend/src/modules/auth/ or backend/src/modules/user/, in whatever order they interleave.
use mathlib.Core.Option
use hsk_3_0_app.Base.{
  ℕ, ◌==◌, ◌≡◌, refl, subst, inl, inr, Bool, true, false, ◌&&◌, not, Option, none, some, List, [],
  ◌∷◌, map, String, find, filter, any, All, arith, Bool-cases, Option-cases,
}
use hsk_3_0_app.Auth.{
  User, UserSession, Db, Hosts, update_where, find_user, is_available, has_session_hash,
}
use hsk_3_0_app.Auth.Sessions.{
  is_unrevoked, with_sessions, revoked_with, insert_session, create_session_and_sign_token,
  is_claimable, RefreshTxResult, mark_inactive, finish_refresh, finish_claimed, revoke_found,
  refresh_transaction, revoke_user, revoke_reused, logout, is_rotated, is_within_grace,
}
use hsk_3_0_app.Auth.Login.{with_users, is_blacklisted}
use hsk_3_0_app.Auth.Recovery.{confirm_password_reset, is_live}

-- A write. `changes_accounts` stands for every write that leaves the sessions as they are.
pub data Event : Type 0 where
  signs_in : User → (raw_refresh_token : String) (now : ℕ) → Event
  claims : (token_hash raw_refresh_token : String) (now : ℕ) → Event
  reacts : (token_hash : String) (now : ℕ) → Event
  logs_out : (sid now : ℕ) → Event
  resets : (token new_password salt : String) (now : ℕ) → Event
  revokes : (user_id : ℕ) (reason : Option String) (now : ℕ) → Event
  deletes : (UserSession → Bool) → Event
  changes_accounts : List User → Event

-- The tables after a transaction that may fail.
abbrev pub committed : Db → Option (Db × RefreshTxResult) → Db
committed db none = db
committed db (some done) = done.0

unfoldable pub step : Hosts → Db → Event → Db
unfolding create_session_and_sign_token refresh_transaction revoke_reused logout
    confirm_password_reset revoke_user
step host db (signs_in row raw now) = (create_session_and_sign_token host db row raw now).0
step host db (claims token_hash raw now) =
    committed db (refresh_transaction host db token_hash raw now)
step host db (reacts token_hash now) = revoke_reused db token_hash now
step host db (logs_out sid now) = logout db sid now
step host db (resets token new_password salt now) =
    (confirm_password_reset host db token new_password salt now).0
step host db (revokes user_id reason now) =
    with_sessions db (revoke_user user_id reason now db.sessions)
step host db (deletes test) =
    with_sessions db (filter (λ (row : UserSession). not (test row)) db.sessions)
step host db (changes_accounts users) = with_users db users

unfoldable pub run : Hosts → Db → List Event → Db
unfolding step
run host db [] = db
run host db (event ∷ events) = run host (step host db event) events

-- The refresh token that an event draws.
abbrev pub drawn : Event → Option String
drawn (signs_in row raw now) = some raw
drawn (claims token_hash raw now) = some raw
drawn (reacts token_hash now) = none
drawn (logs_out sid now) = none
drawn (resets token new_password salt now) = none
drawn (revokes user_id reason now) = none
drawn (deletes test) = none
drawn (changes_accounts users) = none

All-update {ℓ κ} :
    {A : Type ℓ} (P : A → Type κ) (test : A → Bool) (change : A → A) (rows : List A)
    → ((row : A) → P row → P (change row))
    → All P rows
    → All P (update_where test change rows)
All-update P test change [] keeps h = tt
All-update P test change (row ∷ rows) keeps (p, h) =
    let rest = All-update P test change rows keeps h in
    elim (Bool-cases (test row)) [ inl e ↦ rw e (keeps row p, rest) | inr e ↦ rw e (p, rest) ]

All-filter {ℓ κ} :
    {A : Type ℓ} (P : A → Type κ) (test : A → Bool) (rows : List A)
    → All P rows
    → All P (filter test rows)
All-filter P test [] h = tt
All-filter P test (row ∷ rows) (p, h) =
    let rest = All-filter P test rows h in
    elim (Bool-cases (test row)) [ inl e ↦ rw e (p, rest) | inr e ↦ rw e rest ]

-- The sessions that a test picks, by their ids and hashes, are all revoked.
module _ (host : Hosts) (key : ℕ → String → Bool) where
  abbrev pub IsOver : UserSession → Type 0
  IsOver row = key row.id row.token_hash ≡ true → is_unrevoked row ≡ false

  abbrev pub AllOver : Db → Type 0
  AllOver db = All IsOver db.sessions

  insert-AllOver :
      (db : Db) (user_id : ℕ) (raw : String) (now : ℕ)
      → key db.next_session_id (host.sha256 raw) ≡ false
      → AllOver db
      → (done : Db × UserSession) → insert_session host db user_id raw now ≡ some done
      → AllOver done.0
  unfolding insert_session
  insert-AllOver db user_id raw now apart over done e =
      elim (Bool-cases (has_session_hash db.sessions (host.sha256 raw))) [
        | inl taken ↦ absurd (ground arith)
        | inr free ↦
            let same : _ ≡ done = Option.some-injective _ _ (rw free at e) in
            subst (λ (d : Db × UserSession). AllOver d.0) same
              ((λ picked. absurd (ground arith)), over)
      ]

  mark-AllOver :
      (id now : ℕ) (sessions : List UserSession)
      → All IsOver sessions
      → All IsOver (mark_inactive id now sessions)
  mark-AllOver id now sessions over = All-update IsOver _ _ sessions (λ row over. over) over

  pub finish-AllOver :
      (before db : Db) (session : UserSession) (raw : String) (now : ℕ)
      → key db.next_session_id (host.sha256 raw) ≡ false
      → AllOver before
      → AllOver db
      → AllOver (committed before (finish_refresh host db session raw now))
  unfolding finish_refresh
  finish-AllOver before db session raw now apart first over =
      elim (Option-cases (find_user db.users session.user_id)) [
        | inl e ↦ rw (committed, finish_refresh, e) (mark-AllOver session.id now db.sessions over)
        | inr (row, e) ↦ elim (Bool-cases (is_available row)) [
          | inr away ↦
              rw (committed, finish_refresh, e, away) (mark-AllOver session.id now db.sessions over)
          | inl here ↦ elim (Option-cases (insert_session host db row.id raw now)) [
            | inl fails ↦ rw (committed, finish_refresh, e, here, fails) first
            | inr (done, made) ↦
                rw (committed, finish_refresh, e, here, made)
                  (insert-AllOver db row.id raw now apart over done made)
          ]
        ]
      ]

  claim-AllOver :
      (before db : Db) (claimed : List UserSession) (raw : String) (now : ℕ)
      → key db.next_session_id (host.sha256 raw) ≡ false
      → AllOver before
      → AllOver db
      → AllOver (committed before (finish_claimed host db claimed raw now))
  unfolding finish_claimed
  claim-AllOver before db [] raw now apart first over = over
  claim-AllOver before db (session ∷ []) raw now apart first over =
      finish-AllOver before db session raw now apart first over
  claim-AllOver before db (_ ∷ _ ∷ _) raw now apart first over = over

  revoke-AllOver :
      (test : UserSession → Bool) (reason : Option String) (now : ℕ) (sessions : List UserSession)
      → All IsOver sessions
      → All IsOver (update_where test (revoked_with reason now) sessions)
  revoke-AllOver test reason now sessions over =
      All-update IsOver test _ sessions (λ row was picked. refl) over

  react-AllOver :
      (db : Db) (rotated : List UserSession) (now : ℕ)
      → AllOver db
      → AllOver (revoke_found db rotated now)
  unfolding revoke_found revoke_user
  react-AllOver db [] now over = over
  react-AllOver db (row ∷ rows) now over = elim (Bool-cases (is_within_grace now row)) [
    | inl within ↦ rw within over
    | inr late ↦ rw late (revoke-AllOver _ (some "refresh_reuse") now db.sessions over)
  ]

  reset-AllOver :
      (db : Db) (token new_password salt : String) (now : ℕ)
      → AllOver db
      → AllOver (confirm_password_reset host db token new_password salt now).0
  unfolding confirm_password_reset
  reset-AllOver db token new_password salt now over =
      elim (Bool-cases (is_blacklisted host new_password)) [
        | inl weak ↦ rw weak over
        | inr strong ↦
            elim (Option-cases (find (is_live (host.sha256 token) now) db.reset_tokens)) [
              | inl e ↦ rw (strong, e) over
              | inr (claimed, e) ↦
                  elim (Bool-cases (
                    any (λ (row : User). row.id == claimed.user_id && is_available row) db.users)) [
                      | inl updated ↦
                          rw (strong, e, updated)
                            (All-update IsOver _ _ db.sessions (λ row was picked. refl) over)
                      | inr away ↦ rw (strong, e, away) over
                    ]
            ]
      ]

  sign_in-AllOver :
      (db : Db) (row : User) (raw : String) (now : ℕ)
      → key db.next_session_id (host.sha256 raw) ≡ false
      → AllOver db
      → AllOver (create_session_and_sign_token host db row raw now).0
  unfolding create_session_and_sign_token
  sign_in-AllOver db row raw now apart over =
      elim (Option-cases (insert_session host db row.id raw now)) [
        | inl fails ↦ rw (create_session_and_sign_token, fails) over
        | inr (done, made) ↦
            rw (create_session_and_sign_token, made)
              (insert-AllOver db row.id raw now apart over done made)
      ]

  -- An event that draws a token draws none that the test picks.
  abbrev pub IsApart : Db → Event → Type 0
  IsApart db event =
      (raw : String) → drawn event ≡ some raw → key db.next_session_id (host.sha256 raw) ≡ false

  pub step-AllOver :
      (db : Db) (event : Event) → IsApart db event → AllOver db → AllOver (step host db event)
  unfolding step refresh_transaction revoke_reused logout revoke_user
  step-AllOver db (signs_in row raw now) apart over =
      sign_in-AllOver db row raw now (apart raw refl) over
  step-AllOver db (claims token_hash raw now) apart over =
      let claims = is_claimable token_hash now in
      let rotated = revoked_with (some "rotated") now in
      claim-AllOver db (with_sessions db (update_where claims rotated db.sessions))
        (map rotated (filter claims db.sessions)) raw now (apart raw refl) over
        (revoke-AllOver claims (some "rotated") now db.sessions over)
  step-AllOver db (reacts token_hash now) apart over =
      react-AllOver db (filter (is_rotated token_hash) db.sessions) now over
  step-AllOver db (logs_out sid now) apart over =
      revoke-AllOver (λ row. row.id == sid && is_unrevoked row) (some "logout") now db.sessions over
  step-AllOver db (resets token new_password salt now) apart over =
      reset-AllOver db token new_password salt now over
  step-AllOver db (revokes user_id reason now) apart over =
      revoke-AllOver (λ row. row.user_id == user_id && is_unrevoked row) reason now db.sessions over
  step-AllOver db (deletes test) apart over =
      All-filter IsOver (λ row. not (test row)) db.sessions over
  step-AllOver db (changes_accounts users) apart over = over
