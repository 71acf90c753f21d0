-- ===== src/Auth/Access.antt =====
-- What logout in auth.service.ts means to jwt.strategy.ts: a session that is logged out admits nobody.
use mathlib.Core.Option
use hsk_3_0_app.Base.{
  ℕ, ◌≤◌, ◌<◌, ◌==◌, ◌≡◌, refl, subst, inl, inr, Bool, ◌&&◌, ◌||◌, none, some, List, [], ◌∷◌, map,
  String, find, filter, any, All, arith, Bool-cases, Option-cases, ltb, leb,
}
use hsk_3_0_app.Auth.{
  User, UserSession, Db, Hosts, refused, update_where, find_user, is_available, has_session_hash,
  account_not_available,
}
use hsk_3_0_app.Auth.Sessions.{
  is_unrevoked, with_sessions, revoked_with, insert_session, create_session_and_sign_token,
  is_claimable, finish_refresh, finish_claimed, refresh_transaction, revoke_reused, revoke_found,
  logout, admits, validate, is_rotated, is_within_grace,
}
use hsk_3_0_app.Auth.Login.{is_blacklisted}
use hsk_3_0_app.Auth.Recovery.{confirm_password_reset, is_live}
use hsk_3_0_app.Auth.Final.{
  Event, step, run, committed, IsOver, AllOver, step-AllOver, signs_in, claims, reacts, logs_out,
  resets, revokes, deletes, changes_accounts,
}

insert-next :
    (host : Hosts) (db : Db) (user_id : ℕ) (raw : String) (now : ℕ) (done : Db × UserSession)
    → insert_session host db user_id raw now ≡ some done
    → db.next_session_id ≤ done.0.next_session_id
unfolding insert_session
insert-next host db user_id raw now done e =
    elim (Bool-cases (has_session_hash db.sessions (host.sha256 raw))) [
      | inl taken ↦ absurd (ground arith)
      | inr free ↦
          let same : _ ≡ done = Option.some-injective _ _ (rw free at e) in
          subst (λ (d : Db × UserSession). db.next_session_id ≤ d.0.next_session_id) same
            (omega arith)
    ]

finish-next :
    (host : Hosts) (before db : Db) (session : UserSession) (raw : String) (now : ℕ)
    → before.next_session_id ≡ db.next_session_id
    → before.next_session_id
      ≤ (committed before (finish_refresh host db session raw now)).next_session_id
unfolding finish_refresh
finish-next host before db session raw now same =
    elim (Option-cases (find_user db.users session.user_id)) [
      | inl e ↦ rw (committed, finish_refresh, e) (omega (arith, same))
      | inr (row, e) ↦ elim (Bool-cases (is_available row)) [
        | inr away ↦ rw (committed, finish_refresh, e, away) (omega (arith, same))
        | inl here ↦ elim (Option-cases (insert_session host db row.id raw now)) [
          | inl fails ↦ rw (committed, finish_refresh, e, here, fails) (omega arith)
          | inr (done, made) ↦
              let grows = insert-next host db row.id raw now done made in
              rw (committed, finish_refresh, e, here, made) (omega (arith, grows, same))
        ]
      ]
    ]

claimed-next :
    (host : Hosts) (before db : Db) (claimed : List UserSession) (raw : String) (now : ℕ)
    → before.next_session_id ≡ db.next_session_id
    → before.next_session_id
      ≤ (committed before (finish_claimed host db claimed raw now)).next_session_id
unfolding finish_claimed
claimed-next host before db [] raw now same = omega (arith, same)
claimed-next host before db (session ∷ []) raw now same =
    finish-next host before db session raw now same
claimed-next host before db (_ ∷ _ ∷ _) raw now same = omega (arith, same)

found-next :
    (db : Db) (rotated : List UserSession) (now : ℕ)
    → (revoke_found db rotated now).next_session_id ≡ db.next_session_id
unfolding revoke_found
found-next db [] now = refl
found-next db (row ∷ rows) now = elim (Bool-cases (is_within_grace now row)) [
  | inl e ↦ rw e refl
  | inr e ↦ rw e refl
]

reset-next :
    (host : Hosts) (db : Db) (token new_password salt : String) (now : ℕ)
    → (confirm_password_reset host db token new_password salt now).0.next_session_id
      ≡ db.next_session_id
unfolding confirm_password_reset
reset-next host db token new_password salt now =
    elim (Bool-cases (is_blacklisted host new_password)) [
      | inl weak ↦ rw weak refl
      | inr strong ↦ elim (Option-cases (find (is_live (host.sha256 token) now) db.reset_tokens)) [
        | inl e ↦ rw (strong, e) refl
        | inr (claimed, e) ↦
            elim (Bool-cases
              (any (λ (row : User). row.id == claimed.user_id && is_available row) db.users)) [
                | inl updated ↦ rw (strong, e, updated) refl
                | inr away ↦ rw (strong, e, away) refl
              ]
      ]
    ]

-- The database gives out ids in order.
pub step-next :
    (host : Hosts) (db : Db) (event : Event)
    → db.next_session_id ≤ (step host db event).next_session_id
unfolding step refresh_transaction revoke_reused logout create_session_and_sign_token
step-next host db (signs_in row raw now) =
    elim (Option-cases (insert_session host db row.id raw now)) [
      | inl fails ↦ rw (step, create_session_and_sign_token, fails) (omega arith)
      | inr (done, made) ↦
          rw (step, create_session_and_sign_token, made)
            (insert-next host db row.id raw now done made)
    ]
step-next host db (claims token_hash raw now) =
    let claims = is_claimable token_hash now in
    let rotated = revoked_with (some "rotated") now in
    claimed-next host db (with_sessions db (update_where claims rotated db.sessions))
      (map rotated (filter claims db.sessions)) raw now refl
step-next host db (reacts token_hash now) =
    omega (arith, found-next db (filter (is_rotated token_hash) db.sessions) now)
step-next host db (logs_out sid now) = omega arith
step-next host db (resets token new_password salt now) =
    omega (arith, reset-next host db token new_password salt now)
step-next host db (revokes user_id reason now) = omega arith
step-next host db (deletes test) = omega arith
step-next host db (changes_accounts users) = omega arith

-- The session has this id.
abbrev pub numbered : (sid id : ℕ) → String → Bool
numbered sid id hash = id == sid

run-AllOver-numbered :
    (host : Hosts) (sid : ℕ) (db : Db) (events : List Event)
    → sid < db.next_session_id
    → AllOver host (numbered sid) db
    → AllOver host (numbered sid) (run host db events)
unfolding run
run-AllOver-numbered host sid db [] given over = over
run-AllOver-numbered host sid db (event ∷ events) given over =
    run-AllOver-numbered host sid (step host db event) events
      (omega (arith, given, step-next host db event))
      (step-AllOver host (numbered sid) db event (λ raw draws. ground arith) over)

logout-AllOver :
    (host : Hosts) (sid now : ℕ) (rows : List UserSession)
    → All (IsOver host (numbered sid)) (
        update_where
          (λ row. row.id == sid && is_unrevoked row)
          (revoked_with (some "logout") now)
          rows)
logout-AllOver host sid now [] = tt
logout-AllOver host sid now (row ∷ rows) =
    let rest = logout-AllOver host sid now rows in
    elim (Bool-cases (row.id == sid)) [
      | inr other ↦ rw other ((λ picked. absurd (ground arith)), rest)
      | inl here ↦ elim (Bool-cases (is_unrevoked row)) [
        | inl live ↦ rw (here, live) ((λ picked. refl), rest)
        | inr ended ↦ rw (here, ended) ((λ picked. ended), rest)
      ]
    ]

over-admits-none :
    (host : Hosts) (users : List User) (sub sid now : ℕ) (rows : List UserSession)
    → All (IsOver host (numbered sid)) rows
    → find (admits users sub sid now) rows ≡ none
over-admits-none host users sub sid now [] over = refl
over-admits-none host users sub sid now (row ∷ rows) (first, over) =
    let rest = over-admits-none host users sub sid now rows over in
    elim (Bool-cases (row.id == sid)) [
      | inr other ↦ rw other rest
      | inl here ↦
          let ended = first here in
          elim (Bool-cases (row.user_id == sub)) [
            | inl mine ↦ rw (here, mine, ended) rest
            | inr foreign ↦ rw (here, foreign) rest
          ]
    ]

-- Once a session is logged out, no access token for it is accepted, whatever writes follow and in
-- whatever order, at any time.
pub logout-run_refused :
    (host : Hosts) (db : Db) (sid now : ℕ) (events : List Event) (sub at : ℕ)
    → sid < db.next_session_id
    → validate (run host (logout db sid now) events) sub (some sid) at
      ≡ refused account_not_available
unfolding validate logout
logout-run_refused host db sid now events sub at given =
    let over =
      run-AllOver-numbered host sid (logout db sid now) events given
        (logout-AllOver host sid now db.sessions) in
    let missing =
      over-admits-none host (run host (logout db sid now) events).users sub sid at
        (run host (logout db sid now) events).sessions over in
    elim (Bool-cases (leb sid 0 || ltb 2147483647 sid)) [
      | inl out ↦ rw out refl
      | inr within ↦ rw (within, missing) refl
    ]
