-- ===== src/Auth/Once.antt =====
-- What the end of a session means in auth.service.ts and jwt.strategy.ts: a refresh token is exchanged
-- once, and a session that is logged out admits nobody.
use text.Mathlib.Text.{◌==◌ as str_eq}
use text.Mathlib.TextEquality.{eq_iff}
use hsk_3_0_app.Base.{
  ℕ, ◌≡◌, ◌≢◌, refl, sym, ap, subst, inl, inr, Bool, true, false, Option, none, some, List, [], ◌∷◌,
  map, String, filter, any, All, arith, Bool-cases, Option-cases,
}
use hsk_3_0_app.Auth.{
  User, UserSession, Db, Hosts, answered, refused, update_where, find_user, is_available,
  has_session_hash, invalid_refresh_token,
}
use hsk_3_0_app.Auth.Sessions.{
  with_sessions, revoked_with, insert_session, is_claimable, RefreshTxResult, issued,
  account_inactive, not_claimed, finish_refresh, finish_claimed, refresh_transaction, refresh,
  finish_answer, Tokens,
}
use hsk_3_0_app.Auth.Final.{
  Event, step, run, drawn, committed, IsOver, AllOver, step-AllOver, finish-AllOver,
}

-- The hashes of the rows are distinct: the table's unique index.
abbrev pub HasHashes : List UserSession → Type 0
HasHashes [] = Unit
HasHashes (row ∷ rows) = (has_session_hash rows row.token_hash ≡ false) × HasHashes rows

module _ (host : Hosts) (token_hash : String) (now : ℕ) where
  abbrev rotated : UserSession → UserSession
  rotated = revoked_with (some "rotated") now

  -- The row has this hash.
  abbrev named : (id : ℕ) → String → Bool
  named id hash = str_eq hash token_hash

  absent-AllOver :
      (rows : List UserSession)
      → has_session_hash rows token_hash ≡ false
      → (filter (is_claimable token_hash now) rows ≡ [])
        × All (IsOver host named) (update_where (is_claimable token_hash now) rotated rows)
  absent-AllOver [] absent = (refl, tt)
  absent-AllOver (row ∷ rows) absent =
      let other : str_eq row.token_hash token_hash ≡ false = ground arith in
      let (none_claimed, over) = absent-AllOver rows (ground arith) in
      (rw (other, none_claimed) refl, rw other ((λ picked. absurd (ground arith)), over))

  claimed-AllOver :
      (rows : List UserSession) (session : UserSession) (more : List UserSession)
      → HasHashes rows
      → filter (is_claimable token_hash now) rows ≡ session ∷ more
      → All (IsOver host named) (update_where (is_claimable token_hash now) rotated rows)
        × (has_session_hash (update_where (is_claimable token_hash now) rotated rows) token_hash
            ≡ true)
  claimed-AllOver [] session more keyed e = cc
  claimed-AllOver (row ∷ rows) session more (fresh, keyed) e =
      elim (Bool-cases (str_eq row.token_hash token_hash)) [
        | inr other ↦
            let (over, taken) = claimed-AllOver rows session more keyed (ground arith) in
            rw (other, other) (((λ picked. absurd (ground arith)), over), taken)
        | inl here ↦
            let same : row.token_hash ≡ token_hash = (eq_iff row.token_hash token_hash).0 here in
            let (none_claimed, over) =
              absent-AllOver rows (subst (λ h. has_session_hash rows h ≡ false) same fresh) in
            elim (Bool-cases (is_claimable token_hash now row)) [
              | inl live ↦ rw (live, here) (((λ picked. refl), over), refl)
              | inr gone ↦ absurd (ground arith)
            ]
      ]

  over-filter_claimable :
      (rows : List UserSession)
      → All (IsOver host named) rows
      → filter (is_claimable token_hash now) rows ≡ []
  over-filter_claimable [] over = refl
  over-filter_claimable (row ∷ rows) (first, over) =
      let rest = over-filter_claimable rows over in
      elim (Bool-cases (str_eq row.token_hash token_hash)) [
        | inr other ↦ rw (other, rest) refl
        | inl here ↦ let ended = first here in rw (here, ended, rest) refl
      ]

  finish-taken :
      (db after : Db) (session made : UserSession) (row : User) (raw : String)
      → has_session_hash db.sessions (host.sha256 raw) ≡ true
      → finish_refresh host db session raw now ≢ some (after, issued row made)
  unfolding finish_refresh insert_session
  finish-taken db after session made row raw taken e =
      elim (Option-cases (find_user db.users session.user_id)) [
        | inl missing ↦ absurd (ground arith)
        | inr (found, at) ↦ elim (Bool-cases (is_available found)) [
          | inr away ↦ absurd (ground arith)
          | inl here ↦ absurd (ground arith)
        ]
      ]

  finish-issued :
      (db after : Db) (session made : UserSession) (row : User) (raw : String)
      → All (IsOver host named) db.sessions
      → has_session_hash db.sessions token_hash ≡ true
      → finish_refresh host db session raw now ≡ some (after, issued row made)
      → AllOver host named after
  finish-issued db after session made row raw over taken e =
      elim (Bool-cases (str_eq (host.sha256 raw) token_hash)) [
        | inr other ↦
            subst (λ o. AllOver host named (committed db o)) e
              (finish-AllOver host named db db session raw now other over over)
        | inl same ↦ absurd (
            finish-taken db after session made row raw
              (subst (λ h. has_session_hash db.sessions h ≡ true)
                (sym ((eq_iff (host.sha256 raw) token_hash).0 same)) taken)
              e)
      ]

  claimed-issued :
      (db after : Db) (made : UserSession) (row : User) (raw : String) (claimed : List UserSession)
      → HasHashes db.sessions
      → filter (is_claimable token_hash now) db.sessions ≡ claimed
      → finish_claimed host
          (with_sessions db (update_where (is_claimable token_hash now) rotated db.sessions))
          (map rotated claimed)
          raw
          now
        ≡ some (after, issued row made)
      → AllOver host named after
  unfolding finish_claimed
  claimed-issued db after made row raw [] keyed at e = absurd (ground arith)
  claimed-issued db after made row raw (_ ∷ _ ∷ _) keyed at e = absurd (ground arith)
  claimed-issued db after made row raw (session ∷ []) keyed at e =
      let (over, taken) = claimed-AllOver db.sessions session [] keyed at in
      finish-issued
        (with_sessions db (update_where (is_claimable token_hash now) rotated db.sessions)) after
        (rotated session) made row raw over taken e

  -- The token's hash is on revoked sessions only: nothing is claimed.
  over-refresh_transaction :
      (db : Db) (raw : String)
      → AllOver host named db
      → (after : Db) × (refresh_transaction host db token_hash raw now ≡ some (after, not_claimed))
  unfolding refresh_transaction finish_claimed
  over-refresh_transaction db raw over =
      let after =
        with_sessions db (update_where (is_claimable token_hash now) rotated db.sessions) in
      (
        after,
        ap (λ claimed. finish_claimed host after (map rotated claimed) raw now)
            (over-filter_claimable db.sessions over),
      )

over-refresh :
    (host : Hosts) (db : Db) (token raw : String) (now later : ℕ)
    → AllOver host (named host (host.sha256 token) now) db
    → (refresh host db token raw now later).1 ≡ refused invalid_refresh_token
unfolding refresh finish_answer
over-refresh host db token raw now later over =
    let (after, e) = over-refresh_transaction host (host.sha256 token) now db raw over in
    ap (λ done. (finish_answer host db (host.sha256 token) raw later done).1) e

finish_answer-issued :
    (host : Hosts) (db after : Db) (token_hash raw : String) (later : ℕ) (tokens : Tokens)
    (done : Option (Db × RefreshTxResult))
    → finish_answer host db token_hash raw later done ≡ (after, answered tokens)
    → (row : User) × (made : UserSession) × (done ≡ some (after, issued row made))
unfolding finish_answer
finish_answer-issued host db after token_hash raw later tokens none e = absurd (ground arith)
finish_answer-issued host db after token_hash raw later tokens (some (db2, issued row made)) e =
    let same : db2 ≡ after = ap (λ p. p.0) e in
    (row, made, ap (λ d. some (d, issued row made)) same)
finish_answer-issued host db after token_hash raw later tokens (some (db2, account_inactive)) e =
    absurd (ground arith)
finish_answer-issued host db after token_hash raw later tokens (some (db2, not_claimed)) e =
    absurd (ground arith)

-- The event draws a token with the hash of this one.
abbrev pub redraws : Hosts → (token : String) → Event → Bool
redraws host token event = elim (drawn event) [
  | none ↦ false
  | some raw ↦ str_eq (host.sha256 raw) (host.sha256 token)
]

run-AllOver-named :
    (host : Hosts) (token : String) (now : ℕ) (db : Db) (events : List Event)
    → any (redraws host token) events ≡ false
    → AllOver host (named host (host.sha256 token) now) db
    → AllOver host (named host (host.sha256 token) now) (run host db events)
unfolding run
run-AllOver-named host token now db [] fresh over = over
run-AllOver-named host token now db (event ∷ events) fresh over =
    let key = named host (host.sha256 token) now in
    run-AllOver-named host token now (step host db event) events (ground arith) (
      step-AllOver host key db event
        (λ raw draws. elim (Bool-cases (str_eq (host.sha256 raw) (host.sha256 token))) [
          | inr other ↦ other
          | inl same ↦ absurd (ground arith)
        ])
        over)

-- A refresh token that was exchanged is refused ever after, whatever writes are made in between and
-- in whatever order, as long as no token with the same hash is drawn.
pub refresh-run_refused :
    (host : Hosts) (db after : Db) (token raw : String) (now later : ℕ) (tokens : Tokens)
    (events : List Event) (raw_again : String) (now_again later_again : ℕ)
    → HasHashes db.sessions
    → refresh host db token raw now later ≡ (after, answered tokens)
    → any (redraws host token) events ≡ false
    → (refresh host (run host after events) token raw_again now_again later_again).1
      ≡ refused invalid_refresh_token
unfolding refresh refresh_transaction
refresh-run_refused host db after token raw now later tokens events raw_again now_again later_again
      keyed e fresh =
    let hash = host.sha256 token in
    let (row, made, at) =
      finish_answer-issued host db after hash raw later tokens
        (refresh_transaction host db hash raw now) e in
    let over =
      claimed-issued host hash now db after made row raw
        (filter (is_claimable hash now) db.sessions) keyed refl at in
    over-refresh host (run host after events) token raw_again now_again later_again
      (run-AllOver-named host token now after events fresh over)
