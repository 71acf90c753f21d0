-- ===== src/Auth/Reuse.antt =====
-- What auth.service.ts does about a refresh token that is sent again after it was rotated.
use text.Mathlib.Text.{◌==◌ as str_eq}
use text.Mathlib.TextPositions.{eq_refl}
use text.Mathlib.TextEquality.{eq_iff}
use hsk_3_0_app.Base.{
  ℕ, ◌==◌, ◌≡◌, refl, sym, ap, ◌∙◌, subst, inl, inr, true, false, ◌&&◌, some, List, [], ◌∷◌, String,
  filter, arith, Bool-cases, Memᴰ, ◌+◌, ◌*◌, ltb, if◌then◌else◌,
}
use hsk_3_0_app.Auth.{
  UserSession, Db, Hosts, refused, update_where, has_session_hash, invalid_refresh_token,
}
use hsk_3_0_app.Auth.Sessions.{
  is_unrevoked, with_sessions, revoked_with, is_claimable, not_claimed, finish_claimed,
  refresh_transaction, revoke_user, revoke_reused, revoke_found, refresh, finish_answer, is_rotated,
}
use hsk_3_0_app.Auth.Once.{HasHashes}

absent-rotated :
    (token_hash : String) (now : ℕ) (rows : List UserSession)
    → has_session_hash rows token_hash ≡ false
    → (filter (is_claimable token_hash now) rows ≡ [])
      × (update_where (is_claimable token_hash now) (revoked_with (some "rotated") now) rows ≡ rows)
      × (filter (is_rotated token_hash) rows ≡ [])
absent-rotated token_hash now [] absent = (refl, refl, refl)
absent-rotated token_hash now (row ∷ rows) absent =
    let other : str_eq row.token_hash token_hash ≡ false = ground arith in
    let (a, b, c) = absent-rotated token_hash now rows (ground arith) in
    (rw (other, a) refl, rw (other, b) refl, rw (other, c) refl)

mem-has_session_hash :
    (row : UserSession) {rows : List UserSession}
    → Memᴰ row rows
    → has_session_hash rows row.token_hash ≡ true
mem-has_session_hash row (Memᴰ.head {x} {xs} same) =
    let e : str_eq x.token_hash row.token_hash ≡ true =
      subst (λ (r : UserSession). str_eq r.token_hash row.token_hash ≡ true) same
        (eq_refl row.token_hash) in
    rw e refl
mem-has_session_hash row (Memᴰ.tail {x} {xs} m) =
    let rest = mem-has_session_hash row m in ground arith

alone-rotated :
    (token_hash : String) (now : ℕ) (row : UserSession) {rows : List UserSession}
    → Memᴰ row rows
    → HasHashes rows
    → is_rotated token_hash row ≡ true
    → is_unrevoked row ≡ false
    → (filter (is_claimable token_hash now) rows ≡ [])
      × (update_where (is_claimable token_hash now) (revoked_with (some "rotated") now) rows ≡ rows)
      × (filter (is_rotated token_hash) rows ≡ row ∷ [])
alone-rotated token_hash now row (Memᴰ.head {x} {xs} same) (fresh, keyed) was ended =
    let here : str_eq row.token_hash token_hash ≡ true = ground arith in
    let named : row.token_hash ≡ token_hash = (eq_iff row.token_hash token_hash).0 here in
    let absent : has_session_hash xs token_hash ≡ false =
      subst (λ h. has_session_hash xs h ≡ false)
        (ap (λ (r : UserSession). r.token_hash) (sym same) ∙ named) fresh in
    let (a, b, c) = absent-rotated token_hash now xs absent in
    let live : is_claimable token_hash now row ≡ false = rw (ended, here) refl in
    let live_x : is_claimable token_hash now x ≡ false =
      subst (λ r. is_claimable token_hash now r ≡ false) same live in
    let was_x : is_rotated token_hash x ≡ true =
      subst (λ r. is_rotated token_hash r ≡ true) same was in
    (rw (live_x, a) refl, rw (live_x, b) refl, rw (was_x, c) (ap (λ r. r ∷ []) (sym same)))
alone-rotated token_hash now row (Memᴰ.tail {x} {xs} m) (fresh, keyed) was ended =
    let (a, b, c) = alone-rotated token_hash now row m keyed was ended in
    let here : str_eq row.token_hash token_hash ≡ true = ground arith in
    let named : row.token_hash ≡ token_hash = (eq_iff row.token_hash token_hash).0 here in
    let taken : has_session_hash xs token_hash ≡ true =
      subst (λ h. has_session_hash xs h ≡ true) named (mem-has_session_hash row m) in
    elim (Bool-cases (str_eq x.token_hash token_hash)) [
      | inr other ↦ (rw (other, a) refl, rw (other, b) refl, rw (other, c) refl)
      | inl first ↦
          let absent : has_session_hash xs token_hash ≡ false =
            subst (λ h. has_session_hash xs h ≡ false) ((eq_iff x.token_hash token_hash).0 first)
              fresh in
          absurd (ground arith)
    ]

-- The sessions of a user that are not revoked.
abbrev pub unrevoked_of : (user_id : ℕ) → List UserSession → List UserSession
unrevoked_of user_id = filter (λ (s : UserSession). s.user_id == user_id && is_unrevoked s)

revoke_user-none :
    (user_id : ℕ) (now : ℕ) (rows : List UserSession)
    → unrevoked_of user_id (revoke_user user_id (some "refresh_reuse") now rows) ≡ []
unfolding revoke_user
revoke_user-none user_id now [] = refl
revoke_user-none user_id now (row ∷ rows) =
    let rest = revoke_user-none user_id now rows in
    elim (Bool-cases (row.user_id == user_id)) [
      | inr other ↦ rw (other, other) rest
      | inl here ↦ elim (Bool-cases (is_unrevoked row)) [
        | inl live ↦ rw (here, live, here) rest
        | inr ended ↦ rw (here, ended, here, ended) rest
      ]
    ]

revoke_reused-unrevoked :
    (db : Db) (token_hash : String) (later rotated_at : ℕ) (row : UserSession)
    → filter (is_rotated token_hash) db.sessions ≡ row ∷ []
    → row.revoked_at ≡ some rotated_at
    → unrevoked_of row.user_id (revoke_reused db token_hash later).sessions
      ≡ (if ltb later (rotated_at + 10 * 1000) then unrevoked_of row.user_id db.sessions else [])
unfolding revoke_reused revoke_found
revoke_reused-unrevoked db token_hash later rotated_at row only ended =
    elim (Bool-cases (ltb later (rotated_at + 10 * 1000))) [
      | inl within ↦ rw (only, ended, within) refl
      | inr late ↦ rw (only, ended, late) (revoke_user-none row.user_id later db.sessions)
    ]

-- A refresh token that was rotated is refused whenever it is sent again. Within 10 seconds of the
-- rotation the unrevoked sessions of its user stay as they are, and after that every one of them is
-- revoked, the one that replaced it included.
pub refresh-reuse :
    (host : Hosts) (db : Db) (token raw : String) (now later rotated_at : ℕ) (row : UserSession)
    → HasHashes db.sessions
    → Memᴰ row db.sessions
    → row.token_hash ≡ host.sha256 token
    → row.revocation_reason ≡ some "rotated"
    → row.revoked_at ≡ some rotated_at
    → ((refresh host db token raw now later).1 ≡ refused invalid_refresh_token)
      × (unrevoked_of row.user_id (refresh host db token raw now later).0.sessions ≡ (
          if ltb later (rotated_at + 10 * 1000) then unrevoked_of row.user_id db.sessions else []))
unfolding refresh refresh_transaction finish_claimed
refresh-reuse host db token raw now later rotated_at row keyed m named reason ended =
    let was : is_rotated (host.sha256 token) row ≡ true =
      rw (named, eq_refl (host.sha256 token), reason) refl in
    let (a, b, c) = alone-rotated (host.sha256 token) now row m keyed was (rw ended refl) in
    let kept = with_sessions db db.sessions in
    let e : refresh_transaction host db (host.sha256 token) raw now ≡ some (kept, not_claimed) =
      rw (a, b) refl in
    let g : refresh host db token raw now later
        ≡ (revoke_reused kept (host.sha256 token) later, refused invalid_refresh_token) =
      ap (finish_answer host db (host.sha256 token) raw later) e in
    (
      ap (λ d. d.1) g,
      ap (λ d. unrevoked_of row.user_id d.0.sessions) g
          ∙ revoke_reused-unrevoked kept (host.sha256 token) later rotated_at row c ended,
    )
