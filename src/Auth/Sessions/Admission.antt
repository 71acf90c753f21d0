-- ===== src/Auth/Sessions/Admission.antt =====
-- `logout` of auth.service.ts, and how jwt.strategy.ts admits an access token.
use hsk_3_0_app.Base.{
  ℕ, ◌==◌, Bool, false, ◌&&◌, ◌||◌, Option, none, some, List, String, ltb, leb, if◌then◌else◌, find,
}
use hsk_3_0_app.Auth.{
  User, UserSession, Db, Role, Answer, answered, refused, account_not_available, find_user,
  is_available, update_where,
}
use hsk_3_0_app.Auth.Sessions.Issue.{is_unrevoked, revoked_with, with_sessions}

-- `logout`
unfoldable pub logout : Db → (sid now : ℕ) → Db
logout db sid now = with_sessions db (
    update_where (λ (row : UserSession). row.id == sid && is_unrevoked row)
      (revoked_with (some "logout") now) db.sessions)

-- What `validate` answers, the `req.user` of later handlers.
pub record Identity : Type 0 where
  pub id : ℕ
  pub email : String
  pub role : Role
  pub sid : ℕ

-- The `where` of `validate`.
abbrev pub admits : List User → (sub sid now : ℕ) → UserSession → Bool
admits users sub sid now row =
    row.id == sid
    && row.user_id == sub
    && is_unrevoked row
    && ltb now row.expires_at
    && elim (find_user users row.user_id) [
      | none ↦ false
      | some account ↦ account.id == sub && is_available account
    ]

-- `validate`, for a payload whose `sid` is a number; `none` stands for any other.
unfoldable pub validate : Db → (sub : ℕ) (sid : Option ℕ) (now : ℕ) → Answer Identity
validate db sub none now = refused account_not_available
validate db sub (some sid) now =
    if leb sid 0 || ltb 2147483647 sid
    then refused account_not_available
    else elim (find (admits db.users sub sid now) db.sessions) [
      | none ↦ refused account_not_available
      | some session ↦ elim (find_user db.users session.user_id) [
        | none ↦ refused account_not_available
        | some row ↦
            answered (record { id = row.id; email = row.email; role = row.role; sid = sid })
      ]
    ]
