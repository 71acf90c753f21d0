-- ===== src/Auth/Login.antt =====
-- Registration and sign-in of auth.service.ts. The statements of one call read the same time, and the
-- rows that a call has found are not changed by others before it ends.
pub mod Accounts
pub mod Attempts
pub mod SignIn
unfoldable pub use Accounts.*
unfoldable pub use Attempts.*
unfoldable pub use SignIn.*
