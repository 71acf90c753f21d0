-- ===== src/Auth/Sessions.antt =====
-- The sessions of auth.service.ts: how a refresh token is issued, rotated and revoked, and how
-- jwt.strategy.ts admits an access token.
pub mod Issue
pub mod Refresh
pub mod Admission
unfoldable pub use Issue.*
unfoldable pub use Refresh.*
unfoldable pub use Admission.*
