-- ===== src/Activity/Inversion.antt =====
-- What a successful write of lesson-activity.service.ts has passed, operation by operation.
pub mod Starts
pub mod Completes
pub mod Submits
use hsk_3_0_app.Base.{◌≡◌, Option, String}
use hsk_3_0_app.Activity.{ok}
use hsk_3_0_app.Activity.Faults.{parse_idempotency_key}

-- A request has one key at most.
pub key_unique :
    {a b : String} (raw : Option String)
    → parse_idempotency_key raw ≡ ok a
    → parse_idempotency_key raw ≡ ok b
    → a ≡ b
key_unique raw h k = cc
