-- ===== src/Bridge/Errors.antt =====
-- automation-bridge/src/core/errors.ts. A `BridgeError` is modelled by its code: messages, details
-- and headers are left out. `foreign` stands for any other exception.
use wordpress.Common.{ℕ, Result}

pub data ErrorCode : Type 0 where
  validation_failed path_invalid path_outside_root path_symlink_escape : ErrorCode
  operation_not_allowed idempotency_key_required : ErrorCode
  auth_missing auth_invalid auth_expired auth_replay auth_revoked auth_scope : ErrorCode
  not_found conflict_revision idempotency_mismatch locked payload_too_large : ErrorCode
  capability_unsupported unregistered_block rate_limited internal : ErrorCode
  upstream_failed deploy_failed verify_failed : ErrorCode

unfoldable pub error_status : ErrorCode → ℕ
error_status validation_failed = 400
error_status path_invalid = 400
error_status path_outside_root = 400
error_status path_symlink_escape = 400
error_status operation_not_allowed = 400
error_status idempotency_key_required = 400
error_status auth_missing = 401
error_status auth_invalid = 401
error_status auth_expired = 401
error_status auth_replay = 401
error_status auth_revoked = 401
error_status auth_scope = 403
error_status not_found = 404
error_status conflict_revision = 409
error_status idempotency_mismatch = 409
error_status locked = 409
error_status payload_too_large = 413
error_status capability_unsupported = 422
error_status unregistered_block = 422
error_status rate_limited = 429
error_status internal = 500
error_status upstream_failed = 502
error_status deploy_failed = 502
error_status verify_failed = 502

pub data Thrown : Type 0 where
  bridge : ErrorCode → Thrown
  foreign : Thrown

-- The result of a function that may throw.
abbrev pub Try : Type 0 → Type 0
Try A = Result Thrown A
