-- ===== src/Errors.antt =====
-- The exceptions that cross component boundaries: FastAPI's `HTTPException`, and those of the
-- connectors (backend/connectors/ssh_pull.py, ssh_push.py, target_guard.py).
use valsec.Prelude.{ℕ, String}

pub record HttpException : Type 0 where
  pub status_code : ℕ
  pub detail : String

abbrev pub http : ℕ → String → HttpException
http code detail = record { status_code = code; detail = detail }

-- `UnsafeTargetError` and `TargetResolutionError`.
pub data TargetError : Type 0 where
  unsafe_target unresolved_target : String → TargetError

-- What an SSH push raises: `DeviceAuthError`, `DeviceUnreachableError`,
-- `ConfirmedCommitPendingRollbackError`, any other `PushError`, and anything else.
pub data PushFailure : Type 0 where
  push_auth push_unreachable : PushFailure
  pending_rollback push_error : String → PushFailure
  push_other : String → PushFailure

-- What a configuration pull or a discovery raises; the last stands for an exception that no
-- caller names.
pub data PullFailure : Type 0 where
  pull_auth pull_unreachable : PullFailure
  pull_target : TargetError → PullFailure
  pull_http : HttpException → PullFailure
  pull_other : String → PullFailure
