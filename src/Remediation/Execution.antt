-- ===== src/Remediation/Execution.antt =====
-- The approval and the execution of one remediation (backend/remediation/execution.py).
pub mod Lifecycle
use valsec.Prelude.{
  ℕ, String, Bool, true, false, not, ◌||◌, Option, none, some, ◌is◌, is_blank, strip, if◌then◌else◌,
  Result, ok, err, ◌>>=◌, ◌>>◌, raise_if,
}
use valsec.Errors.{HttpException, http, PushFailure}
use valsec.Remediation.Risk.{classify_risk}

-- `RemediationActionStatus`
pub data ActionStatus : Type 0 where
  proposed approved applying applied failed : ActionStatus

-- The columns of `RemediationAction` that the code here reads or writes.
pub record Action : Type 0 where
  pub status : ActionStatus
  pub remediation_text : String
  pub risky : Bool
  pub failure_message : Option String
  pub pre_change_snapshot : Option String
  pub post_change_snapshot : Option String
  pub diff_summary : Option String
  pub applied_at : Option ℕ

-- A finding with the row of `remediation_actions` that names it, if there is one.
pub record Finding : Type 0 where
  pub remediation_cli : Option String
  pub action : Option Action

pub record PushResult : Type 0 where
  pub pre_change_snapshot : String
  pub post_change_snapshot : String
  pub diff_summary : String

abbrev pub is_applied : ActionStatus → Bool
is_applied applied = true
is_applied _ = false

abbrev pub new_action : String → Bool → Action
new_action text risky = record {
  status = approved;
  remediation_text = text;
  risky = risky;
  failure_message = none;
  pre_change_snapshot = none;
  post_change_snapshot = none;
  diff_summary = none;
  applied_at = none;
}

-- The branches on an existing row.
unfoldable pub approve_row : String → String → Option Action → Result HttpException Action
approve_row vendor cli none = ok (new_action cli (classify_risk vendor cli))
approve_row vendor cli (some action) =
    if not (action.remediation_text is cli)
    then err (http 409 "Approved remediation is immutable and differs from the current finding")
    else if not (is_applied action.status)
    then ok (record action { status = approved; failure_message = none })
    else ok action

unfoldable pub approve_text : String → Option String → Option Action → Result HttpException Action
unfolding approve_row
approve_text vendor none action = err (http 409 "Finding has no remediation text to approve")
approve_text vendor (some cli) action =
    if is_blank cli || is_blank (strip cli)
    then err (http 409 "Finding has no remediation text to approve")
    else approve_row vendor cli action

unfoldable pub approve_finding_action : String → Finding → Result HttpException Action
unfolding approve_text
approve_finding_action vendor finding = approve_text vendor finding.remediation_cli finding.action

-- What is committed before the connector runs.
abbrev pub start_applying : Action → Action
start_applying action = record action { status = applying; failure_message = none }

abbrev pub record_evidence : ℕ → PushResult → Action → Action
record_evidence now result action = record action {
  status = applied;
  pre_change_snapshot = some result.pre_change_snapshot;
  post_change_snapshot = some result.post_change_snapshot;
  diff_summary = some result.diff_summary;
  applied_at = some now;
}

abbrev pub finish :
    ℕ → Result PushFailure PushResult → Action → Action × Result PushFailure PushResult
finish now (ok result) action = (record_evidence now result action, ok result)
finish now (err e) action = (action, err e)

-- The row after the call, and what the call returns or raises. The connector is given the text.
unfoldable pub execute_approved_action :
    (String → Result PushFailure PushResult) → ℕ → Action → Action × Result PushFailure PushResult
execute_approved_action connector now action =
    finish now (connector action.remediation_text) (start_applying action)

-- `message[:500]` is `truncate message`.
unfoldable pub mark_action_failed : (String → String) → String → Action → Action
mark_action_failed truncate message action = record action {
  status = failed;
  failure_message = some (truncate message);
}
