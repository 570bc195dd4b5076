-- ===== src/Schedule.antt =====
-- The recurring audits (backend/tasks/scheduled_audits.py). Times are numbers of minutes; the
-- settings are parameters. What the pull does is `pull_with_stored_credential`'s result, here the
-- dispatch errors or what it raised. The order of the dispatch is that of the rows.
pub mod Laws
pub mod Tests
use valsec.Prelude.{
  ℕ, suc, ◌+◌, ◌*◌, ◌^◌, min, String, Bool, true, false, not, ◌&&◌, ◌||◌, Option, none, some, List,
  [], ◌∷◌, ◌++◌, leb, is_some, concat, if◌then◌else◌, Result, ok, err,
}
use valsec.Errors.{PullFailure, pull_auth, pull_unreachable, pull_target, pull_http, pull_other}

pub record Settings : Type 0 where
  pub vault_enabled : Bool
  pub failure_threshold : ℕ
  pub retry_backoff_seconds : ℕ

pub record AuditSchedule : Type 0 where
  pub id : ℕ
  pub credential_id : Option ℕ
  pub interval_minutes : ℕ
  pub enabled : Bool
  pub next_run_at : ℕ
  pub last_run_at : Option ℕ
  pub last_run_status : String
  pub consecutive_failures : ℕ

-- A return with a status, a retry after some seconds, or an exception that no handler names.
pub data Outcome : Type 0 where
  returned : String → Outcome
  retried : ℕ → Outcome
  raised : PullFailure → Outcome

module _ (settings : Settings) (now : ℕ) where
  open settings use {vault_enabled, failure_threshold, retry_backoff_seconds}

  -- `_failure`: the row, and whether it was quarantined.
  unfoldable pub failure : String → AuditSchedule → AuditSchedule × Bool
  failure reason s =
      let count = s.consecutive_failures + 1 in
      let failed = record s { last_run_at = some now; consecutive_failures = count } in
      if leb failure_threshold count
      then (
        record failed {
          enabled = false;
          last_run_status = concat ("auto_disabled:" ∷ reason ∷ []);
        },
        true,
      )
      else (record failed { last_run_status = reason }, false)

  abbrev pub returning : AuditSchedule × Bool → AuditSchedule × Outcome
  returning (s, _) = (s, returned s.last_run_status)

  -- `min(backoff * 2 ** retries, 3600)`
  unfoldable pub countdown : ℕ → ℕ
  countdown retries = min (retry_backoff_seconds * 2 ^ retries) 3600

  abbrev pub unreachable_failure : ℕ → AuditSchedule × Bool → AuditSchedule × Outcome
  unreachable_failure retries (s, true) = (s, returned s.last_run_status)
  unreachable_failure retries (s, false) = (s, retried (countdown retries))

  -- The handlers, and the end of the task. A successful pull says if its dispatch had errors.
  unfoldable pub after_pull : ℕ → Result PullFailure Bool → AuditSchedule → AuditSchedule × Outcome
  after_pull retries (ok true) s = returning (failure "audit_dispatch_failed" s)
  after_pull retries (ok false) s = (
    record s { last_run_at = some now; last_run_status = "success"; consecutive_failures = 0 },
    returned "success",
  )
  after_pull retries (err pull_auth) s = returning (failure "authentication_failed" s)
  after_pull retries (err pull_unreachable) s =
      unreachable_failure retries (failure "device_unreachable" s)
  after_pull retries (err (pull_http e)) s = returning (failure "credential_unavailable" s)
  after_pull retries (err (pull_target e)) s = returning (failure "target_validation_failed" s)
  after_pull retries (err (pull_other e)) s = (s, raised (pull_other e))

  -- The task on a schedule that was found, with the number of retries so far.
  unfoldable pub run_scheduled_audit :
      ℕ → Result PullFailure Bool → AuditSchedule → AuditSchedule × Outcome
  run_scheduled_audit retries pulled s =
      if not vault_enabled
      then (s, returned "vault_disabled")
      else if not s.enabled
      then (s, returned "disabled")
      else if not (is_some s.credential_id)
      then (
        record s { enabled = false; last_run_status = "awaiting_credential" },
        returned "awaiting_credential",
      )
      else after_pull retries pulled s

  abbrev pub is_due : AuditSchedule → Bool
  is_due s = s.enabled && (is_some s.credential_id && leb s.next_run_at now)

  abbrev pub dispatched : Bool → AuditSchedule → AuditSchedule
  dispatched true s = record s {
    next_run_at = now + s.interval_minutes;
    last_run_status = "queued";
  }
  dispatched false s = record s { last_run_status = "dispatch_failed" }

  abbrev pub queued : Bool → AuditSchedule → List ℕ
  queued true s = s.id ∷ []
  queued false s = []

  -- The loop over the due schedules: the rows, and the ids that were queued.
  unfoldable pub poll_rows :
      (AuditSchedule → Bool) → List AuditSchedule → List AuditSchedule × List ℕ
  poll_rows takes [] = ([], [])
  poll_rows takes (s ∷ ss) =
      let rest = poll_rows takes ss in
      if is_due s
      then (dispatched (takes s) s ∷ rest.0, queued (takes s) s ++ rest.1)
      else (s ∷ rest.0, rest.1)

  unfoldable pub poll_due_schedules :
      (AuditSchedule → Bool) → List AuditSchedule → List AuditSchedule × List ℕ
  poll_due_schedules takes ss = if vault_enabled then poll_rows takes ss else (ss, [])
