-- ===== src/Schedule/Tests.antt =====
-- Runs of one schedule.
use valsec.Prelude.{Bool, true, none, some, [], ◌∷◌, ◌≡◌, refl, Result, err, arith, inr}
use valsec.Errors.{PullFailure, pull_unreachable}
use valsec.Schedule.{Settings, AuditSchedule, run_scheduled_audit, poll_due_schedules}
use valsec.Schedule.Laws.{
  IsQuarantined, RetryOk, run_scheduled_audit-IsQuarantined, poll_due_schedules_twice,
}

abbrev settings : Settings
settings = record { vault_enabled = true; failure_threshold = 3; retry_backoff_seconds = 60 }

abbrev schedule : AuditSchedule
schedule = record {
  id = 1;
  credential_id = some 4;
  interval_minutes = 30;
  enabled = true;
  next_run_at = 100;
  last_run_at = none;
  last_run_status = "queued";
  consecutive_failures = 2;
}

abbrev pulled : Result PullFailure Bool
pulled = err pull_unreachable

run_scheduled_audit-IsQuarantined_example :
    IsQuarantined settings (run_scheduled_audit settings 105 2 pulled schedule).0
    × RetryOk settings (run_scheduled_audit settings 105 2 pulled schedule)
run_scheduled_audit-IsQuarantined_example =
    run_scheduled_audit-IsQuarantined settings 105 2 pulled schedule (omega arith)
      (inr (omega arith))

abbrev takes : AuditSchedule → Bool
takes s = true

poll_due_schedules_twice_example :
    ((poll_due_schedules settings 105 takes (schedule ∷ [])).1 ≡ 1 ∷ [])
    × ((poll_due_schedules settings 105 takes
          (poll_due_schedules settings 105 takes (schedule ∷ [])).0).1
        ≡ [])
poll_due_schedules_twice_example =
    poll_due_schedules_twice settings 105 takes (schedule ∷ []) refl (λ s. refl) (omega arith, tt)
