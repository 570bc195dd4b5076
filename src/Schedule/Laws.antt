-- ===== src/Schedule/Laws.antt =====
-- What the recurring audits keep.
use valsec.Prelude.{
  leb, not, is_some, map, keep, ◌&&◌, ℕ, ◌+◌, ◌≤◌, ◌<◌, String, Bool, true, false, List, [], ◌∷◌,
  ◌≡◌, refl, ◌⊎◌, inl, inr, Result, ok, err, arith, Bool-cases, All, if-elim,
}
use valsec.Errors.{PullFailure, pull_auth, pull_unreachable, pull_target, pull_http, pull_other}
use valsec.Schedule.{
  Settings, AuditSchedule, Outcome, returned, retried, raised, failure, countdown, after_pull,
  run_scheduled_audit, is_due, dispatched, poll_rows, poll_due_schedules, unreachable_failure,
}

module _ (settings : Settings) where
  open settings use {vault_enabled, failure_threshold, retry_backoff_seconds}

  -- A schedule that has failed too often in a row is disabled.
  abbrev pub IsQuarantined : AuditSchedule → Type 0
  IsQuarantined s = (s.enabled ≡ false) ⊎ (s.consecutive_failures < failure_threshold)

  failure-IsQuarantined :
      (now : ℕ) (reason : String) (s : AuditSchedule)
      → IsQuarantined (failure settings now reason s).0
  unfolding failure
  failure-IsQuarantined now reason s = ground arith

  -- A retry is asked for only of a schedule that is still enabled, after an hour at most.
  abbrev pub RetryOk : AuditSchedule × Outcome → Type 0
  RetryOk (s, returned status) = Unit
  RetryOk (s, raised e) = Unit
  RetryOk (s, retried seconds) = (seconds ≤ 3600) × (s.consecutive_failures < failure_threshold)

  countdown-le : (now retries : ℕ) → countdown settings now retries ≤ 3600
  unfolding countdown
  countdown-le now retries = omega arith

  unreachable-RetryOk :
      (now retries : ℕ) (s : AuditSchedule)
      → RetryOk
          (unreachable_failure settings now retries (failure settings now "device_unreachable" s))
  unfolding failure
  unreachable-RetryOk now retries s =
      elim (Bool-cases (leb failure_threshold (s.consecutive_failures + 1))) [
        | inl spent ↦ rw spent tt
        | inr left ↦ rw left (countdown-le now retries, ground arith)
      ]

  unreachable-IsQuarantined :
      (now retries : ℕ) (p : AuditSchedule × Bool)
      → IsQuarantined p.0
      → IsQuarantined (unreachable_failure settings now retries p).0
  unreachable-IsQuarantined now retries (s, true) h = h
  unreachable-IsQuarantined now retries (s, false) h = h

  after_pull-IsQuarantined :
      (now retries : ℕ) (pulled : Result PullFailure Bool) (s : AuditSchedule)
      → 0 < failure_threshold
      → IsQuarantined s
      → IsQuarantined (after_pull settings now retries pulled s).0
        × RetryOk (after_pull settings now retries pulled s)
  unfolding after_pull
  after_pull-IsQuarantined now retries (ok true) s pos h = (failure-IsQuarantined now _ s, tt)
  after_pull-IsQuarantined now retries (ok false) s pos h = (inr pos, tt)
  after_pull-IsQuarantined now retries (err pull_auth) s pos h = (failure-IsQuarantined now _ s, tt)
  after_pull-IsQuarantined now retries (err pull_unreachable) s pos h = (
    unreachable-IsQuarantined now retries _ (failure-IsQuarantined now _ s),
    unreachable-RetryOk now retries s,
  )
  after_pull-IsQuarantined now retries (err (pull_http e)) s pos h =
      (failure-IsQuarantined now _ s, tt)
  after_pull-IsQuarantined now retries (err (pull_target e)) s pos h =
      (failure-IsQuarantined now _ s, tt)
  after_pull-IsQuarantined now retries (err (pull_other e)) s pos h = (h, tt)

  -- With a positive threshold, every run of a schedule that is disabled or below the threshold of
  -- consecutive failures leaves it so, whatever the pull does, and asks for a retry only of a
  -- schedule that stays below the threshold, after at most 3600 seconds.
  pub run_scheduled_audit-IsQuarantined :
      (now retries : ℕ) (pulled : Result PullFailure Bool) (s : AuditSchedule)
      → 0 < failure_threshold
      → IsQuarantined s
      → IsQuarantined (run_scheduled_audit settings now retries pulled s).0
        × RetryOk (run_scheduled_audit settings now retries pulled s)
  unfolding run_scheduled_audit
  run_scheduled_audit-IsQuarantined now retries pulled s pos h =
      let Kept : AuditSchedule × Outcome → Type 0 = λ r. IsQuarantined r.0 × RetryOk r in
      if-elim Kept (not vault_enabled) (h, tt)
        (if-elim Kept (not s.enabled) (h, tt)
          (if-elim Kept (not (is_some s.credential_id)) (inl refl, tt)
            (after_pull-IsQuarantined now retries pulled s pos h)))

  dispatched_done :
      (now : ℕ) (s : AuditSchedule)
      → 0 < s.interval_minutes
      → is_due settings now (dispatched settings now true s) ≡ false
  dispatched_done now s pos = ground (arith, pos)

  poll_rows_twice :
      (now : ℕ) (takes : AuditSchedule → Bool) (ss : List AuditSchedule)
      → ((s : AuditSchedule) → takes s ≡ true)
      → All (λ s. 0 < s.interval_minutes) ss
      → (poll_rows settings now takes (poll_rows settings now takes ss).0).1 ≡ []
  unfolding poll_rows
  poll_rows_twice now takes [] all_ pos = refl
  poll_rows_twice now takes (s ∷ ss) all_ (pos, rest) = elim (Bool-cases (is_due settings now s)) [
    | inl due ↦ rw (due, all_ s, dispatched_done now s pos) (poll_rows_twice now takes ss all_ rest)
    | inr early ↦ rw (early, early) (poll_rows_twice now takes ss all_ rest)
  ]

  -- The ids of the rows that are enabled, have a credential and have come due, in their order.
  abbrev pub due_ids : ℕ → List AuditSchedule → List ℕ
  due_ids now ss =
      map (λ (s : AuditSchedule). s.id)
        (keep (λ s. s.enabled && (is_some s.credential_id && leb s.next_run_at now)) ss)

  poll_rows-queued :
      (now : ℕ) (takes : AuditSchedule → Bool) (ss : List AuditSchedule)
      → ((s : AuditSchedule) → takes s ≡ true)
      → (poll_rows settings now takes ss).1 ≡ due_ids now ss
  unfolding poll_rows
  poll_rows-queued now takes [] all_ = refl
  poll_rows-queued now takes (s ∷ ss) all_ =
      ground (arith, all_ s, poll_rows-queued now takes ss all_)

  -- Let the vault be enabled, the queue take every task, and every interval be at least a minute.
  -- Then a poll queues one task for each schedule that is enabled, has a credential and has come
  -- due, in the order of the rows, and no other task; and a second poll at the same time queues
  -- nothing.
  pub poll_due_schedules_twice :
      (now : ℕ) (takes : AuditSchedule → Bool) (ss : List AuditSchedule)
      → vault_enabled ≡ true
      → ((s : AuditSchedule) → takes s ≡ true)
      → All (λ s. 0 < s.interval_minutes) ss
      → ((poll_due_schedules settings now takes ss).1 ≡ due_ids now ss)
        × ((poll_due_schedules settings now takes (poll_due_schedules settings now takes ss).0).1
            ≡ [])
  unfolding poll_due_schedules
  poll_due_schedules_twice now takes ss on all_ pos =
      simp on (poll_rows-queued now takes ss all_, poll_rows_twice now takes ss all_ pos)
