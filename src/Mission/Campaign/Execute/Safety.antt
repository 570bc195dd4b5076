-- ===== src/Mission/Campaign/Execute/Safety.antt =====
-- What a verified target of a campaign rests on, and what a second delivery of its task does.
use valsec.Prelude.{
  is_blank, if-elim, ℕ, String, Bool, true, false, Option, none, some, ◌≡◌, refl, ◌≢◌, ◌⊎◌, inl,
  inr, Result, ok, err, arith, Bool-cases, is_some,
}
use valsec.Errors.{
  PullFailure, PushFailure, push_auth, push_unreachable, pending_rollback, push_error, push_other,
}
use valsec.Remediation.Execution.{
  finish, ActionStatus, Action, PushResult, is_applied, applied, execute_approved_action,
}
use valsec.Mission.Types.{Credential}
use valsec.Mission.Campaign.{Config, config_queued, Target, target_failed, verified, is_success}
use valsec.Mission.Campaign.Execute.{
  newer_pass, Services, fail_target, Store, Outcome, is_executable, is_applying, recover_from,
  recover, ambiguous, verify_push, after_push, apply_with, apply_pinned, unless_compliant,
  execute_action, execute_campaign_target, verify_target,
}

status_applied : (status : ActionStatus) → is_applied status ≡ true → status ≡ applied
status_applied status h = ground arith

module _ (services : Services) where
  open services use {persist, audits}

  -- What a verified target stands on: `persist` took its snapshot, with no dispatch error.
  abbrev pub HasEvidence : Target → Type 0
  HasEvidence t =
      (a : Action) × (snapshot : String) × (id : ℕ) × (t.remediation_action ≡ some a)
      × (a.status ≡ applied)
      × (a.post_change_snapshot ≡ some snapshot)
      × (persist snapshot ≡ ok (id, false))
      × (t.verification_config ≡ some (record { id = id; status = config_queued }))

  abbrev Proven : Outcome → Type 0
  Proven o = o.0.target.status ≡ verified → HasEvidence o.0.target

  verify_target-Proven :
      (message snapshot : String) (answer : ℕ × Bool) (t : Target) (a : Action)
      → t.remediation_action ≡ some a
      → a.status ≡ applied
      → a.post_change_snapshot ≡ some snapshot
      → persist snapshot ≡ ok answer
      → (verify_target message answer t).status ≡ verified
      → HasEvidence (verify_target message answer t)
  verify_target-Proven message snapshot (id, true) t a named done shown stored h = cc
  verify_target-Proven message snapshot (id, false) t a named done shown stored h =
      (a, snapshot, id, named, done, shown, stored, refl)

  recover_from-Proven :
      (snapshot : String) (r : Result PullFailure (ℕ × Bool)) (s : Store) (a : Action)
      → s.target.remediation_action ≡ some a
      → a.status ≡ applied
      → a.post_change_snapshot ≡ some snapshot
      → persist snapshot ≡ r
      → s.target.status ≢ verified
      → Proven (recover_from services snapshot r s)
  unfolding recover_from
  recover_from-Proven snapshot (err e) s a named done shown stored open_ = λ h. absurd (open_ h)
  recover_from-Proven snapshot (ok answer) s a named done shown stored open_ =
      λ h. verify_target-Proven _ snapshot answer s.target a named done shown stored h

  recover-Proven :
      (snapshot : Option String) (s : Store) (a : Action)
      → s.target.remediation_action ≡ some a
      → a.status ≡ applied
      → a.post_change_snapshot ≡ snapshot
      → s.target.status ≢ verified
      → Proven (recover services snapshot s)
  unfolding recover
  recover-Proven none s a named done same open_ = λ h. cc
  recover-Proven (some snapshot) s a named done same open_ = elim (Bool-cases (is_blank snapshot)) [
    | inl blank ↦ rw blank (λ h. cc)
    | inr filled ↦
        rw filled (recover_from-Proven snapshot (persist snapshot) s a named done same refl open_)
  ]

  verify_push-Proven :
      (snapshot : String) (r : Result PullFailure (ℕ × Bool)) (s : Store) (a : Action)
      → s.target.remediation_action ≡ some a
      → a.status ≡ applied
      → a.post_change_snapshot ≡ some snapshot
      → persist snapshot ≡ r
      → s.target.status ≢ verified
      → Proven (verify_push services r s)
  unfolding verify_push
  verify_push-Proven snapshot (err e) s a named done shown stored open_ = λ h. absurd (open_ h)
  verify_push-Proven snapshot (ok answer) s a named done shown stored open_ =
      λ h. verify_target-Proven _ snapshot answer s.target a named done shown stored h

  after_finish-Proven :
      (now : ℕ) (r : Result PushFailure PushResult) (action : Action) (s : Store)
      → s.target.status ≢ verified
      → Proven (after_push services (finish now r action).0 (finish now r action).1 s)
  unfolding after_push
  after_finish-Proven now (ok result) action s open_ =
      verify_push-Proven result.post_change_snapshot (persist result.post_change_snapshot) _ _ refl
        refl refl refl open_
  after_finish-Proven now (err push_auth) action s open_ = λ h. cc
  after_finish-Proven now (err push_unreachable) action s open_ = λ h. cc
  after_finish-Proven now (err (pending_rollback e)) action s open_ = λ h. cc
  after_finish-Proven now (err (push_error e)) action s open_ = λ h. cc
  after_finish-Proven now (err (push_other e)) action s open_ = λ h. cc

  apply_with-Proven :
      (credential : Credential) (action : Action) (r : Result PullFailure String) (s : Store)
      → s.target.status ≢ verified
      → Proven (apply_with services credential action r s)
  unfolding apply_with execute_approved_action
  apply_with-Proven credential action (err e) s open_ = λ h. absurd (open_ h)
  apply_with-Proven credential action (ok plaintext) s open_ =
      after_finish-Proven services.now _ _ _ (λ h. cc)

  apply_pinned-Proven :
      (o : Option Credential) (action : Action) (s : Store)
      → s.target.status ≢ verified
      → Proven (apply_pinned services o action s)
  unfolding apply_pinned
  apply_pinned-Proven none action s open_ = λ h. cc
  apply_pinned-Proven (some credential) action s open_ =
      let message : String = "Device address no longer matches its authorized target" in
      let failing : Proven (fail_target services.now message s, none) = λ h. cc in
      if-elim Proven _ (apply_with-Proven credential action (services.retrieve credential) s open_)
        failing

  unless_compliant-Proven :
      (o : Option Config) (action : Action) (s : Store)
      → s.target.status ≢ verified
      → Proven (unless_compliant services o action s)
  unfolding unless_compliant
  unless_compliant-Proven none action s open_ = apply_pinned-Proven _ action s open_
  unless_compliant-Proven (some config) action s open_ = λ h. cc

  execute_action-Proven :
      (o : Option Action) (s : Store)
      → s.target.remediation_action ≡ o
      → s.target.status ≢ verified
      → Proven (execute_action services o s)
  unfolding execute_action ambiguous
  execute_action-Proven none s named open_ = λ h. cc
  execute_action-Proven (some action) s named open_ = elim (Bool-cases (is_applied action.status)) [
    | inl done ↦ rw done (
        recover-Proven action.post_change_snapshot s action named (status_applied _ done) refl
          open_)
    | inr fresh ↦ rw fresh (
        if-elim Proven (is_applying action.status) (λ h. cc)
          (unless_compliant-Proven (newer_pass s audits) action s open_))
  ]

  abbrev Settles : Store → Outcome → Type 0
  Settles s o =
      (o.0.sent ≡ s.sent)
      × (((is_some o.1 ≡ true) × (o.0 ≡ s))
          ⊎ ((o.0.target.completed_at ≡ some services.now)
              × ((o.0.target.status ≡ verified) ⊎ (o.0.target.status ≡ target_failed))))

  -- If a call of the task turns a target that was not verified into a verified one, the target's
  -- action is applied and has the snapshot after the change, that snapshot was persisted for an
  -- audit with no dispatch error, and the target names the configuration that it was persisted as.
  pub execute_campaign_target-verified :
      (s : Store)
      → s.target.status ≢ verified
      → (execute_campaign_target services s).0.target.status ≡ verified
      → HasEvidence (execute_campaign_target services s).0.target
  unfolding execute_campaign_target
  execute_campaign_target-verified s open_ =
      let still : Proven (s, none) = λ h. absurd (open_ h) in
      if-elim Proven (is_success s.target.status) still (
        if-elim Proven (is_executable s.campaign_status)
          (execute_action-Proven s.target.remediation_action s refl open_) still)
