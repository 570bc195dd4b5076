-- ===== src/Mission/Campaign/Execute/Calls.antt =====
-- When `execute_campaign_target` (backend/tasks/network_missions.py) calls the connector, and with
-- what.
use valsec.Prelude.{
  if-eq, eq_iff, ◌<◌, ℕ, String, true, false, Option, none, some, List, [], ◌∷◌, ◌++◌, ◌≡◌, refl,
  All, ◌⊎◌, inl, inr, Result, ok, err, arith, Bool-cases,
}
use valsec.Errors.{PullFailure, PushFailure}
use valsec.Compliance.Verdicts.{pass}
use valsec.Remediation.Execution.{
  finish, start_applying, Action, PushResult, is_applied, execute_approved_action,
}
use valsec.Mission.Types.{Credential, credential_for_device}
use valsec.Mission.Campaign.{Config, config_complete, target_applying, executing, is_success}
use valsec.Mission.Campaign.Execute.{
  AuditRow, is_later, is_newer_pass, newer_pass, Services, Store, Outcome, is_executable,
  is_applying, pinned_by, same_address, or_blank, recover_from, recover, ambiguous, verify_push,
  after_push, apply_with, apply_pinned, unless_compliant, execute_action, execute_campaign_target,
}

-- A row is of a completed audit of the target's device, later than the finding's, in which the
-- campaign's control passes.
abbrev pub Passes : Store → AuditRow → Type 0
Passes s row =
    (row.device_id ≡ s.target.device.id)
    × (row.config_status ≡ config_complete)
    × ((then_ : ℕ) × (later_ : ℕ) × (s.finding_completed_at ≡ some then_)
        × (row.completed_at ≡ some later_)
        × (then_ < later_))
    × (row.framework ≡ s.framework)
    × (row.control_id ≡ s.control_id)
    × (row.verdict ≡ pass)

is_later_lem : (a b : Option ℕ) (m n : ℕ) → b ≡ some m → a ≡ some n → m < n → is_later a b ≡ true
is_later_lem a b m n p q h = rw (p, q) (ground arith)

Passes-is_newer_pass : (s : Store) (row : AuditRow) → Passes s row → is_newer_pass s row ≡ true
unfolding is_newer_pass
Passes-is_newer_pass s row (on, done, (m, n, p, q, h), framework, control, verdict) = ground (
  arith,
  on,
  done,
  verdict,
  is_later_lem row.completed_at s.finding_completed_at m n p q h,
  eq_iff row.framework s.framework,
  eq_iff row.control_id s.control_id,
)

newer_pass-none :
    (s : Store) (rows : List AuditRow) → newer_pass s rows ≡ none → All (λ row. ¬ Passes s row) rows
unfolding newer_pass
newer_pass-none s [] e = tt
newer_pass-none s (row ∷ rows) e = elim (if-eq (is_newer_pass s row) e) [
  | inl (newer, found) ↦ cc
  | inr (older, rest) ↦
      (λ passes. cc (older, Passes-is_newer_pass s row passes), newer_pass-none s rows rest)
]

module _ (services : Services) where
  open services use {guard, credentials, retrieve, persist, audits}

  -- The services with another connector.
  abbrev pub with_push :
      (Option String → String → String → Result PushFailure PushResult) → Services
  with_push push = record services { push = push }

  -- What the guard, the vault and the audits allow a call with.
  abbrev pub IsCleared : Credential → String → Store → Type 0
  IsCleared credential plaintext s =
      All (λ row. ¬ Passes s row) audits
      × (credential_for_device credentials s.target.device.id true ≡ some credential)
      × (retrieve credential ≡ ok plaintext)
      × (same_address (pinned_by (guard (or_blank s.target.device.management_address)))
            s.target.device.management_address
          ≡ true)

  -- The store when the connector is called at the device's address with the action's text.
  abbrev pub calling : Credential → Action → Store → Store
  calling credential action s = record s {
    target = record s.target { status = target_applying; started_at = some services.now };
    campaign_status = executing;
    accesses =
        s.accesses
        ++ record { credential_id = credential.id; purpose = "network_mission_remediation" } ∷ [];
    sent =
        s.sent
        ++ record { host = s.target.device.management_address; text = action.remediation_text }
          ∷ [];
  }

  -- What the handlers make of the connector's answer at the device's address to the action's text.
  abbrev pub answered : Credential → String → Action → Store → Outcome
  answered credential plaintext action s =
      let (action', result) =
        finish services.now
          (services.push s.target.device.management_address plaintext action.remediation_text)
          (start_applying action) in
      after_push services action' result (calling credential action s)

  module _ (push : Option String → String → String → Result PushFailure PushResult) where
    -- No call is logged, and any other connector gives the same outcome.
    abbrev pub Silent : Store → Outcome → Outcome → Type 0
    Silent s o other = (o.0.sent ≡ s.sent) × (other ≡ o)

    after_push-with_push :
        (action : Action) (r : Result PushFailure PushResult) (s : Store)
        → after_push (with_push push) action r s ≡ after_push services action r s
    unfolding after_push verify_push
    after_push-with_push action r s = ground arith

    recover-Silent :
        (snapshot : Option String) (s : Store)
        → Silent s (recover services snapshot s) (recover (with_push push) snapshot s)
    unfolding recover recover_from
    recover-Silent none s = (refl, refl)
    recover-Silent (some snapshot) s = (ground arith, ground arith)

    abbrev Called : Action → Store → Outcome → Type 0
    Called action s o =
        (credential : Credential) × (plaintext : String) × IsCleared credential plaintext s
        × (o ≡ answered credential plaintext action s)

    abbrev pub SilentOr : Type 0 → Store → Outcome → Outcome → Type 0
    SilentOr P s o other = Silent s o other ⊎ P

    apply_with-sent :
        (credential : Credential) (action : Action) (r : Result PullFailure String) (s : Store)
        → retrieve credential ≡ r
        → SilentOr
            ((plaintext : String) × (retrieve credential ≡ ok plaintext)
              × (apply_with services credential action r s
                  ≡ answered credential plaintext action s))
            s
            (apply_with services credential action r s)
            (apply_with (with_push push) credential action r s)
    unfolding apply_with execute_approved_action
    apply_with-sent credential action (err e) s stored = inl (refl, refl)
    apply_with-sent credential action (ok plaintext) s stored = inr (plaintext, stored, refl)

    apply_pinned-sent :
        (o : Option Credential) (action : Action) (s : Store)
        → credential_for_device credentials s.target.device.id true ≡ o
        → All (λ row. ¬ Passes s row) audits
        → SilentOr
            (Called action s (apply_pinned services o action s))
            s
            (apply_pinned services o action s)
            (apply_pinned (with_push push) o action s)
    unfolding apply_pinned
    apply_pinned-sent none action s chosen stale = inl (refl, refl)
    apply_pinned-sent (some credential) action s chosen stale =
        elim (Bool-cases (
          same_address (pinned_by (guard (or_blank s.target.device.management_address)))
            s.target.device.management_address)) [
              | inr moved ↦ rw moved (inl (refl, refl))
              | inl pinned ↦
                  rw pinned (elim (apply_with-sent credential action (retrieve credential) s refl) [
                    | inl silent ↦ inl silent
                    | inr (plaintext, stored, at) ↦
                        inr (credential, plaintext, (stale, chosen, stored, refl), at)
                  ])
            ]

    unless_compliant-sent :
        (o : Option Config) (action : Action) (s : Store)
        → newer_pass s audits ≡ o
        → SilentOr
            (Called action s (unless_compliant services o action s))
            s
            (unless_compliant services o action s)
            (unless_compliant (with_push push) o action s)
    unfolding unless_compliant
    unless_compliant-sent (some config) action s newest = inl (refl, refl)
    unless_compliant-sent none action s newest =
        apply_pinned-sent (credential_for_device credentials s.target.device.id true) action s refl
          (newer_pass-none s audits newest)

    abbrev CalledFor : Option Action → Store → Outcome → Type 0
    CalledFor o s outcome =
        (action : Action) × (o ≡ some action)
        × (is_applied action.status ≡ false)
        × (is_applying action.status ≡ false)
        × Called action s outcome

    execute_action-sent :
        (o : Option Action) (s : Store)
        → SilentOr
            (CalledFor o s (execute_action services o s))
            s
            (execute_action services o s)
            (execute_action (with_push push) o s)
    unfolding execute_action ambiguous
    execute_action-sent none s = inl (refl, refl)
    execute_action-sent (some action) s = elim (Bool-cases (is_applied action.status)) [
      | inl done ↦ rw done (inl (recover-Silent action.post_change_snapshot s))
      | inr fresh ↦ elim (Bool-cases (is_applying action.status)) [
        | inl open_ ↦ rw (fresh, open_) (inl (refl, refl))
        | inr idle ↦
            rw (fresh, idle)
              (elim (unless_compliant-sent (newer_pass s audits) action s refl) [
                | inl silent ↦ inl silent
                | inr called ↦ inr (action, refl, fresh, idle, called)
              ])
      ]
    ]

    -- A call of the task logs no call of the connector, and does not depend on what the connector
    -- would answer; or its outcome is what the handlers make of the answer of the connector that
    -- is called once, at the device's own address, with the plaintext of the device's stored SSH
    -- credential and the approved text. Then the campaign was approved or executing, the target
    -- not yet verified or compliant, its action neither applied nor applying, no completed audit
    -- of the device later than the finding's passes the control, and the address is the one that
    -- the target guard pins (or absent where the guard refuses the empty address).
    pub execute_campaign_target-sent :
        (s : Store)
        → let o = execute_campaign_target services s in
          ((o.0.sent ≡ s.sent) × (execute_campaign_target (with_push push) s ≡ o))
          ⊎ ((action : Action) × (credential : Credential) × (plaintext : String)
              × (s.target.remediation_action ≡ some action)
              × (is_applied action.status ≡ false)
              × (is_applying action.status ≡ false)
              × IsCleared credential plaintext s
              × (is_executable s.campaign_status ≡ true)
              × (is_success s.target.status ≡ false)
              × (o ≡ answered credential plaintext action s))
    unfolding execute_campaign_target
    execute_campaign_target-sent s = elim (Bool-cases (is_success s.target.status)) [
      | inl done ↦ rw done (inl (refl, refl))
      | inr waiting ↦ elim (Bool-cases (is_executable s.campaign_status)) [
        | inr closed ↦ rw (waiting, closed) (inl (refl, refl))
        | inl open_ ↦
            rw (waiting, open_)
              (elim (execute_action-sent s.target.remediation_action s) [
                | inl silent ↦ inl silent
                | inr (action, named, fresh, idle, (credential, plaintext, cleared, at)) ↦
                    inr (action, credential, plaintext, named, fresh, idle, cleared, refl, refl, at)
              ])
      ]
    ]
