-- ===== src/Audit/Outcomes.antt =====
-- What a run of the audit leaves on every path, and what a complete one stands on.
use valsec.Prelude.{
  ◌<◌, String, Bool, true, false, Option, none, some, List, [], ◌∷◌, Result, ok, err, ◌≡◌, refl,
  inl, inr, arith, Bool-cases,
}
use valsec.Schema.{VendorNeutralConfig}
use valsec.Compliance.Engine.{ComplianceReport}
use valsec.Compliance.Catalogues.{CatalogueError}
use valsec.Mission.Campaign.{
  ConfigStatus, awaiting_training, config_complete, config_failed, config_cancelled,
}
use valsec.Audit.{
  UnknownLine, Normalized, Store, Outcome, already_running, missing, audit_cancelled, audit_failed,
  needs_training, audit_complete, Services, is_cancelled, finish, after_evaluation, evaluate,
  train_or_evaluate, gate, persist_findings, after_parse, audit, audit_found, run_config_audit,
}

-- The results of the last complete audit are still those.
abbrev pub Kept : Store → Store → Type 0
Kept s s' =
    (s'.results ≡ s.results)
    × (s'.report ≡ s.report)
    × (s'.config.compliance_score ≡ s.config.compliance_score)
    × (s'.config.completed_at ≡ s.config.completed_at)

-- The row after a run, by its answer.
abbrev pub Ended : Store → Store × Outcome → Type 0
Ended s (s', already_running) = s' ≡ s
Ended s (s', missing) = true ≡ false
Ended s (s', audit_cancelled) = (s'.config.status ≡ config_cancelled) × Kept s s'
Ended s (s', audit_failed) = (s'.config.status ≡ config_failed) × Kept s s'
Ended s (s', needs_training n) = (0 < n) × (s'.config.status ≡ awaiting_training) × Kept s s'
Ended s (s', audit_complete score) =
    (s'.config.status ≡ config_complete) × (s'.config.compliance_score ≡ some score)

-- A row that was found stays.
abbrev pub EndedRow : Store → Option Store × Outcome → Type 0
EndedRow s (none, outcome) = true ≡ false
EndedRow s (some s', outcome) = Ended s (s', outcome)

module _ (services : Services) where
  finish-Ended :
      (s t : Store) (report : ComplianceReport) (pdf : Result String String)
      → Kept t s
      → Ended t (finish services s report pdf)
  unfolding finish
  finish-Ended s t report (err e) kept = (refl, kept)
  finish-Ended s t report (ok pdf) kept = (refl, refl)

  after_evaluation-Ended :
      (s t : Store) (answer : Result CatalogueError ComplianceReport)
      → Kept t s
      → Ended t (after_evaluation services s answer)
  unfolding after_evaluation
  after_evaluation-Ended s t (err e) kept = (refl, kept)
  after_evaluation-Ended s t (ok report) kept = finish-Ended s t report _ kept

  trained-Ended :
      (lines : List UnknownLine) (config : VendorNeutralConfig) (s t : Store)
      → Kept t s
      → Ended t (train_or_evaluate services lines config s)
  unfolding train_or_evaluate evaluate
  trained-Ended [] config s t kept = after_evaluation-Ended _ t _ kept
  trained-Ended (line ∷ lines) config s t kept = (omega arith, refl, kept)

  gate-Ended :
      (cancelled : Bool) (n : Normalized) (s t : Store)
      → Kept t s
      → Ended t (gate services cancelled n s)
  unfolding gate
  gate-Ended true n s t kept = (refl, kept)
  gate-Ended false n s t kept = trained-Ended n.unknown_lines n.config s t kept

  after_parse-Ended :
      (allow : Bool) (s t : Store) (answer : Result String Normalized)
      → Kept t s
      → Ended t (after_parse services allow s answer)
  unfolding after_parse persist_findings
  after_parse-Ended allow s t (err e) kept = (refl, kept)
  after_parse-Ended allow s t (ok n) kept = gate-Ended services.cancelled_meanwhile n _ t kept

  cancelled_status :
      (status : ConfigStatus) → is_cancelled status ≡ true → status ≡ config_cancelled
  cancelled_status config_cancelled e = refl
  cancelled_status _ e = cc

  audit_found-Ended : (allow : Bool) (s : Store) → Ended s (audit_found services allow s)
  unfolding audit_found audit
  audit_found-Ended allow s = elim (Bool-cases (is_cancelled s.config.status)) [
    | inl e ↦ rw e (cancelled_status s.config.status e, (refl, refl, refl, refl))
    | inr e ↦ rw e (after_parse-Ended allow _ s _ (refl, refl, refl, refl))
  ]

  -- Every run on a row that exists ends it as it answers: a duplicate changes nothing; a
  -- cancelled or failed one, and one that waits for training because of at least one unknown
  -- line, leaves that status and keeps the results, the report, the score and the completion time
  -- of the last complete audit; a complete one leaves the status complete and the score that it
  -- answers.
  pub run_config_audit-Ended :
      (allow locked : Bool) (s : Store)
      → EndedRow s (run_config_audit services allow locked (some s))
  unfolding run_config_audit
  run_config_audit-Ended allow true s = refl
  run_config_audit-Ended allow false s = audit_found-Ended allow s
