-- ===== src/Audit/Complete.antt =====
-- What a complete audit stands on.
use valsec.Prelude.{
  ℕ, String, Bool, true, false, Option, none, some, List, [], ◌∷◌, map, Result, ok, err, ◌≡◌, refl,
  ap, ◌⊎◌, inl, inr, Bool-cases, All, if-eq,
}
use valsec.Schema.{VendorNeutralConfig}
use valsec.Compliance.Verdicts.{Verdict, fail, is_fail}
use valsec.Compliance.Engine.{ComplianceResult, ComplianceReport, evaluate_compliance}
use valsec.Compliance.Catalogues.{CatalogueError}
use valsec.Mission.Campaign.{normalising}
use valsec.Audit.{
  Config, ResultRow, UnknownLine, Normalized, Store, audit_complete, Services, normalizer_for,
  set_status, is_cancelled, result_row, remediation_for, result_rows, finish, after_evaluation,
  evaluate, train_or_evaluate, gate, persist_findings, after_parse, audit, audit_found,
  run_config_audit,
}

-- The columns of a result that a verdict is read from.
abbrev pub Judged : Type 0
Judged = String × String × Verdict

abbrev pub judged_row : ResultRow → Judged
judged_row row = (row.framework, row.control_id, row.verdict)

abbrev pub judged_result : ComplianceResult → Judged
judged_result r = (r.framework, r.control_id, r.verdict)

-- A remediation is stored for a failure only.
abbrev pub IsRemedied : ResultRow → Type 0
IsRemedied row = (row.verdict ≡ fail) ⊎ (row.remediation_cli ≡ none)

-- What a complete run stands on: a configuration without unknown lines, and the report of the
-- engine on it.
pub record Complete (services : Services) (s s' : Store) (score : ℕ) : Type 0 where
  pub normalized : Normalized
  pub report : ComplianceReport
  pub is_normalized :
      services.normalize (normalizer_for s.config.vendor) s.config.raw_config ≡ ok normalized
  pub is_known : normalized.unknown_lines ≡ []
  pub is_evaluated :
      evaluate_compliance services.float_text normalized.config s.config.selected_framework
        s.config.vendor
      ≡ ok report
  pub is_scored : score ≡ report.compliance_score
  pub is_stored : map judged_row s'.results ≡ map judged_result report.results
  pub is_remedied : All IsRemedied s'.results

module _ (services : Services) where
  result_rows-judged :
      (config : Config) (rs : List ComplianceResult)
      → map judged_row (result_rows services config rs) ≡ map judged_result rs
  unfolding result_rows
  result_rows-judged config [] = refl
  result_rows-judged config (r ∷ rs) =
      ap (λ rows. judged_result r ∷ rows) (result_rows-judged config rs)

  fail_verdict : (v : Verdict) → is_fail v ≡ true → v ≡ fail
  fail_verdict fail e = refl
  fail_verdict _ e = cc

  result_row-IsRemedied :
      (config : Config) (r : ComplianceResult)
      → IsRemedied (result_row r (remediation_for services config r))
  unfolding remediation_for
  result_row-IsRemedied config r = elim (Bool-cases (is_fail r.verdict)) [
    | inl e ↦ inl (fail_verdict r.verdict e)
    | inr e ↦ inr (rw e refl)
  ]

  result_rows-IsRemedied :
      (config : Config) (rs : List ComplianceResult)
      → All IsRemedied (result_rows services config rs)
  unfolding result_rows
  result_rows-IsRemedied config [] = tt
  result_rows-IsRemedied config (r ∷ rs) =
      (result_row-IsRemedied config r, result_rows-IsRemedied config rs)

  -- What the last steps store, by the report that they are given.
  abbrev Stored : ComplianceReport → Store → ℕ → Type 0
  Stored report s' score =
      (score ≡ report.compliance_score)
      × (map judged_row s'.results ≡ map judged_result report.results)
      × All IsRemedied s'.results

  finish-Stored :
      (s : Store) (report : ComplianceReport) (pdf : Result String String) {s' : Store} {score : ℕ}
      → finish services s report pdf ≡ (s', audit_complete score)
      → Stored report s' score
  unfolding finish
  finish-Stored s report (err e) done = cc (ap (λ run. run.1) done)
  finish-Stored s report (ok pdf) {s'} {score} done =
      let stored : result_rows services s.config report.results ≡ s'.results =
        ap (λ run. run.0.results) done in
      let answered : audit_complete report.compliance_score ≡ audit_complete score =
        ap (λ run. run.1) done in
      (
        cc (answered),
        rw (← stored) (result_rows-judged s.config report.results),
        rw (← stored) (result_rows-IsRemedied s.config report.results),
      )

  after_evaluation-Stored :
      (s : Store) (answer : Result CatalogueError ComplianceReport) {s' : Store} {score : ℕ}
      → after_evaluation services s answer ≡ (s', audit_complete score)
      → (report : ComplianceReport) × (answer ≡ ok report) × Stored report s' score
  unfolding after_evaluation
  after_evaluation-Stored s (err e) done = cc (ap (λ run. run.1) done)
  after_evaluation-Stored s (ok report) done = (report, refl, finish-Stored s report _ done)

  -- What the evaluation of a configuration answered and stored.
  abbrev Evaluated : VendorNeutralConfig → Store → Store → ℕ → Type 0
  Evaluated config s s' score =
      (report : ComplianceReport) × (evaluate_compliance services.float_text config
          s.config.selected_framework s.config.vendor
        ≡ ok report)
      × Stored report s' score

  train_or_evaluate-Evaluated :
      (lines : List UnknownLine) (config : VendorNeutralConfig) (s : Store) {s' : Store} {score : ℕ}
      → train_or_evaluate services lines config s ≡ (s', audit_complete score)
      → (lines ≡ []) × Evaluated config s s' score
  unfolding train_or_evaluate evaluate
  train_or_evaluate-Evaluated [] config s done = (refl, after_evaluation-Stored _ _ done)
  train_or_evaluate-Evaluated (line ∷ lines) config s done = cc (ap (λ run. run.1) done)

  gate-Evaluated :
      (cancelled : Bool) (n : Normalized) (s : Store) {s' : Store} {score : ℕ}
      → gate services cancelled n s ≡ (s', audit_complete score)
      → (n.unknown_lines ≡ []) × Evaluated n.config s s' score
  unfolding gate
  gate-Evaluated true n s done = cc (ap (λ run. run.1) done)
  gate-Evaluated false n s done = train_or_evaluate-Evaluated n.unknown_lines n.config s done

  after_parse-Evaluated :
      (allow : Bool) (s : Store) (answer : Result String Normalized) {s' : Store} {score : ℕ}
      → after_parse services allow s answer ≡ (s', audit_complete score)
      → (n : Normalized) × (answer ≡ ok n) × (n.unknown_lines ≡ []) × Evaluated n.config s s' score
  unfolding after_parse persist_findings
  after_parse-Evaluated allow s (err e) done = cc (ap (λ run. run.1) done)
  after_parse-Evaluated allow s (ok n) done =
      let (known, evaluated) = gate-Evaluated services.cancelled_meanwhile n _ done in
      (n, refl, known, evaluated)

  abbrev or_store : Store → Option Store → Store
  or_store s none = s
  or_store s (some t) = t

  found :
      (allow : Bool) (s : Store) {s' : Store} {score : ℕ}
      → run_config_audit services allow false (some s) ≡ (some s', audit_complete score)
      → audit_found services allow s ≡ (s', audit_complete score)
  unfolding run_config_audit
  found allow s {s'} {score} done =
      let stored : (audit_found services allow s).0 ≡ s' = ap (λ run. or_store s run.0) done in
      let answered : (audit_found services allow s).1 ≡ audit_complete score =
        ap (λ run. run.1) done in
      cc (stored, answered)

  -- If a run answers that the audit is complete, the parser of the vendor returned a
  -- configuration without unknown lines, the engine evaluated the selected framework on it, the
  -- score is that of the engine's report, the stored results have its frameworks, controls and
  -- verdicts in its order, and a remediation is stored for failures only.
  pub run_config_audit-Complete :
      (allow : Bool) (s : Store) {s' : Store} {score : ℕ}
      → run_config_audit services allow false (some s) ≡ (some s', audit_complete score)
      → Complete services s s' score
  unfolding audit_found audit
  run_config_audit-Complete allow s {s'} {score} done =
      elim (if-eq (is_cancelled s.config.status) (found allow s done)) [
        | inl (e, skipped) ↦ cc (ap (λ run. run.1) skipped)
        | inr (e, audited) ↦
            let (n, parsed, known, (report, evaluated, (scored, stored, remedied))) =
              after_parse-Evaluated allow (set_status normalising s) _ audited in
            record {
              normalized = n;
              report = report;
              is_normalized = parsed;
              is_known = known;
              is_evaluated = evaluated;
              is_scored = scored;
              is_stored = stored;
              is_remedied = remedied;
            }
      ]
