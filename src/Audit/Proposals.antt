-- ===== src/Audit/Proposals.antt =====
-- What the proposals of the local model can change in an audit.
use valsec.Prelude.{
  ℕ, String, Bool, true, false, Option, none, some, List, [], ◌∷◌, ◌++◌, map, Result, ok, err, ◌≡◌,
  refl, ap, sym, ◌∙◌, Bool-cases, inl, inr,
}
use valsec.Mission.Campaign.{normalising}
use valsec.Schema.{VendorNeutralConfig}
use valsec.Compliance.Engine.{ComplianceReport}
use valsec.Compliance.Catalogues.{CatalogueError}
use valsec.Audit.{
  UnknownLine, unverified, Normalized, Proposal, FieldValue, parsed_value, unknown_value,
  FindingRow, Store, Outcome, Services, proposal_for, proposed_field, unknown_row, parsed_row,
  finding_rows, proposals_of, remediation_for, remediations, result_rows, finish, after_evaluation,
  evaluate, train_or_evaluate, as_failed, set_status, normalizer_for, is_cancelled, firmware,
  persist_findings, gate, after_parse, audit, audit_found, run_config_audit,
}

-- The row as it is where nothing was proposed.
abbrev pub without_value : FieldValue → FindingRow → FindingRow
without_value (parsed_value v) f = f
without_value (unknown_value context raw proposed) f = record f {
  schema_field = "unrecognized";
  field_value = unknown_value context raw none;
  confidence = unverified;
  mapping_source = "parser";
}

abbrev pub without_proposal : FindingRow → FindingRow
without_proposal f = without_value f.field_value f

abbrev pub without_proposals : Store → Store
without_proposals s = record s { findings = map without_proposal s.findings }

-- What is left of a run once its proposals are taken out.
abbrev pub deterministic : Option Store × Outcome → Option Store × Outcome
deterministic (none, outcome) = (none, outcome)
deterministic (some s, outcome) = (some (without_proposals s), outcome)

-- The model is replaced.
abbrev pub with_propose :
    (String → List UnknownLine → Result String (List (ℕ × Proposal))) → Services → Services
with_propose propose services = record services { propose = propose }

unknown_row-without_proposal :
    (line : UnknownLine) (p : Option (String × Proposal))
    → without_proposal (unknown_row line p) ≡ unknown_row line none
unknown_row-without_proposal line none = refl
unknown_row-without_proposal line (some (field, p)) = refl

map-append : {A B : Type 0} (f : A → B) (xs ys : List A) → map f (xs ++ ys) ≡ map f xs ++ map f ys
map-append f [] ys = refl
map-append f (x ∷ xs) ys = ap (λ zs. f x ∷ zs) (map-append f xs ys)

unknown_rows-without_proposal :
    (f : UnknownLine → Option (String × Proposal)) (lines : List UnknownLine)
    → map without_proposal (map (λ line. unknown_row line (f line)) lines)
      ≡ map (λ line. unknown_row line none) lines
unknown_rows-without_proposal f [] = refl
unknown_rows-without_proposal f (line ∷ lines) =
    let first = unknown_row-without_proposal line (f line) in
    let rest = unknown_rows-without_proposal f lines in cc (first, rest)

-- The rows without their proposals.
abbrev plain_rows : Normalized → List FindingRow
plain_rows n =
    map without_proposal (map parsed_row n.findings)
    ++ map (λ line. unknown_row line none) n.unknown_lines

finding_rows-plain :
    (n : Normalized) (proposals : List (ℕ × Proposal))
    → map without_proposal (finding_rows n proposals) ≡ plain_rows n
unfolding finding_rows
finding_rows-plain n proposals =
    let f : UnknownLine → Option (String × Proposal) =
      λ line. proposed_field (proposal_for line.line_number proposals) in
    map-append without_proposal (map parsed_row n.findings)
      (map (λ line. unknown_row line (f line)) n.unknown_lines)
    ∙ ap (λ rows. map without_proposal (map parsed_row n.findings) ++ rows)
        (unknown_rows-without_proposal f n.unknown_lines)

-- A store with other findings.
abbrev with_findings : List FindingRow → Store → Store
with_findings rows s = record s { findings = rows }

abbrev plain : Store × Outcome → Store × Outcome
plain (s, outcome) = (without_proposals s, outcome)

-- The end of a run, with other findings.
abbrev put : List FindingRow → Store × Outcome → Store × Outcome
put rows (s, outcome) = (with_findings rows s, outcome)

abbrev Propose : Type 0
Propose = String → List UnknownLine → Result String (List (ℕ × Proposal))

-- Nothing after the findings are stored reads or writes them, or asks the model for mappings.
module _ (services : Services) (p : Propose) (rows : List FindingRow) where
  finish-put :
      (s : Store) (report : ComplianceReport) (pdf : Result String String)
      → finish (with_propose p services) (with_findings rows s) report pdf
        ≡ put rows (finish services s report pdf)
  unfolding finish result_rows remediation_for
  finish-put s report (err e) = refl
  finish-put s report (ok pdf) = refl

  after_evaluation-put :
      (s : Store) (answer : Result CatalogueError ComplianceReport)
      → after_evaluation (with_propose p services) (with_findings rows s) answer
        ≡ put rows (after_evaluation services s answer)
  unfolding after_evaluation remediations remediation_for
  after_evaluation-put s (err e) = refl
  after_evaluation-put s (ok report) = finish-put s report _

  train_or_evaluate-put :
      (lines : List UnknownLine) (config : VendorNeutralConfig) (s : Store)
      → train_or_evaluate (with_propose p services) lines config (with_findings rows s)
        ≡ put rows (train_or_evaluate services lines config s)
  unfolding train_or_evaluate evaluate
  train_or_evaluate-put [] config s = after_evaluation-put _ _
  train_or_evaluate-put (line ∷ lines) config s = refl

  gate-put :
      (cancelled : Bool) (n : Normalized) (s : Store)
      → gate (with_propose p services) cancelled n (with_findings rows s)
        ≡ put rows (gate services cancelled n s)
  unfolding gate
  gate-put true n s = refl
  gate-put false n s = train_or_evaluate-put n.unknown_lines n.config s

abbrev with_firmware : Normalized → Store → Store
with_firmware n s = record s {
  config = record s.config {
    firmware_version = firmware n.config.device_info.os_version s.config.firmware_version;
  };
}

-- The end of a run without any proposal, whose findings are the plain rows.
abbrev plain_end : Services → Store → Result String Normalized → Store × Outcome
plain_end services s (err e) = plain (as_failed services s)
plain_end services s (ok n) =
    put (plain_rows n) (gate services services.cancelled_meanwhile n (with_firmware n s))

plain-put :
    (rows : List FindingRow) (run : Store × Outcome)
    → plain (put rows run) ≡ put (map without_proposal rows) run
plain-put rows (s, outcome) = refl

module _ (services : Services) (p : Propose) (allow : Bool) where
  after_parse-plain :
      (s : Store) (answer : Result String Normalized)
      → plain (after_parse (with_propose p services) allow s answer) ≡ plain_end services s answer
  unfolding after_parse persist_findings
  after_parse-plain s (err e) = refl
  after_parse-plain s (ok n) =
      let proposals =
        proposals_of (with_propose p services) allow s.config.vendor n.unknown_lines in
      let rows = finding_rows n proposals in
      let run = gate services services.cancelled_meanwhile n (with_firmware n s) in
      ap plain (gate-put services p rows services.cancelled_meanwhile n (with_firmware n s))
      ∙ plain-put rows run
      ∙ ap (λ x. put x run) (finding_rows-plain n proposals)

  audit-plain :
      (s : Store)
      → plain (audit (with_propose p services) allow s)
        ≡ plain_end services
            (set_status normalising s)
            (services.normalize (normalizer_for s.config.vendor) s.config.raw_config)
  unfolding audit
  audit-plain s = after_parse-plain _ _

module _ (services : Services) (p q : Propose) (allow again : Bool) where
  audit_found-plain :
      (s : Store)
      → plain (audit_found (with_propose p services) allow s)
        ≡ plain (audit_found (with_propose q services) again s)
  unfolding audit_found
  audit_found-plain s = elim (Bool-cases (is_cancelled s.config.status)) [
    | inl e ↦ rw e refl
    | inr e ↦ rw e (audit-plain services p allow s ∙ sym (audit-plain services q again s))
  ]

  -- Two runs of the audit on the same row, alike but for what the local model proposes for
  -- unknown lines, or for whether it is asked, give the same answer and leave the same row,
  -- results, report and findings, once every finding of an unknown line is shown as if nothing
  -- had been proposed for it.
  pub run_config_audit-deterministic :
      (locked : Bool) (row : Option Store)
      → deterministic (run_config_audit (with_propose p services) allow locked row)
        ≡ deterministic (run_config_audit (with_propose q services) again locked row)
  unfolding run_config_audit
  run_config_audit-deterministic locked none = refl
  run_config_audit-deterministic true (some s) = refl
  run_config_audit-deterministic false (some s) =
      ap (λ run. let (s', outcome) = run in (some s', outcome)) (audit_found-plain s)
