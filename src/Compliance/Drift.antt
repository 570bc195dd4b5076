-- ===== src/Compliance/Drift.antt =====
-- The drift between two persisted audits (backend/compliance/drift.py). A record is the persisted
-- `ComplianceResult`; the unified diff of the raw texts is difflib's, a parameter.
pub mod Laws
use valsec.Prelude.{
  ℕ, ◌+◌, String, Bool, true, false, not, ◌&&◌, Option, none, some, List, [], ◌∷◌, ◌++◌, count_if,
  ◌is◌, if◌then◌else◌,
}
use valsec.Compliance.Verdicts.{Verdict, pass, fail, not_applicable, Severity, is_pass, is_fail}
use valsec.Compliance.Engine.{ComplianceResult, percentage}

pub record ControlDelta : Type 0 where
  pub control_id : String
  pub title : String
  pub severity : Severity
  pub previous_verdict : Option Verdict
  pub current_verdict : Verdict
  pub changed : Bool

pub record DriftReport : Type 0 where
  pub baseline_config_id : Option String
  pub compare_config_id : String
  pub score_before : Option ℕ
  pub score_after : ℕ
  pub newly_failed : List ControlDelta
  pub newly_passed : List ControlDelta
  pub still_failing : List ControlDelta
  pub unchanged_count : ℕ
  pub raw_config_diff : String

abbrev pub same_verdict : Verdict → Verdict → Bool
same_verdict pass pass = true
same_verdict fail fail = true
same_verdict not_applicable not_applicable = true
same_verdict _ _ = false

-- `previous_verdict == current_verdict`
abbrev pub was : Option Verdict → Verdict → Bool
was none v = false
was (some u) v = same_verdict u v

-- `_score`
unfoldable pub drift_score : List ComplianceResult → ℕ
unfolding percentage
drift_score records =
    percentage (count_if (λ r. is_pass r.verdict) records)
      (count_if (λ r. is_pass r.verdict) records + count_if (λ r. is_fail r.verdict) records)

abbrev pub same_key : ComplianceResult → ComplianceResult → Bool
same_key r s = r.framework is s.framework && r.control_id is s.control_id

-- `previous.get(key)`, where a later record of a key has replaced an earlier one.
unfoldable pub prior : List ComplianceResult → ComplianceResult → Option ComplianceResult
prior [] record' = none
prior (r ∷ rs) record' =
    let later = prior rs record' in
    elim later [ some s ↦ some s | none ↦ if same_key r record' then some r else none ]

abbrev pub verdict_of : Option ComplianceResult → Option Verdict
verdict_of none = none
verdict_of (some r) = some r.verdict

unfoldable pub delta_of : Option Verdict → ComplianceResult → ControlDelta
delta_of previous r = record {
  control_id = r.control_id;
  title = r.title;
  severity = r.severity;
  previous_verdict = previous;
  current_verdict = r.verdict;
  changed = not (was previous r.verdict);
}

-- The three lists and the counter of the loop.
pub record Tally : Type 0 where
  pub newly_failed : List ControlDelta
  pub newly_passed : List ControlDelta
  pub still_failing : List ControlDelta
  pub unchanged_count : ℕ

abbrev pub no_tally : Tally
no_tally = record { newly_failed = []; newly_passed = []; still_failing = []; unchanged_count = 0 }

-- The chain of `if` and `elif`.
unfoldable pub classify : Option Verdict → ComplianceResult → Tally → Tally
unfolding delta_of
classify previous r t =
    if is_fail r.verdict && not (was previous fail)
    then record t { newly_failed = t.newly_failed ++ delta_of previous r ∷ [] }
    else if is_pass r.verdict && was previous fail
    then record t { newly_passed = t.newly_passed ++ delta_of previous r ∷ [] }
    else if is_fail r.verdict && was previous fail
    then record t { still_failing = t.still_failing ++ delta_of previous r ∷ [] }
    else t

-- One round of the loop.
unfoldable pub tally_record : List ComplianceResult → ComplianceResult → Tally → Tally
unfolding classify prior
tally_record baseline r t =
    let previous = verdict_of (prior baseline r) in
    let t' = classify previous r t in
    record t' { unchanged_count = (if was previous r.verdict then 1 else 0) + t'.unchanged_count }

unfoldable pub tally_all : List ComplianceResult → List ComplianceResult → Tally → Tally
tally_all baseline [] t = t
tally_all baseline (r ∷ rs) t = tally_all baseline rs (tally_record baseline r t)

abbrev pub or_empty : Option (List ComplianceResult) → List ComplianceResult
or_empty none = []
or_empty (some rs) = rs

abbrev pub score_of : Option (List ComplianceResult) → Option ℕ
score_of none = none
score_of (some rs) = some (drift_score rs)

unfoldable pub build_drift_report :
    (String → String → String)
    → Option (List ComplianceResult)
    → List ComplianceResult
    → String
    → String
    → Option String
    → String
    → DriftReport
unfolding tally_all drift_score
build_drift_report unified_diff baseline current raw_before raw_after baseline_id compare_id =
    let t = tally_all (or_empty baseline) current no_tally in
    record {
      baseline_config_id = baseline_id;
      compare_config_id = compare_id;
      score_before = score_of baseline;
      score_after = drift_score current;
      newly_failed = t.newly_failed;
      newly_passed = t.newly_passed;
      still_failing = t.still_failing;
      unchanged_count = t.unchanged_count;
      raw_config_diff = unified_diff raw_before raw_after;
    }
