-- ===== src/Mission/Summary.antt =====
-- The summary of a mission (`mission_summary` of backend/network_mission_service.py), from its rows
-- and the targets of its campaigns. Scores are hundredths of a per cent.
pub mod Tests
use valsec.Prelude.{
  ℕ, ◌+◌, ◌-◌, Bool, true, false, not, ◌&&◌, ◌||◌, Option, none, some, List, [], ◌∷◌, ◌++◌, map,
  any, keep, length, count_if, is_empty, is_some, ◌==◌, if◌then◌else◌,
}
use valsec.Compliance.Verdicts.{Verdict, Severity, critical, high, medium, low, is_fail}
use valsec.Compliance.Engine.{round_div}
use valsec.Mission.Types.{
  DeviceState, seed, identified, credential_missing, unsupported, out_of_scope, unreachable,
  collection_failed, ready, audit_queued, audited, remediation_ready,
}
use valsec.Mission.Campaign.{
  ConfigStatus, config_complete, TargetStatus, verified, rolled_back, is_success, is_failure,
}

-- A configuration with its score, and the verdicts and severities of its results.
record SummaryConfig : Type 0 where
  pub status : ConfigStatus
  pub compliance_score : Option ℕ
  pub results : List (Verdict × Severity)

record SummaryNode : Type 0 where
  pub device_id : Option ℕ
  pub state : DeviceState
  pub config : Option SummaryConfig

record SummaryTarget : Type 0 where
  pub device_id : ℕ
  pub status : TargetStatus
  pub verification_config : Option SummaryConfig

record Summary : Type 0 where
  pub devices_discovered : ℕ
  pub devices_eligible : ℕ
  pub devices_audited : ℕ
  pub devices_compliant : ℕ
  pub devices_requiring_remediation : ℕ
  pub devices_processing : ℕ
  pub devices_awaiting_credential : ℕ
  pub devices_unsupported : ℕ
  pub devices_out_of_scope : ℕ
  pub devices_unreachable : ℕ
  pub critical_findings : ℕ
  pub high_findings : ℕ
  pub medium_findings : ℕ
  pub low_findings : ℕ
  pub overall_compliance_score : Option ℕ
  pub score_before : Option ℕ
  pub score_after : Option ℕ
  pub controls_remediated : ℕ
  pub devices_require_manual_action : ℕ
  pub devices_rolled_back : ℕ

abbrev is_complete_status : ConfigStatus → Bool
is_complete_status config_complete = true
is_complete_status _ = false

abbrev is_complete : SummaryConfig → Bool
is_complete c = is_complete_status c.status

-- `completed`
completed : List SummaryNode → List SummaryConfig
completed [] = []
completed (n ∷ ns) =
    let rest = completed ns in
    elim n.config [ none ↦ rest | some c ↦ if is_complete c then c ∷ rest else rest ]

scores : List SummaryConfig → List ℕ
scores [] = []
scores (c ∷ cs) =
    let rest = scores cs in elim c.compliance_score [ none ↦ rest | some score ↦ score ∷ rest ]

sum : List ℕ → ℕ
sum [] = 0
sum (n ∷ ns) = n + sum ns

-- `round(sum(scores) / len(scores), 2) if scores else None`
average : List ℕ → Option ℕ
unfolding sum
average [] = none
average (n ∷ ns) = some (round_div (sum (n ∷ ns)) (length (n ∷ ns)))

abbrev contains_id : ℕ → List ℕ → Bool
contains_id id ids = any (λ i. i == id) ids

-- The elements of a set.
distinct : List ℕ → List ℕ
distinct [] = []
distinct (id ∷ ids) = let rest = distinct ids in if contains_id id ids then rest else id ∷ rest

-- `score_by_device[id] = score`
put_score : ℕ → ℕ → List (ℕ × ℕ) → List (ℕ × ℕ)
put_score id score [] = (id, score) ∷ []
put_score id score ((k, s) ∷ rest) =
    let others = put_score id score rest in if k == id then (k, score) ∷ rest else (k, s) ∷ others

-- The score of a configuration that is complete.
abbrev complete_score : Option SummaryConfig → Option ℕ
complete_score none = none
complete_score (some c) = if is_complete c then c.compliance_score else none

put_node : SummaryNode → List (ℕ × ℕ) → List (ℕ × ℕ)
unfolding put_score
put_node n scores = elim n.device_id [
  | none ↦ scores
  | some id ↦ elim (complete_score n.config) [
    | none ↦ scores
    | some score ↦ put_score id score scores
  ]
]

put_nodes : List SummaryNode → List (ℕ × ℕ) → List (ℕ × ℕ)
unfolding put_node
put_nodes [] scores = scores
put_nodes (n ∷ ns) scores = put_nodes ns (put_node n scores)

abbrev is_verified : TargetStatus → Bool
is_verified verified = true
is_verified _ = false

abbrev is_rolled_back : TargetStatus → Bool
is_rolled_back rolled_back = true
is_rolled_back _ = false

-- The loop over the targets: the scores, and `verification_pending`.
verify_scores : List SummaryTarget → List (ℕ × ℕ) × Bool → List (ℕ × ℕ) × Bool
unfolding put_score
verify_scores [] state = state
verify_scores (t ∷ ts) (scores, waits) =
    verify_scores ts (elim (complete_score t.verification_config) [
      | some score ↦ (put_score t.device_id score scores, waits)
      | none ↦ (scores, waits || is_verified t.status)
    ])

-- The devices of the rows that are audited and pass a test.
audited_ids : (SummaryConfig → Bool) → List SummaryNode → List ℕ
audited_ids p [] = []
audited_ids p (n ∷ ns) =
    let rest = audited_ids p ns in
    elim n.device_id [
      | none ↦ rest
      | some id ↦ elim n.config [
        | none ↦ rest
        | some c ↦ if is_complete c && p c then id ∷ rest else rest
      ]
    ]

abbrev has_failure : SummaryConfig → Bool
has_failure c = any (λ (verdict, severity). is_fail verdict) c.results

-- The failures of a severity.
failures_of : (Severity → Bool) → List SummaryConfig → ℕ
failures_of p [] = 0
failures_of p (c ∷ cs) =
    count_if (λ (verdict, severity). is_fail verdict && p severity) c.results + failures_of p cs

abbrev is_critical : Severity → Bool
is_critical critical = true
is_critical _ = false

abbrev is_high : Severity → Bool
is_high high = true
is_high _ = false

abbrev is_medium : Severity → Bool
is_medium medium = true
is_medium _ = false

abbrev is_low : Severity → Bool
is_low low = true
is_low _ = false

abbrev is_eligible_state : DeviceState → Bool
is_eligible_state ready = true
is_eligible_state audit_queued = true
is_eligible_state audited = true
is_eligible_state remediation_ready = true
is_eligible_state _ = false

abbrev is_processing : DeviceState → Bool
is_processing seed = true
is_processing identified = true
is_processing ready = true
is_processing audit_queued = true
is_processing _ = false

abbrev is_awaiting_credential : DeviceState → Bool
is_awaiting_credential credential_missing = true
is_awaiting_credential _ = false

abbrev is_unsupported : DeviceState → Bool
is_unsupported unsupported = true
is_unsupported _ = false

abbrev is_out_of_scope : DeviceState → Bool
is_out_of_scope out_of_scope = true
is_out_of_scope _ = false

abbrev is_not_reached : DeviceState → Bool
is_not_reached unreachable = true
is_not_reached collection_failed = true
is_not_reached _ = false

abbrev count_states : (DeviceState → Bool) → List SummaryNode → ℕ
count_states p nodes = count_if (λ n. p n.state) nodes

abbrev score_values : List (ℕ × ℕ) → List ℕ
score_values scores = map (λ (id, score). score) scores

-- The average after the remediation, of a mission that has targets and waits for none.
score_after : List SummaryTarget → List (ℕ × ℕ) × Bool → Option ℕ
unfolding average
score_after targets (scores, waits) =
    if waits || is_empty targets then none else average (score_values scores)

mission_summary : List SummaryNode → List SummaryTarget → Summary
unfolding completed scores average distinct put_nodes verify_scores audited_ids failures_of
    score_after
mission_summary nodes targets =
    let audits = completed nodes in
    let failing = distinct (audited_ids has_failure nodes) in
    let all_audited = distinct (audited_ids (λ c. true) nodes) in
    record {
      devices_discovered = length nodes - 1;
      devices_eligible = count_states is_eligible_state nodes;
      devices_audited = length audits;
      devices_compliant = length (keep (λ id. not (contains_id id failing)) all_audited);
      devices_requiring_remediation = length failing;
      devices_processing = count_states is_processing nodes;
      devices_awaiting_credential = count_states is_awaiting_credential nodes;
      devices_unsupported = count_states is_unsupported nodes;
      devices_out_of_scope = count_states is_out_of_scope nodes;
      devices_unreachable = count_states is_not_reached nodes;
      critical_findings = failures_of is_critical audits;
      high_findings = failures_of is_high audits;
      medium_findings = failures_of is_medium audits;
      low_findings = failures_of is_low audits;
      overall_compliance_score = average (scores audits);
      score_before = average (scores audits);
      score_after = score_after targets (verify_scores targets (put_nodes nodes [], false));
      controls_remediated = count_if (λ t. is_success t.status) targets;
      devices_require_manual_action =
          length (distinct (map (λ t. t.device_id) (keep (λ t. is_failure t.status) targets)));
      devices_rolled_back =
          length (distinct (map (λ t. t.device_id) (keep (λ t. is_rolled_back t.status) targets)));
    }
