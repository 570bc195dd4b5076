-- ===== src/Compliance/Drift/Laws.antt =====
-- What the drift report says of two audits.
use valsec.Prelude.{
  ◌+◌, String, Bool, true, false, not, ◌&&◌, ◌is◌, Option, none, some, List, [], ◌∷◌, ◌++◌, map,
  keep, ◌≡◌, refl, sym, ap, length, eq_refl, append-nil, append_assoc, All, Bool-cases, inl, inr,
  arith,
}
use valsec.Compliance.Verdicts.{Verdict, pass, fail, not_applicable, is_pass, is_fail}
use valsec.Compliance.Engine.{ComplianceResult, calculate_compliance_score}
use valsec.Compliance.Engine.Score.{score-eq-percentage}
use valsec.Compliance.Drift.{
  ControlDelta, same_verdict, was, drift_score, same_key, prior, verdict_of, Tally, no_tally,
  classify, tally_record, tally_all, or_empty, build_drift_report,
}

-- The score that a drift report computes from persisted records is the one that the audit stored.
pub drift_score-eq-calculate_compliance_score :
    (rs : List ComplianceResult) → drift_score rs ≡ calculate_compliance_score rs
unfolding drift_score
drift_score-eq-calculate_compliance_score rs = rw score-eq-percentage

-- The last record of a list.
abbrev last : List ComplianceResult → Option ComplianceResult
last [] = none
last (r ∷ rs) = elim (last rs) [ some s ↦ some s | none ↦ some r ]

-- The verdict of the baseline's last record of the framework and the control of a record.
abbrev pub previous_of : List ComplianceResult → ComplianceResult → Option Verdict
previous_of baseline r =
    verdict_of
      (last (keep (λ s. s.framework is r.framework && s.control_id is r.control_id) baseline))

abbrev pub failed : Option Verdict → Bool
failed (some fail) = true
failed _ = false

-- What the report shows of a record.
abbrev pub shown : List ComplianceResult → Bool → ComplianceResult → ControlDelta
shown baseline changed r = record {
  control_id = r.control_id;
  title = r.title;
  severity = r.severity;
  previous_verdict = previous_of baseline r;
  current_verdict = r.verdict;
  changed = changed;
}

-- The records that fail now and did not fail before, that pass now and failed before, and that
-- fail both times.
abbrev pub failing_now : List ComplianceResult → List ComplianceResult → List ComplianceResult
failing_now baseline = keep (λ r. is_fail r.verdict && not (failed (previous_of baseline r)))

abbrev pub passing_now : List ComplianceResult → List ComplianceResult → List ComplianceResult
passing_now baseline = keep (λ r. is_pass r.verdict && failed (previous_of baseline r))

abbrev pub failing_twice : List ComplianceResult → List ComplianceResult → List ComplianceResult
failing_twice baseline = keep (λ r. is_fail r.verdict && failed (previous_of baseline r))

prior_last :
    (baseline : List ComplianceResult) (r : ComplianceResult)
    → prior baseline r
      ≡ last (keep (λ s. s.framework is r.framework && s.control_id is r.control_id) baseline)
unfolding prior
prior_last [] r = refl
prior_last (s ∷ rs) r = ground (arith, prior_last rs r)

prior_lem :
    (baseline : List ComplianceResult) (r : ComplianceResult)
    → verdict_of (prior baseline r) ≡ previous_of baseline r
unfolding prior
prior_lem baseline r = ap verdict_of (prior_last baseline r)

was_fail : (o : Option Verdict) → was o fail ≡ failed o
was_fail none = refl
was_fail (some pass) = refl
was_fail (some fail) = refl
was_fail (some not_applicable) = refl

-- Each list of a tally is what it was before, followed by the records of its kind.
abbrev Extends : List ComplianceResult → List ComplianceResult → Tally → Tally → Type 0
Extends baseline rs t u =
    (u.newly_failed ≡ t.newly_failed ++ map (shown baseline true) (failing_now baseline rs))
    × (u.newly_passed ≡ t.newly_passed ++ map (shown baseline true) (passing_now baseline rs))
    × (u.still_failing ≡ t.still_failing ++ map (shown baseline false) (failing_twice baseline rs))

tally_record-Extends :
    (baseline : List ComplianceResult) (r : ComplianceResult) (t : Tally)
    → Extends baseline (r ∷ []) t (tally_record baseline r t)
unfolding tally_record classify
tally_record-Extends baseline r t = ground (
  arith,
  prior_lem baseline r,
  append-nil t.newly_failed,
  append-nil t.newly_passed,
  append-nil t.still_failing,
)

extended :
    {A B : Type 0} (f : A → B) (p : A → Bool) (x : A) (xs : List A) (bs : List B) {cs ds : List B}
    → cs ≡ bs ++ map f (keep p (x ∷ []))
    → ds ≡ cs ++ map f (keep p xs)
    → ds ≡ bs ++ map f (keep p (x ∷ xs))
extended f p x xs bs first rest = elim (Bool-cases (p x)) [
  | inl kept ↦ rw (rest, first, kept) (append_assoc bs (f x ∷ []) (map f (keep p xs)))
  | inr left ↦ rw (rest, first, left, append-nil) refl
]

Extends-trans :
    (baseline : List ComplianceResult) (r : ComplianceResult) (rs : List ComplianceResult)
    (t u v : Tally)
    → Extends baseline (r ∷ []) t u
    → Extends baseline rs u v
    → Extends baseline (r ∷ rs) t v
Extends-trans baseline r rs t u v h k = (
  extended (shown baseline true) _ r rs t.newly_failed h.0 k.0,
  extended (shown baseline true) _ r rs t.newly_passed h.1 k.1,
  extended (shown baseline false) _ r rs t.still_failing h.2 k.2,
)

tally_all-Extends :
    (baseline rs : List ComplianceResult) (t : Tally)
    → Extends baseline rs t (tally_all baseline rs t)
unfolding tally_all
tally_all-Extends baseline [] t = (
  sym (append-nil t.newly_failed),
  sym (append-nil t.newly_passed),
  sym (append-nil t.still_failing),
)
tally_all-Extends baseline (r ∷ rs) t =
    Extends-trans baseline r rs t (tally_record baseline r t)
      (tally_all baseline rs (tally_record baseline r t)) (tally_record-Extends baseline r t)
      (tally_all-Extends baseline rs (tally_record baseline r t))

-- In every drift report the newly failed controls are, in the order of the current audit, exactly
-- the records that fail now and did not fail before, the newly passed those that pass now and
-- failed before, and the still failing those that fail both times. A record's verdict before is
-- that of the baseline's last record of the same framework and control, and each entry shows the
-- record's control, title and severity with both verdicts.
pub build_drift_report-IsSound :
    (unified_diff : String → String → String) (baseline : Option (List ComplianceResult))
    (current : List ComplianceResult) (before after : String) (baseline_id : Option String)
    (compare_id : String)
    → let d =
        build_drift_report unified_diff baseline current before after baseline_id compare_id in
      let old = or_empty baseline in
      (d.newly_failed ≡ map (shown old true) (failing_now old current))
      × (d.newly_passed ≡ map (shown old true) (passing_now old current))
      × (d.still_failing ≡ map (shown old false) (failing_twice old current))
unfolding build_drift_report
build_drift_report-IsSound unified_diff baseline current before after baseline_id compare_id =
    tally_all-Extends (or_empty baseline) current no_tally

-- No two records of one framework and control.
abbrev pub UniqueKeys : List ComplianceResult → Type 0
UniqueKeys [] = Unit
UniqueKeys (r ∷ rs) = All (λ s. same_key s r ≡ false) rs × UniqueKeys rs

same_key_refl : (r : ComplianceResult) → same_key r r ≡ true
same_key_refl r = simp eq_refl

prior_absent :
    (rs : List ComplianceResult) (r : ComplianceResult)
    → All (λ s. same_key s r ≡ false) rs
    → prior rs r ≡ none
unfolding prior
prior_absent [] r h = refl
prior_absent (s ∷ rs) r (e, h) = rw (prior_absent rs r h, e)

prior_later :
    (s : ComplianceResult) (rs qs : List ComplianceResult)
    → All (λ r. prior rs r ≡ some r) qs
    → All (λ r. prior (s ∷ rs) r ≡ some r) qs
unfolding prior
prior_later s rs [] h = tt
prior_later s rs (q ∷ qs) (e, h) = (rw e, prior_later s rs qs h)

prior_self : (rs : List ComplianceResult) → UniqueKeys rs → All (λ r. prior rs r ≡ some r) rs
unfolding prior
prior_self [] u = tt
prior_self (r ∷ rs) (fresh, u) =
    (rw (prior_absent rs r fresh, same_key_refl r), prior_later r rs rs (prior_self rs u))

same_verdict_refl : (v : Verdict) → same_verdict v v ≡ true
same_verdict_refl pass = refl
same_verdict_refl fail = refl
same_verdict_refl not_applicable = refl

-- What a tally of unchanged records adds.
tally_unchanged :
    (baseline rs : List ComplianceResult) (t : Tally)
    → All (λ r. prior baseline r ≡ some r) rs
    → ((tally_all baseline rs t).newly_failed ≡ t.newly_failed)
      × ((tally_all baseline rs t).newly_passed ≡ t.newly_passed)
      × ((tally_all baseline rs t).unchanged_count ≡ length rs + t.unchanged_count)
unfolding tally_all tally_record classify
tally_unchanged baseline [] t h = (refl, refl, omega arith)
tally_unchanged baseline (r ∷ rs) t (e, h) =
    ground (
      arith,
      same_verdict_refl r.verdict,
      tally_unchanged baseline rs (tally_record baseline r t) h,
    )

-- An audit compared with itself shows no drift: nothing newly failed or passed, every record
-- unchanged, and both scores equal, if no control is recorded twice.
pub build_drift_report_self :
    (unified_diff : String → String → String) (rs : List ComplianceResult) (raw : String)
    (baseline_id : Option String) (compare_id : String)
    → UniqueKeys rs
    → let d = build_drift_report unified_diff (some rs) rs raw raw baseline_id compare_id in
      (d.newly_failed ≡ [])
      × (d.newly_passed ≡ [])
      × (d.unchanged_count ≡ length rs)
      × (d.score_before ≡ some d.score_after)
unfolding build_drift_report
build_drift_report_self unified_diff rs raw baseline_id compare_id u =
    let (failed, passed, unchanged) = tally_unchanged rs rs no_tally (prior_self rs u) in
    (failed, passed, omega (arith, unchanged), refl)
