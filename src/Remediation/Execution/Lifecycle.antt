-- ===== src/Remediation/Execution/Lifecycle.antt =====
-- What the life of a remediation action keeps.
use valsec.Prelude.{
  ℕ, String, true, Option, none, some, List, [], ◌∷◌, ◌≡◌, refl, ◌∙◌, ◌⊎◌, inl, inr, Result, ok,
  err, arith, ◌is◌, is_some, ◌||◌, Bool-cases, is_blank, strip,
}
use valsec.Errors.{http, HttpException, PushFailure}
use valsec.Remediation.Risk.{classify_risk}
use valsec.Remediation.Execution.{
  applied, Action, PushResult, approve_finding_action, execute_approved_action, mark_action_failed,
}

-- One call on the row of a finding: an approval of the text that the finding shows, an execution
-- with a connector at a time, or a failure mark.
pub data Call : Type 0 where
  approve : Option String → Call
  execute : (String → Result PushFailure PushResult) → ℕ → Call
  mark_failed : String → Call

abbrev pub row_after : Option Action → Result HttpException Action → Option Action
row_after old (ok action) = some action
row_after old (err _) = old

module _ (truncate : String → String) (vendor : String) where
  -- A call that raises leaves the row; without a row there is nothing to execute or to mark.
  call : Call → Option Action → Option Action
  call (approve cli) row =
      row_after row (approve_finding_action vendor (record { remediation_cli = cli; action = row }))
  call (execute connector now) none = none
  call (execute connector now) (some action) = some (execute_approved_action connector now action).0
  call (mark_failed message) none = none
  call (mark_failed message) (some action) = some (mark_action_failed truncate message action)

  pub calls : List Call → Option Action → Option Action
  unfolding call
  calls [] row = row
  calls (c ∷ cs) row = calls cs (call c row)

  -- The risk class is that of the text, and an applied row has its evidence.
  abbrev pub IsConsistent : Option Action → Type 0
  IsConsistent none = Unit
  IsConsistent (some a) =
      (a.risky ≡ classify_risk vendor a.remediation_text)
      × (a.status ≡ applied
          → (is_some a.pre_change_snapshot ≡ true)
            × (is_some a.post_change_snapshot ≡ true)
            × (is_some a.applied_at ≡ true))

  abbrev pub SameText : Option Action → Option Action → Type 0
  SameText none new = Unit
  SameText (some a) none = ⊥
  SameText (some a) (some b) = (a.remediation_text ≡ b.remediation_text) × (a.risky ≡ b.risky)

  call-IsConsistent :
      (c : Call) (row : Option Action)
      → IsConsistent row
      → IsConsistent (call c row) × SameText row (call c row)
  unfolding call execute_approved_action mark_action_failed approve_finding_action
  call-IsConsistent (approve none) none h = ground arith
  call-IsConsistent (approve (some cli)) none h = ground arith
  call-IsConsistent (approve none) (some a) h = ground arith
  call-IsConsistent (approve (some cli)) (some a) h = ground arith
  call-IsConsistent (execute connector now) none h = ground arith
  call-IsConsistent (execute connector now) (some a) h = ground arith
  call-IsConsistent (mark_failed message) none h = ground arith
  call-IsConsistent (mark_failed message) (some a) h = ground arith

  SameText-trans : (a b c : Option Action) → SameText a b → SameText b c → SameText a c
  SameText-trans none b c h k = tt
  SameText-trans (some a) none c h k = absurd h
  SameText-trans (some a) (some b) none h k = absurd k
  SameText-trans (some a) (some b) (some c) h k = (h.0 ∙ k.0, h.1 ∙ k.1)

  SameText-refl : (a : Option Action) → SameText a a
  SameText-refl none = tt
  SameText-refl (some a) = (refl, refl)

  -- Whatever sequence of approvals, executions and failure marks reaches a row that is consistent
  -- or absent, in any order and with any connector: its text and its risk class never change, the
  -- risk class is the classification of that text, and a row that says applied has its snapshots
  -- and its time.
  pub calls-IsConsistent :
      (cs : List Call) (row : Option Action)
      → IsConsistent row
      → IsConsistent (calls cs row) × SameText row (calls cs row)
  unfolding calls
  calls-IsConsistent [] row h = (h, SameText-refl row)
  calls-IsConsistent (c ∷ cs) row h =
      let (now, step) = call-IsConsistent c row h in
      let (later, steps) = calls-IsConsistent cs (call c row) now in
      (later, SameText-trans row (call c row) (calls cs (call c row)) step steps)

-- An approval never reopens what is already applied: on such a row it returns the row unchanged
-- or refuses with status 409.
pub approve_finding_action_applied :
    (vendor : String) (cli : Option String) (a : Action)
    → a.status ≡ applied
    → (approve_finding_action vendor (record { remediation_cli = cli; action = some a }) ≡ ok a)
      ⊎ ((e : HttpException) × (approve_finding_action vendor
              (record { remediation_cli = cli; action = some a })
            ≡ err e)
          × (e.status_code ≡ 409))
unfolding approve_finding_action
approve_finding_action_applied vendor none a h =
    inr (http 409 "Finding has no remediation text to approve", refl, refl)
approve_finding_action_applied vendor (some cli) a h =
    elim (Bool-cases (is_blank cli || is_blank (strip cli))) [
      | inl blank ↦ inr (http 409 "Finding has no remediation text to approve", rw blank, refl)
      | inr filled ↦ elim (Bool-cases (a.remediation_text is cli)) [
        | inl same ↦ inl (rw (filled, same, h))
        | inr other ↦ inr (
          http 409 "Approved remediation is immutable and differs from the current finding",
          rw (filled, other),
          refl,
        )
      ]
    ]
