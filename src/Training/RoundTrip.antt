-- ===== src/Training/RoundTrip.antt =====
-- A line that was taught is resolved as it was taught, and only for its owner.
use valsec.Prelude.{
  ℕ, String, Bool, true, false, Option, none, some, List, map, ◌≡◌, refl, ap, sym, ◌∙◌, Result, ok,
  err, >>=-eq-ok, if-eq, inl, inr, is_blank, strip, ◌==◌, not, raise_if, ◌>>◌, arith,
}
use valsec.Errors.{HttpException, http}
use valsec.Mission.Types.{same_id}
use valsec.Training.{
  Example, LearnedMapping, generate_pattern_signature, find_mapping, match_of, resolve,
  TrainFinding, Approval, State, is_awaiting, find_finding, learn, confirm, unresolved,
  resumed_status, found_finding, is_conflict, teach, train, resume, after_train, submit_training,
}
use valsec.Training.Mappings.{Taught, find_mapping-learn, find_mapping-learn_other}

module _ (user : Option ℕ) (vendor : String) where
  -- What is committed: the findings with the approval, and the mappings with the lesson.
  Committed : Approval → TrainFinding → State → State → Type 0
  Committed a f s s' =
      (learn user vendor (generate_pattern_signature f.raw_source_line) a.approved_field
          (record { raw_line = f.raw_source_line; field_value = a.approved_value }) s.mappings
        ≡ ok s'.mappings)
      × (s'.findings ≡ map (confirm a) s.findings)
      × (s'.status ≡ resumed_status (unresolved s'.findings))

  teach-Committed :
      (a : Approval) (f : TrainFinding) (s : State) {s' : State}
      → teach user vendor a s f ≡ ok s'
      → Committed a f s s'
  unfolding teach Committed
  teach-Committed a f s {s'} e =
      let (u, free, e1) =
        >>=-eq-ok
          (raise_if (is_conflict a f)
            (http 409 "Finding was already confirmed with a different mapping"))
          _ e in
      let (mappings, learnt, e2) =
        >>=-eq-ok
          (learn user vendor (generate_pattern_signature f.raw_source_line) a.approved_field
            (record { raw_line = f.raw_source_line; field_value = a.approved_value }) s.mappings)
          _ e1 in
      let findings = map (confirm a) s.findings in
      let at : record {
        status = resumed_status (unresolved findings);
        findings = findings;
        mappings = mappings;
      }
          ≡ s' =
        cc in
      rw (← at) (learnt, refl, refl)

  found_same :
      (o : Option TrainFinding) (f g : TrainFinding) → o ≡ some f → found_finding o ≡ ok g → f ≡ g
  unfolding found_finding
  found_same none f g found got = cc
  found_same (some h) f g found got = cc

  train-Committed :
      (a : Approval) (f : TrainFinding) (s : State) {s' : State}
      → find_finding a.finding_id s.findings ≡ some f
      → train user vendor a s ≡ ok s'
      → Committed a f s s'
  unfolding train
  train-Committed a f s {s'} found e =
      let checks =
        raise_if (is_blank a.approved_field)
          (http 400 "Missing finding_id or approved_schema_field")
        >> raise_if (not (is_awaiting s.status))
            (http 409 "Configuration is not awaiting training") in
      let (g, got, taught) =
        >>=-eq-ok (checks >> found_finding (find_finding a.finding_id s.findings)) _ e in
      let (u, checked, got') = >>=-eq-ok checks _ got in
      let at : f ≡ g = found_same (find_finding a.finding_id s.findings) f g found got' in
      rw at (teach-Committed a g s taught)

  resolve-Taught :
      (field : String) (example : Example) (ms : List LearnedMapping)
      → is_blank (strip example.raw_line) ≡ false
      → Taught field example
          (find_mapping user vendor (generate_pattern_signature example.raw_line) ms)
      → resolve user vendor example.raw_line ms
        ≡ some (record { schema_field = field; field_value = some example.field_value })
  unfolding resolve
  resolve-Taught field example ms filled (m, found, named, shown) =
      rw (filled, found, match_of, shown, named) refl

  resolve-other :
      (user' : Option ℕ) (vendor' raw' pattern field : String) (example : Example)
      (ms : List LearnedMapping) {ms' : List LearnedMapping}
      → same_id user user' ≡ false
      → learn user vendor pattern field example ms ≡ ok ms'
      → resolve user' vendor' raw' ms' ≡ resolve user' vendor' raw' ms
  unfolding resolve
  resolve-other user' vendor' raw' pattern field example ms differ e =
      rw
        (find_mapping-learn_other user vendor pattern field example user' vendor'
          (generate_pattern_signature raw') ms differ e)
        refl

  abbrev reply_of : Result HttpException (ℕ × Bool) → ℕ × Bool
  reply_of (ok reply) = reply
  reply_of (err e) = (0, false)

  -- What an answer says of the state that is left.
  Answered : State → State → ℕ → Bool → Type 0
  Answered s s' remaining resumed =
      (s ≡ s') × (unresolved s.findings ≡ remaining) × (resumed ≡ (unresolved s.findings == 0))

  resume-Answered :
      (dispatched : Bool) (s : State) {s' : State} {remaining : ℕ} {resumed : Bool}
      → resume user vendor dispatched s ≡ (s', ok (remaining, resumed))
      → Answered s s' remaining resumed
  unfolding resume Answered
  resume-Answered dispatched s {s'} {remaining} {resumed} e =
      elim (if-eq (not (unresolved s.findings == 0)) e) [
        | inl (waits, e1) ↦
            let some_left : (unresolved s.findings == 0) ≡ false = ground (arith, waits) in
            (
              ap (λ x. x.0) e1,
              ap (λ x. (reply_of x.1).0) e1,
              sym (ap (λ x. (reply_of x.1).1) e1) ∙ sym some_left,
            )
        | inr (done, e1) ↦ elim (if-eq dispatched e1) [
          | inl (sent, e2) ↦
              let none_left : (unresolved s.findings == 0) ≡ true = ground (arith, done) in
              (
                ap (λ x. x.0) e2,
                ap (λ x. (reply_of x.1).0) e2,
                sym (ap (λ x. (reply_of x.1).1) e2) ∙ sym none_left,
              )
          | inr (lost, e2) ↦ cc (ap (λ x. x.1) e2)
        ]
      ]

  after_train-ok :
      (dispatched : Bool) (s : State) (answer : Result HttpException State) {s' : State}
      {remaining : ℕ} {resumed : Bool}
      → after_train user vendor dispatched s answer ≡ (s', ok (remaining, resumed))
      → (t : State) × (answer ≡ ok t) × Answered t s' remaining resumed
  unfolding after_train
  after_train-ok dispatched s (err x) e = cc (ap (λ y. y.1) e)
  after_train-ok dispatched s (ok t) e = (t, refl, resume-Answered dispatched t e)

  -- If a training request for a finding whose line is not blank is answered, the line then
  -- resolves for the same user and vendor to the field and the value that were approved, and what
  -- any line resolves to for another user is unchanged. The answer counts the findings that are
  -- left unresolved, and the audit is claimed and resumed exactly if none is.
  pub submit_training-resolve :
      (dispatched : Bool) (a : Approval) (f : TrainFinding) (s : State) (user' : Option ℕ)
      (vendor' line' : String) {s' : State} {remaining : ℕ} {resumed : Bool}
      → find_finding a.finding_id s.findings ≡ some f
      → is_blank (strip f.raw_source_line) ≡ false
      → same_id user user' ≡ false
      → submit_training user vendor dispatched a s ≡ (s', ok (remaining, resumed))
      → (resolve user vendor f.raw_source_line s'.mappings
          ≡ some (record { schema_field = a.approved_field; field_value = some a.approved_value }))
        × (resolve user' vendor' line' s'.mappings ≡ resolve user' vendor' line' s.mappings)
        × (unresolved s'.findings ≡ remaining)
        × (s'.status ≡ resumed_status remaining)
        × (resumed ≡ (remaining == 0))
  unfolding submit_training Committed Answered
  submit_training-resolve dispatched a f s user' vendor' line' {s'} found filled foreign e =
      let (t, trained, (at, left, sent)) = after_train-ok dispatched s (train user vendor a s) e in
      let (learnt, confirmed_, status) = train-Committed a f s found trained in
      let pattern = generate_pattern_signature f.raw_source_line in
      let example : Example = record {
        raw_line = f.raw_source_line;
        field_value = a.approved_value;
      } in
      rw (← at, ← left)
        (
          resolve-Taught a.approved_field example t.mappings filled
              (find_mapping-learn user vendor pattern a.approved_field example s.mappings learnt),
          resolve-other user' vendor' line' pattern a.approved_field example s.mappings foreign
              learnt,
          refl,
          status,
          sent,
        )
