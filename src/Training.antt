-- ===== src/Training.antt =====
-- Learned mappings: their lookup while a configuration is parsed (backend/training/matcher.py) and
-- the request that teaches one (backend/routers/training.py). Values are JSON texts. The locks are
-- left out, since a request is one transaction.
pub mod Mappings
pub mod RoundTrip
pub mod Tests
use valsec.Prelude.{
  ℕ, String, Bool, true, false, not, ◌&&◌, ◌||◌, Option, none, some, List, [], ◌∷◌, map, any, all,
  keep, is_empty, count_if, leb, ◌==◌, ◌is◌, is_blank, strip, codes, join, words, if◌then◌else◌,
  Result, ok, err, ◌>>=◌, ◌>>◌, raise_if,
}
use valsec.Errors.{HttpException, http}
use valsec.Mission.Types.{same_id}
use valsec.Mission.Campaign.{ConfigStatus, normalising, awaiting_training}
use valsec.Audit.{Confidence, confirmed}

pub record Example : Type 0 where
  pub raw_line : String
  pub field_value : String

pub record LearnedMapping : Type 0 where
  pub user_id : Option ℕ
  pub vendor : String
  pub pattern_signature : String
  pub schema_field : String
  pub examples : List Example

-- `MappingMatch`
pub record MappingMatch : Type 0 where
  pub schema_field : String
  pub field_value : Option String

abbrev is_lower_letter : ℕ → Bool
is_lower_letter c = leb b'a' c && leb c b'z'

abbrev is_upper_letter : ℕ → Bool
is_upper_letter c = leb b'A' c && leb c b'Z'

-- `islower`, and whether letters are left once hyphens and underscores are dropped.
unfoldable pub is_keyword : String → Bool
is_keyword part =
    let letters = keep (λ c. not (c == b'-' || c == b'_')) (codes part) in
    (any is_lower_letter (codes part) && not (any is_upper_letter (codes part)))
    || (not (is_empty letters) && all (λ c. is_lower_letter c || is_upper_letter c) letters)

abbrev pub pattern_part : String → String
pattern_part part = if is_keyword part then part else ".*"

unfoldable pub generate_pattern_signature : String → String
generate_pattern_signature raw_line =
    if is_blank (strip raw_line) then raw_line else join " " (map pattern_part (words raw_line))

abbrev pub first_example : List Example → Option Example
first_example [] = none
first_example (e ∷ es) = some e

unfoldable pub exact_example : String → List Example → Option Example
exact_example raw_line [] = none
exact_example raw_line (e ∷ es) =
    if e.raw_line is raw_line then some e else exact_example raw_line es

unfoldable pub mapping_example : String → List Example → Option Example
mapping_example raw_line examples = elim (exact_example raw_line examples) [
  | some e ↦ some e
  | none ↦ first_example examples
]

-- The filter on the owner, the vendor and the pattern.
abbrev pub is_mapping_of : Option ℕ → String → String → LearnedMapping → Bool
is_mapping_of user vendor pattern m =
    same_id m.user_id user && ((m.vendor is vendor) && (m.pattern_signature is pattern))

unfoldable pub find_mapping :
    Option ℕ → String → String → List LearnedMapping → Option LearnedMapping
find_mapping user vendor pattern [] = none
find_mapping user vendor pattern (m ∷ ms) =
    if is_mapping_of user vendor pattern m then some m else find_mapping user vendor pattern ms

abbrev pub value_of : Option Example → Option String
value_of none = none
value_of (some e) = some e.field_value

abbrev pub match_of : String → Option LearnedMapping → Option MappingMatch
match_of raw_line none = none
match_of raw_line (some m) = some (record {
  schema_field = m.schema_field;
  field_value = value_of (mapping_example raw_line m.examples);
})

-- `DatabaseLearnedMappingResolver.resolve`, and `resolve_line`.
unfoldable pub resolve : Option ℕ → String → String → List LearnedMapping → Option MappingMatch
resolve user vendor raw_line mappings =
    if is_blank (strip raw_line)
    then none
    else match_of raw_line (find_mapping user vendor (generate_pattern_signature raw_line) mappings)

-- A row of `normalized_findings` as training reads it.
pub record TrainFinding : Type 0 where
  pub id : ℕ
  pub schema_field : String
  pub field_value : String
  pub raw_source_line : String
  pub confidence : Confidence
  pub mapping_source : String

-- The payload, once it has its two required texts.
pub record Approval : Type 0 where
  pub finding_id : ℕ
  pub approved_field : String
  pub approved_value : String

-- One configuration with the mappings of everyone.
pub record State : Type 0 where
  pub status : ConfigStatus
  pub findings : List TrainFinding
  pub mappings : List LearnedMapping

abbrev pub is_awaiting : ConfigStatus → Bool
is_awaiting awaiting_training = true
is_awaiting _ = false

abbrev pub is_confirmed : Confidence → Bool
is_confirmed confirmed = true
is_confirmed _ = false

unfoldable pub find_finding : ℕ → List TrainFinding → Option TrainFinding
find_finding id [] = none
find_finding id (f ∷ fs) = if f.id == id then some f else find_finding id fs

-- `examples[matching_index] = example`, or the example at the end.
unfoldable pub put_example : Example → List Example → List Example
put_example e [] = e ∷ []
put_example e (old ∷ es) =
    let rest = put_example e es in if old.raw_line is e.raw_line then e ∷ es else old ∷ rest

-- The mapping of the line, made or extended.
unfoldable pub learn :
    Option ℕ
    → String
    → String
    → String
    → Example
    → List LearnedMapping
    → Result HttpException (List LearnedMapping)
learn user vendor pattern field example [] = ok (
    record {
      user_id = user;
      vendor = vendor;
      pattern_signature = pattern;
      schema_field = field;
      examples = example ∷ [];
    }
    ∷ [])
learn user vendor pattern field example (m ∷ ms) =
    let rest = learn user vendor pattern field example ms in
    if is_mapping_of user vendor pattern m
    then if not (m.schema_field is field)
      then err (http 409 "This syntax pattern already maps to a different schema field")
      else ok (record m { examples = put_example example m.examples } ∷ ms)
    else (rest >>= λ others. ok (m ∷ others))

abbrev pub confirm : Approval → TrainFinding → TrainFinding
confirm a f =
    if f.id == a.finding_id
    then if is_confirmed f.confidence then f else record f {
      schema_field = a.approved_field;
      field_value = a.approved_value;
      confidence = confirmed;
      mapping_source = "manual_training";
    }
    else f

-- The number of findings that are `probable` or `unverified`.
abbrev pub unresolved : List TrainFinding → ℕ
unresolved fs = count_if (λ f. not (is_confirmed f.confidence)) fs

-- The new status, `normalising` once nothing is left.
abbrev pub resumed_status : ℕ → ConfigStatus
resumed_status remaining = if remaining == 0 then normalising else awaiting_training

unfoldable pub found_finding : Option TrainFinding → Result HttpException TrainFinding
found_finding none = err (http 404 "Finding not found")
found_finding (some f) = ok f

-- A finding is confirmed once, with one mapping. The three confidences are all there are, so the
-- refusal of any other is left out.
abbrev pub is_conflict : Approval → TrainFinding → Bool
is_conflict a f =
    is_confirmed f.confidence
    && (not (f.schema_field is a.approved_field) || not (f.field_value is a.approved_value))

module _ (user : Option ℕ) (vendor : String) where
  -- The lesson of a finding, and the state that is committed before the audit is resumed.
  unfoldable pub teach : Approval → State → TrainFinding → Result HttpException State
  teach a s f =
      raise_if (is_conflict a f) (http 409 "Finding was already confirmed with a different mapping")
      >>= λ _.
          learn user vendor (generate_pattern_signature f.raw_source_line) a.approved_field
            (record { raw_line = f.raw_source_line; field_value = a.approved_value }) s.mappings
          >>= λ mappings.
              let findings = map (confirm a) s.findings in
              ok (record {
                status = resumed_status (unresolved findings);
                findings = findings;
                mappings = mappings;
              })

  unfoldable pub train : Approval → State → Result HttpException State
  train a s =
      raise_if (is_blank a.approved_field) (http 400 "Missing finding_id or approved_schema_field")
      >> raise_if (not (is_awaiting s.status)) (http 409 "Configuration is not awaiting training")
      >> found_finding (find_finding a.finding_id s.findings)
      >>= λ f. teach a s f

  -- The dispatch of the audit where nothing is left; a failed one gives the claim back.
  unfoldable pub resume : Bool → State → State × Result HttpException (ℕ × Bool)
  resume dispatched s =
      let remaining = unresolved s.findings in
      if not (remaining == 0)
      then (s, ok (remaining, false))
      else if dispatched
      then (s, ok (remaining, true))
      else (
        record s { status = awaiting_training },
        err (http 503 "Training was saved but audit resume dispatch failed; retry this request"),
      )

  unfoldable pub after_train :
      Bool → State → Result HttpException State → State × Result HttpException (ℕ × Bool)
  after_train dispatched s (err e) = (s, err e)
  after_train dispatched s (ok s') = resume dispatched s'

  -- `submit_training` for a configuration that the user owns; `dispatched` where the queue takes the
  -- task.
  unfoldable pub submit_training : Bool → Approval → State → State × Result HttpException (ℕ × Bool)
  submit_training dispatched a s = after_train dispatched s (train a s)
