-- ===== src/Training/Mappings.antt =====
-- What the table of learned mappings answers once a mapping was taught.
use valsec.Prelude.{
  ℕ, String, true, false, not, Option, none, some, List, [], ◌∷◌, ◌≡◌, refl, ap, ◌∙◌, ok, >>=-eq-ok,
  if-eq, inl, inr, Bool-cases, arith, eq_refl, eq_iff, ◌is◌, ==_iff,
}
use valsec.Mission.Types.{same_id}
use valsec.Training.{
  Example, LearnedMapping, exact_example, mapping_example, is_mapping_of, find_mapping, put_example,
  learn,
}

exact_example-put_example :
    (e : Example) (es : List Example) → exact_example e.raw_line (put_example e es) ≡ some e
unfolding exact_example put_example
exact_example-put_example e [] = rw (eq_refl e.raw_line) refl
exact_example-put_example e (old ∷ es) = elim (Bool-cases (old.raw_line is e.raw_line)) [
  | inl same ↦ rw (same, eq_refl e.raw_line) refl
  | inr other ↦ rw (other, other) (exact_example-put_example e es)
]

pub mapping_example-put_example :
    (e : Example) (es : List Example) → mapping_example e.raw_line (put_example e es) ≡ some e
unfolding mapping_example
mapping_example-put_example e es = rw (exact_example-put_example e es, mapping_example) refl

same_id_refl : (a : Option ℕ) → same_id a a ≡ true
same_id_refl none = refl
same_id_refl (some n) = ground arith

same_id-eq : (a b : Option ℕ) → same_id a b ≡ true → a ≡ b
same_id-eq none none e = refl
same_id-eq none (some b) e = cc
same_id-eq (some a) none e = cc
same_id-eq (some a) (some b) e = ap some ((==_iff a b).0 e)

is_mapping_of-new :
    (user : Option ℕ) (vendor pattern field : String) (examples : List Example)
    → is_mapping_of user vendor pattern (record {
      user_id = user;
      vendor = vendor;
      pattern_signature = pattern;
      schema_field = field;
      examples = examples;
    })
      ≡ true
is_mapping_of-new user vendor pattern field examples =
    rw (same_id_refl user, eq_refl vendor, eq_refl pattern) refl

-- What the mapping of the line answers.
abbrev pub Taught : String → Example → Option LearnedMapping → Type 0
Taught field example found =
    (m : LearnedMapping) × (found ≡ some m)
    × (m.schema_field ≡ field)
    × (mapping_example example.raw_line m.examples ≡ some example)

module _ (user : Option ℕ) (vendor pattern field : String) (example : Example) where
  pub find_mapping-learn :
      (ms : List LearnedMapping) {ms' : List LearnedMapping}
      → learn user vendor pattern field example ms ≡ ok ms'
      → Taught field example (find_mapping user vendor pattern ms')
  unfolding learn find_mapping put_example
  find_mapping-learn [] {ms'} e =
      let new : LearnedMapping = record {
        user_id = user;
        vendor = vendor;
        pattern_signature = pattern;
        schema_field = field;
        examples = example ∷ [];
      } in
      let at : new ∷ [] ≡ ms' = cc in
      rw (← at, is_mapping_of-new user vendor pattern field (example ∷ []))
        (new, refl, refl, mapping_example-put_example example [])
  find_mapping-learn (m ∷ ms) {ms'} e = elim (if-eq (is_mapping_of user vendor pattern m) e) [
    | inl (mine, e1) ↦ elim (if-eq (not (m.schema_field is field)) e1) [
      | inl (differs, e2) ↦ cc
      | inr (same, e2) ↦
          let at : record m { examples = put_example example m.examples } ∷ ms ≡ ms' = cc in
          let named : m.schema_field ≡ field = (eq_iff _ _).0 (ground (arith, same)) in
          rw (← at, mine)
            (
              record m { examples = put_example example m.examples },
              refl,
              named,
              mapping_example-put_example example m.examples,
            )
    ]
    | inr (other, e1) ↦
        let (others, rest, e2) = >>=-eq-ok (learn user vendor pattern field example ms) _ e1 in
        let at : m ∷ others ≡ ms' = cc in rw (← at, other) (find_mapping-learn ms rest)
  ]

  -- Another user's answers stay.
  pub find_mapping-learn_other :
      (user' : Option ℕ) (vendor' pattern' : String) (ms : List LearnedMapping)
      {ms' : List LearnedMapping}
      → same_id user user' ≡ false
      → learn user vendor pattern field example ms ≡ ok ms'
      → find_mapping user' vendor' pattern' ms' ≡ find_mapping user' vendor' pattern' ms
  unfolding learn find_mapping
  find_mapping-learn_other user' vendor' pattern' [] {ms'} differ e =
      let new : LearnedMapping = record {
        user_id = user;
        vendor = vendor;
        pattern_signature = pattern;
        schema_field = field;
        examples = example ∷ [];
      } in
      let at : new ∷ [] ≡ ms' = cc in rw (← at, differ) refl
  find_mapping-learn_other user' vendor' pattern' (m ∷ ms) {ms'} differ e =
      elim (if-eq (is_mapping_of user vendor pattern m) e) [
        | inl (mine, e1) ↦ elim (if-eq (not (m.schema_field is field)) e1) [
          | inl (differs, e2) ↦ cc
          | inr (same, e2) ↦
              let at : record m { examples = put_example example m.examples } ∷ ms ≡ ms' = cc in
              let owner : m.user_id ≡ user = same_id-eq _ _ (ground (arith, mine)) in
              let foreign : same_id m.user_id user' ≡ false =
                ap (λ u. same_id u user') owner ∙ differ in
              rw (← at, foreign) refl
        ]
        | inr (other, e1) ↦
            let (others, rest, e2) = >>=-eq-ok (learn user vendor pattern field example ms) _ e1 in
            let at : m ∷ others ≡ ms' = cc in
            rw (← at, find_mapping-learn_other user' vendor' pattern' ms differ rest) refl
      ]
