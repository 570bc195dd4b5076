-- ===== src/Training/Tests.antt =====
-- The lessons of two users.
use valsec.Prelude.{
  true, false, some, [], ◌∷◌, ◌≡◌, refl, ok, ◌==◌, is_blank, strip, codes, join, words,
}
use valsec.Mission.Campaign.{awaiting_training, normalising}
use valsec.Audit.{unverified, confirmed}
use valsec.Training.{
  LearnedMapping, is_keyword, generate_pattern_signature, resolve, TrainFinding, Approval, State,
  find_finding, put_example, learn, unresolved, resumed_status, found_finding, teach, train, resume,
  after_train, submit_training,
}
use valsec.Training.RoundTrip.{submit_training-resolve}

-- A lower-case name is taken for a keyword, and stays in the pattern.
signature :
    generate_pattern_signature "username admin password 7 0102030405"
    ≡ "username admin password .* .*"
unfolding generate_pattern_signature is_keyword words join strip codes
signature = refl

abbrev finding : TrainFinding
finding = record {
  id = 3;
  schema_field = "unrecognized";
  field_value = "{}";
  raw_source_line = "clock 12";
  confidence = unverified;
  mapping_source = "parser";
}

abbrev mapping : LearnedMapping
mapping = record {
  user_id = some 1;
  vendor = "cisco";
  pattern_signature = "clock .*";
  schema_field = "ntp.enabled";
  examples = record { raw_line = "clock 9"; field_value = "false" } ∷ [];
}

abbrev state : State
state = record { status = awaiting_training; findings = finding ∷ []; mappings = mapping ∷ [] }

abbrev approval : Approval
approval = record { finding_id = 3; approved_field = "ntp.enabled"; approved_value = "true" }

abbrev after : State
after = record {
  status = normalising;
  findings =
      record finding {
        schema_field = "ntp.enabled";
        field_value = "true";
        confidence = confirmed;
        mapping_source = "manual_training";
      }
      ∷ [];
  mappings =
      record mapping {
        examples =
            record { raw_line = "clock 9"; field_value = "false" }
            ∷ record { raw_line = "clock 12"; field_value = "true" }
            ∷ [];
      }
      ∷ [];
}

taught : submit_training (some 1) "cisco" true approval state ≡ (after, ok (0, true))
unfolding submit_training after_train train teach resume found_finding find_finding learn
    put_example generate_pattern_signature is_keyword words join strip codes
taught = refl

found : find_finding 3 state.findings ≡ some finding
unfolding find_finding
found = refl

filled : is_blank (strip "clock 12") ≡ false
unfolding strip
filled = refl

submit_training-resolve_example :
    (resolve (some 1) "cisco" "clock 12" after.mappings
      ≡ some (record { schema_field = "ntp.enabled"; field_value = some "true" }))
    × (resolve (some 2) "cisco" "clock 12" after.mappings
        ≡ resolve (some 2) "cisco" "clock 12" (mapping ∷ []))
    × (unresolved after.findings ≡ 0)
    × (after.status ≡ resumed_status 0)
    × (true ≡ (0 == 0))
submit_training-resolve_example =
    submit_training-resolve (some 1) "cisco" true approval finding state (some 2) "cisco" "clock 12"
      found filled refl taught
