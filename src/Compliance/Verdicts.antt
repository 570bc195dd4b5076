-- ===== src/Compliance/Verdicts.antt =====
-- The verdicts and the control record that the catalogues share, and the evaluators that
-- backend/compliance/cis_cisco_ios.py and catalogues.py both define.
use valsec.Prelude.{
  ℕ, String, Bool, true, false, Option, none, some, [], ◌∷◌, Bool, leb, show, concat, if◌then◌else◌,
}
use valsec.Schema.{Number, whole, ratio, number_le, VendorNeutralConfig}

pub data Verdict : Type 0 where
  pass fail not_applicable : Verdict

-- A verdict and its observed detail.
abbrev pub Evaluation : Type 0
Evaluation = Verdict × String

pub data Severity : Type 0 where
  critical high medium low informational : Severity

pub record Control : Type 0 where
  pub control_id : String
  pub title : String
  pub framework : String
  pub severity : Severity
  pub evaluate : VendorNeutralConfig → Evaluation
  pub remediation_reference : String

abbrev pub is_pass : Verdict → Bool
is_pass pass = true
is_pass _ = false

abbrev pub is_fail : Verdict → Bool
is_fail fail = true
is_fail _ = false

abbrev pub is_na : Verdict → Bool
is_na not_applicable = true
is_na _ = false

-- `x is True` and `x is False`.
abbrev pub is_true : Option Bool → Bool
is_true (some true) = true
is_true _ = false

abbrev pub is_false : Option Bool → Bool
is_false (some false) = true
is_false _ = false

unfoldable pub missing : String → Evaluation
missing label =
    (not_applicable, concat (label ∷ " was not observed in the normalized configuration." ∷ []))

-- `_bool_requirement` and `_required_bool`.
unfoldable pub required_bool : Option Bool → String → Evaluation
unfolding missing
required_bool none label = missing label
required_bool (some true) label = (pass, concat (label ∷ " is configured." ∷ []))
required_bool (some false) label = (fail, concat (label ∷ " is not configured." ∷ []))

unfoldable pub minimum : Option ℕ → ℕ → String → String → Evaluation
unfolding missing
minimum none least label unit = missing label
minimum (some value) least label unit =
    if leb least value
    then (
      pass,
      concat (
          label
          ∷ " is "
          ∷ show value
          ∷ " "
          ∷ unit
          ∷ ", meeting the minimum of "
          ∷ show least
          ∷ "."
          ∷ []),
    )
    else (
      fail,
      concat (
          label
          ∷ " is "
          ∷ show value
          ∷ " "
          ∷ unit
          ∷ ", below the minimum of "
          ∷ show least
          ∷ "."
          ∷ []),
    )

-- How Python prints the float `n / d` is not modelled.
module _ (float_text : ℕ → ℕ → String) where
  unfoldable pub show_number : Number → String
  show_number (whole n) = show n
  show_number (ratio n d) = float_text n d

  -- `_maximum` and `_max`.
  unfoldable pub maximum : Option Number → ℕ → String → String → Evaluation
  unfolding missing number_le show_number
  maximum none most label unit = missing label
  maximum (some value) most label unit =
      if number_le value most
      then (
        pass,
        concat (
            label
            ∷ " is "
            ∷ show_number value
            ∷ " "
            ∷ unit
            ∷ ", within the maximum of "
            ∷ show most
            ∷ "."
            ∷ []),
      )
      else (
        fail,
        concat (
            label
            ∷ " is "
            ∷ show_number value
            ∷ " "
            ∷ unit
            ∷ ", above the maximum of "
            ∷ show most
            ∷ "."
            ∷ []),
      )
