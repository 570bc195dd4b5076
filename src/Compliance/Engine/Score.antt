-- ===== src/Compliance/Engine/Score.antt =====
-- What the compliance score measures.
use valsec.Prelude.{
  ℕ, zero, suc, ◌/◌, ◌%◌, ltb, ◌==◌, ◌&&◌, ◌||◌, sym, ap, inl, inr, Bool-cases, ◌+◌, ◌*◌, ◌≤◌, ◌<◌,
  List, [], ◌∷◌, ◌≡◌, refl, ◌↔◌, length, count_if, arith,
}
use native.Mathlib.Nat.{div-add-mod, mul-le-mul_right, le_antisymm}
use native.Mathlib.Decide.{dec_le}
use valsec.Compliance.Verdicts.{is_pass, is_fail}
use valsec.Compliance.Engine.{
  ComplianceResult, round_div, percentage, applicable, calculate_compliance_score,
}

round_up_near :
    (a b q r : ℕ)
    → a ≡ b * q + r
    → r < b
    → b ≤ 2 * r
    → (2 * a ≤ 2 * ((q + 1) * b) + b) × (2 * ((q + 1) * b) ≤ 2 * a + b)
round_up_near a b q r e l h = omega arith

round_down_near :
    (a b q r : ℕ)
    → a ≡ b * q + r
    → 2 * r ≤ b
    → (2 * a ≤ 2 * (q * b) + b) × (2 * (q * b) ≤ 2 * a + b)
round_down_near a b q r e h = omega arith

-- The rounded quotient is off by half at most.
round_div_near :
    (a b : ℕ)
    → 0 < b
    → (2 * a ≤ 2 * (round_div a b * b) + b) × (2 * (round_div a b * b) ≤ 2 * a + b)
unfolding round_div
round_div_near a b h =
    let split : a ≡ b * (a / b) + a % b = sym (div-add-mod a b) in
    let small : a % b < b = omega arith in
    elim (Bool-cases (ltb b (2 * (a % b)) || (2 * (a % b) == b && a / b % 2 == 1))) [
      | inl up ↦ rw up (round_up_near a b (a / b) (a % b) split small (ground arith))
      | inr down ↦ rw down (round_down_near a b (a / b) (a % b) split (ground arith))
    ]

percentage_near :
    (p n : ℕ)
    → 0 < n
    → (2 * (p * 10000) ≤ 2 * (percentage p n * n) + n)
      × (2 * (percentage p n * n) ≤ 2 * (p * 10000) + n)
unfolding percentage
percentage_near p n h = ground (arith, round_div_near (p * 10000) n)

scaled_le : (q p n : ℕ) → 0 < n → p ≤ n → 2 * (q * n) ≤ 2 * (p * 10000) + n → q ≤ 10000
scaled_le q p n pos h near = elim (dec_le q 10000) [
  | yes fits ↦ fits
  | no large ↦
      let many : 10001 * n ≤ q * n = mul-le-mul_right n (omega arith) in absurd (omega arith)
]

pub percentage-le : (p n : ℕ) → p ≤ n → percentage p n ≤ 10000
percentage-le p zero h = unfold percentage in omega arith
percentage-le p (suc n) h =
    scaled_le (percentage p (suc n)) p (suc n) (omega arith) h
      (percentage_near p (suc n) (omega arith)).1

scaled_ge : (q n : ℕ) → 0 < n → 2 * (n * 10000) ≤ 2 * (q * n) + n → 10000 ≤ q
scaled_ge q n pos near = elim (dec_le 10000 q) [
  | yes fits ↦ fits
  | no small ↦ let few : q * n ≤ 9999 * n = mul-le-mul_right n (omega arith) in absurd (omega arith)
]

full_forward :
    (q p n : ℕ) → q ≡ 10000 → n < 20000 → p ≤ n → 2 * (q * n) ≤ 2 * (p * 10000) + n → p ≡ n
full_forward q p n e small h near =
    let whole : q * n ≡ 10000 * n = ap (λ (t : ℕ). t * n) e in omega arith

-- Up to 19999 controls, only a full house rounds to 100.00.
percentage_full_iff : (p n : ℕ) → p ≤ n → 0 < n → n < 20000 → (percentage p n ≡ 10000) ↔ (p ≡ n)
percentage_full_iff p n h pos small = (
  λ e. full_forward (percentage p n) p n e small h (percentage_near p n pos).1,
  λ e. rw e (
      le_antisymm (percentage-le n n (omega arith))
        (scaled_ge (percentage n n) n pos (percentage_near n n pos).0)),
)

pub passed_applicable :
    (rs : List ComplianceResult)
    → count_if (λ r. is_pass r.verdict) (applicable rs) ≡ count_if (λ r. is_pass r.verdict) rs
passed_applicable [] = refl
passed_applicable (r ∷ rs) = ground (arith, passed_applicable rs)

pub length-applicable :
    (rs : List ComplianceResult)
    → length (applicable rs)
      ≡ count_if (λ r. is_pass r.verdict) rs + count_if (λ r. is_fail r.verdict) rs
length-applicable [] = refl
length-applicable (r ∷ rs) = ground (arith, length-applicable rs)

-- The score as one quotient of counts.
pub score-eq-percentage :
    (rs : List ComplianceResult)
    → calculate_compliance_score rs
      ≡ percentage
          (count_if (λ r. is_pass r.verdict) rs)
          (count_if (λ r. is_pass r.verdict) rs + count_if (λ r. is_fail r.verdict) rs)
unfolding calculate_compliance_score
score-eq-percentage rs = ground (arith, passed_applicable rs, length-applicable rs)

full_house : (p f : ℕ) → p + f < 20000 → (percentage p (p + f) ≡ 10000) ↔ ((0 < p) × (f ≡ 0))
full_house zero zero small = (λ e. absurd (unfold percentage in omega arith), λ h. omega arith)
full_house p f small =
    let some_applicable : 0 < p + f = omega arith in
    let full = percentage_full_iff p (p + f) (omega arith) some_applicable small in
    (λ e. omega (arith, full.0 e), λ h. full.1 (omega arith))

-- With fewer than 20,000 applicable results a score is at most 100 per cent, and it is 100 per
-- cent exactly if some control passed and none failed.
pub calculate_compliance_score_full :
    (rs : List ComplianceResult)
    → length (applicable rs) < 20000
    → (calculate_compliance_score rs ≤ 10000)
      × ((calculate_compliance_score rs ≡ 10000) ↔ (
          (0 < count_if (λ r. is_pass r.verdict) rs) × (count_if (λ r. is_fail r.verdict) rs ≡ 0)))
calculate_compliance_score_full rs small =
    rw score-eq-percentage
      (percentage-le _ _ (omega arith), full_house _ _ (rw length-applicable at small))
