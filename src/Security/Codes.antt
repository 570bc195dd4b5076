-- ===== src/Security/Codes.antt =====
-- How often a one-time code may be tried, and how often it succeeds.
use valsec.Prelude.{
  ℕ, ◌+◌, ◌-◌, ◌≤◌, ◌<◌, max, String, Bool, true, false, Option, none, some, List, [], ◌∷◌,
  count_if, ◌≡◌, refl, ◌is◌, eq_refl, arith, leb, if◌then◌else◌,
}
use valsec.Security.{
  Otp, OtpOutcome, otp_ok, otp_expired, Slot, issue_otp, check_code, verify_otp_at, verify_otp,
}

abbrev pub is_ok_outcome : OtpOutcome → Bool
is_ok_outcome otp_ok = true
is_ok_outcome _ = false

-- The guess was held against a code.
abbrev pub is_answered : OtpOutcome → Bool
is_answered otp_expired = false
is_answered _ = true

module _ (hash_code : String → String) (most : ℕ) where
  -- The outcomes of guesses in a row.
  unfoldable pub guess_all : List String → Slot → List OtpOutcome
  guess_all [] s = []
  guess_all (g ∷ gs) s =
      let (outcome, s') = verify_otp hash_code most g s in outcome ∷ guess_all gs s'

  abbrev remaining : Option Otp → ℕ
  remaining none = 0
  remaining (some otp) = max 1 (most - otp.attempts)

  abbrev present : Option Otp → ℕ
  present none = 0
  present (some otp) = 1

  verify_step :
      (g : String) (o : Option Otp)
      → let (outcome, o') = verify_otp_at hash_code most g o in
        ((if is_answered outcome then 1 else 0) + remaining o' ≤ remaining o)
        × ((if is_ok_outcome outcome then 1 else 0) + present o' ≤ present o)
  unfolding verify_otp_at check_code
  verify_step g none = (omega arith, omega arith)
  verify_step g (some otp) = (ground arith, ground arith)

  guess_all-le :
      (gs : List String) (s : Slot)
      → (count_if is_answered (guess_all gs s) ≤ remaining s.otp)
        × (count_if is_ok_outcome (guess_all gs s) ≤ present s.otp)
  unfolding guess_all verify_otp
  guess_all-le [] s = (omega arith, omega arith)
  guess_all-le (g ∷ gs) s =
      let o = verify_otp_at hash_code most g s.otp in
      let step = verify_step g s.otp in
      let rest = guess_all-le gs (record s { otp = o.1 }) in
      (omega (arith, step, rest), omega (arith, step, rest))

  -- With a positive number of attempts, of all guesses made after a code is issued at most that
  -- number is held against the code, and at most one succeeds, whatever is guessed and however
  -- often.
  pub guess_all_bounded :
      (code : String) (gs : List String) (s : Slot)
      → 0 < most
      → let outcomes = guess_all gs (issue_otp hash_code code s) in
        (count_if is_answered outcomes ≤ most) × (count_if is_ok_outcome outcomes ≤ 1)
  unfolding issue_otp
  guess_all_bounded code gs s pos =
      let bound = guess_all-le gs (issue_otp hash_code code s) in
      (omega (arith, bound), omega (arith, bound))

  -- With a positive number of attempts, a code that was issued verifies, and whatever is tried
  -- after that finds it expired.
  pub verify_otp-issue_otp :
      (code later : String) (s : Slot)
      → 0 < most
      → let (outcome, used) = verify_otp hash_code most code (issue_otp hash_code code s) in
        (outcome ≡ otp_ok) × ((verify_otp hash_code most later used).0 ≡ otp_expired)
  unfolding verify_otp issue_otp verify_otp_at check_code
  verify_otp-issue_otp code later s pos =
      let same : (hash_code code is hash_code code) ≡ true = eq_refl (hash_code code) in
      let room : leb most 0 ≡ false = ground (arith, pos) in
      (rw (room, same) refl, rw (room, same) refl)
