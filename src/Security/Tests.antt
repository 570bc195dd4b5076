-- ===== src/Security/Tests.antt =====
-- One-time codes, windows and sessions on concrete values.
use valsec.Prelude.{
  ℕ, String, false, Option, none, some, List, [], ◌∷◌, ◌≡◌, ◌≤◌, refl, err, arith, count_if, concat,
  if◌then◌else◌, show, codes, lookup, ◌is◌,
}
use valsec.Errors.{http}
use valsec.Security.{
  password_policy_error, Slot, otp_ok, otp_incorrect, otp_expired, issue_otp, check_code,
  verify_otp_at, verify_otp, create_session, resolve_session, destroy_session, find_user, user_of,
  user_of_session, get_current_user, require_some, require_user, require_verified_user,
  drop_session,
}
use valsec.Security.Codes.{
  guess_all, guess_all_bounded, verify_otp-issue_otp, is_answered, is_ok_outcome,
}

abbrev hash_code : String → String
hash_code code = concat ("#" ∷ code ∷ [])

abbrev slot : Slot
slot = record { otp = none; cooldown = false }

abbrev guesses : List String
guesses = "1" ∷ "2" ∷ "42" ∷ "42" ∷ []

guessed :
    guess_all hash_code 3 guesses (issue_otp hash_code "42" slot)
    ≡ otp_incorrect ∷ otp_incorrect ∷ otp_ok ∷ otp_expired ∷ []
unfolding guess_all verify_otp verify_otp_at check_code issue_otp
guessed = refl

guess_all_bounded_example :
    let outcomes = guess_all hash_code 3 guesses (issue_otp hash_code "42" slot) in
    (count_if is_answered outcomes ≤ 3) × (count_if is_ok_outcome outcomes ≤ 1)
guess_all_bounded_example = guess_all_bounded hash_code 3 "42" guesses slot (omega arith)

verify_otp-issue_otp_example :
    let (outcome, used) = verify_otp hash_code 3 "42" (issue_otp hash_code "42" slot) in
    (outcome ≡ otp_ok) × ((verify_otp hash_code 3 "42" used).0 ≡ otp_expired)
verify_otp-issue_otp_example = verify_otp-issue_otp hash_code 3 "42" "42" slot (omega arith)

abbrev sessions : List (String × String)
sessions = ("t", "1") ∷ ("u", "2") ∷ []

short_password : password_policy_error 8 "abc1" ≡ some "Password must be at least 8 characters."
unfolding password_policy_error codes show
short_password = refl

accepted_password : password_policy_error 8 "abcdefg1" ≡ none
unfolding password_policy_error codes
accepted_password = refl

abbrev parse_uuid : String → Option ℕ
parse_uuid text = if text is "1" then some 1 else none

unverified_user :
    require_verified_user parse_uuid
      (some "t")
      sessions
      (record { id = 1; email_verified = false } ∷ [])
    ≡ err (http 403 "Email address not verified.")
unfolding require_verified_user require_user require_some get_current_user user_of_session user_of
    find_user resolve_session lookup
unverified_user = refl

-- A session is opened, replaced for another user, and closed.
session_answers :
    let opened = create_session "a" "u2" (create_session "a" "u1" []) in
    (resolve_session "a" opened ≡ some "u2")
    × (resolve_session "a" (destroy_session "a" opened) ≡ none)
unfolding create_session resolve_session destroy_session drop_session lookup
session_answers = (refl, refl)
