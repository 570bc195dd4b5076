-- ===== src/Security.antt =====
-- The hosted-tier primitives (backend/security.py) over what Redis holds: the one-time code of one
-- email, the counter of one bucket, and the sessions. A key that has run out is absent. Random
-- values, the keyed hash and the remaining lifetimes are arguments.
pub mod Codes
pub mod Limits
pub mod Tests
use valsec.Prelude.{
  ℕ, suc, ◌+◌, String, Bool, true, false, not, ◌&&◌, ◌||◌, Option, none, some, List, [], ◌∷◌, any,
  length, ltb, leb, ◌==◌, ◌is◌, is_blank, strip, lower, codes, show, concat, if◌then◌else◌, Result,
  ok, err, ◌>>=◌, lookup,
}
use valsec.Errors.{HttpException, http}

abbrev pub normalize_email : String → String
normalize_email email = lower (strip email)

abbrev is_alpha : ℕ → Bool
is_alpha c = (leb b'a' c && leb c b'z') || (leb b'A' c && leb c b'Z')

abbrev is_digit : ℕ → Bool
is_digit c = leb b'0' c && leb c b'9'

unfoldable pub password_policy_error : ℕ → String → Option String
password_policy_error least password =
    if ltb (length (codes password)) least
    then some (concat ("Password must be at least " ∷ show least ∷ " characters." ∷ []))
    else if not (any is_alpha (codes password))
    then some "Password must contain at least one letter."
    else if not (any is_digit (codes password))
    then some "Password must contain at least one number."
    else none

pub record Otp : Type 0 where
  pub hash : String
  pub attempts : ℕ

-- `OTP_OK`, `OTP_INCORRECT`, `OTP_EXPIRED` and `OTP_TOO_MANY`.
pub data OtpOutcome : Type 0 where
  otp_ok otp_incorrect otp_expired otp_too_many : OtpOutcome

-- The keys of one email.
pub record Slot : Type 0 where
  pub otp : Option Otp
  pub cooldown : Bool

module _ (hash_code : String → String) where
  -- `issue_otp` with the code that was drawn.
  unfoldable pub issue_otp : String → Slot → Slot
  issue_otp code s = record {
    otp = some (record { hash = hash_code code; attempts = 0 });
    cooldown = true;
  }

  unfoldable pub check_code : ℕ → String → Otp → OtpOutcome × Option Otp
  check_code most code otp =
      if leb most otp.attempts
      then (otp_too_many, none)
      else if otp.hash is hash_code code
      then (otp_ok, none)
      else if leb most (otp.attempts + 1)
      then (otp_too_many, none)
      else (otp_incorrect, some (record otp { attempts = otp.attempts + 1 }))

  unfoldable pub verify_otp_at : ℕ → String → Option Otp → OtpOutcome × Option Otp
  verify_otp_at most code none = (otp_expired, none)
  verify_otp_at most code (some otp) = check_code most code otp

  -- `verify_otp` with OTP_MAX_ATTEMPTS.
  unfoldable pub verify_otp : ℕ → String → Slot → OtpOutcome × Slot
  unfolding verify_otp_at
  verify_otp most code s =
      let (outcome, otp) = verify_otp_at most code s.otp in (outcome, record s { otp = otp })

-- `ttl if ttl and ttl > 0 else 0`, where a key that is absent answers nothing.
abbrev pub wait_seconds : Option ℕ → ℕ
wait_seconds none = 0
wait_seconds (some ttl) = ttl

-- The counter of a bucket after `incr`, and the answer.
abbrev pub hits : Option ℕ → ℕ
hits none = 1
hits (some n) = n + 1

-- `rate_limit` where Redis answers, with the lifetime that is left; and where it does not.
unfoldable pub rate_limit : ℕ → ℕ → ℕ → Option ℕ → (Bool × ℕ) × Option ℕ
rate_limit limit window ttl counter =
    let n = hits counter in
    if ltb limit n
    then ((false, if ltb 0 ttl then ttl else window), some n)
    else ((true, 0), some n)

abbrev pub rate_limit_down : Bool × ℕ
rate_limit_down = (true, 0)

unfoldable pub enforce_rate_limit : Bool × ℕ → Result HttpException (Unit {0})
enforce_rate_limit (true, retry) = ok tt
enforce_rate_limit (false, retry) =
    err (http 429 (concat ("Too many requests. Try again in " ∷ show retry ∷ "s." ∷ [])))

-- The sessions by their tokens.
unfoldable pub drop_session : String → List (String × String) → List (String × String)
drop_session token [] = []
drop_session token ((t, u) ∷ rest) =
    let kept = drop_session token rest in if t is token then kept else (t, u) ∷ kept

-- `create_session` with the token that was drawn.
unfoldable pub create_session : String → String → List (String × String) → List (String × String)
create_session token user_id sessions = (token, user_id) ∷ drop_session token sessions

unfoldable pub resolve_session : String → List (String × String) → Option String
resolve_session token sessions = if is_blank token then none else lookup token sessions

unfoldable pub destroy_session : String → List (String × String) → List (String × String)
destroy_session token sessions = if is_blank token then sessions else drop_session token sessions

pub record User : Type 0 where
  pub id : ℕ
  pub email_verified : Bool

unfoldable pub find_user : ℕ → List User → Option User
find_user id [] = none
find_user id (u ∷ us) = if u.id == id then some u else find_user id us

module _ (parse_uuid : String → Option ℕ) where
  unfoldable pub user_of : Option ℕ → List User → Option User
  user_of none users = none
  user_of (some id) users = find_user id users

  unfoldable pub user_of_session : Option String → List User → Option User
  user_of_session none users = none
  user_of_session (some text) users =
      if is_blank text then none else user_of (parse_uuid text) users

  abbrev pub token_of : Option String → String
  token_of none = ""
  token_of (some token) = token

  -- `get_current_user` with the cookie of the request.
  unfoldable pub get_current_user : Option String → List (String × String) → List User → Option User
  get_current_user cookie sessions users =
      user_of_session (resolve_session (token_of cookie) sessions) users

  unfoldable pub require_some : Option User → Result HttpException User
  require_some none = err (http 401 "Authentication required.")
  require_some (some user) = ok user

  unfoldable pub require_user :
      Option String → List (String × String) → List User → Result HttpException User
  require_user cookie sessions users = require_some (get_current_user cookie sessions users)

  unfoldable pub require_verified_user :
      Option String → List (String × String) → List User → Result HttpException User
  require_verified_user cookie sessions users = require_user cookie sessions users >>= λ user.
      if not user.email_verified then err (http 403 "Email address not verified.") else ok user
