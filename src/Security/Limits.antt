-- ===== src/Security/Limits.antt =====
-- How many requests a window lets through.
use valsec.Prelude.{ℕ, zero, suc, ◌+◌, ◌-◌, min, Option, none, some, ◌≡◌, arith, if◌then◌else◌}
use valsec.Security.{rate_limit}

-- The number of requests that are allowed, of a number of requests in one window.
pub allowed : ℕ → ℕ → ℕ → ℕ → Option ℕ → ℕ
allowed limit window ttl zero counter = 0
allowed limit window ttl (suc k) counter =
    let ((granted, wait), counter') = rate_limit limit window ttl counter in
    (if granted then 1 else 0) + allowed limit window ttl k counter'

abbrev count : Option ℕ → ℕ
count none = 0
count (some n) = n

allowed-min :
    (limit window ttl k : ℕ) (counter : Option ℕ)
    → allowed limit window ttl k counter ≡ min k (limit - count counter)
unfolding allowed rate_limit
allowed-min limit window ttl zero counter = omega arith
allowed-min limit window ttl (suc k) none = ground (arith, allowed-min limit window ttl k (some 1))
allowed-min limit window ttl (suc k) (some n) =
    ground (arith, allowed-min limit window ttl k (some (n + 1)))

-- Of any number of requests in a fresh window exactly as many are allowed as the limit says, or
-- all of them if they are fewer.
pub allowed-eq-min : (limit window ttl k : ℕ) → allowed limit window ttl k none ≡ min k limit
allowed-eq-min limit window ttl k = omega (arith, allowed-min limit window ttl k none)
