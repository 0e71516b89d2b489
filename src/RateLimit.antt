-- ===== src/RateLimit.antt =====
-- The limiter of login attempts (backend/app/core/rate_limit.py). Times are nanoseconds, of the
-- monotonic clock for the window in memory.
pub mod Window
mod Tests
use filum_reforge.Base.{
  ℕ, ◌+◌, ◌-◌, ◌*◌, ◌/◌, max, String, Bool, true, false, ◌||◌, Option, none, some, List, [], ◌∷◌,
  ◌++◌, ◌==◌, Dict, lookup, insert, if◌then◌else◌, leb, ltb, nat_eq, length,
}

pub record RateLimitDecision : Type 0 where
  pub allowed : Bool
  pub retry_after : Option ℕ
  pub backend_unavailable : Bool

abbrev pub allow : RateLimitDecision
allow = record { allowed = true; retry_after = none; backend_unavailable = false }

-- Nanoseconds in a second.
abbrev pub second : ℕ
second = 1000000000

-- `limit <= 0 or window_seconds <= 0`; a setting below 0 acts as 0.
unfoldable pub is_off : ℕ → ℕ → Bool
is_off limit window_seconds = nat_eq limit 0 || nat_eq window_seconds 0

-- `while bucket and bucket[0] <= cutoff: bucket.popleft()`
unfoldable pub drop_old : ℕ → ℕ → List ℕ → List ℕ
drop_old window now [] = []
drop_old window now (hit ∷ hits) =
    let rest = drop_old window now hits in if leb (hit + window) now then rest else hit ∷ hits

-- The hits of a key; a key that is not there has none.
unfoldable pub bucket_of : String → Dict (List ℕ) → List ℕ
bucket_of key hits = elim (lookup key hits) [ some bucket ↦ bucket | none ↦ [] ]

-- `max(1, int(window_seconds - (now - bucket[0])))`
unfoldable pub seconds_left : ℕ → ℕ → List ℕ → ℕ
seconds_left window now [] = 1
seconds_left window now (hit ∷ hits) = max 1 ((window - (now - hit)) / second)

-- The part of `check` that works on the bucket.
unfoldable pub check_bucket : ℕ → ℕ → ℕ → List ℕ → RateLimitDecision × List ℕ
check_bucket limit window now bucket =
    let recent = drop_old window now bucket in
    if leb limit (length recent)
    then (
      record {
        allowed = false;
        retry_after = some (seconds_left window now recent);
        backend_unavailable = false;
      },
      recent,
    )
    else (allow, recent ++ (now ∷ []))

-- `InMemoryRateLimiter.check`, which the lock makes one step.
unfoldable pub check : String → ℕ → ℕ → ℕ → Dict (List ℕ) → RateLimitDecision × Dict (List ℕ)
check key limit window_seconds now hits =
    let (decision, bucket) =
      check_bucket limit (window_seconds * second) now (bucket_of key hits) in
    if is_off limit window_seconds then (allow, hits) else (decision, insert key bucket hits)

-- The answer of the script in Redis, if there is one: the counter and the time to live.
unfoldable pub judge_counter : ℕ → ℕ → ℕ → ℕ → RateLimitDecision
judge_counter limit window_seconds current ttl =
    if ltb limit current
    then record {
      allowed = false;
      retry_after = some (max 1 (if ltb 0 ttl then ttl else window_seconds));
      backend_unavailable = false;
    }
    else allow

-- `RedisRateLimiter.check`. `none` is a call of Redis that failed.
unfoldable pub check_redis :
    String → Option (ℕ × ℕ) → String → ℕ → ℕ → ℕ → Dict (List ℕ) → RateLimitDecision × Dict (List ℕ)
check_redis fail_mode reply key limit window_seconds now hits =
    if is_off limit window_seconds then (allow, hits) else elim reply [
      | some (current, ttl) ↦ (judge_counter limit window_seconds current ttl, hits)
      | none ↦ if fail_mode == "memory" then check key limit window_seconds now hits else (
        record {
          allowed = false;
          retry_after = some (max 1 window_seconds);
          backend_unavailable = true;
        },
        hits,
      )
    ]
