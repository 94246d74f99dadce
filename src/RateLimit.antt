-- ===== src/RateLimit.antt =====
-- internal/ratelimit/ratelimit.go: one token bucket for each caller.
mod Tests
pub mod Isolation
use opencost_ai.Prelude.{ℕ, ◌*◌, ◌/◌, ◌^◌, Bool, true, not, [], Option, none, some, if◌then◌else◌}
use opencost_ai.Prelude.Int.{ℤ, pos, negsuc, pos_part, is_positive}
use opencost_ai.Text.{Bytes}
use opencost_ai.Text.Dict.{Dict, lookup, insert}

-- What the package uses of golang.org/x/time/rate: a bucket's `Allow` at an instant returns
-- whether a token was there, and the bucket as it leaves it.
pub record RateLibrary : Type 1 where
  pub Rate : Type 0
  pub Bucket : Type 0
  pub zero_rate : Rate
  pub every : ℤ → Rate
  pub new_limiter : Rate → ℤ → Bucket
  pub allow : ℕ → Bucket → Bool × Bucket

-- `time.Minute`, in nanoseconds
abbrev pub minute : ℕ
minute = 60 * 10 ^ 9

-- `time.Minute / time.Duration(perMinute)`; Go's division truncates towards 0
unfoldable pub interval : ℕ → ℕ
interval per_minute = minute / per_minute

module _ (lib : RateLibrary) where
  open lib use {Rate, Bucket, zero_rate, every, new_limiter, allow as bucket_allow}

  pub record Limiter : Type 0 where
    pub per_minute : ℤ
    pub limit : Rate
    pub burst : ℤ
    pub limiters : Dict Bucket

  unfoldable pub new : ℤ → Limiter
  new per_minute =
      if not (is_positive per_minute)
      then record { per_minute = pos 0; limit = zero_rate; burst = pos 0; limiters = [] }
      else record {
        per_minute = per_minute;
        limit = every (pos (interval (pos_part per_minute)));
        burst = per_minute;
        limiters = [];
      }

  unfoldable pub enabled : Limiter → Bool
  enabled l = is_positive l.per_minute

  abbrev with_bucket : Limiter → Bytes → Bool × Bucket → Bool × Limiter
  with_bucket l caller (granted, b) = (granted, record l { limiters = insert caller b l.limiters })

  abbrev found_or : Bucket → Option Bucket → Bucket
  found_or fresh none = fresh
  found_or fresh (some b) = b

  -- The bucket of a caller, created on first use.
  unfoldable pub bucket_of : Limiter → Bytes → Bucket
  bucket_of l caller = found_or (new_limiter l.limit l.burst) (lookup caller l.limiters)

  -- `Allow` at instant `now`. The stored pointer is the bucket itself, so what `rl.Allow()` does to
  -- it is stored too.
  unfoldable pub allow : ℕ → Bytes → Limiter → Bool × Limiter
  allow now caller l =
      if not (is_positive l.per_minute)
      then (true, l)
      else with_bucket l caller (bucket_allow now (bucket_of l caller))
