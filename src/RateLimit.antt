-- ===== src/RateLimit.antt =====
-- internal/ratelimit/ratelimit.go: token buckets. A time is a number of nanoseconds; the readings of
-- the clock do not go back. The amounts, float64 in the code, are exact here: a token is 60 * 10^9
-- parts, so that a rate of r requests per minute is r parts per nanosecond.
pub mod Laws
pub mod Window
mod Tests
use ragamuffin.Base.{
  ℕ, zero, suc, ◌+◌, ◌-◌, ◌*◌, ◌/◌, Bool, true, false, Option, none, some, List, [], ◌∷◌, ltb, leb,
  ◌==◌, if◌then◌else◌,
}
use ragamuffin.Text.{Text}
use ragamuffin.Text.Maps.{lookup, insert}

abbrev pub token : ℕ
token = 60000000000

abbrev pub second : ℕ
second = 1000000000

pub record Bucket : Type 0 where
  pub tokens : ℕ
  pub last_time : ℕ
  pub rate : ℕ
  pub capacity : ℕ

pub record Limiter : Type 0 where
  pub limits : List (Text × ℕ)
  pub buckets : List (Text × Bucket)
  pub enabled : Bool

-- New
unfoldable pub new_limiter : Bool → Limiter
new_limiter enabled = record { limits = []; buckets = []; enabled = enabled }

-- limits[key] of a Go map: 0 where there is none
unfoldable pub limit_of : Option ℕ → ℕ
limit_of none = 0
limit_of (some n) = n

unfoldable pub at_most : ℕ → ℕ → ℕ
at_most capacity tokens = if ltb capacity tokens then capacity else tokens

-- The bucket of the key under its new limit.
unfoldable pub resize : ℕ → ℕ → Bucket → Bucket
unfolding at_most
resize old rpm b =
    let tokens =
      if ltb (old * token) (rpm * token)
      then b.tokens + (rpm * token - old * token)
      else b.tokens in
    record {
      tokens = at_most (rpm * token) tokens;
      last_time = b.last_time;
      rate = rpm;
      capacity = rpm * token;
    }

-- SetLimit
unfoldable pub set_limit : Limiter → Text → ℕ → Limiter
set_limit l key rpm = record l {
  limits = insert key rpm l.limits;
  buckets = elim (lookup key l.buckets) [
    | none ↦ l.buckets
    | some b ↦ insert key (resize (limit_of (lookup key l.limits)) rpm b) l.buckets
  ];
}

-- The answer. The time that a refusal says to come back at is a quotient of floats that is cut to whole
-- seconds, and is left out.
pub data Answer : Type 0 where
  allowed : Answer
  retry_after : Answer

unfoldable pub full_bucket : ℕ → ℕ → Bucket
full_bucket rpm now = record {
  tokens = rpm * token;
  last_time = now;
  rate = rpm;
  capacity = rpm * token;
}

-- The bucket of the key, made if it is not there.
unfoldable pub bucket_of : ℕ → ℕ → Option Bucket → Bucket
unfolding full_bucket
bucket_of rpm now none = full_bucket rpm now
bucket_of rpm now (some b) = b

unfoldable pub refill : ℕ → Bucket → Bucket
unfolding at_most
refill now b = record b {
  tokens = at_most b.capacity (b.tokens + (now - b.last_time) * b.rate);
  last_time = now;
}

-- One request on a bucket that is filled up.
unfoldable pub take_token : Bucket → Bucket × Answer
take_token b =
    if leb token b.tokens
    then (record b { tokens = b.tokens - token }, allowed)
    else (b, retry_after)

-- Allow
unfoldable pub allow : Limiter → Text → ℕ → Limiter × Answer
allow l key now = elim l.enabled [
  | false ↦ (l, allowed)
  | true ↦ elim (lookup key l.limits) [
    | none ↦ (l, allowed)
    | some rpm ↦
        let (b, answer) = take_token (refill now (bucket_of rpm now (lookup key l.buckets))) in
        (record l { buckets = insert key b l.buckets }, answer)
  ]
]
