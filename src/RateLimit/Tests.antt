-- ===== src/RateLimit/Tests.antt =====
-- Runs of the limiter, and its theorems at concrete inputs.
use ragamuffin.Base.{ℕ, ◌+◌, ◌-◌, ◌*◌, ◌≤◌, ◌≡◌, refl, true, some, List, [], ◌∷◌, arith}
use ragamuffin.Text.{Text, codes, same_text}
use ragamuffin.Text.Maps.{lookup, insert}
use ragamuffin.RateLimit.{
  token, Bucket, Limiter, new_limiter, set_limit, limit_of, resize, at_most, full_bucket, bucket_of,
  refill, take_token, allow,
}
use ragamuffin.RateLimit.Laws.{IsValid, IsValid-new_limiter, IsValid-set_limit}
use ragamuffin.RateLimit.Window.{allowed_calls, is_allowed, allowed_calls_le}

program : Unit {0}
unfolding allow set_limit new_limiter limit_of resize at_most full_bucket bucket_of refill
    take_token allowed_calls is_allowed lookup insert same_text
program = tt

abbrev two_a_minute : Limiter
two_a_minute = set_limit (new_limiter true) (codes "/draft") 2

abbrev minute : ℕ
minute = 60000000000

abbrev requests : List (Text × ℕ)
requests =
    (codes "/draft", 0)
    ∷ (codes "/draft", 1)
    ∷ (codes "/query", 2)
    ∷ (codes "/draft", 3)
    ∷ (codes "/draft", minute)
    ∷ []

-- Two at once, none right behind them, and one after half a minute or more.
three_allowed : allowed_calls (codes "/draft") two_a_minute requests ≡ 3
unfolding program
three_allowed = refl

IsValid-two_a_minute : IsValid two_a_minute
IsValid-two_a_minute =
    IsValid-set_limit (new_limiter true) (codes "/draft") 2 (IsValid-new_limiter true)

no_bucket_yet :
    (b : Bucket) → lookup (codes "/draft") two_a_minute.buckets ≡ some b → b.last_time ≤ 0
unfolding program
no_bucket_yet b e = absurd (ground (arith, e))

allowed_calls_le_example :
    allowed_calls (codes "/draft") two_a_minute requests * token ≤ 2 * token + (minute - 0) * 2
unfolding set_limit new_limiter lookup insert same_text
allowed_calls_le_example =
    allowed_calls_le (codes "/draft") 2 two_a_minute requests 0 minute IsValid-two_a_minute refl
      refl no_bucket_yet
      (omega arith, (omega arith, (omega arith, (omega arith, (omega arith, omega arith)))))
