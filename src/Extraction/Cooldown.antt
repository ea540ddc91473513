-- ===== src/Extraction/Cooldown.antt =====
-- CooldownTracker of internal/extraction/cooldown.go. A time is a number of nanoseconds; the readings
-- of the clock do not go back. The mutex makes a call one step.
pub mod Entries
pub mod Laws
pub mod Pause
mod Tests
use ragamuffin.Base.{
  ℕ, zero, suc, ◌+◌, ◌-◌, ◌*◌, Bool, true, false, Option, none, some, List, [], ◌∷◌, ltb,
  if◌then◌else◌, ◌==◌,
}
use ragamuffin.Text.{Text}
use ragamuffin.Text.Maps.{lookup, insert, delete}

pub record CooldownTracker : Type 0 where
  pub interval : ℕ
  pub last : List (Text × ℕ)

-- NewCooldownTracker; an interval that is not positive is no pause, as 0 is.
unfoldable pub new_cooldown_tracker : ℕ → CooldownTracker
new_cooldown_tracker interval_sec = record { interval = interval_sec * 1000000000; last = [] }

-- The sweep: entries more than twice the interval old are deleted.
unfoldable pub evict : ℕ → ℕ → List (Text × ℕ) → List (Text × ℕ)
evict interval now [] = []
evict interval now ((sid, t) ∷ m) =
    let rest = evict interval now m in if ltb (t + 2 * interval) now then rest else (sid, t) ∷ rest

unfoldable pub in_cooldown : ℕ → ℕ → Option ℕ → Bool
in_cooldown interval now none = false
in_cooldown interval now (some t) = ltb (now - t) interval

-- What is left of the call behind the sweep.
unfoldable pub acquire : Text → ℕ → CooldownTracker → CooldownTracker × Bool
unfolding in_cooldown
acquire sid now ct =
    if in_cooldown ct.interval now (lookup sid ct.last)
    then (ct, false)
    else (record ct { last = insert sid now ct.last }, true)

-- TryAcquire
unfoldable pub try_acquire : CooldownTracker → Text → ℕ → CooldownTracker × Bool
unfolding evict acquire
try_acquire ct sid now =
    if ct.interval == 0
    then (record ct { last = insert sid now ct.last }, true)
    else acquire sid now (record ct { last = evict ct.interval now ct.last })

-- ResetCooldown
unfoldable pub reset_cooldown : CooldownTracker → Text → CooldownTracker
reset_cooldown ct sid = record ct { last = delete sid ct.last }
