-- ===== src/Extraction/Cooldown/Tests.antt =====
-- Runs of the tracker, and its theorems at concrete inputs.
use ragamuffin.Base.{ℕ, ◌*◌, ◌≡◌, refl, true, false, List, [], ◌∷◌, arith}
use ragamuffin.Text.{Text, codes, same_text}
use ragamuffin.Text.Maps.{lookup, insert}
use ragamuffin.Extraction.Cooldown.{
  CooldownTracker, new_cooldown_tracker, evict, in_cooldown, acquire, try_acquire,
}
use ragamuffin.Extraction.Cooldown.Laws.{answers, plain_answers, answers-plain_answers}
use ragamuffin.Extraction.Cooldown.Pause.{granted, granted-try_acquire}

program : Unit {0}
unfolding new_cooldown_tracker evict in_cooldown acquire try_acquire answers lookup insert same_text
program = tt

abbrev minute : CooldownTracker
minute = new_cooldown_tracker 60

abbrev sec : ℕ → ℕ
sec n = n * 1000000000

abbrev calls : List (Text × ℕ)
calls =
    (codes "a", sec 0)
    ∷ (codes "a", sec 59)
    ∷ (codes "b", sec 59)
    ∷ (codes "a", sec 60)
    ∷ (codes "b", sec 200)
    ∷ []

in_turn : answers minute calls ≡ true ∷ false ∷ true ∷ true ∷ true ∷ []
unfolding program
in_turn = refl

answers-plain_answers_example : answers minute calls ≡ plain_answers minute calls
unfolding new_cooldown_tracker
answers-plain_answers_example =
    answers-plain_answers minute 0 calls tt
      (omega arith, (omega arith, (omega arith, (omega arith, (omega arith, tt)))))

granted-try_acquire_example :
    granted
      (codes "a")
      (try_acquire minute (codes "a") 5).0
      ((codes "b", sec 1) ∷ (codes "a", sec 60) ∷ [])
    ≡ 0
unfolding program
granted-try_acquire_example =
    granted-try_acquire minute (codes "a") 5 ((codes "b", sec 1) ∷ (codes "a", sec 60) ∷ []) tt refl
      (omega arith, omega arith, (omega arith, omega arith, tt))
