-- ===== src/Extraction/Cooldown/Laws.antt =====
-- The sweep changes no answer, and the pause is kept.
use ragamuffin.Base.{
  ℕ, ◌+◌, ◌*◌, ◌≤◌, ◌≡◌, refl, sym, inl, inr, ◌⊎◌, Bool, true, false, Option, none, some, List, [],
  ◌∷◌, arith, if◌then◌else◌, Bool-cases, ltb, ltb→lt, ◌==◌,
}
use ragamuffin.Text.{Text, same_text}
use ragamuffin.Text.Maps.{lookup, insert, lookup-insert}
use ragamuffin.Extraction.Cooldown.{CooldownTracker, evict, in_cooldown, acquire, try_acquire}
use ragamuffin.Extraction.Cooldown.Entries.{
  IsUnique, IsUnique-insert, IsUnique-evict, kept, lookup-evict,
}

-- A tracker that forgets nothing.
unfoldable pub try_plainly : CooldownTracker → Text → ℕ → CooldownTracker × Bool
try_plainly ct sid now =
    if ct.interval == 0
    then (record ct { last = insert sid now ct.last }, true)
    else acquire sid now ct

-- The answers to a sequence of calls.
unfoldable pub answers : CooldownTracker → List (Text × ℕ) → List Bool
answers ct [] = []
answers ct ((sid, now) ∷ calls) =
    (try_acquire ct sid now).1 ∷ answers (try_acquire ct sid now).0 calls

unfoldable pub plain_answers : CooldownTracker → List (Text × ℕ) → List Bool
plain_answers ct [] = []
plain_answers ct ((sid, now) ∷ calls) =
    (try_plainly ct sid now).1 ∷ plain_answers (try_plainly ct sid now).0 calls

-- The readings of the clock do not go back.
abbrev pub IsFrom : ℕ → List (Text × ℕ) → Type 0
IsFrom start [] = Unit
IsFrom start ((sid, now) ∷ calls) = (start ≤ now) × IsFrom now calls

-- An entry is the same, or was dropped when its pause was over.
abbrev pub IsForgotten : ℕ → ℕ → Option ℕ → Option ℕ → Type 0
IsForgotten interval now a b =
    (a ≡ b) ⊎ ((a ≡ none) × ((t : ℕ) × (b ≡ some t) × (t + interval ≤ now)))

abbrev pub IsTrimmed : ℕ → CooldownTracker → CooldownTracker → Type 0
IsTrimmed now ct plain =
    (ct.interval ≡ plain.interval)
    × ((sid : Text) → IsForgotten ct.interval now (lookup sid ct.last) (lookup sid plain.last))

IsForgotten-kept :
    (interval start now : ℕ) (a b : Option ℕ)
    → start ≤ now
    → IsForgotten interval start a b
    → IsForgotten interval now (kept interval now a) b
unfolding kept
IsForgotten-kept interval start now none b h (inl e) = inl e
IsForgotten-kept interval start now (some t) b h (inl e) =
    elim (Bool-cases (ltb (t + 2 * interval) now)) [
      | inl f ↦ rw f (inr (refl, (t, sym e, omega (arith, ltb→lt _ _ f))))
      | inr f ↦ rw f (inl e)
    ]
IsForgotten-kept interval start now a b h (inr (e, (t, f, g))) =
    rw e (inr (refl, (t, f, omega arith)))

in_cooldown-IsForgotten :
    (interval now : ℕ) (a b : Option ℕ)
    → IsForgotten interval now a b
    → in_cooldown interval now a ≡ in_cooldown interval now b
unfolding in_cooldown
in_cooldown-IsForgotten interval now a b (inl e) = rw e refl
in_cooldown-IsForgotten interval now a b (inr (e, (t, f, g))) = rw (e, f) (ground arith)

-- Both trackers note the session.
IsForgotten-insert :
    (interval now : ℕ) (sid j : Text) (m r : List (Text × ℕ))
    → IsForgotten interval now (lookup j m) (lookup j r)
    → IsForgotten interval now (lookup j (insert sid now m)) (lookup j (insert sid now r))
IsForgotten-insert interval now sid j m r h =
    rw (lookup-insert sid j now m, lookup-insert sid j now r)
      (elim (Bool-cases (same_text sid j)) [ inl e ↦ rw e (inl refl) | inr e ↦ rw e h ])

acquire-IsTrimmed :
    (sid : Text) (now : ℕ) (ct plain : CooldownTracker)
    → IsTrimmed now ct plain
    → ((acquire sid now ct).1 ≡ (acquire sid now plain).1)
      × IsTrimmed now (acquire sid now ct).0 (acquire sid now plain).0
unfolding acquire
acquire-IsTrimmed sid now ct plain (same, h) =
    let agree =
      in_cooldown-IsForgotten ct.interval now (lookup sid ct.last) (lookup sid plain.last)
        (h sid) in
    let agree' : in_cooldown plain.interval now (lookup sid plain.last)
        ≡ in_cooldown ct.interval now (lookup sid ct.last) =
      rw (← same) (sym agree) in
    elim (Bool-cases (in_cooldown ct.interval now (lookup sid ct.last))) [
      | inl e ↦ rw agree' (rw e (refl, (same, h)))
      | inr e ↦ rw agree' (
          rw e
            (refl, (same, λ j. IsForgotten-insert ct.interval now sid j ct.last plain.last (h j))))
    ]

IsForgotten-later :
    (interval start now : ℕ) (a b : Option ℕ)
    → start ≤ now
    → IsForgotten interval start a b
    → IsForgotten interval now a b
IsForgotten-later interval start now a b h (inl e) = inl e
IsForgotten-later interval start now a b h (inr (e, (t, f, g))) = inr (e, (t, f, omega arith))

IsUnique-acquire :
    (sid : Text) (now : ℕ) (ct : CooldownTracker)
    → IsUnique ct.last
    → IsUnique (acquire sid now ct).0.last
unfolding acquire
IsUnique-acquire sid now ct u =
    elim (Bool-cases (in_cooldown ct.interval now (lookup sid ct.last))) [
      | inl e ↦ rw e u
      | inr e ↦ rw e (IsUnique-insert sid now ct.last u)
    ]

-- One call on both trackers.
module _ (ct plain : CooldownTracker) (sid : Text) (start now : ℕ) (h : start ≤ now) where
  pub IsUnique-try_acquire : IsUnique ct.last → IsUnique (try_acquire ct sid now).0.last
  unfolding try_acquire
  IsUnique-try_acquire u = elim (Bool-cases (ct.interval == 0)) [
    | inl e ↦ rw e (IsUnique-insert sid now ct.last u)
    | inr e ↦ rw e (
        IsUnique-acquire sid now (record ct { last = evict ct.interval now ct.last })
          (IsUnique-evict ct.interval now ct.last u))
  ]

  try_acquire-IsTrimmed :
      IsUnique ct.last
      → IsTrimmed start ct plain
      → ((try_acquire ct sid now).1 ≡ (try_plainly plain sid now).1)
        × IsTrimmed now (try_acquire ct sid now).0 (try_plainly plain sid now).0
  unfolding try_acquire try_plainly
  try_acquire-IsTrimmed u (same, rel) = elim (Bool-cases (ct.interval == 0)) [
    | inl e ↦
        let e' : (plain.interval == 0) ≡ true = rw (← same) e in
        rw (e, e')
          (
            refl,
            (
              same,
              λ j.
                  IsForgotten-insert ct.interval now sid j ct.last plain.last
                    (IsForgotten-later ct.interval start now _ _ h (rel j)),
            ),
          )
    | inr e ↦
        let e' : (plain.interval == 0) ≡ false = rw (← same) e in
        rw (e, e')
          (acquire-IsTrimmed sid now (record ct { last = evict ct.interval now ct.last }) plain
            (
              same,
              λ j.
                  rw (lookup-evict ct.interval now j ct.last u)
                    (IsForgotten-kept ct.interval start now _ _ h (rel j)),
            ))
  ]

answers-IsTrimmed :
    (ct plain : CooldownTracker) (start : ℕ) (calls : List (Text × ℕ))
    → IsUnique ct.last
    → IsTrimmed start ct plain
    → IsFrom start calls
    → answers ct calls ≡ plain_answers plain calls
unfolding answers plain_answers
answers-IsTrimmed ct plain start [] u rel from = refl
answers-IsTrimmed ct plain start ((sid, now) ∷ calls) u rel (h, hs) =
    let (same, rel') = try_acquire-IsTrimmed ct plain sid start now h u rel in
    let u' = IsUnique-try_acquire ct plain sid start now h u in
    rw
      (
        same,
        answers-IsTrimmed (try_acquire ct sid now).0 (try_plainly plain sid now).0 now calls u' rel'
            hs,
      )
      refl

-- The sweep is not seen from outside: to any sequence of calls, whose clock does not go back, a
-- tracker that has each session once answers as one that never deletes an entry.
pub answers-plain_answers :
    (ct : CooldownTracker) (start : ℕ) (calls : List (Text × ℕ))
    → IsUnique ct.last
    → IsFrom start calls
    → answers ct calls ≡ plain_answers ct calls
answers-plain_answers ct start calls u from =
    answers-IsTrimmed ct ct start calls u (refl, λ sid. inl refl) from
