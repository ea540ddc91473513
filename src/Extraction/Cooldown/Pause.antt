-- ===== src/Extraction/Cooldown/Pause.antt =====
-- Between two extractions of a session lies the interval.
use ragamuffin.Base.{
  ℕ, ◌+◌, ◌≤◌, ◌<◌, ◌≡◌, refl, inl, inr, true, false, ◌&&◌, some, List, [], ◌∷◌, arith,
  if◌then◌else◌, Bool-cases, ◌==◌,
}
use ragamuffin.Text.{Text, same_text}
use ragamuffin.Text.Order.{eq_of_same_text}
use ragamuffin.Text.Maps.{lookup, lookup-insert, lookup-insert_self}
use ragamuffin.Extraction.Cooldown.{CooldownTracker, evict, in_cooldown, acquire, try_acquire}
use ragamuffin.Extraction.Cooldown.Entries.{IsUnique, kept, lookup-evict}
use ragamuffin.Extraction.Cooldown.Laws.{IsUnique-try_acquire}

-- How many calls of the session are let through.
unfoldable pub granted : Text → CooldownTracker → List (Text × ℕ) → ℕ
granted sid ct [] = 0
granted sid ct ((j, now) ∷ calls) =
    let rest = granted sid (try_acquire ct j now).0 calls in
    if same_text j sid && (try_acquire ct j now).1 then 1 + rest else rest

-- The calls come behind `start` and before `end`, and the clock does not go back.
abbrev pub IsWithin : ℕ → ℕ → List (Text × ℕ) → Type 0
IsWithin start end [] = Unit
IsWithin start end ((sid, now) ∷ calls) = (start ≤ now) × (now < end) × IsWithin now end calls

interval-try_acquire :
    (ct : CooldownTracker) (sid : Text) (now : ℕ)
    → (try_acquire ct sid now).0.interval ≡ ct.interval
unfolding try_acquire acquire
interval-try_acquire ct sid now = ground arith

kept-some : (interval now t : ℕ) → now ≤ t + interval → kept interval now (some t) ≡ some t
unfolding kept
kept-some interval now t h = ground (arith, h)

module _ (ct : CooldownTracker) (sid : Text) (t now : ℕ) (le : t ≤ now)
    (lt : now < t + ct.interval) where
  -- A call of any session, in the pause of `sid`, that leaves the entry.
  acquire_in_pause :
      (j : Text)
      → lookup sid ct.last ≡ some t
      → (lookup sid (acquire j now ct).0.last ≡ some t)
        × (same_text j sid ≡ true → (acquire j now ct).1 ≡ false)
  unfolding acquire in_cooldown
  acquire_in_pause j at = elim (Bool-cases (same_text j sid)) [
    | inl e ↦
        let busy : in_cooldown ct.interval now (lookup j ct.last) ≡ true =
          rw (eq_of_same_text j sid e, at) (ground arith) in
        rw (busy, acquire) (at, λ e'. refl)
    | inr e ↦ elim (Bool-cases (in_cooldown ct.interval now (lookup j ct.last))) [
      | inl f ↦ rw (f, acquire) (at, λ e'. refl)
      | inr f ↦
          rw (f, acquire)
            (rw (lookup-insert j sid now ct.last, e) at, λ e'. absurd (ground (arith, e, e')))
    ]
  ]

module _ (ct : CooldownTracker) (sid : Text) (t now : ℕ) (le : t ≤ now)
    (lt : now < t + ct.interval) where
  try_acquire_in_pause :
      (j : Text)
      → IsUnique ct.last
      → lookup sid ct.last ≡ some t
      → (lookup sid (try_acquire ct j now).0.last ≡ some t)
        × (same_text j sid ≡ true → (try_acquire ct j now).1 ≡ false)
  unfolding try_acquire
  try_acquire_in_pause j u at =
      let swept = record ct { last = evict ct.interval now ct.last } in
      let some_pause : (ct.interval == 0) ≡ false = ground arith in
      let still : lookup sid (evict ct.interval now ct.last) ≡ some t =
        rw (lookup-evict ct.interval now sid ct.last u, at)
          (kept-some ct.interval now t (omega arith)) in
      rw some_pause (acquire_in_pause swept sid t now le lt j still)

granted-pause :
    (sid : Text) (t : ℕ) (ct : CooldownTracker) (start : ℕ) (calls : List (Text × ℕ))
    → t ≤ start
    → IsUnique ct.last
    → lookup sid ct.last ≡ some t
    → IsWithin start (t + ct.interval) calls
    → granted sid ct calls ≡ 0
unfolding granted
granted-pause sid t ct start [] h u at within = refl
granted-pause sid t ct start ((j, now) ∷ calls) h u at (from, to, within) =
    let (still, refused) = try_acquire_in_pause ct sid t now (omega arith) to j u at in
    let rest =
      granted-pause sid t (try_acquire ct j now).0 now calls (omega arith)
        (IsUnique-try_acquire ct ct j now now (omega arith) u) still
        (rw (interval-try_acquire ct j now) within) in
    elim (Bool-cases (same_text j sid)) [
      | inl e ↦ rw (e, granted) (rw (refused e) rest)
      | inr e ↦ rw (e, granted) rest
    ]

-- A session that is noted holds its place.
lookup-acquire :
    (ct : CooldownTracker) (sid : Text) (now : ℕ)
    → (acquire sid now ct).1 ≡ true
    → lookup sid (acquire sid now ct).0.last ≡ some now
unfolding acquire
lookup-acquire ct sid now h = elim (Bool-cases (in_cooldown ct.interval now (lookup sid ct.last))) [
  | inl e ↦ absurd (ground (arith, h, e))
  | inr e ↦ rw (e, acquire) (lookup-insert_self sid now ct.last)
]

lookup-try_acquire :
    (ct : CooldownTracker) (sid : Text) (now : ℕ)
    → (try_acquire ct sid now).1 ≡ true
    → lookup sid (try_acquire ct sid now).0.last ≡ some now
unfolding try_acquire
lookup-try_acquire ct sid now h = elim (Bool-cases (ct.interval == 0)) [
  | inl e ↦ rw e (lookup-insert_self sid now ct.last)
  | inr e ↦ rw e (
      lookup-acquire (record ct { last = evict ct.interval now ct.last }) sid now
        (ground (arith, h, e)))
]

-- Behind a call that was let through, no call of the session is let through until the interval has
-- passed, whatever calls of other sessions come between; the tracker has each session once, and the
-- clock does not go back.
pub granted-try_acquire :
    (ct : CooldownTracker) (sid : Text) (now : ℕ) (calls : List (Text × ℕ))
    → IsUnique ct.last
    → (try_acquire ct sid now).1 ≡ true
    → IsWithin now (now + ct.interval) calls
    → granted sid (try_acquire ct sid now).0 calls ≡ 0
granted-try_acquire ct sid now calls u h within =
    granted-pause sid now (try_acquire ct sid now).0 now calls (omega arith)
      (IsUnique-try_acquire ct ct sid now now (omega arith) u) (lookup-try_acquire ct sid now h)
      (rw (interval-try_acquire ct sid now) within)
