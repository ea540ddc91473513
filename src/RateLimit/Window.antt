-- ===== src/RateLimit/Window.antt =====
-- How many requests a limiter lets through in a span of time.
use ragamuffin.Base.{
  ℕ, ◌+◌, ◌-◌, ◌*◌, ◌≤◌, ◌≡◌, refl, inl, inr, true, false, some, List, [], ◌∷◌, arith,
  if◌then◌else◌, Bool-cases, Option-cases, leb, leb→le,
}
use ragamuffin.Text.{Text, same_text}
use ragamuffin.Text.Order.{eq_of_same_text}
use ragamuffin.Text.Maps.{lookup, lookup-insert, lookup-insert_self}
use ragamuffin.RateLimit.{
  token, Bucket, Limiter, at_most, Answer, allowed, retry_after, full_bucket, bucket_of, refill,
  take_token, allow,
}
use ragamuffin.RateLimit.Laws.{
  IsBucket, IsValid, IsBucket-refill, IsBucket-bucket_of, IsValid-allow, allow_limited, served,
}

unfoldable pub is_allowed : Answer → ℕ
is_allowed allowed = 1
is_allowed retry_after = 0

-- The requests on `key` that are allowed in a sequence of requests on any keys.
unfoldable pub allowed_calls : Text → Limiter → List (Text × ℕ) → ℕ
allowed_calls key l [] = 0
allowed_calls key l ((j, now) ∷ calls) =
    let rest = allowed_calls key (allow l j now).0 calls in
    if same_text j key then is_allowed (allow l j now).1 + rest else rest

-- The readings of the clock do not go back, and lie between `start` and `end`.
abbrev pub IsBetween : ℕ → ℕ → List (Text × ℕ) → Type 0
IsBetween start end [] = start ≤ end
IsBetween start end ((j, now) ∷ calls) = (start ≤ now) × IsBetween now end calls

le_IsBetween : (start end : ℕ) (calls : List (Text × ℕ)) → IsBetween start end calls → start ≤ end
le_IsBetween start end [] h = h
le_IsBetween start end ((j, now) ∷ calls) (h, hs) = omega (arith, le_IsBetween now end calls hs)

span_add : (a b c r : ℕ) → a ≤ b → b ≤ c → (c - a) * r ≡ (b - a) * r + (c - b) * r
span_add a b c r h k = grind arith

-- A bucket that fills up to a later time gains no more than the rate gives.
refill_later :
    (start now rpm : ℕ) (b : Bucket)
    → IsBucket rpm b
    → b.last_time ≤ start
    → start ≤ now
    → (refill now b).tokens ≤ (refill start b).tokens + (now - start) * rpm
unfolding refill at_most
refill_later start now rpm b (r, c, t) h k =
    rw r (ground (arith, span_add b.last_time start now rpm h k))

-- Filling up a second time at one moment changes nothing.
refill_now :
    (now : ℕ) (b : Bucket)
    → b.last_time ≡ now
    → b.tokens ≤ b.capacity
    → (refill now b).tokens ≡ b.tokens
unfolding refill at_most
refill_now now b e h = rw e (ground arith)

-- What a request takes from a bucket that is filled up.
take_token-spends :
    (now : ℕ) (b : Bucket)
    → b.last_time ≡ now
    → b.tokens ≤ b.capacity
    → (refill now (take_token b).0).tokens + is_allowed (take_token b).1 * token ≡ b.tokens
unfolding take_token is_allowed
take_token-spends now b e h = elim (Bool-cases (leb token b.tokens)) [
  | inl f ↦
      rw (f, take_token)
        (omega (
          arith,
          refill_now now (record b { tokens = b.tokens - token }) e (omega arith),
          leb→le token b.tokens f,
        ))
  | inr f ↦ rw (f, take_token) (omega (arith, refill_now now b e h))
]

-- The parts of a token that the key has at a time.
available : Limiter → Text → ℕ → ℕ → ℕ
available l key rpm now = (refill now (bucket_of rpm now (lookup key l.buckets))).tokens

-- No bucket of the key was used behind `now`.
abbrev pub IsPast : Limiter → Text → ℕ → Type 0
IsPast l key now = (b : Bucket) → lookup key l.buckets ≡ some b → b.last_time ≤ now

full_refill : (rpm now : ℕ) → (refill now (full_bucket rpm now)).tokens ≡ rpm * token
unfolding full_bucket
full_refill rpm now = refill_now now (full_bucket rpm now) refl (omega arith)

available_later :
    (l : Limiter) (key : Text) (rpm start now : ℕ)
    → IsValid l
    → lookup key l.limits ≡ some rpm
    → IsPast l key start
    → start ≤ now
    → available l key rpm now ≤ available l key rpm start + (now - start) * rpm
unfolding available bucket_of refill
available_later l key rpm start now valid limit past h =
    elim (Option-cases (lookup key l.buckets)) [
      | inl e ↦ rw (e, bucket_of) (omega (arith, full_refill rpm start, full_refill rpm now))
      | inr (b, e) ↦
          let (rpm', limit', is_bucket) = valid key b e in
          let same : rpm' ≡ rpm = ground (arith, limit, limit') in
          rw (e, bucket_of) (refill_later start now rpm b (rw (← same) is_bucket) (past b e) h)
    ]

available_le :
    (l : Limiter) (key : Text) (rpm now : ℕ)
    → IsValid l
    → lookup key l.limits ≡ some rpm
    → available l key rpm now ≤ rpm * token
unfolding available
available_le l key rpm now valid limit =
    let b = bucket_of rpm now (lookup key l.buckets) in
    let (r, c, t) = IsBucket-refill now rpm b (IsBucket-bucket_of l key rpm now valid limit) in t

-- A limiter that keeps the bucket of a key has as much for it as before.
available_same :
    (l m : Limiter) (key : Text) (rpm now : ℕ)
    → lookup key m.buckets ≡ lookup key l.buckets
    → available m key rpm now ≡ available l key rpm now
unfolding available refill
available_same l m key rpm now e = rw e refl

last_time-refill : (now : ℕ) (b : Bucket) → (refill now b).last_time ≡ now
unfolding refill
last_time-refill now b = refl

last_time-take_token : (b : Bucket) → (take_token b).0.last_time ≡ b.last_time
unfolding take_token
last_time-take_token b = ground arith

available_at :
    (l : Limiter) (key : Text) (rpm now : ℕ) (b : Bucket)
    → lookup key l.buckets ≡ some b
    → available l key rpm now ≡ (refill now b).tokens
unfolding available bucket_of refill
available_at l key rpm now b e = rw e refl

module _ (l : Limiter) (key : Text) (rpm now : ℕ) (on : l.enabled ≡ true)
    (limit : lookup key l.limits ≡ some rpm) where
  bucket_after : lookup key (allow l key now).0.buckets ≡ some (served l key rpm now).0
  bucket_after =
      rw (allow_limited l key rpm now on limit)
        (lookup-insert_self key (served l key rpm now).0 l.buckets)

  -- A request that is allowed takes one token, a refused one takes none.
  available-allow :
      IsValid l
      → available (allow l key now).0 key rpm now + is_allowed (allow l key now).1 * token
        ≡ available l key rpm now
  unfolding available
  available-allow valid =
      let b = bucket_of rpm now (lookup key l.buckets) in
      let (r, c, t) = IsBucket-refill now rpm b (IsBucket-bucket_of l key rpm now valid limit) in
      rw
        (
          available_at (allow l key now).0 key rpm now _ bucket_after,
          allow_limited l key rpm now on limit,
        )
        (take_token-spends now (refill now b) (last_time-refill now b) (rw c t))

  IsPast-allow : IsPast (allow l key now).0 key now
  IsPast-allow b e =
      let filled = refill now (bucket_of rpm now (lookup key l.buckets)) in
      let same : (served l key rpm now).0 ≡ b = ground (arith, e, bucket_after) in
      rw
        (
          ← same,
          last_time-take_token filled,
          last_time-refill now (bucket_of rpm now (lookup key l.buckets)),
        )
        (omega arith)

-- What stays as it is.
limits-allow : (l : Limiter) (key : Text) (now : ℕ) → (allow l key now).0.limits ≡ l.limits
unfolding allow
limits-allow l key now = ground arith

enabled-allow : (l : Limiter) (key : Text) (now : ℕ) → (allow l key now).0.enabled ≡ l.enabled
unfolding allow
enabled-allow l key now = ground arith

-- A request on another key leaves the bucket alone.
bucket_elsewhere :
    (l : Limiter) (j key : Text) (now : ℕ)
    → same_text j key ≡ false
    → lookup key (allow l j now).0.buckets ≡ lookup key l.buckets
unfolding allow
bucket_elsewhere l j key now e = grind (arith, λ (b : Bucket). lookup-insert j key b l.buckets, e)

IsPast-elsewhere :
    (l : Limiter) (j key : Text) (start now : ℕ)
    → same_text j key ≡ false
    → IsPast l key start
    → start ≤ now
    → IsPast (allow l j now).0 key now
IsPast-elsewhere l j key start now e past h b at =
    omega (arith, past b (rw (← bucket_elsewhere l j key now e) at))

allowed_calls-available :
    (key : Text) (rpm : ℕ) (l : Limiter) (calls : List (Text × ℕ)) (start end : ℕ)
    → IsValid l
    → l.enabled ≡ true
    → lookup key l.limits ≡ some rpm
    → IsPast l key start
    → IsBetween start end calls
    → allowed_calls key l calls * token ≤ available l key rpm start + (end - start) * rpm
unfolding allowed_calls
allowed_calls-available key rpm l [] start end valid on limit past h = omega arith
allowed_calls-available key rpm l ((j, now) ∷ calls) start end valid on limit past (h, hs) =
    let m = (allow l j now).0 in
    let valid' = IsValid-allow l j now valid in
    let on' : m.enabled ≡ true = rw (enabled-allow l j now) on in
    let limit' : lookup key m.limits ≡ some rpm = rw (limits-allow l j now) limit in
    let later = available_later l key rpm start now valid limit past h in
    let spans = span_add start now end rpm h (le_IsBetween now end calls hs) in
    elim (Bool-cases (same_text j key)) [
      | inl e ↦
          let same : j ≡ key = eq_of_same_text j key e in
          let spent : available m key rpm now + is_allowed (allow l j now).1 * token
              ≡ available l key rpm now =
            rw same (available-allow l key rpm now on limit valid) in
          let past' : IsPast m key now = rw same (IsPast-allow l key rpm now on limit) in
          let rest = allowed_calls-available key rpm m calls now end valid' on' limit' past' hs in
          rw (e, allowed_calls) (omega (arith, rest, spent, later, spans))
      | inr e ↦
          let rest =
            allowed_calls-available key rpm m calls now end valid' on' limit'
              (IsPast-elsewhere l j key start now e past h) hs in
          let same = available_same l m key rpm now (bucket_elsewhere l j key now e) in
          rw (e, allowed_calls) (omega (arith, rest, same, later, spans))
    ]

-- In any span of time, and whatever requests on other keys come between, the requests on a key that
-- an enabled limiter allows are no more than its limit of `rpm` and what `rpm` per minute gives over
-- the span. The clock does not go back, and the key's bucket was not used behind the start.
pub allowed_calls_le :
    (key : Text) (rpm : ℕ) (l : Limiter) (calls : List (Text × ℕ)) (start end : ℕ)
    → IsValid l
    → l.enabled ≡ true
    → lookup key l.limits ≡ some rpm
    → IsPast l key start
    → IsBetween start end calls
    → allowed_calls key l calls * token ≤ rpm * token + (end - start) * rpm
allowed_calls_le key rpm l calls start end valid on limit past h = omega (
  arith,
  allowed_calls-available key rpm l calls start end valid on limit past h,
  available_le l key rpm start valid limit,
)
