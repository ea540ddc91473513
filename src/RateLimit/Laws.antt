-- ===== src/RateLimit/Laws.antt =====
-- The buckets of a limiter stay within their capacity.
use ragamuffin.Base.{
  ℕ, ◌*◌, ◌≤◌, ◌≡◌, refl, inl, inr, Bool, true, false, none, some, arith, Bool-cases, Option-cases,
  leb,
}
use ragamuffin.Text.{Text, same_text}
use ragamuffin.Text.Order.{eq_of_same_text}
use ragamuffin.Text.Maps.{lookup, insert, lookup-insert, lookup-insert_self}
use ragamuffin.RateLimit.{
  token, Bucket, Limiter, new_limiter, limit_of, at_most, resize, set_limit, Answer, allowed,
  full_bucket, bucket_of, refill, take_token, allow,
}

-- The bucket of a key whose limit is `rpm`.
abbrev pub IsBucket : ℕ → Bucket → Type 0
IsBucket rpm b = (b.rate ≡ rpm) × (b.capacity ≡ rpm * token) × (b.tokens ≤ rpm * token)

-- Every bucket belongs to a key with a limit, and obeys it.
abbrev pub IsValid : Limiter → Type 0
IsValid l =
    (key : Text) (b : Bucket)
    → lookup key l.buckets ≡ some b
    → (rpm : ℕ) × (lookup key l.limits ≡ some rpm) × IsBucket rpm b

at_most_le : (c t : ℕ) → at_most c t ≤ c
unfolding at_most
at_most_le c t = ground arith

IsBucket-resize : (old rpm : ℕ) (b : Bucket) → IsBucket rpm (resize old rpm b)
unfolding resize
IsBucket-resize old rpm b = (refl, refl, at_most_le _ _)

pub IsBucket-refill : (now rpm : ℕ) (b : Bucket) → IsBucket rpm b → IsBucket rpm (refill now b)
unfolding refill
IsBucket-refill now rpm b (r, c, t) = (r, c, rw c (at_most_le _ _))

pub IsBucket-take_token : (rpm : ℕ) (b : Bucket) → IsBucket rpm b → IsBucket rpm (take_token b).0
unfolding take_token
IsBucket-take_token rpm b (r, c, t) = elim (Bool-cases (leb token b.tokens)) [
  | inl e ↦ rw e (r, c, omega arith)
  | inr e ↦ rw e (r, c, t)
]

pub IsBucket-bucket_of :
    (l : Limiter) (key : Text) (rpm now : ℕ)
    → IsValid l
    → lookup key l.limits ≡ some rpm
    → IsBucket rpm (bucket_of rpm now (lookup key l.buckets))
unfolding bucket_of full_bucket
IsBucket-bucket_of l key rpm now h e = elim (Option-cases (lookup key l.buckets)) [
  | inl f ↦ rw f (refl, refl, omega arith)
  | inr (b, f) ↦
      let (rpm', e', is_bucket) = h key b f in
      let same : rpm' ≡ rpm = ground (arith, e, e') in rw f (rw (← same) is_bucket)
]

-- A new limiter is valid.
pub IsValid-new_limiter : (enabled : Bool) → IsValid (new_limiter enabled)
unfolding new_limiter lookup
IsValid-new_limiter enabled key b h = absurd (ground (arith, h))

-- A limiter that differs in one key alone, whose bucket obeys its limit.
module _ (l m : Limiter) (key : Text) (rpm : ℕ) (h : IsValid l)
    (limit : lookup key m.limits ≡ some rpm)
    (limits : (j : Text) → same_text key j ≡ false → lookup j m.limits ≡ lookup j l.limits) where
  IsValid-insert : (b : Bucket) → IsBucket rpm b → m.buckets ≡ insert key b l.buckets → IsValid m
  IsValid-insert b is_bucket made j c at = elim (Bool-cases (same_text key j)) [
    | inl e ↦
        let same : b ≡ c = ground (arith, lookup-insert key j b l.buckets, at, e, made) in
        rw (← eq_of_same_text key j e, ← same) (rpm, limit, is_bucket)
    | inr e ↦
        let there : lookup j l.buckets ≡ some c =
          ground (arith, lookup-insert key j b l.buckets, at, e, made) in
        rw (limits j e) (h j c there)
  ]

  IsValid-no_bucket : lookup key l.buckets ≡ none → m.buckets ≡ l.buckets → IsValid m
  IsValid-no_bucket missing same j c at = elim (Bool-cases (same_text key j)) [
    | inl e ↦ absurd (ground (arith, at, missing, same, eq_of_same_text key j e))
    | inr e ↦ rw (limits j e) (h j c (rw (← same) at))
  ]

-- SetLimit keeps the state valid: every bucket belongs to a key with a limit, has the rate and
-- capacity of that limit, and holds no more than the capacity.
pub IsValid-set_limit :
    (l : Limiter) (key : Text) (rpm : ℕ) → IsValid l → IsValid (set_limit l key rpm)
unfolding set_limit
IsValid-set_limit l key rpm h =
    let limit = lookup-insert_self key rpm l.limits in
    let limits : (j : Text)
        → same_text key j ≡ false
        → lookup j (insert key rpm l.limits) ≡ lookup j l.limits =
      λ j e. rw (lookup-insert key j rpm l.limits, e) refl in
    elim (Option-cases (lookup key l.buckets)) [
      | inl f ↦
          IsValid-no_bucket l (set_limit l key rpm) key rpm h limit limits f
            (rw (f, set_limit) refl)
      | inr (b, f) ↦
          IsValid-insert l (set_limit l key rpm) key rpm h limit limits
            (resize (limit_of (lookup key l.limits)) rpm b) (IsBucket-resize _ rpm b)
            (rw (f, set_limit) refl)
    ]

-- Allow, on the three ways through it.
pub allow_off :
    (l : Limiter) (key : Text) (now : ℕ) → l.enabled ≡ false → allow l key now ≡ (l, allowed)
unfolding allow
allow_off l key now e = rw e refl

pub allow_unlimited :
    (l : Limiter) (key : Text) (now : ℕ)
    → lookup key l.limits ≡ none
    → allow l key now ≡ (l, allowed)
unfolding allow
allow_unlimited l key now e = ground (arith, e)

abbrev pub served : Limiter → Text → ℕ → ℕ → Bucket × Answer
served l key rpm now = take_token (refill now (bucket_of rpm now (lookup key l.buckets)))

pub allow_limited :
    (l : Limiter) (key : Text) (rpm now : ℕ)
    → l.enabled ≡ true
    → lookup key l.limits ≡ some rpm
    → allow l key now ≡ (
      record l { buckets = insert key (served l key rpm now).0 l.buckets },
      (served l key rpm now).1,
    )
unfolding allow
allow_limited l key rpm now e f = ground (arith, e, f)

-- Allow keeps the state valid: every bucket belongs to a key with a limit, has the rate and
-- capacity of that limit, and holds no more than the capacity.
pub IsValid-allow : (l : Limiter) (key : Text) (now : ℕ) → IsValid l → IsValid (allow l key now).0
IsValid-allow l key now h = elim (Bool-cases l.enabled) [
  | inr off ↦ rw (allow_off l key now off) h
  | inl on ↦ elim (Option-cases (lookup key l.limits)) [
    | inl unlimited ↦ rw (allow_unlimited l key now unlimited) h
    | inr (rpm, limit) ↦
        let b = (served l key rpm now).0 in
        rw (allow_limited l key rpm now on limit) (
          IsValid-insert l (record l { buckets = insert key b l.buckets }) key rpm h limit
            (λ j e. refl) b
            (IsBucket-take_token rpm _
              (IsBucket-refill now rpm _ (IsBucket-bucket_of l key rpm now h limit)))
            refl)
  ]
]
