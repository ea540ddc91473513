-- ===== src/Server/Version.antt =====
-- parseVersionFromKey, isAllDigits and versionKeyPrefix of internal/server/facts.go. An int is its value
-- modulo 2^64; from 2^63 on it is negative. `newest` are the segments from the last to the first.
pub mod Laws
mod Tests
use ragamuffin.Base.{
  ℕ, ◌+◌, ◌-◌, ◌*◌, ◌%◌, ◌^◌, Bool, true, false, ◌&&◌, ◌||◌, Option, none, some, List, [], ◌∷◌, ltb,
  leb, ◌==◌, if◌then◌else◌, length,
}
use ragamuffin.Text.{Text, codes}
use ragamuffin.Text.Cut.{split}
use ragamuffin.Text.Words.{join}

unfoldable pub no_other : Text → Bool
no_other [] = true
no_other (c ∷ s) = if ltb c b'0' || ltb b'9' c then false else no_other s

unfoldable pub is_all_digits : Text → Bool
unfolding no_other
is_all_digits s = no_other s && ltb 0 (length s)

-- v = v*10 + int(c-'0')
unfoldable pub next_digit : ℕ → ℕ → ℕ
next_digit v c = (v * 10 + (c - b'0')) % 2 ^ 64

-- `v >= 1` on an int
unfoldable pub at_least_one : ℕ → Bool
at_least_one v = leb 1 v && ltb v (2 ^ 63)

unfoldable pub digits_value : ℕ → Text → ℕ
unfolding next_digit
digits_value v [] = v
digits_value v (c ∷ s) = digits_value (next_digit v c) s

-- The version of one segment: `len(part) > 1 && part[0] == 'v' && isAllDigits(part[1:])` and `v >= 1`.
unfoldable pub segment_version : Text → Option ℕ
unfolding is_all_digits at_least_one digits_value
segment_version [] = none
segment_version (c ∷ []) = none
segment_version (c ∷ d ∷ s) =
    let v = digits_value 0 (d ∷ s) in
    if c == b'v' && is_all_digits (d ∷ s) && at_least_one v then some v else none

unfoldable pub newest_version : List Text → ℕ
newest_version [] = 0
newest_version (p ∷ newest) = elim (segment_version p) [ none ↦ newest_version newest | some v ↦ v ]

unfoldable pub reverse_onto {ℓ} : {A : Type ℓ} → List A → List A → List A
reverse_onto [] ys = ys
reverse_onto (x ∷ xs) ys = reverse_onto xs (x ∷ ys)

-- parseVersionFromKey
unfoldable pub parse_version_from_key : Text → ℕ
unfolding newest_version reverse_onto
parse_version_from_key key = newest_version (reverse_onto (split key (codes "/")) [])

-- The loop of versionKeyPrefix over the digits: another character sets v to 0 and leaves the loop.
unfoldable pub digits_or_zero : ℕ → Text → ℕ
unfolding next_digit
digits_or_zero v [] = v
digits_or_zero v (c ∷ s) = if ltb c b'0' || ltb b'9' c then 0 else digits_or_zero (next_digit v c) s

unfoldable pub is_version_segment : Text → Bool
unfolding digits_or_zero at_least_one
is_version_segment [] = false
is_version_segment (c ∷ []) = false
is_version_segment (c ∷ d ∷ s) = c == b'v' && at_least_one (digits_or_zero 0 (d ∷ s))

unfoldable pub newest_prefix : List Text → Text
unfolding reverse_onto
newest_prefix [] = []
newest_prefix (p ∷ newest) =
    let rest = newest_prefix newest in
    if is_version_segment p then join (reverse_onto newest []) (codes "/") else rest

-- versionKeyPrefix
unfoldable pub version_key_prefix : Text → Text
unfolding newest_prefix reverse_onto
version_key_prefix key = newest_prefix (reverse_onto (split key (codes "/")) [])
