-- ===== src/Server/Version/Laws.antt =====
-- The server's two functions on versioned keys and the pruner's one function.
use ragamuffin.Base.{
  ℕ, ◌+◌, ◌-◌, ◌*◌, ◌%◌, ◌^◌, ◌≡◌, refl, sym, ap, ◌∙◌, inl, inr, Bool, true, false, Option, none,
  some, List, [], ◌∷◌, ◌++◌, arith, Option-cases, if◌then◌else◌,
}
use ragamuffin.Text.{Text, codes}
use ragamuffin.Text.Cut.{split}
use ragamuffin.Server.Version.{
  no_other, is_all_digits, at_least_one, digits_value, next_digit, segment_version, newest_version,
  reverse_onto, parse_version_from_key, digits_or_zero, is_version_segment, newest_prefix,
  version_key_prefix,
}
use ragamuffin.Pruner.Supersede.{
  are_digits, number, version_of, last_version, prefix_and_version, parse_versioned_key,
}

are_digits-no_other : (s : Text) → are_digits s ≡ no_other s
unfolding are_digits no_other
are_digits-no_other [] = refl
are_digits-no_other (c ∷ s) = ground (arith, are_digits-no_other s)

number-digits_value : (s : Text) (v : ℕ) → number s v ≡ digits_value v s
unfolding number digits_value next_digit
number-digits_value [] v = refl
number-digits_value (c ∷ s) v = number-digits_value s ((v * 10 + (c - b'0')) % 2 ^ 64)

version_of-segment_version : (p : Text) → version_of p ≡ segment_version p
unfolding version_of segment_version is_all_digits at_least_one
version_of-segment_version [] = refl
version_of-segment_version (c ∷ []) = refl
version_of-segment_version (c ∷ d ∷ s) =
    ground (arith, are_digits-no_other (d ∷ s), number-digits_value (d ∷ s) 0)

digits_or_zero-digits_value :
    (s : Text) (v : ℕ) → digits_or_zero v s ≡ (if no_other s then digits_value v s else 0)
unfolding digits_or_zero digits_value no_other
digits_or_zero-digits_value [] v = refl
digits_or_zero-digits_value (c ∷ s) v =
    ground (arith, digits_or_zero-digits_value s (next_digit v c))

is_some : Option ℕ → Bool
is_some none = false
is_some (some v) = true

is_version_segment-version_of : (p : Text) → is_version_segment p ≡ is_some (version_of p)
unfolding is_version_segment segment_version is_all_digits is_some at_least_one
is_version_segment-version_of [] = rw (version_of-segment_version []) refl
is_version_segment-version_of (c ∷ []) = rw (version_of-segment_version (c ∷ [])) refl
is_version_segment-version_of (c ∷ d ∷ s) =
    rw (version_of-segment_version (c ∷ d ∷ s), digits_or_zero-digits_value (d ∷ s) 0)
      (ground arith)

reverse_onto-append :
    {A : Type 0} (xs ys zs : List A) → reverse_onto xs ys ++ zs ≡ reverse_onto xs (ys ++ zs)
unfolding reverse_onto
reverse_onto-append [] ys zs = refl
reverse_onto-append (x ∷ xs) ys zs = reverse_onto-append xs (x ∷ ys) zs

found_or : List Text → Option (List Text × ℕ) → Text × ℕ
found_or done none = (newest_prefix done, newest_version done)
found_or done (some found) = prefix_and_version (some found)

segment_or : List Text → Option ℕ → Option (List Text × ℕ)
segment_or before none = none
segment_or before (some v) = some (before, v)

one_segment :
    (done : List Text) (p : Text)
    → (newest_prefix (p ∷ done), newest_version (p ∷ done))
      ≡ found_or done (segment_or (reverse_onto done []) (version_of p))
unfolding newest_prefix newest_version found_or segment_or prefix_and_version is_some
one_segment done p = elim (Option-cases (segment_version p)) [
  | inl e ↦ ground (arith, e, is_version_segment-version_of p, version_of-segment_version p)
  | inr (v, e) ↦ ground (arith, e, is_version_segment-version_of p, version_of-segment_version p)
]

found_later :
    (done : List Text) (p : Text) (later : Option (List Text × ℕ))
    → found_or (p ∷ done) later
      ≡ found_or done (elim later [
        | some found ↦ some found
        | none ↦ segment_or (reverse_onto done []) (version_of p)
      ])
unfolding found_or
found_later done p none = one_segment done p
found_later done p (some found) = refl

loops :
    (parts done : List Text)
    → (newest_prefix (reverse_onto parts done), newest_version (reverse_onto parts done))
      ≡ found_or done (last_version (reverse_onto done []) parts)
unfolding reverse_onto last_version found_or segment_or
loops [] done = refl
loops (p ∷ parts) done =
    loops parts (p ∷ done)
    ∙ ap (λ before. found_or (p ∷ done) (last_version before parts))
        (sym (reverse_onto-append done [] (p ∷ [])))
    ∙ found_later done p (last_version (reverse_onto done [] ++ p ∷ []) parts)

-- For every key, the prefix and the version that the server reads are those that the pruner reads.
pub versions-parse_versioned_key :
    (key : Text) → parse_versioned_key key ≡ (version_key_prefix key, parse_version_from_key key)
unfolding parse_versioned_key version_key_prefix parse_version_from_key newest_prefix newest_version
    found_or
versions-parse_versioned_key key = sym (loops (split key (codes "/")) [])
