-- ===== src/Text/Cut.antt =====
-- strings.Split and strings.Index, and that cutting a text at white space loses no word.
use mathlib.Core.List.{flat_map}
use ragamuffin.Base.{
  ℕ, zero, suc, ◌-◌, ◌≡◌, refl, sym, ◌∙◌, inl, inr, ◌⊎◌, ◌≢◌, true, false, Option, none, some, List,
  [], ◌∷◌, ◌++◌, append_assoc, append-nil, arith, Bool-cases, length, if◌then◌else◌,
}
use ragamuffin.Text.{Text, has_prefix, is_space}
use ragamuffin.Text.Words.{fields, IsSpaces, fields_from-append, fields_from}

-- `skip` runes of a separator are left to pass; `cur` is the part being read.
unfoldable pub split_from : Text → ℕ → Text → Text → List Text
split_from sep skip cur [] = cur ∷ []
split_from sep (suc skip) cur (c ∷ s) = split_from sep skip cur s
split_from sep zero cur (c ∷ s) = elim (has_prefix (c ∷ s) sep) [
  | true ↦ cur ∷ split_from sep (length sep - 1) [] s
  | false ↦ split_from sep zero (cur ++ c ∷ []) s
]

-- strings.Split(s, sep), for a separator that is not empty
abbrev pub split : Text → Text → List Text
split s sep = split_from sep 0 [] s

-- The text in front of the first place where `sep` stands: `s[:i]` for i = strings.Index(s, sep).
unfoldable pub before : Text → Text → Option Text
before sep [] = none
before sep (c ∷ s) =
    let rest = before sep s in
    if has_prefix (c ∷ s) sep then some [] else elim rest [ none ↦ none | some t ↦ some (c ∷ t) ]

-- The first `k` runes are spaces.
abbrev Spaces : ℕ → Text → Type 0
Spaces zero s = Unit
Spaces (suc k) [] = ⊥
Spaces (suc k) (c ∷ s) = (is_space c ≡ true) × Spaces k s

Spaces-has_prefix : (s sep : Text) → IsSpaces sep → has_prefix s sep ≡ true → Spaces (length sep) s
unfolding has_prefix
Spaces-has_prefix s [] h e = tt
Spaces-has_prefix [] (p ∷ ps) h e = cc
Spaces-has_prefix (c ∷ s) (p ∷ ps) h e =
    let same : c ≡ p = ground arith in
    let rest : has_prefix s ps ≡ true = ground arith in
    (rw same h.0, Spaces-has_prefix s ps h.1 rest)

abbrev words_of : List Text → List Text
words_of = flat_map fields

-- White space between two texts, behind a first space.
fields-behind_space : (c : ℕ) (s : Text) → is_space c ≡ true → fields (c ∷ s) ≡ fields s
unfolding fields_from
fields-behind_space c s h = ground arith

module _ (sep0 : ℕ) (sep : Text) (white : IsSpaces (sep0 ∷ sep)) where
  -- What a cut reads: the part in hand, then the text behind the rest of a separator.
  split_words :
      (k : ℕ) (cur s : Text)
      → Spaces k s
      → (k ≡ 0) ⊎ (cur ≡ [])
      → words_of (split_from (sep0 ∷ sep) k cur s) ≡ fields (cur ++ s)
  unfolding split_from flat_map
  split_words zero cur [] h e = simp append-nil
  split_words (suc k) cur [] h e = absurd h
  split_words (suc k) cur (c ∷ s) h (inl e) = absurd (omega arith)
  split_words (suc k) cur (c ∷ s) h (inr e) =
      rw e (split_words k [] s h.1 (inr refl) ∙ sym (fields-behind_space c s h.0))
  split_words zero cur (c ∷ s) h e = elim (Bool-cases (has_prefix (c ∷ s) (sep0 ∷ sep))) [
    | inl here ↦
        let spaces : Spaces (suc (length sep)) (c ∷ s) = Spaces-has_prefix _ _ white here in
        ground (
          arith,
          split_words (length sep) [] s spaces.1 (inr refl),
          fields_from-append [] cur c s spaces.0,
        )
    | inr on ↦
        ground
          (arith, split_words zero (cur ++ c ∷ []) s tt (inl refl), append_assoc cur (c ∷ []) s)
  ]

-- Cutting a text at white space loses no word.
pub fields-split :
    (s sep : Text) → sep ≢ [] → IsSpaces sep → flat_map fields (split s sep) ≡ fields s
fields-split s [] ne h = absurd (ne refl)
fields-split s (c ∷ sep) ne h = split_words c sep h 0 [] s tt (inl refl)
