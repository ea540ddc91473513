-- ===== src/Chunker/Limit/Bounds.antt =====
-- How large the pieces of a chunk are, and the limit at which none is made.
use mathlib.Core.List.{flat_map}
use ragamuffin.Base.{
  ℕ, ◌+◌, ◌≤◌, ◌≡◌, ◌≢◌, refl, sym, ap, ◌∙◌, inl, inr, ◌⊎◌, true, false, List, [], ◌∷◌, append-nil,
  arith, Option, none, some, Bool-cases, length, length-append, All, ltb, ◌==◌, leb, ◌||◌, ◌&&◌,
}
use ragamuffin.Text.{Text, newline}
use ragamuffin.Text.Words.{fields, fields_from, fields-trim_space, trim_space}
use ragamuffin.Text.Cut.{split, fields-split}
use ragamuffin.Chunker.Record.{Chunk}
use ragamuffin.Chunker.Links.{is_empty}
use ragamuffin.Chunker.Split.Words.{chunk_words, space-newline}
use ragamuffin.Chunker.Limit.{
  joined, pack, non_empty, split_sentences, est_tokens, or_else, several, by_words, by_sentences,
  by_paragraphs, enforce_max_tokens,
}
use ragamuffin.Chunker.Limit.Pieces.{words-joined, words-pack}
use ragamuffin.Chunker.Limit.Hard.{hard_split-diverges}
use ragamuffin.Text.Words.{IsSpaces}

est_tokens-trim : (t : Text) → est_tokens (trim_space t) ≡ est_tokens t
unfolding est_tokens
est_tokens-trim t = rw fields-trim_space

abbrev Fits : ℕ → Chunk → Type 0
Fits max d = est_tokens d.text ≤ max + 1

module _ (c : Chunk) (max : ℕ) (joiner : Text) (ne : joiner ≢ []) (white : IsSpaces joiner) where
  -- Rounding down twice loses at most one token.
  est_tokens-joined :
      (current p : Text)
      → est_tokens (joined joiner current p) ≤ est_tokens current + est_tokens p + 1
  unfolding est_tokens
  est_tokens-joined current p =
      rw (words-joined c max joiner current p ne white)
        (omega (arith, length-append (fields current) (fields p)))

  est_tokens-joined_empty :
      (current p : Text)
      → is_empty current ≡ true
      → est_tokens (joined joiner current p) ≡ est_tokens p
  unfolding joined is_empty
  est_tokens-joined_empty [] p h = refl
  est_tokens-joined_empty (d ∷ current) p h = cc

  pack-Fits :
      (parts : List Text) (current : Text) (i : ℕ)
      → All (λ p. est_tokens p ≤ max) parts
      → est_tokens current ≤ max + 1
      → All (Fits max) (pack c max joiner parts current i)
  unfolding pack
  pack-Fits [] current i small here = ground (arith, est_tokens-trim current)
  pack-Fits (part ∷ parts) current i (fits, small) here =
      elim (Bool-cases (is_empty (trim_space part))) [
        | inl e ↦ rw (e, pack) (pack-Fits parts current i small here)
        | inr e ↦
            elim (Bool-cases
              (ltb max (est_tokens current + est_tokens (trim_space part)) && non_empty current)) [
                | inl full ↦
                    rw (e, pack)
                      (rw full (
                        omega (arith, est_tokens-trim current),
                        pack-Fits parts (trim_space part) (i + 1) small
                            (omega (arith, est_tokens-trim part)),
                      ))
                | inr more ↦
                    rw (e, pack)
                      (rw more (
                        pack-Fits parts (joined joiner current (trim_space part)) i small (
                          ground (
                            arith,
                            est_tokens-joined current (trim_space part),
                            est_tokens-joined_empty current (trim_space part),
                            est_tokens-trim part,
                          ))))
              ]
      ]

abbrev pub paragraphs : Chunk → List Text
paragraphs c = split c.text (newline ∷ newline ∷ [])

abbrev white_break : IsSpaces (newline ∷ newline ∷ [])
white_break = (space-newline, (space-newline, tt))

est_tokens-same : (s t : Text) → fields s ≡ fields t → est_tokens s ≡ est_tokens t
unfolding est_tokens
est_tokens-same s t e = rw e

-- A text of one paragraph, or of none, is within the limit if its paragraphs are.
single_fits :
    (t : Text) (max : ℕ) (parts : List Text)
    → flat_map fields parts ≡ fields t
    → several parts ≡ false
    → All (λ p. est_tokens p ≤ max) parts
    → est_tokens t ≤ max
unfolding flat_map est_tokens
single_fits t max [] e one small = rw (← e) (omega arith)
single_fits t max (p ∷ []) e one small = rw (← e, append-nil) small.0
single_fits t max (p ∷ q ∷ parts) e one small = cc

no_piece_fits :
    (c : Chunk) (max : ℕ) (parts : List Text)
    → flat_map fields parts ≡ fields c.text
    → pack c max (newline ∷ newline ∷ []) parts [] c.chunk_index ≡ []
    → est_tokens c.text ≤ max
unfolding est_tokens chunk_words fields_from
no_piece_fits c max parts e none_left =
    let words = words-pack c max (newline ∷ newline ∷ []) parts [] c.chunk_index (cc) white_break in
    let empty : fields c.text ≡ [] = sym e ∙ sym words ∙ ap chunk_words none_left in
    rw empty (omega arith)

or_else_cases :
    (rs cs : List Chunk) (next : Option (List Chunk))
    → or_else rs next ≡ some cs
    → (rs ≡ []) ⊎ (rs ≡ cs)
or_else_cases [] cs next e = inl refl
or_else_cases (r ∷ rs) cs next e = inr (ground arith)

fits_of :
    (c : Chunk) (max : ℕ)
    → max ≢ 0
    → (max == 0 || leb (est_tokens c.text) max) ≡ true
    → est_tokens c.text ≤ max
fits_of c max pos h = ground arith

-- If every paragraph of a chunk is within the limit, the pieces exceed it by one token at most: the
-- paragraphs' estimates are rounded down one by one before they are added.
pub enforce_max_tokens-Fits :
    (fuel : ℕ) (c : Chunk) (max : ℕ) (cs : List Chunk)
    → All (λ p. est_tokens p ≤ max) (paragraphs c)
    → enforce_max_tokens fuel c max ≡ some cs
    → max ≢ 0
    → All (λ d. est_tokens d.text ≤ max + 1) cs
unfolding enforce_max_tokens by_paragraphs fields_from est_tokens
enforce_max_tokens-Fits fuel c max cs small e pos =
    let words = fields-split c.text (newline ∷ newline ∷ []) (cc) white_break in
    let pieces = pack c max (newline ∷ newline ∷ []) (paragraphs c) [] c.chunk_index in
    elim (Bool-cases (max == 0 || leb (est_tokens c.text) max)) [
      | inl fits ↦
          let same : c ∷ [] ≡ cs = ground arith in
          rw (← same) (omega (arith, fits_of c max pos fits), tt)
      | inr large ↦ elim (Bool-cases (several (paragraphs c))) [
        | inl many ↦ elim (or_else_cases pieces cs (by_sentences fuel c max) (ground arith)) [
          | inl empty ↦ absurd (ground (arith, no_piece_fits c max (paragraphs c) words empty))
          | inr same ↦ rw (← same) (
              pack-Fits c max (newline ∷ newline ∷ []) (cc) white_break (paragraphs c) []
                c.chunk_index small (omega arith))
        ]
        | inr one ↦ absurd (ground (arith, single_fits c.text max (paragraphs c) words one small))
      ]
    ]

-- A limit of one token: a chunk of one paragraph and one sentence that holds two words or more is
-- never split, since the loop over its words advances by no word. No fuel is enough.
pub enforce_max_tokens-diverges :
    (fuel : ℕ) (c : Chunk)
    → 2 ≤ length (fields c.text)
    → several (paragraphs c) ≡ false
    → several (split_sentences c.text) ≡ false
    → enforce_max_tokens fuel c 1 ≡ none
unfolding enforce_max_tokens by_paragraphs by_sentences by_words est_tokens
enforce_max_tokens-diverges fuel c two para sentence =
    ground (arith, hard_split-diverges fuel c (fields c.text) c.chunk_index)
