-- ===== src/Chunker/Limit/Words.antt =====
-- enforceMaxTokens as a whole: it returns, loses no word, and numbers the pieces from the chunk's
-- own index; with a limit of one token it may never return.
use mathlib.Core.List.{flat_map}
use ragamuffin.Base.{
  ℕ, ◌*◌, ◌/◌, ◌≤◌, ◌≡◌, ◌≢◌, refl, ◌∙◌, inl, inr, Bool, true, false, List, [], ◌∷◌, ◌++◌,
  append-nil, append_assoc, arith, Option, some, Bool-cases, length, ◌==◌, leb, ◌||◌, ◌&&◌,
  if◌then◌else◌,
}
use ragamuffin.Text.{Text, newline, space, is_space}
use ragamuffin.Text.Words.{fields, fields_from, fields_from-append, IsSpaces}
use ragamuffin.Text.Join.{fields-IsWord, space-space}
use ragamuffin.Text.Cut.{split, fields-split}
use ragamuffin.Chunker.Record.{Chunk}
use ragamuffin.Chunker.Split.Words.{chunk_words, fields_empty, space-newline}
use ragamuffin.Chunker.Limit.{
  pack, sentences_from, split_sentences, est_tokens, or_else, by_words, by_sentences, by_paragraphs,
  enforce_max_tokens,
}
use ragamuffin.Chunker.Split.Order.{Numbered}
use ragamuffin.Chunker.Limit.Pieces.{Numbered-pack, words-pack}
use ragamuffin.Chunker.Limit.Hard.{hard_split-Holds}

fields-sentence_end :
    (cur s : Text) (c d : ℕ)
    → (c == b'.' && (d == space || d == newline)) ≡ true
    → fields ((cur ++ c ∷ []) ++ d ∷ s) ≡ fields (cur ++ c ∷ []) ++ fields s
unfolding is_space
fields-sentence_end cur s c d h = fields_from-append [] (cur ++ c ∷ []) d s (ground arith)

sentences_words : (cur s : Text) → flat_map fields (sentences_from cur s) ≡ fields (cur ++ s)
unfolding sentences_from flat_map
sentences_words cur [] = ground (arith, fields_empty cur, append-nil cur, append-nil (fields cur))
sentences_words cur (c ∷ []) = append-nil _
sentences_words cur (c ∷ d ∷ s) = elim (Bool-cases (c == b'.' && (d == space || d == newline))) [
  | inl cut ↦
      rw (cut, sentences_from)
        (cc (
          sentences_words [] s,
          fields-sentence_end cur s c d cut,
          append_assoc cur (c ∷ []) (d ∷ s),
        ))
  | inr on ↦
      rw (on, sentences_from)
        (cc (sentences_words (cur ++ c ∷ []) (d ∷ s), append_assoc cur (c ∷ []) (d ∷ s)))
]

-- Splitting a text into sentences loses no word.
words-split_sentences : (s : Text) → flat_map fields (split_sentences s) ≡ fields s
unfolding split_sentences flat_map fields_from
words-split_sentences [] = refl
words-split_sentences (c ∷ s) = sentences_words [] (c ∷ s)

-- What the pieces of a chunk owe it.
pub record Covers (c : Chunk) (cs : List Chunk) : Type 0 where
  pub all_words : chunk_words cs ≡ fields c.text
  pub numbered : Numbered c.chunk_index cs

-- A result is returned, and covers the chunk.
abbrev Returns : Chunk → Option (List Chunk) → Type 0
Returns c r = (cs : List Chunk) × (r ≡ some cs) × Covers c cs

Returns-or_else :
    (c : Chunk) (rs : List Chunk) (next : Option (List Chunk))
    → Covers c rs
    → Returns c next
    → Returns c (or_else rs next)
Returns-or_else c [] next h r = r
Returns-or_else c (x ∷ rs) next h r = (x ∷ rs, refl, h)

Returns-if :
    (c : Chunk) (b : Bool) (x y : Option (List Chunk))
    → Returns c x
    → Returns c y
    → Returns c (if b then x else y)
Returns-if c true x y hx hy = hx
Returns-if c false x y hx hy = hy

module _ (fuel : ℕ) (c : Chunk) (max : ℕ) (two : 2 ≤ max)
    (enough : length (fields c.text) ≤ fuel) where
  Covers-pack :
      (joiner : Text) (parts : List Text)
      → joiner ≢ []
      → IsSpaces joiner
      → flat_map fields parts ≡ fields c.text
      → Covers c (pack c max joiner parts [] c.chunk_index)
  unfolding fields_from
  Covers-pack joiner parts ne white e = record {
    all_words = words-pack c max joiner parts [] c.chunk_index ne white ∙ e;
    numbered = Numbered-pack c max joiner parts [] c.chunk_index;
  }

  Returns-by_words : Returns c (by_words fuel c max)
  unfolding by_words
  Returns-by_words =
      let (cs, e, held) =
        hard_split-Holds fuel c (max * 10 / 13) (fields c.text) c.chunk_index (omega arith)
          (fields-IsWord c.text) enough in
      (cs, e, record { all_words = held.all_words; numbered = held.numbered })

  Returns-by_sentences : Returns c (by_sentences fuel c max)
  unfolding by_sentences
  Returns-by_sentences =
      Returns-if c _ _ _
        (Returns-or_else c _ _
          (Covers-pack (space ∷ []) (split_sentences c.text) (cc) (space-space, tt)
            (words-split_sentences c.text))
          Returns-by_words)
        Returns-by_words

  Returns-by_paragraphs : Returns c (by_paragraphs fuel c max)
  unfolding by_paragraphs
  Returns-by_paragraphs =
      Returns-if c _ _ _
        (Returns-or_else c _ _
          (Covers-pack (newline ∷ newline ∷ []) (split c.text (newline ∷ newline ∷ [])) (cc)
            (space-newline, (space-newline, tt))
            (fields-split c.text (newline ∷ newline ∷ []) (cc)
              (space-newline, (space-newline, tt))))
          Returns-by_sentences)
        Returns-by_sentences

-- With every limit but 1, cutting a chunk returns on as much fuel as the chunk has words; the
-- pieces hold the words of the chunk in order, and are numbered from its own index.
pub enforce_max_tokens-Covers :
    (fuel : ℕ) (c : Chunk) (max : ℕ)
    → max ≢ 1
    → length (fields c.text) ≤ fuel
    → (cs : List Chunk) × (enforce_max_tokens fuel c max ≡ some cs) × Covers c cs
unfolding enforce_max_tokens chunk_words
enforce_max_tokens-Covers fuel c max ne enough =
    elim (Bool-cases (max == 0 || leb (est_tokens c.text) max)) [
      | inl small ↦ (c ∷ [], rw small, record { all_words = append-nil _; numbered = (refl, tt) })
      | inr large ↦ rw large (Returns-by_paragraphs fuel c max (ground arith) enough)
    ]
