-- ===== src/Chunker/Limit.antt =====
-- enforceMaxTokens and splitSentences of internal/chunker/chunker.go, and EstTokens of
-- internal/tokenutil/tokenutil.go. The product with 1.3 is rounded down, as the conversion to int
-- does: ten times it is 13 for every word.
pub mod Pieces
pub mod Words
pub mod Hard
pub mod Bounds
use ragamuffin.Base.{
  ℕ, zero, suc, ◌+◌, ◌*◌, ◌/◌, ◌≡◌, refl, Bool, true, false, not, ◌&&◌, ◌||◌, Option, none, some,
  List, [], ◌∷◌, ◌++◌, ◌==◌, ltb, leb, if◌then◌else◌, length, take, drop,
}
use ragamuffin.Text.{Text, newline, space}
use ragamuffin.Text.Words.{trim_space, fields, fields_from, join}
use ragamuffin.Text.Cut.{split}
use ragamuffin.Chunker.Record.{Chunk}
use ragamuffin.Chunker.Paragraph.{extract_first_paragraph}
use ragamuffin.Chunker.Links.{is_empty}

unfoldable pub est_tokens : Text → ℕ
est_tokens text = length (fields text) * 13 / 10

-- The chunk that each of the three loops appends: the fields of `c`, but for the links.
abbrev pub piece : Chunk → Text → ℕ → Chunk
piece c text i = record {
  text = text;
  first_paragraph = extract_first_paragraph text;
  source_file = c.source_file;
  header = c.header;
  chunk_index = i;
  updated_at = c.updated_at;
  links_to = [];
}

-- `current.Len() > 0`
abbrev pub non_empty : Text → Bool
non_empty t = not (is_empty t)

-- `p` goes behind what is in hand.
unfoldable pub joined : Text → Text → Text → Text
unfolding is_empty
joined joiner current p = if non_empty current then current ++ (joiner ++ p) else p

module _ (c : Chunk) (max : ℕ) (joiner : Text) where
  -- The loops over paragraphs and over sentences, which differ in the text that joins two parts;
  -- the arguments are the parts left, `current` and `idx`, and the result is what is appended.
  unfoldable pub pack : List Text → Text → ℕ → List Chunk
  unfolding joined
  pack [] current i = if non_empty current then piece c (trim_space current) i ∷ [] else []
  pack (part ∷ parts) current i =
      let p = trim_space part in
      let skip = pack parts current i in
      let full = piece c (trim_space current) i ∷ pack parts p (i + 1) in
      let more = pack parts (joined joiner current p) i in
      if is_empty p
      then skip
      else if ltb max (est_tokens current + est_tokens p) && non_empty current
      then full
      else more

-- The loop of splitSentences; `cur` is text[start:i].
unfoldable pub sentences_from : Text → Text → List Text
sentences_from cur [] = if is_empty cur then [] else cur ∷ []
sentences_from cur (c ∷ []) = (cur ++ c ∷ []) ∷ []
sentences_from cur (c ∷ d ∷ s) =
    let cut = (cur ++ c ∷ []) ∷ sentences_from [] s in
    let on = sentences_from (cur ++ c ∷ []) (d ∷ s) in
    if c == b'.' && (d == space || d == newline) then cut else on

unfoldable pub split_sentences : Text → List Text
unfolding sentences_from is_empty
split_sentences [] = [] ∷ []
split_sentences (c ∷ s) = sentences_from [] (c ∷ s)

-- The loop over the words in groups of `target`, on fuel; `none` means that the fuel ran out.
unfoldable pub hard_split : ℕ → Chunk → ℕ → List Text → ℕ → Option (List Chunk)
hard_split fuel c target [] i = some []
hard_split zero c target (w ∷ ws) i = none
hard_split (suc fuel) c target (w ∷ ws) i =
    elim (hard_split fuel c target (drop target (w ∷ ws)) (i + 1)) [
      | none ↦ none
      | some rest ↦ some (piece c (join (take target (w ∷ ws)) (space ∷ [])) i ∷ rest)
    ]

-- `len(result) > 0` ends the function; otherwise the next way is tried.
abbrev or_else : List Chunk → Option (List Chunk) → Option (List Chunk)
or_else [] next = next
or_else (r ∷ rs) next = some (r ∷ rs)

-- `len(parts) > 1`
abbrev pub several : List Text → Bool
several (a ∷ b ∷ parts) = true
several _ = false

unfoldable pub by_words : ℕ → Chunk → ℕ → Option (List Chunk)
by_words fuel c max = hard_split fuel c (max * 10 / 13) (fields c.text) c.chunk_index

unfoldable pub by_sentences : ℕ → Chunk → ℕ → Option (List Chunk)
by_sentences fuel c max =
    let sentences = split_sentences c.text in
    if several sentences
    then or_else (pack c max (space ∷ []) sentences [] c.chunk_index) (by_words fuel c max)
    else by_words fuel c max

unfoldable pub by_paragraphs : ℕ → Chunk → ℕ → Option (List Chunk)
by_paragraphs fuel c max =
    let paras = split c.text (newline ∷ newline ∷ []) in
    if several paras
    then or_else (pack c max (newline ∷ newline ∷ []) paras [] c.chunk_index)
        (by_sentences fuel c max)
    else by_sentences fuel c max

unfoldable pub enforce_max_tokens : ℕ → Chunk → ℕ → Option (List Chunk)
enforce_max_tokens fuel c max =
    if max == 0 || leb (est_tokens c.text) max then some (c ∷ []) else by_paragraphs fuel c max
