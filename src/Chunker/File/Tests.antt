-- ===== src/Chunker/File/Tests.antt =====
-- Runs of the chunker, and its theorems at concrete inputs.
use ragamuffin.Base.{ℕ, ◌+◌, ◌≤◌, ◌≡◌, refl, Option, some, none, List, [], ◌∷◌, map, arith, All}
use ragamuffin.Text.{Text, codes, is_space, has_prefix, same_text}
use ragamuffin.Text.Words.{fields, fields_from, trim_space, join}
use ragamuffin.Text.Cut.{split_from, before}
use ragamuffin.Text.Utf8.{encode, encode_rune}
use ragamuffin.Chunker.Record.{Chunk, Options}
use ragamuffin.Chunker.Paragraph.{extract_first_paragraph}
use ragamuffin.Chunker.Links.{extract_links, is_empty}
use ragamuffin.Chunker.Split.{chunk_markdown, chunk_plain, is_heading}
use ragamuffin.Chunker.Split.Words.{chunk_words}
use ragamuffin.Chunker.Limit.{
  enforce_max_tokens, est_tokens, pack, hard_split, by_words, by_sentences, by_paragraphs,
  split_sentences, piece,
}
use ragamuffin.Chunker.Limit.Words.{enforce_max_tokens-Covers, Covers}
use ragamuffin.Chunker.Limit.Bounds.{enforce_max_tokens-Fits, enforce_max_tokens-diverges}
use ragamuffin.Chunker.File.{chunk_file, enforce_all}
use ragamuffin.Chunker.File.Laws.{words-chunk_file}

program : Unit {0}
unfolding chunk_file enforce_all enforce_max_tokens est_tokens pack hard_split by_words by_sentences
    by_paragraphs split_sentences chunk_markdown chunk_plain is_heading is_empty extract_links
    extract_first_paragraph encode encode_rune before split_from join trim_space fields_from
    is_space has_prefix same_text
program = tt

abbrev note : Text
note = codes "intro\n# One\nalpha beta\n\n## Two\nsee [[two#x|alias]] and [t](t.md)\n"

abbrev whole : Options
whole = record { max_tokens = 0 }

abbrev source : Text
source = codes "n.md"

abbrev texts : Option (List Chunk) → List Text
texts none = []
texts (some cs) = map (λ (c : Chunk). c.text) cs

abbrev indices : Option (List Chunk) → List ℕ
indices none = []
indices (some cs) = map (λ (c : Chunk). c.chunk_index) cs

abbrev links : Option (List Chunk) → List (List Text)
links none = []
links (some cs) = map (λ (c : Chunk). c.links_to) cs

texts_of_note :
    texts (chunk_file 20 note source (codes ".md") 7 whole)
    ≡ codes "intro"
      ∷ codes "# One\nalpha beta"
      ∷ codes "## Two\nsee [[two#x|alias]] and [t](t.md)"
      ∷ []
unfolding program
texts_of_note = refl

links_of_note :
    links (chunk_file 20 note source (codes ".md") 7 whole)
    ≡ [] ∷ [] ∷ (codes "two" ∷ codes "t.md" ∷ []) ∷ []
unfolding program
links_of_note = refl

-- Two sections, the first of which is cut in two: the index 1 is given twice.
repeated_index :
    indices (
      chunk_file 20
        (codes "# A\n\nb c d e\n# B\nx")
        source
        (codes ".md")
        7
        (record { max_tokens = 5 }))
    ≡ 0 ∷ 1 ∷ 1 ∷ []
unfolding program
repeated_index = refl

-- An anchor within the same file leaves the empty target.
empty_link : extract_links (codes "[up](#top)") ≡ [] ∷ []
unfolding program
empty_link = refl

-- A long paragraph beside a short one stays as long as it is.
long_piece :
    texts (
      chunk_file 20
        (codes "a\n\nb c d e f g h i")
        source
        (codes ".md")
        7
        (record { max_tokens = 2 }))
    ≡ codes "a" ∷ codes "b c d e f g h i" ∷ []
unfolding program
long_piece = refl

words-chunk_file_example :
    (cs : List Chunk) × (chunk_file 3
        (codes "# A\n\nb")
        source
        (codes ".md")
        7
        (record { max_tokens = 2 })
      ≡ some cs)
    × (chunk_words cs ≡ fields (codes "# A\n\nb"))
unfolding program
words-chunk_file_example =
    words-chunk_file (codes "# A\n\nb") source (codes ".md") 7 (record { max_tokens = 2 }) 3
      (omega arith) (omega arith)

abbrev section : Text → ℕ → Chunk
section t i = record {
  text = t;
  first_paragraph = t;
  source_file = source;
  header = [];
  chunk_index = i;
  updated_at = 7;
  links_to = [];
}

enforce_max_tokens-Covers_example :
    (cs : List Chunk) × (enforce_max_tokens 3 (section (codes "a. b. c") 4) 2 ≡ some cs)
    × Covers (section (codes "a. b. c") 4) cs
unfolding program
enforce_max_tokens-Covers_example =
    enforce_max_tokens-Covers 3 (section (codes "a. b. c") 4) 2 (omega arith) (omega arith)

enforce_max_tokens-Fits_example :
    All
      (λ (d : Chunk). est_tokens d.text ≤ 2 + 1)
      (piece (section (codes "a\n\nb\n\nc") 0) (codes "a\n\nb") 0
        ∷ piece (section (codes "a\n\nb\n\nc") 0) (codes "c") 1
        ∷ [])
unfolding program
enforce_max_tokens-Fits_example =
    enforce_max_tokens-Fits 3 (section (codes "a\n\nb\n\nc") 0) 2 _ (omega arith) refl (omega arith)

enforce_max_tokens-diverges_example : enforce_max_tokens 9 (section (codes "two words") 0) 1 ≡ none
unfolding program
enforce_max_tokens-diverges_example =
    enforce_max_tokens-diverges 9 (section (codes "two words") 0) (omega arith) refl refl
