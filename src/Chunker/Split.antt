-- ===== src/Chunker/Split.antt =====
-- chunkMarkdown and chunkPlain of internal/chunker/chunker.go.
pub mod Words
pub mod Order
use ragamuffin.Base.{ℕ, ◌+◌, Bool, true, false, ◌||◌, List, [], ◌∷◌, ◌++◌, if◌then◌else◌}
use ragamuffin.Text.{Text, newline, has_prefix, codes}
use ragamuffin.Text.Words.{trim_space}
use ragamuffin.Text.Cut.{split}
use ragamuffin.Chunker.Record.{Chunk}
use ragamuffin.Chunker.Paragraph.{extract_first_paragraph}
use ragamuffin.Chunker.Links.{extract_links, is_empty}

-- What the loops of chunkMarkdown carry: `chunks`, `current`, `currentHeader` and `chunkIndex`.
pub record Progress : Type 0 where
  pub chunks : List Chunk
  pub current : Text
  pub current_header : Text
  pub index : ℕ

-- H1, H2 and H3
unfoldable pub is_heading : Text → Bool
is_heading trimmed =
    has_prefix trimmed (codes "### ")
    || has_prefix trimmed (codes "## ")
    || has_prefix trimmed (codes "# ")

module _ (source : Text) (mod_time : ℕ) where
  abbrev pub section_chunk : Text → Text → ℕ → Chunk
  section_chunk text header i = record {
    text = text;
    first_paragraph = extract_first_paragraph text;
    source_file = source;
    header = header;
    chunk_index = i;
    updated_at = mod_time;
    links_to = extract_links text;
  }

  unfoldable pub flush_chunk : Progress → Progress
  unfolding is_empty
  flush_chunk p =
      let text = trim_space p.current in
      if is_empty text then record p { current = [] } else record {
        chunks = p.chunks ++ section_chunk text p.current_header p.index ∷ [];
        current = [];
        current_header = p.current_header;
        index = p.index + 1;
      }

  -- One round of the loop over the lines.
  unfoldable pub read_line : Progress → Text → Progress
  unfolding flush_chunk
  read_line p line =
      let trimmed = trim_space line in
      let q =
        if is_heading trimmed then record (flush_chunk p) { current_header = trimmed } else p in
      record q { current = q.current ++ (line ++ newline ∷ []) }

  unfoldable pub read_lines : Progress → List Text → Progress
  unfolding read_line
  read_lines p [] = p
  read_lines p (line ∷ lines) = read_lines (read_line p line) lines

  unfoldable pub chunk_markdown : Text → List Chunk
  unfolding read_lines flush_chunk
  chunk_markdown content =
      let empty : Progress = record { chunks = []; current = []; current_header = []; index = 0 } in
      (flush_chunk (read_lines empty (split content (newline ∷ [])))).chunks

  abbrev pub plain_chunk : Text → ℕ → Chunk
  plain_chunk text i = record {
    text = text;
    first_paragraph = extract_first_paragraph text;
    source_file = source;
    header = [];
    chunk_index = i;
    updated_at = mod_time;
    links_to = [];
  }

  -- The loop over the paragraphs; `i` is `chunkIndex`.
  unfoldable pub plain_chunks : List Text → ℕ → List Chunk
  unfolding is_empty
  plain_chunks [] i = []
  plain_chunks (p ∷ ps) i =
      let text = trim_space p in
      elim (is_empty text) [
        | true ↦ plain_chunks ps i
        | false ↦ plain_chunk text i ∷ plain_chunks ps (i + 1)
      ]

  unfoldable pub chunk_plain : Text → List Chunk
  unfolding plain_chunks
  chunk_plain content = plain_chunks (split content (newline ∷ newline ∷ [])) 0
