-- ===== src/Chunker/Split/Order.antt =====
-- The indices of the chunks of a file.
use ragamuffin.Base.{
  ℕ, ◌+◌, ◌≡◌, refl, inl, inr, List, [], ◌∷◌, ◌++◌, arith, Bool-cases, length, length-append,
}
use ragamuffin.Text.{Text, newline}
use ragamuffin.Text.Words.{trim_space}
use ragamuffin.Text.Cut.{split}
use ragamuffin.Chunker.Record.{Chunk}
use ragamuffin.Chunker.Links.{is_empty}
use ragamuffin.Chunker.Split.{
  Progress, section_chunk, flush_chunk, is_heading, read_line, read_lines, chunk_markdown,
  plain_chunks, chunk_plain,
}

-- The indices of chunks are `i`, `i + 1` and so on.
abbrev pub Numbered : ℕ → List Chunk → Type 0
Numbered i [] = Unit
Numbered i (c ∷ cs) = (c.chunk_index ≡ i) × Numbered (i + 1) cs

Numbered-snoc :
    (cs : List Chunk) (c : Chunk) (i j : ℕ)
    → j ≡ i + length cs
    → c.chunk_index ≡ j
    → Numbered i cs
    → Numbered i (cs ++ c ∷ [])
Numbered-snoc [] c i j e h n = omega arith
Numbered-snoc (d ∷ cs) c i j e h (p, n) = (p, Numbered-snoc cs c (i + 1) j (omega arith) h n)

-- The next index is the number of chunks made.
record IsCounted (p : Progress) : Type 0 where
  numbered : Numbered 0 p.chunks
  next : p.index ≡ length p.chunks

module _ (source : Text) (mod_time : ℕ) where
  IsCounted-flush : (p : Progress) → IsCounted p → IsCounted (flush_chunk source mod_time p)
  unfolding flush_chunk
  IsCounted-flush p h = elim (Bool-cases (is_empty (trim_space p.current))) [
    | inl e ↦ rw e (record { numbered = h.numbered; next = h.next })
    | inr e ↦
        let c = section_chunk source mod_time (trim_space p.current) p.current_header p.index in
        rw e (record {
          numbered = Numbered-snoc p.chunks c 0 p.index (omega (arith, h.next)) refl h.numbered;
          next = omega (arith, h.next, length-append p.chunks (c ∷ []));
        })
  ]

  IsCounted-read_line :
      (p : Progress) (line : Text) → IsCounted p → IsCounted (read_line source mod_time p line)
  unfolding read_line
  IsCounted-read_line p line h = elim (Bool-cases (is_heading (trim_space line))) [
    | inl e ↦
        let done = IsCounted-flush p h in
        rw e (record { numbered = done.numbered; next = done.next })
    | inr e ↦ rw e (record { numbered = h.numbered; next = h.next })
  ]

  IsCounted-read_lines :
      (p : Progress) (lines : List Text)
      → IsCounted p
      → IsCounted (read_lines source mod_time p lines)
  unfolding read_lines
  IsCounted-read_lines p [] h = h
  IsCounted-read_lines p (line ∷ lines) h =
      IsCounted-read_lines (read_line source mod_time p line) lines (IsCounted-read_line p line h)

  -- The sections of a Markdown file are numbered from 0, with no gap.
  pub Numbered-chunk_markdown :
      (content : Text) → Numbered 0 (chunk_markdown source mod_time content)
  unfolding chunk_markdown
  Numbered-chunk_markdown content =
      let empty : Progress = record { chunks = []; current = []; current_header = []; index = 0 } in
      (IsCounted-flush (read_lines source mod_time empty (split content (newline ∷ []))) (
        IsCounted-read_lines empty (split content (newline ∷ []))
          (record { numbered = tt; next = refl }))).numbered

  Numbered-plain_chunks : (ps : List Text) (i : ℕ) → Numbered i (plain_chunks source mod_time ps i)
  unfolding plain_chunks
  Numbered-plain_chunks [] i = tt
  Numbered-plain_chunks (p ∷ ps) i = elim (Bool-cases (is_empty (trim_space p))) [
    | inl e ↦ rw (e, plain_chunks) (Numbered-plain_chunks ps i)
    | inr e ↦ rw (e, plain_chunks) (refl, Numbered-plain_chunks ps (i + 1))
  ]

  -- So are the paragraphs of any other file.
  pub Numbered-chunk_plain : (content : Text) → Numbered 0 (chunk_plain source mod_time content)
  unfolding chunk_plain
  Numbered-chunk_plain content = Numbered-plain_chunks (split content (newline ∷ newline ∷ [])) 0
