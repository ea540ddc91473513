-- ===== src/Chunker/Split/Words.antt =====
-- Splitting a file into sections or paragraphs loses no word of it.
use mathlib.Core.List.{flat_map}
use ragamuffin.Base.{
  ℕ, ◌+◌, ◌≡◌, refl, sym, ◌∙◌, inl, inr, ◌⊎◌, true, List, [], ◌∷◌, ◌++◌, append-nil, append_assoc,
  arith, Bool-cases,
}
use ragamuffin.Text.{Text, newline, is_space}
use ragamuffin.Text.Words.{trim_space, fields, fields_from, fields_from-append, fields-trim_space}
use ragamuffin.Text.Cut.{split, fields-split}
use ragamuffin.Chunker.Record.{Chunk}
use ragamuffin.Chunker.Links.{is_empty}
use ragamuffin.Chunker.Split.{
  Progress, flush_chunk, is_heading, read_line, read_lines, chunk_markdown, plain_chunks,
  chunk_plain,
}

-- The words of chunks, in order.
unfoldable pub chunk_words : List Chunk → List Text
chunk_words [] = []
chunk_words (c ∷ cs) = fields c.text ++ chunk_words cs

pub chunk_words-append :
    (xs ys : List Chunk) → chunk_words (xs ++ ys) ≡ chunk_words xs ++ chunk_words ys
unfolding chunk_words
chunk_words-append [] ys = refl
chunk_words-append (x ∷ xs) ys = simp (chunk_words-append xs ys, append_assoc)

pub fields_empty : (t : Text) → is_empty t ≡ true → fields t ≡ []
unfolding fields_from is_empty
fields_empty [] h = refl
fields_empty (c ∷ t) h = cc

pub space-newline : is_space newline ≡ true
unfolding is_space
space-newline = refl

-- What has been read: the words of the chunks, and those of the section in hand.
progress_words : Progress → List Text
progress_words p = chunk_words p.chunks ++ fields p.current

-- The section in hand is empty, or ends with a line's end.
abbrev IsEnded : Text → Type 0
IsEnded cur = (cur ≡ []) ⊎ ((t : Text) × (cur ≡ t ++ newline ∷ []))

fields-line : (line : Text) → fields (line ++ newline ∷ []) ≡ fields line
unfolding fields_from
fields-line line = fields_from-append [] line newline [] space-newline ∙ append-nil (fields line)

fields_ended :
    (cur line : Text)
    → IsEnded cur
    → fields (cur ++ (line ++ newline ∷ [])) ≡ fields cur ++ fields line
unfolding fields_from
fields_ended cur line (inl e) = rw e (fields-line line)
fields_ended cur line (inr (t, e)) =
    rw (e, append_assoc, fields_from-append [] t newline [] space-newline)
      (cc (
        fields_from-append [] t newline (line ++ newline ∷ []) space-newline,
        fields-line line,
        append-nil (fields t),
      ))

module _ (source : Text) (mod_time : ℕ) where
  flush_words :
      (p : Progress)
      → (chunk_words (flush_chunk source mod_time p).chunks ≡ progress_words p)
        × ((flush_chunk source mod_time p).current ≡ [])
  unfolding flush_chunk progress_words fields_from chunk_words
  flush_words p = elim (Bool-cases (is_empty (trim_space p.current))) [
    | inl h ↦ (
      rw h (
          cc (
            fields-trim_space p.current,
            fields_empty (trim_space p.current) h,
            append-nil (chunk_words p.chunks),
          )),
      rw h,
    )
    | inr h ↦ (
      rw h (
          rw chunk_words-append
            (cc (fields-trim_space p.current, append-nil (fields (trim_space p.current))))),
      rw h,
    )
  ]

  line_words :
      (p : Progress) (line : Text)
      → IsEnded p.current
      → (progress_words (read_line source mod_time p line) ≡ progress_words p ++ fields line)
        × IsEnded (read_line source mod_time p line).current
  unfolding read_line progress_words
  line_words p line ended = elim (Bool-cases (is_heading (trim_space line))) [
    | inl h ↦
        let (kept, emptied) = flush_words p in
        (rw (h, emptied) (cc (kept, fields-line line)), inr (line, rw (h, emptied)))
    | inr h ↦ (
      rw h (
          cc (
            fields_ended p.current line ended,
            append_assoc (chunk_words p.chunks) (fields p.current) (fields line),
          )),
      inr (p.current ++ line, rw h (sym (append_assoc p.current line _))),
    )
  ]

  lines_words :
      (lines : List Text) (p : Progress)
      → IsEnded p.current
      → progress_words (read_lines source mod_time p lines)
        ≡ progress_words p ++ flat_map fields lines
  unfolding read_lines flat_map
  lines_words [] p ended = sym (append-nil _)
  lines_words (line ∷ lines) p ended =
      let (read, ended') = line_words p line ended in
      rw (lines_words lines (read_line source mod_time p line) ended', read)
        (append_assoc (progress_words p) (fields line) _)

  -- The sections of a Markdown file hold its words, in order.
  pub words-chunk_markdown :
      (content : Text) → chunk_words (chunk_markdown source mod_time content) ≡ fields content
  unfolding chunk_markdown progress_words chunk_words fields_from
  words-chunk_markdown content =
      let empty : Progress = record { chunks = []; current = []; current_header = []; index = 0 } in
      let lines = split content (newline ∷ []) in
      (flush_words (read_lines source mod_time empty lines)).0
      ∙ lines_words lines empty (inl refl)
      ∙ fields-split content (newline ∷ []) (cc) (space-newline, tt)

  plain_words :
      (ps : List Text) (i : ℕ)
      → chunk_words (plain_chunks source mod_time ps i) ≡ flat_map fields ps
  unfolding plain_chunks flat_map chunk_words
  plain_words [] i = refl
  plain_words (p ∷ ps) i = ground (
    arith,
    plain_words ps i,
    plain_words ps (i + 1),
    fields-trim_space p,
    fields_empty (trim_space p),
  )

  -- The paragraphs of any other file hold its words, in order.
  pub words-chunk_plain :
      (content : Text) → chunk_words (chunk_plain source mod_time content) ≡ fields content
  unfolding chunk_plain
  words-chunk_plain content =
      plain_words (split content (newline ∷ newline ∷ [])) 0
      ∙ fields-split content (newline ∷ newline ∷ []) (cc) (space-newline, (space-newline, tt))
