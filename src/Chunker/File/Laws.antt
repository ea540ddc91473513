-- ===== src/Chunker/File/Laws.antt =====
-- ChunkFile returns chunks that hold the words of the file, in order.
use ragamuffin.Base.{
  ℕ, ◌≤◌, ◌≡◌, ◌≢◌, refl, ◌∙◌, inl, inr, some, List, [], ◌∷◌, ◌++◌, arith, Bool-cases, length,
  length-append, ◌==◌, if◌then◌else◌,
}
use ragamuffin.Text.{Text, codes, same_text}
use ragamuffin.Text.Words.{fields}
use ragamuffin.Chunker.Record.{Chunk, Options}
use ragamuffin.Chunker.Split.{chunk_markdown, chunk_plain}
use ragamuffin.Chunker.Split.Words.{
  chunk_words, chunk_words-append, words-chunk_markdown, words-chunk_plain,
}
use ragamuffin.Chunker.Limit.Words.{enforce_max_tokens-Covers}
use ragamuffin.Chunker.File.{enforce_all, chunk_file}

enforce_all-words :
    (fuel : ℕ) (cs : List Chunk) (max : ℕ)
    → max ≢ 1
    → length (chunk_words cs) ≤ fuel
    → (ds : List Chunk) × (enforce_all fuel cs max ≡ some ds) × (chunk_words ds ≡ chunk_words cs)
unfolding enforce_all chunk_words
enforce_all-words fuel [] max ne enough = ([], refl, refl)
enforce_all-words fuel (c ∷ cs) max ne enough =
    let (pieces, e, covers) =
      enforce_max_tokens-Covers fuel c max ne
        (omega (arith, length-append (fields c.text) (chunk_words cs))) in
    let (more, e', same) =
      enforce_all-words fuel cs max ne
        (omega (arith, length-append (fields c.text) (chunk_words cs))) in
    (
      pieces ++ more,
      rw (e, enforce_all) (rw (e', enforce_all)),
      rw chunk_words-append (cc (covers.all_words, same)),
    )

split_words :
    (content source ext : Text) (mod_time : ℕ)
    → chunk_words (
        if same_text ext (codes ".md")
        then chunk_markdown source mod_time content
        else chunk_plain source mod_time content)
      ≡ fields content
split_words content source ext mod_time = elim (Bool-cases (same_text ext (codes ".md"))) [
  | inl md ↦ rw md (words-chunk_markdown source mod_time content)
  | inr other ↦ rw other (words-chunk_plain source mod_time content)
]

-- With any token limit but 1, chunking a file returns, and the words of the chunks, one chunk after
-- another, are exactly the words of the file: none is lost, none is doubled, the order is kept. A
-- fuel of as many rounds as the file has words is enough.
pub words-chunk_file :
    (content source ext : Text) (mod_time : ℕ) (opts : Options) (fuel : ℕ)
    → opts.max_tokens ≢ 1
    → length (fields content) ≤ fuel
    → (cs : List Chunk) × (chunk_file fuel content source ext mod_time opts ≡ some cs)
      × (chunk_words cs ≡ fields content)
unfolding chunk_file
words-chunk_file content source ext mod_time opts fuel ne enough =
    let e = split_words content source ext mod_time in
    elim (Bool-cases (opts.max_tokens == 0)) [
      | inl off ↦ (_, rw off, e)
      | inr on ↦
          let (ds, returns, same) = enforce_all-words fuel _ opts.max_tokens ne (rw e enough) in
          (ds, rw on returns, same ∙ e)
    ]
