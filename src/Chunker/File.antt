-- ===== src/Chunker/File.antt =====
-- ChunkFile of internal/chunker/chunker.go.
pub mod Laws
mod Tests
use ragamuffin.Base.{ℕ, Option, none, some, List, [], ◌∷◌, ◌++◌, ◌==◌, if◌then◌else◌}
use ragamuffin.Text.{Text, codes, same_text}
use ragamuffin.Chunker.Record.{Chunk, Options}
use ragamuffin.Chunker.Split.{chunk_markdown, chunk_plain}
use ragamuffin.Chunker.Limit.{enforce_max_tokens}

-- The loop that appends the pieces of each chunk.
unfoldable pub enforce_all : ℕ → List Chunk → ℕ → Option (List Chunk)
enforce_all fuel [] max = some []
enforce_all fuel (c ∷ cs) max =
    let rest = enforce_all fuel cs max in
    elim (enforce_max_tokens fuel c max) [
      | none ↦ none
      | some pieces ↦ elim rest [ none ↦ none | some more ↦ some (pieces ++ more) ]
    ]

-- The fuel is for the loop over words; `none` means that it ran out.
unfoldable pub chunk_file : ℕ → Text → Text → Text → ℕ → Options → Option (List Chunk)
chunk_file fuel content source ext mod_time opts =
    let chunks =
      if same_text ext (codes ".md")
      then chunk_markdown source mod_time content
      else chunk_plain source mod_time content in
    if opts.max_tokens == 0 then some chunks else enforce_all fuel chunks opts.max_tokens
