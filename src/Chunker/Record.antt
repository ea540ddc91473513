-- ===== src/Chunker/Record.antt =====
-- The types of internal/chunker/chunker.go.
use ragamuffin.Base.{ℕ, List}
use ragamuffin.Text.{Text}

-- `updated_at` is the modification time of the file, which is handed on as it is.
pub record Chunk : Type 0 where
  pub text : Text
  pub first_paragraph : Text
  pub source_file : Text
  pub header : Text
  pub chunk_index : ℕ
  pub updated_at : ℕ
  pub links_to : List Text

pub record Options : Type 0 where
  pub max_tokens : ℕ
