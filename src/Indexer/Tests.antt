-- ===== src/Indexer/Tests.antt =====
-- Runs of the indexer over the embedded store, and its theorems at concrete inputs.
use ragamuffin.Base.{
  ℕ, ◌≤◌, ◌≡◌, refl, false, Option, some, none, [], ◌∷◌, arith, map, length, ◌==◌,
}
use ragamuffin.Text.{Text, codes, is_space, has_prefix, same_text}
use ragamuffin.Text.Words.{fields, fields_from, trim_space, join}
use ragamuffin.Text.Cut.{split_from, before}
use ragamuffin.Text.Case.{to_lower}
use ragamuffin.Text.Utf8.{encode, encode_rune}
use ragamuffin.Text.Maps.{lookup, insert}
use ragamuffin.Chunker.Record.{Chunk, Options}
use ragamuffin.Chunker.Paragraph.{extract_first_paragraph}
use ragamuffin.Chunker.Links.{extract_links, is_empty}
use ragamuffin.Chunker.Split.{chunk_markdown, chunk_plain, is_heading}
use ragamuffin.Chunker.Limit.{
  enforce_max_tokens, est_tokens, pack, hard_split, by_words, by_sentences, by_paragraphs,
  split_sentences,
}
use ragamuffin.Chunker.File.{chunk_file, enforce_all}
use ragamuffin.Store.Payload.{
  lookup_field, encode_payload, flatten_value, flatten_fields, flatten_values, marshals,
  marshal_members, marshal_elements,
}
use ragamuffin.Store.PointId.{encode_point_id}
use ragamuffin.Store.Vector.{encode_vector, encode_floats, put_uint32}
use ragamuffin.Store.Table.{less_text, put_row, delete_source}
use ragamuffin.Store.Database.{Store, table_name, or_primary, ensure_collection, persist_dimension}
use ragamuffin.Store.Database.Points.{
  upsert, upsert_into, upsert_ensured, write_points, row_of, source_column, delete_by_source, count,
}
use ragamuffin.Indexer.Path.{ext, is_indexable}
use ragamuffin.Indexer.{
  embedded, World, Progress, known, note_file, batches, points_of, index_content, index_file,
  index_files, indexable_files, started, finished, reindex_files, full_reindex,
}
use ragamuffin.Indexer.Laws.{IsCounted, full_reindex-IsCounted}

abbrev note : Text
note = codes "# A\n\nb c d e\n# B\nx"

abbrev world : World
world = record {
  read_file = λ path. some note;
  mod_time = λ path. some 7;
  embed = some (λ texts. some (map (λ (t : Text). 1 ∷ []) texts));
  point_hash = λ path i. i ∷ path;
  format_time = λ t. [];
}

abbrev small : Options
small = record { max_tokens = 5 }

abbrev no_progress : Progress
no_progress = record {
  file_count = 0;
  chunk_count = 0;
  last_indexed = 0;
  indexing = false;
  progress_pct = 0;
  total_files = 0;
  known_files = [];
}

abbrev empty_store : Store
empty_store = record {
  collection = codes "v";
  tables = (codes "_v", []) ∷ [];
  collections = [];
  dims = [];
}

short_note :
    (path content : Text) → world.read_file path ≡ some content → length (fields content) ≤ 9
unfolding fields_from is_space
short_note path content e =
    let same : note ≡ content = ground (arith, e) in rw (← same) (omega arith)

full_reindex-IsCounted_example :
    (s : Store) × (p : Progress) × (full_reindex embedded world 9 small
        (codes "a.md" ∷ codes ".git/x" ∷ [])
        3
        empty_store
        no_progress
      ≡ some (s, p))
    × IsCounted p
    × (p.indexing
        ≡ (length (indexable_files embedded world (codes "a.md" ∷ codes ".git/x" ∷ [])) == 0))
full_reindex-IsCounted_example =
    full_reindex-IsCounted embedded world 9 small (λ e. absurd (omega (arith, e))) short_note
      (codes "a.md" ∷ codes ".git/x" ∷ []) 3 empty_store no_progress

program : Unit {0}
unfolding trim_space fields_from is_space has_prefix same_text join split_from before to_lower
    encode encode_rune lookup insert extract_first_paragraph extract_links is_empty chunk_markdown
    chunk_plain is_heading enforce_max_tokens est_tokens pack hard_split by_words by_sentences
    by_paragraphs split_sentences chunk_file enforce_all lookup_field encode_payload flatten_value
    flatten_fields flatten_values marshals marshal_members marshal_elements encode_point_id
    encode_vector encode_floats put_uint32 less_text put_row delete_source table_name or_primary
    ensure_collection persist_dimension upsert upsert_into upsert_ensured write_points row_of
    source_column delete_by_source count ext is_indexable embedded known note_file batches points_of
    index_content index_file index_files indexable_files started finished reindex_files full_reindex
program = tt

abbrev counts : Option (Store × Progress) → Option ℕ × ℕ
counts none = (none, 0)
counts (some (s, p)) = (count s, p.chunk_count)

-- The file has three chunks, two of which have the index 1: the store keeps two.
one_is_lost :
    counts (full_reindex embedded world 9 small (codes "a.md" ∷ []) 3 empty_store no_progress)
    ≡ (some 2, 3)
unfolding program
one_is_lost = refl

abbrev chunk : Chunk
chunk = record {
  text = [];
  first_paragraph = [];
  source_file = [];
  header = [];
  chunk_index = 0;
  updated_at = 0;
  links_to = [];
}
