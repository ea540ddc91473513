-- ===== src/Indexer.antt =====
-- internal/indexer/indexer.go. The vector store is an interface, and the embedded store fills it. Reading
-- a file, its time, the embedding service and the hash of a point id are arguments, and so is the form of
-- a time. The link index, which is enrichment, is left out: an indexer with no link writer.
pub mod Path
pub mod Laws
pub mod Manager
mod Tests
use ragamuffin.Base.{
  ℕ, zero, suc, ◌+◌, ◌-◌, ◌*◌, ◌/◌, Bool, true, false, Option, none, some, List, [], ◌∷◌, ◌++◌, map,
  ltb, ◌==◌, if◌then◌else◌, length, take, drop,
}
use ragamuffin.Base.Int.{pos}
use ragamuffin.Text.{Text, codes}
use ragamuffin.Text.Maps.{lookup, insert}
use ragamuffin.Chunker.Record.{Chunk, Options}
use ragamuffin.Chunker.File.{chunk_file}
use ragamuffin.Store.Payload.{Value, Values, Fields, string, integer, list, nil, cons, end, field}
use ragamuffin.Store.PointId.{PointId, uuid}
use ragamuffin.Store.Vector.{single}
use ragamuffin.Store.Database.{Store}
use ragamuffin.Store.Database.Points.{Point, upsert, delete_by_source}
use ragamuffin.Indexer.Path.{ext, is_indexable}

-- What the indexer calls of qdrant.FactStore; `false` is an error.
pub record FactStore (State : Type 0) : Type 0 where
  pub delete_source : State → Text → State × Bool
  pub write : State → List Point → State × Bool

unfoldable pub embedded : FactStore Store
embedded = record { delete_source = delete_by_source; write = upsert }

-- What the indexer asks the world: `none` is an error. `embed` is none where there is no client.
pub record World : Type 0 where
  pub read_file : Text → Option Text
  pub mod_time : Text → Option ℕ
  pub embed : Option (List Text → Option (List (List ℕ)))
  pub point_hash : Text → ℕ → Text
  pub format_time : ℕ → Text

-- The fields that the statistics are made of.
pub record Progress : Type 0 where
  pub file_count : ℕ
  pub chunk_count : ℕ
  pub last_indexed : ℕ
  pub indexing : Bool
  pub progress_pct : ℕ
  pub total_files : ℕ
  pub known_files : List (Text × ℕ)

unfoldable pub known : Option ℕ → ℕ
known none = 0
known (some n) = n

-- The end of indexFile, under the lock. The chunks of the file are counted in the total already, so
-- the difference does not go below 0.
unfoldable pub note_file : Text → ℕ → ℕ → Progress → Progress
unfolding known
note_file path n now p =
    let old = known (lookup path p.known_files) in
    record p {
      file_count = if old == 0 then p.file_count + 1 else p.file_count;
      chunk_count = p.chunk_count + n - old;
      known_files = insert path n p.known_files;
      last_indexed = now;
    }

links_value : List Text → Values
links_value [] = nil
links_value (l ∷ ls) = cons (string l) (links_value ls)

-- The batches of at most 20 chunks, on as much fuel as there are chunks.
unfoldable pub batches : ℕ → List Chunk → List (List Chunk)
batches zero cs = []
batches (suc f) [] = []
batches (suc f) (c ∷ cs) = take 20 (c ∷ cs) ∷ batches f (drop 20 (c ∷ cs))

module _ {State : Type 0} (store : FactStore State) (world : World) where
  open store use {delete_source, write}
  open world use {read_file, mod_time, embed, point_hash, format_time}

  unfoldable pub point_of : Text → Chunk → List ℕ → Point
  unfolding links_value
  point_of path c vector = record {
    id = uuid (point_hash path c.chunk_index);
    vectors = single vector;
    payload = field (codes "text") (string c.text) (
        field (codes "source_file") (string c.source_file) (
          field (codes "header") (string c.header) (
            field (codes "chunk_index") (integer (pos c.chunk_index)) (
              field (codes "file_last_updated") (string (format_time c.updated_at))
                (field (codes "links_to") (list (links_value c.links_to)) end)))));
  }

  -- `none` where the numbers of vectors and of chunks differ.
  unfoldable pub points_of : Text → List Chunk → List (List ℕ) → Option (List Point)
  unfolding point_of
  points_of path [] [] = some []
  points_of path (c ∷ cs) (v ∷ vs) = elim (points_of path cs vs) [
    | none ↦ none
    | some ps ↦ some (point_of path c v ∷ ps)
  ]
  points_of path _ _ = none

  write_batch : Text → List Chunk → Option (List (List ℕ)) → State → State × Bool
  unfolding points_of
  write_batch path cs none s = (s, false)
  write_batch path cs (some vs) s = elim (points_of path cs vs) [
    | none ↦ (s, false)
    | some ps ↦ write s ps
  ]

  -- The loop over the batches stops at the first error.
  unfoldable pub write_batches :
      Text → (List Text → Option (List (List ℕ))) → List (List Chunk) → State → State × Bool
  unfolding write_batch
  write_batches path client [] s = (s, true)
  write_batches path client (cs ∷ rest) s =
      let (s', ok) = write_batch path cs (client (map (λ (c : Chunk). c.text) cs)) s in
      let more = write_batches path client rest s' in if ok then more else (s', false)

  -- indexFile behind the reads. `fuel` is for the chunker, whose loop is endless at a limit of 1 token;
  -- `none` means that it ran out.
  unfoldable pub index_content :
      ℕ
      → Options
      → (List Text → Option (List (List ℕ)))
      → Text
      → Text
      → ℕ
      → ℕ
      → State
      → Progress
      → Option (State × Progress × Bool)
  unfolding write_batches batches note_file
  index_content fuel opts client path content time now s p =
      let s' = (delete_source s path).0 in
      elim (chunk_file fuel content path (ext path) time opts) [
        | none ↦ none
        | some [] ↦ some (s', p, true)
        | some (c ∷ cs) ↦
            let (s'', ok) = write_batches path client (batches (length (c ∷ cs)) (c ∷ cs)) s' in
            some (s'', if ok then note_file path (length (c ∷ cs)) now p else p, ok)
      ]

  -- indexFile; `false` is an error. `now` is the time at its end.
  unfoldable pub index_file :
      ℕ → Options → Text → ℕ → State → Progress → Option (State × Progress × Bool)
  unfolding index_content
  index_file fuel opts path now s p = elim embed [
    | none ↦ some (s, p, true)
    | some client ↦ elim (read_file path) [
      | none ↦ some (s, p, false)
      | some content ↦ elim (mod_time path) [
        | none ↦ some (s, p, false)
        | some time ↦ index_content fuel opts client path content time now s p
      ]
    ]
  ]

  -- The loop of fullReindex; `i` files are done, and an error is passed over.
  unfoldable pub index_files :
      ℕ → Options → ℕ → ℕ → List Text → ℕ → State → Progress → Option (State × Progress)
  unfolding index_file
  index_files fuel opts i total [] now s p = some (s, p)
  index_files fuel opts i total (path ∷ paths) now s p = elim (index_file fuel opts path now s p) [
    | none ↦ none
    | some (s', p', ok) ↦
        index_files fuel opts (suc i) total paths now s'
          (record p' { progress_pct = (i + 1) * 100 / total })
  ]

  unfoldable pub indexable_files : List Text → List Text
  unfolding is_indexable
  indexable_files [] = []
  indexable_files (f ∷ fs) =
      let rest = indexable_files fs in if is_indexable f then f ∷ rest else rest

  unfoldable pub started : ℕ → Progress → Progress
  started total p = record {
    file_count = 0;
    chunk_count = 0;
    last_indexed = p.last_indexed;
    indexing = true;
    progress_pct = 0;
    total_files = total;
    known_files = [];
  }

  unfoldable pub finished : ℕ → State × Progress → State × Progress
  finished now (s, p) = (s, record p { indexing = false; last_indexed = now })

  unfoldable pub reindex_files :
      ℕ → Options → List Text → ℕ → State → Progress → Option (State × Progress)
  unfolding index_files started finished
  reindex_files fuel opts [] now s p = some (s, started 0 p)
  reindex_files fuel opts (f ∷ fs) now s p =
      elim (index_files fuel opts 0 (length (f ∷ fs)) (f ∷ fs) now s
        (started (length (f ∷ fs)) p)) [ none ↦ none | some r ↦ some (finished now r) ]

  -- fullReindex, on the files that the walk over the vault meets; one time stands for all its readings.
  unfoldable pub full_reindex :
      ℕ → Options → List Text → ℕ → State → Progress → Option (State × Progress)
  unfolding reindex_files indexable_files
  full_reindex fuel opts walked now s p = reindex_files fuel opts (indexable_files walked) now s p
