-- ===== src/Store/Database.antt =====
-- The operations of internal/embeddedstore/store.go and facade.go. The database is a value: its
-- tables, the metadata table `embedded_collections`, and the cache `dims`. A failure of SQLite itself
-- (a disk, a lock) is not modelled; `none` is an error that the code or a missing table gives.
pub mod Points
pub mod Scroll
pub mod Search
use ragamuffin.Base.{
  ℕ, zero, suc, ◌+◌, Bool, true, false, not, ◌&&◌, ◌||◌, Option, none, some, List, [], ◌∷◌, ◌++◌,
  ltb, leb, ◌==◌, length, if◌then◌else◌,
}
use ragamuffin.Text.{Text, same_text}
unfoldable pub use ragamuffin.Text.Maps.{lookup, insert}
use ragamuffin.Store.Table.{Row, Table}

pub record Store : Type 0 where
  pub collection : Text
  pub tables : List (Text × Table)
  pub collections : List (Text × ℕ)
  pub dims : List (Text × ℕ)

unfoldable pub is_word_byte : ℕ → Bool
is_word_byte c =
    (leb b'a' c && leb c b'z')
    || (leb b'A' c && leb c b'Z')
    || (leb b'0' c && leb c b'9')
    || c == b'_'

-- The loop of tableName, over bytes.
unfoldable pub safe_bytes : Text → Text
unfolding is_word_byte
safe_bytes [] = []
safe_bytes (c ∷ s) = (if is_word_byte c then c else b'_') ∷ safe_bytes s

unfoldable pub table_name : Text → Text
unfolding safe_bytes
table_name collection = b'_' ∷ safe_bytes collection

-- `if collection == "" { collection = s.collection }`
unfoldable pub or_primary : Store → Text → Text
or_primary s [] = s.collection
or_primary s (c ∷ cs) = c ∷ cs

max_size : ℕ → Option ℕ → ℕ
max_size n none = n
max_size n (some m) = if ltb n m then m else n

unfoldable pub created : Option Table → Table
created none = []
created (some t) = t

-- CREATE TABLE IF NOT EXISTS, the row of the metadata, and the cache.
unfoldable pub ensure_collection : Store → Text → ℕ → Store
unfolding lookup insert max_size created or_primary table_name
ensure_collection s name size =
    let c = or_primary s name in
    let tbl = table_name c in
    record s {
      tables = insert tbl (created (lookup tbl s.tables)) s.tables;
      collections = insert c (max_size size (lookup c s.collections)) s.collections;
      dims = insert c size s.dims;
    }

or_zero : Option ℕ → ℕ
or_zero none = 0
or_zero (some n) = n

-- UPDATE ... SET vector_size = d WHERE name = c AND vector_size < d
raised : ℕ → Option ℕ → List (Text × ℕ) → Text → List (Text × ℕ)
raised d none m c = m
raised d (some n) m c = if ltb n d then insert c d m else m

unfoldable pub persist_dimension : Store → Text → Store
unfolding raised or_zero lookup insert
persist_dimension s c = record s {
  collections = raised (or_zero (lookup c s.dims)) (lookup c s.collections) s.collections c;
}

-- getVectorSize: the cache, or else the metadata, which is then cached.
cached : Store → Text → Option ℕ → Option ℕ → Store × ℕ
cached s c (some d) size = (s, d)
cached s c none none = (s, 0)
cached s c none (some size) = (record s { dims = insert c size s.dims }, size)

unfoldable pub get_vector_size : Store → Text → Store × ℕ
unfolding cached or_primary lookup insert
get_vector_size s name =
    let c = or_primary s name in cached s c (lookup c s.dims) (lookup c s.collections)

-- Open, on what the file holds: its tables and its metadata. The cache starts empty.
unfoldable pub open_store : List (Text × Table) → List (Text × ℕ) → Text → ℕ → Option Store
unfolding ensure_collection
open_store tables collections [] size = none
open_store tables collections (c ∷ cs) size = some (
    ensure_collection
      (record { collection = c ∷ cs; tables = tables; collections = collections; dims = [] })
      (c ∷ cs) size)
