-- ===== src/Store/Database/Points.antt =====
-- Upsert, GetPoints, the deletions, the counts and the two scrolls of internal/embeddedstore.
pub mod Upsert
pub mod Dimension
pub mod Names
use ragamuffin.Base.{
  ℕ, zero, suc, ◌+◌, Bool, true, false, not, ◌&&◌, ◌||◌, Option, none, some, List, [], ◌∷◌, ◌++◌,
  ltb, leb, ◌==◌, length, take, if◌then◌else◌,
}
use ragamuffin.Text.{Text, same_text, codes}
use ragamuffin.Store.Payload.{Fields, Value, string, encode_payload, decode_payload, lookup_field}
use ragamuffin.Store.PointId.{PointId, encode_point_id, decode_point_id}
use ragamuffin.Store.Vector.{Vectors, Blob, encode_vector, decode_vector}
use ragamuffin.Store.Filter.{Filter, filter_matches, simple_source_file}
use ragamuffin.Store.Table.{
  Row, Table, put_row, rows_above, delete_source, rows_in, distinct_sources,
}
use ragamuffin.Store.Database.{
  Store, lookup, insert, table_name, or_primary, ensure_collection, persist_dimension,
}

-- pb.PointStruct
pub record Point : Type 0 where
  pub id : PointId
  pub vectors : Vectors
  pub payload : Fields

-- pb.RetrievedPoint; `none` are vectors that are nil.
pub record Retrieved : Type 0 where
  pub id : PointId
  pub payload : Fields
  pub vectors : Option (Option (List ℕ))

infixl 5 ◌>>=◌
abbrev pub ◌>>=◌ {ℓ κ} : {A : Type ℓ} {B : Type κ} → Option A → (A → Option B) → Option B
none >>= f = none
some a >>= f = f a

-- The value of the column `source_file`.
unfoldable pub source_column : Option Value → Option Text
source_column (some (string f)) = some f
source_column _ = none

-- What one round of the loop of upsertInto writes.
unfoldable pub row_of : Point → Option Row
unfolding source_column
row_of p = do
  (id, kind) ← encode_point_id p.id
  vec ← encode_vector p.vectors
  payload ← encode_payload p.payload
  some (record {
    id_key = id;
    id_kind = kind;
    vector = vec;
    payload = payload;
    source_file = source_column (lookup_field p.payload (codes "source_file"));
  })

-- The cache holds the longest vector, counted in the bytes of its blob. It is written before the
-- payload is encoded, and is not rolled back.
raise_dim : Text → Option Blob → List (Text × ℕ) → List (Text × ℕ)
raise_dim c none dims = dims
raise_dim c (some []) dims = dims
raise_dim c (some (b ∷ bs)) dims =
    let size = length (b ∷ bs) in
    elim (lookup c dims) [
      | none ↦ insert c size dims
      | some cur ↦ if ltb cur size then insert c size dims else dims
    ]

-- The vector of a point whose id can be encoded.
reached : PointId → Vectors → Option Blob
reached id v = encode_point_id id >>= λ _. encode_vector v

-- The loop inside the transaction: the table, or nothing when it is rolled back, and the cache.
unfoldable pub write_points :
    Text → List Point → Table → List (Text × ℕ) → Option Table × List (Text × ℕ)
unfolding raise_dim reached
write_points c [] t dims = (some t, dims)
write_points c (p ∷ ps) t dims =
    let dims' = raise_dim c (reached p.id p.vectors) dims in
    elim (row_of p) [ none ↦ (none, dims') | some r ↦ write_points c ps (put_row r t) dims' ]

-- Commit, or the error and what is left of the state.
committed : Store → Text → Option Table × List (Text × ℕ) → Store × Bool
committed s c (none, dims) = (record s { dims = dims }, false)
committed s c (some t, dims) = (
  persist_dimension (record s { tables = insert (table_name c) t s.tables; dims = dims }) c,
  true,
)

-- A table that is not there is an error of the statement.
unfoldable pub upsert_ensured : Store → Text → List Point → Store × Bool
unfolding committed
upsert_ensured s c ps = elim (lookup (table_name c) s.tables) [
  | none ↦ (s, false)
  | some t ↦ committed s c (write_points c ps t s.dims)
]

-- upsertInto; `false` is an error.
unfoldable pub upsert_into : Store → Text → List Point → Store × Bool
upsert_into s c [] = (s, true)
upsert_into s c (p ∷ ps) = upsert_ensured (ensure_collection s c 0) c (p ∷ ps)

-- Upsert
unfoldable pub upsert : Store → List Point → Store × Bool
unfolding upsert_into
upsert s ps = upsert_into s s.collection ps

-- vectorsOutputFromBlob
unfoldable pub vectors_output : Blob → Option (Option (List ℕ))
vectors_output [] = none
vectors_output (b ∷ bs) = some (decode_vector (b ∷ bs))

unfoldable pub retrieved : Row → Option Retrieved
unfolding vectors_output
retrieved r = do
  id ← decode_point_id r.id_key r.id_kind
  some (record { id = id; payload = decode_payload r.payload; vectors = vectors_output r.vector })

-- The loop over the rows of a query.
unfoldable pub retrieve_all : Table → Option (List Retrieved)
retrieve_all [] = some []
retrieve_all (r ∷ t) = do p ← retrieved r; ps ← retrieve_all t; some (p ∷ ps)

-- idValues
unfoldable pub id_values : List PointId → List Text
id_values [] = []
id_values (id ∷ ids) = elim (encode_point_id id) [ none ↦ [] | some (k, _) ↦ k ] ∷ id_values ids

-- With no id at all the statement asks for the empty key.
keys_of : List PointId → List Text
unfolding id_values
keys_of [] = [] ∷ []
keys_of (id ∷ ids) = id_values (id ∷ ids)

-- GetPoints
unfoldable pub get_points : Store → Text → List PointId → Store × Option (List Retrieved)
unfolding keys_of
get_points s name ids =
    let s' = ensure_collection s name 0 in
    (
      s',
      (lookup (table_name (or_primary s name)) s'.tables >>= λ t.
          retrieve_all (rows_in (keys_of ids) t)),
    )

-- DeleteBySource
unfoldable pub delete_by_source : Store → Text → Store × Bool
delete_by_source s file = elim (lookup (table_name s.collection) s.tables) [
  | none ↦ (s, false)
  | some t ↦
      (record s { tables = insert (table_name s.collection) (delete_source file t) s.tables }, true)
]

-- DeleteFiltered
unfoldable pub delete_filtered : Store → Text → Option Filter → Store × Bool
delete_filtered s name filter =
    let c = or_primary s name in
    let s' = ensure_collection s name 0 in
    elim (simple_source_file filter) [
      | none ↦ (s', false)
      | some file ↦ elim (lookup (table_name c) s'.tables) [
        | none ↦ (s', false)
        | some t ↦
            (record s' { tables = insert (table_name c) (delete_source file t) s'.tables }, true)
      ]
    ]

-- Count
unfoldable pub count : Store → Option ℕ
count s = do t ← lookup (table_name s.collection) s.tables; some (length t)

-- CountFiles
unfoldable pub count_files : Store → Option ℕ
count_files s = do t ← lookup (table_name s.collection) s.tables; some (length (distinct_sources t))
