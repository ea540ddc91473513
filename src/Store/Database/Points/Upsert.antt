-- ===== src/Store/Database/Points/Upsert.antt =====
-- A point that is written is read back.
use ragamuffin.Base.{
  ℕ, ◌≡◌, ◌≢◌, refl, ◌∙◌, inl, inr, true, Option, some, List, [], ◌∷◌, arith, Option-cases, All,
}
use ragamuffin.Text.{Text, codes}
use ragamuffin.Text.Maps.{lookup-insert_self}
use ragamuffin.Store.Payload.{Members, encode_payload, decode_payload, lookup_field}
use ragamuffin.Store.PointId.{PointId, uuid, num, unset, encode_point_id, decimal}
use ragamuffin.Store.PointId.Laws.{IsId, decode-encode_point_id}
use ragamuffin.Store.Vector.{single, encode_vector, encode_floats}
use ragamuffin.Store.Vector.Laws.{IsFloat32, decode_vector-encode_floats}
use ragamuffin.Store.Table.{Row, Table, put_row, rows_in}
use ragamuffin.Store.Table.Keys.{IsSorted, rows_in-put_row}
use ragamuffin.Store.Database.{
  Store, lookup, insert, created, table_name, or_primary, ensure_collection, persist_dimension,
}
use ragamuffin.Store.Database.Points.{
  Point, Retrieved, row_of, source_column, write_points, upsert_ensured, upsert_into,
  vectors_output, retrieved, retrieve_all, id_values, get_points,
}

-- Every table keeps its rows in the order of their keys, each key once.
abbrev pub IsOrdered : Store → Type 0
IsOrdered s = (name : Text) (t : Table) → lookup name s.tables ≡ some t → IsSorted t

IsSorted-created :
    (s : Store) (name : Text) → IsOrdered s → IsSorted (created (lookup name s.tables))
unfolding created
IsSorted-created s name h = elim (Option-cases (lookup name s.tables)) [
  | inl e ↦ rw e tt
  | inr (t, e) ↦ rw e (h name t e)
]

pub IsId-encode :
    (id : PointId)
    → IsId id
    → (key : Text) × (kind : Text) × (encode_point_id id ≡ some (key, kind))
unfolding encode_point_id
IsId-encode (uuid s) h = (s, codes "uuid", refl)
IsId-encode (num n) h = (decimal n, codes "num", refl)
IsId-encode unset h = absurd h

module _ (p : Point) (f : ℕ) (fs : List ℕ) (m : Members) (id : IsId p.id) (key kind : Text)
    (encoded : encode_point_id p.id ≡ some (key, kind)) (vector : p.vectors ≡ single (f ∷ fs))
    (floats : All IsFloat32 (f ∷ fs)) (payload : encode_payload p.payload ≡ some m) where
  abbrev pub written : Row
  written = record {
    id_key = key;
    id_kind = kind;
    vector = encode_floats (f ∷ fs);
    payload = m;
    source_file = source_column (lookup_field p.payload (codes "source_file"));
  }

  abbrev read_back : Retrieved
  read_back = record { id = p.id; payload = decode_payload m; vectors = some (some (f ∷ fs)) }

  pub row_of-written : row_of p ≡ some written
  unfolding row_of encode_vector
  row_of-written = rw (encoded, vector, payload)

  retrieved-written : retrieved written ≡ some read_back
  unfolding retrieved vectors_output encode_floats
  retrieved-written =
      rw (
        decode-encode_point_id p.id key kind id encoded,
        decode_vector-encode_floats (f ∷ fs) floats,
      )

  -- The tables behind a write into a table that is there.
  tables-upsert_ensured :
      (s : Store) (c : Text) (t : Table)
      → lookup (table_name c) s.tables ≡ some t
      → ((upsert_ensured s c (p ∷ [])).1 ≡ true)
        × ((upsert_ensured s c (p ∷ [])).0.tables
            ≡ insert (table_name c) (put_row written t) s.tables)
  unfolding upsert_ensured write_points persist_dimension
  tables-upsert_ensured s c t there =
      (ground (arith, there, row_of-written), ground (arith, there, row_of-written))

  -- What GetPoints answers from a table that holds the row.
  retrieved_one :
      (t : Table)
      → IsSorted t
      → retrieve_all (rows_in (key ∷ []) (put_row written t)) ≡ some (read_back ∷ [])
  unfolding retrieve_all
  retrieved_one t sorted =
      rw (rows_in-put_row written t sorted, retrieve_all) (rw retrieved-written)

-- The table of a collection that was ensured.
pub tables-ensure_collection :
    (s : Store) (k : ℕ) (ks : Text) (size : ℕ)
    → lookup (table_name (k ∷ ks)) (ensure_collection s (k ∷ ks) size).tables
      ≡ some (created (lookup (table_name (k ∷ ks)) s.tables))
unfolding ensure_collection
tables-ensure_collection s k ks size = lookup-insert_self _ _ s.tables

created-some : (o : Option Table) (t : Table) → o ≡ some t → created o ≡ t
unfolding created
created-some o t e = rw e

get_points_there :
    (s : Store) (j : ℕ) (js : Text) (t : Table) (id : PointId) (key kind : Text)
    → lookup (table_name (j ∷ js)) s.tables ≡ some t
    → encode_point_id id ≡ some (key, kind)
    → (get_points s (j ∷ js) (id ∷ [])).1 ≡ retrieve_all (rows_in (key ∷ []) t)
unfolding get_points id_values or_primary
get_points_there s j js t id key kind there encoded = rw (
  encoded,
  tables-ensure_collection s j js 0,
  created-some (lookup (table_name (j ∷ js)) s.tables) t there,
)

-- A point with a vector is written to a collection and read back by its id: the id and the vector are
-- the same, bit for bit, and the payload is the one that its stored form holds. It is read back just
-- so under every other name that has the same table. The collections are named, and the tables are
-- in order.
pub get_points-upsert_into :
    (s : Store) (c b : Text) (p : Point) (f : ℕ) (fs : List ℕ) (m : Members)
    → IsOrdered s
    → c ≢ []
    → b ≢ []
    → table_name b ≡ table_name c
    → IsId p.id
    → p.vectors ≡ single (f ∷ fs)
    → All IsFloat32 (f ∷ fs)
    → encode_payload p.payload ≡ some m
    → ((upsert_into s c (p ∷ [])).1 ≡ true)
      × ((get_points (upsert_into s c (p ∷ [])).0 b (p.id ∷ [])).1
          ≡ some (
              record { id = p.id; payload = decode_payload m; vectors = some (some (f ∷ fs)) }
              ∷ []))
unfolding upsert_into
get_points-upsert_into s [] b p f fs m ordered ne_c ne_b same id vector floats payload =
    absurd (ne_c refl)
get_points-upsert_into s (k ∷ ks) [] p f fs m ordered ne_c ne_b same id vector floats payload =
    absurd (ne_b refl)
get_points-upsert_into s (k ∷ ks) (j ∷ js) p f fs m ordered ne_c ne_b same id vector floats
      payload =
    let (key, kind, encoded) = IsId-encode p.id id in
    let t = created (lookup (table_name (k ∷ ks)) s.tables) in
    let s1 = ensure_collection s (k ∷ ks) 0 in
    let s2 = (upsert_ensured s1 (k ∷ ks) (p ∷ [])).0 in
    let (fine, tables) =
      tables-upsert_ensured p f fs m id key kind encoded vector floats payload s1 (k ∷ ks) t
        (tables-ensure_collection s k ks 0) in
    let row = written p f fs m id key kind encoded vector floats payload in
    let there : lookup (table_name (j ∷ js)) s2.tables ≡ some (put_row row t) =
      rw (same, tables) (lookup-insert_self (table_name (k ∷ ks)) (put_row row t) s1.tables) in
    (
      fine,
      get_points_there s2 j js (put_row row t) p.id key kind there encoded
          ∙ retrieved_one p f fs m id key kind encoded vector floats payload t
              (IsSorted-created s (table_name (k ∷ ks)) ordered),
    )
