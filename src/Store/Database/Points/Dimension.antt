-- ===== src/Store/Database/Points/Dimension.antt =====
-- What GetVectorSize answers after writes and reads.
use ragamuffin.Base.{ℕ, ◌*◌, ◌<◌, ◌≡◌, ◌≢◌, refl, some, List, [], ◌∷◌, arith, length, All}
use ragamuffin.Text.{Text}
use ragamuffin.Text.Maps.{lookup-insert_self}
use ragamuffin.Store.Payload.{Members, encode_payload}
use ragamuffin.Store.PointId.{PointId, encode_point_id}
use ragamuffin.Store.PointId.Laws.{IsId}
use ragamuffin.Store.Vector.{single, Blob, encode_vector, encode_floats}
use ragamuffin.Store.Vector.Laws.{IsFloat32, length-encode_floats}
use ragamuffin.Store.Table.{Table}
use ragamuffin.Store.Database.{
  Store, lookup, table_name, ensure_collection, persist_dimension, get_vector_size,
}
use ragamuffin.Store.Database.Points.{
  Point, raise_dim, reached, write_points, upsert_ensured, upsert_into, get_points,
}
use ragamuffin.Store.Database.Points.Upsert.{IsId-encode, row_of-written, tables-ensure_collection}

-- A collection that was ensured for reading has the cached size 0.
dims-ensure_collection :
    (s : Store) (k : ℕ) (ks : Text) (size : ℕ)
    → lookup (k ∷ ks) (ensure_collection s (k ∷ ks) size).dims ≡ some size
unfolding ensure_collection
dims-ensure_collection s k ks size = lookup-insert_self (k ∷ ks) size s.dims

size_of_cached :
    (s : Store) (k : ℕ) (ks : Text) (size : ℕ)
    → lookup (k ∷ ks) s.dims ≡ some size
    → (get_vector_size s (k ∷ ks)).1 ≡ size
unfolding get_vector_size
size_of_cached s k ks size e = ground (arith, e)

-- Reading points from a named collection resets its size: it then answers 0, whatever was recorded
-- before.
pub vector_size_after_read :
    (s : Store) (c : Text) (ids : List PointId)
    → c ≢ []
    → (get_vector_size (get_points s c ids).0 c).1 ≡ 0
unfolding get_points
vector_size_after_read s [] ids ne = absurd (ne refl)
vector_size_after_read s (k ∷ ks) ids ne =
    size_of_cached (ensure_collection s (k ∷ ks) 0) k ks 0 (dims-ensure_collection s k ks 0)

-- The blob of a vector raises the size from 0 to its number of bytes.
raise_dim_from_zero :
    (c : Text) (v : Blob) (n : ℕ) (dims : List (Text × ℕ))
    → lookup c dims ≡ some 0
    → length v ≡ n
    → 0 < n
    → lookup c (raise_dim c (some v) dims) ≡ some n
unfolding raise_dim
raise_dim_from_zero c [] n dims e h pos = absurd (omega arith)
raise_dim_from_zero c (b ∷ bs) n dims e h pos =
    ground (arith, e, lookup-insert_self c (length (b ∷ bs)) dims)

module _ (p : Point) (f : ℕ) (fs : List ℕ) (m : Members) (id : IsId p.id) (key kind : Text)
    (encoded : encode_point_id p.id ≡ some (key, kind)) (vector : p.vectors ≡ single (f ∷ fs))
    (floats : All IsFloat32 (f ∷ fs)) (payload : encode_payload p.payload ≡ some m) where
  reached-blob : reached p.id p.vectors ≡ some (encode_floats (f ∷ fs))
  unfolding reached encode_vector
  reached-blob = rw (encoded, vector)

  dims-upsert_ensured :
      (s : Store) (c : Text) (t : Table)
      → lookup (table_name c) s.tables ≡ some t
      → (upsert_ensured s c (p ∷ [])).0.dims ≡ raise_dim c (reached p.id p.vectors) s.dims
  unfolding upsert_ensured write_points persist_dimension
  dims-upsert_ensured s c t there =
      ground (arith, there, row_of-written p f fs m id key kind encoded vector floats payload)

-- After a point with a vector of one number or more is written to a named collection, its id and
-- payload being ones that can be stored, the size that is answered is four times the length of the
-- vector.
pub vector_size_after_write :
    (s : Store) (c : Text) (p : Point) (f : ℕ) (fs : List ℕ) (m : Members)
    → c ≢ []
    → IsId p.id
    → p.vectors ≡ single (f ∷ fs)
    → All IsFloat32 (f ∷ fs)
    → encode_payload p.payload ≡ some m
    → (get_vector_size (upsert_into s c (p ∷ [])).0 c).1 ≡ 4 * length (f ∷ fs)
unfolding upsert_into
vector_size_after_write s [] p f fs m ne id vector floats payload = absurd (ne refl)
vector_size_after_write s (k ∷ ks) p f fs m ne id vector floats payload =
    let (key, kind, encoded) = IsId-encode p.id id in
    let s1 = ensure_collection s (k ∷ ks) 0 in
    let dims =
      dims-upsert_ensured p f fs m id key kind encoded vector floats payload s1 (k ∷ ks) _
        (tables-ensure_collection s k ks 0) in
    size_of_cached (upsert_ensured s1 (k ∷ ks) (p ∷ [])).0 k ks _ (
      rw (dims, reached-blob p f fs m id key kind encoded vector floats payload)
        (raise_dim_from_zero (k ∷ ks) (encode_floats (f ∷ fs)) (4 * length (f ∷ fs)) s1.dims
          (dims-ensure_collection s k ks 0) (length-encode_floats (f ∷ fs)) (omega arith)))
