-- ===== src/Store/Table.antt =====
-- The SQL statements of internal/embeddedstore/store.go on one table. A table is the list of its
-- rows in the order of `id_key`, which is its primary key: SQLite compares texts by their bytes, and
-- so by code points.
pub mod Keys
use ragamuffin.Base.{
  ℕ, ◌+◌, Bool, true, false, not, ◌&&◌, ◌||◌, Option, none, some, List, [], ◌∷◌, ltb, ◌==◌,
  if◌then◌else◌,
}
use ragamuffin.Text.{Text, same_text}
use ragamuffin.Store.Payload.{Members}
use ragamuffin.Store.Vector.{Blob}

pub record Row : Type 0 where
  pub id_key : Text
  pub id_kind : Text
  pub vector : Blob
  pub payload : Members
  pub source_file : Option Text

abbrev pub Table : Type 0
Table = List Row

-- s < t, in the order of the bytes
unfoldable pub less_text : Text → Text → Bool
less_text s [] = false
less_text [] (b ∷ t) = true
less_text (a ∷ s) (b ∷ t) = ltb a b || (a == b && less_text s t)

-- INSERT ... ON CONFLICT(id_key) DO UPDATE SET every other column
unfoldable pub put_row : Row → Table → Table
put_row r [] = r ∷ []
put_row r (q ∷ t) =
    let rest = put_row r t in
    if same_text r.id_key q.id_key
    then r ∷ t
    else if less_text r.id_key q.id_key
    then r ∷ q ∷ t
    else q ∷ rest

-- WHERE id_key = ?
unfoldable pub find_row : Text → Table → Option Row
find_row key [] = none
find_row key (q ∷ t) = if same_text key q.id_key then some q else find_row key t

-- WHERE id_key > ? ORDER BY id_key ASC
unfoldable pub rows_above : Text → Table → Table
rows_above after [] = []
rows_above after (q ∷ t) =
    let rest = rows_above after t in if less_text after q.id_key then q ∷ rest else rest

has_source : Text → Option Text → Bool
has_source s none = false
has_source s (some f) = same_text f s

-- DELETE ... WHERE source_file = ?
unfoldable pub delete_source : Text → Table → Table
unfolding has_source
delete_source s [] = []
delete_source s (q ∷ t) =
    let rest = delete_source s t in if has_source s q.source_file then rest else q ∷ rest

-- WHERE id_key IN (...)
one_of : Text → List Text → Bool
one_of k [] = false
one_of k (j ∷ ks) = same_text k j || one_of k ks

unfoldable pub rows_in : List Text → Table → Table
unfolding one_of
rows_in keys [] = []
rows_in keys (q ∷ t) = let rest = rows_in keys t in if one_of q.id_key keys then q ∷ rest else rest

-- The files of the rows, each once: COUNT(DISTINCT source_file) is their number.
unfoldable pub distinct_sources : Table → List Text
unfolding one_of
distinct_sources [] = []
distinct_sources (q ∷ t) =
    let rest = distinct_sources t in
    elim q.source_file [ none ↦ rest | some f ↦ if one_of f rest then rest else f ∷ rest ]
