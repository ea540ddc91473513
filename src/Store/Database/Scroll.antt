-- ===== src/Store/Database/Scroll.antt =====
-- The two scrolls of internal/embeddedstore/store.go.
pub mod Rows
pub mod Pages
use ragamuffin.Base.{
  ℕ, zero, suc, ◌+◌, ◌-◌, Bool, true, false, Option, none, some, List, [], ◌∷◌, ◌++◌, ltb, leb,
  ◌==◌, length, take, if◌then◌else◌, ◌&&◌,
}
use ragamuffin.Text.{Text}
use ragamuffin.Store.Payload.{Fields, decode_payload}
use ragamuffin.Store.PointId.{PointId, encode_point_id}
use ragamuffin.Store.Filter.{Filter, filter_matches}
use ragamuffin.Store.Table.{Row, Table, rows_above}
use ragamuffin.Store.Database.{Store, lookup, table_name, or_primary, ensure_collection}
use ragamuffin.Store.Database.Points.{Retrieved, retrieved, retrieve_all, ◌>>=◌}

-- The key that the page starts behind.
after_key : Option PointId → Option Text
after_key none = some []
after_key (some id) = elim (encode_point_id id) [ none ↦ none | some (key, _) ↦ some key ]

-- out[limit-1].Id
unfoldable pub id_at : ℕ → List Retrieved → Option PointId
id_at n [] = none
id_at zero (p ∷ ps) = some p.id
id_at (suc n) (p ∷ ps) = id_at n ps

-- The page, and the id of its last point if more rows follow.
unfoldable pub page : ℕ → List Retrieved → List Retrieved × Option PointId
unfolding id_at
page limit out =
    if ltb limit (length out) then (take limit out, id_at (limit - 1) out) else (out, none)

-- The rows of the statement, read and cut.
unfoldable pub scroll_rows : ℕ → Text → Table → Option (List Retrieved × Option PointId)
unfolding page
scroll_rows limit after t = do
  out ← retrieve_all (take (limit + 1) (rows_above after t))
  some (page limit out)

-- scrollCollection
unfoldable pub scroll_collection :
    Store → Text → ℕ → Option PointId → Option (List Retrieved × Option PointId)
unfolding after_key
scroll_collection s c limit offset = do
  after ← after_key offset
  t ← lookup (table_name c) s.tables
  scroll_rows (if limit == 0 then 100 else limit) after t

-- Scroll, ScrollWithVectors
unfoldable pub scroll : Store → ℕ → Option PointId → Option (List Retrieved × Option PointId)
unfolding scroll_collection
scroll s limit offset = scroll_collection s s.collection limit offset

-- The loop of ScrollFiltered; `n` points are still wanted, and 0 is no limit.
stop_or : ℕ → Option (List Retrieved) → Option (List Retrieved)
stop_or n more = if n == 1 then some [] else more

unfoldable pub scroll_matching : Option Filter → ℕ → Table → Option (List Retrieved)
unfolding stop_or
scroll_matching filter n [] = some []
scroll_matching filter n (r ∷ t) =
    let skip = scroll_matching filter n t in
    let hit =
      (retrieved r >>= λ p. stop_or n (scroll_matching filter (n - 1) t) >>= λ ps. some (p ∷ ps)) in
    if filter_matches (decode_payload r.payload) filter then hit else skip

-- ScrollFiltered
unfoldable pub scroll_filtered :
    Store → Text → Option Filter → ℕ → Text → Store × Option (List Retrieved)
scroll_filtered s name filter limit offset =
    let s' = ensure_collection s name 0 in
    (
      s',
      (lookup (table_name (or_primary s name)) s'.tables >>= λ t.
          scroll_matching filter limit (rows_above offset t)),
    )
