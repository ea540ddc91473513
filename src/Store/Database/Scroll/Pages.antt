-- ===== src/Store/Database/Scroll/Pages.antt =====
-- Following the cursor from page to page reads every row once, in order.
use ragamuffin.Base.{
  ℕ, zero, suc, ◌+◌, ◌-◌, ◌≤◌, ◌<◌, ◌≡◌, refl, sym, ◌∙◌, inl, inr, true, Option, none, some, List,
  [], ◌∷◌, ◌++◌, arith, Bool-cases, All, length, take, drop, take-append-drop, length-drop, ltb,
  ltb→lt,
}
use ragamuffin.Text.{Text}
use ragamuffin.Store.PointId.{PointId, encode_point_id}
use ragamuffin.Store.Table.{Table, less_text, rows_above}
use ragamuffin.Store.Table.Keys.{less_text_irrefl, less_text_asym, Above, IsSorted}
use ragamuffin.Store.Database.Points.{Retrieved, retrieve_all}
use ragamuffin.Store.Database.Scroll.{page, id_at, scroll_rows}
use ragamuffin.Store.Database.Scroll.Rows.{
  IsReadable, ReadAs, retrieve_readable, retrieve-take, retrieve-drop, length-ReadAs, take-take,
  take_all, length-take_less, rows_above-rows_above, IsSorted-rows_above, All-rows_above,
  Above-self, rows_above_all,
}

-- What a client does that reads a whole collection: it asks for the next page, behind the id that it
-- was given, until it is given none. `none` is an error, or the end of the fuel.
unfoldable pub scroll_all : ℕ → ℕ → Text → Table → Option (List Retrieved)
scroll_all zero limit after t = none
scroll_all (suc f) limit after t = elim (scroll_rows limit after t) [
  | none ↦ none
  | some (points, none) ↦ some points
  | some (points, some id) ↦ elim (encode_point_id id) [
    | none ↦ none
    | some (key, _) ↦ elim (scroll_all f limit key t) [
      | none ↦ none
      | some rest ↦ some (points ++ rest)
    ]
  ]
]

-- Where the page of `l + 1` rows ends, the rows above its last key are the rest.
cursor :
    (l : ℕ) (t : Table) (ps : List Retrieved)
    → ReadAs t ps
    → IsSorted t
    → l < length t
    → (id : PointId) × (key : Text) × (kind : Text) × (id_at l ps ≡ some id)
      × (encode_point_id id ≡ some (key, kind))
      × (rows_above key t ≡ drop (suc l) t)
      × ((j : Text) → Above j t → less_text j key ≡ true)
unfolding id_at rows_above
cursor l [] ps keys s h = absurd (omega arith)
cursor l (r ∷ t) [] keys s h = absurd keys
cursor zero (r ∷ t) (p ∷ ps) (e, keys) (a, s) h = (
  p.id,
  r.id_key,
  r.id_kind,
  refl,
  e,
  rw (less_text_irrefl r.id_key, rows_above) (rows_above_all r.id_key t a),
  λ j above. above.0,
)
cursor (suc l) (r ∷ t) (p ∷ ps) (e, keys) (a, s) h =
    let (id, key, kind, found, encoded, rest, below) = cursor l t ps keys s (omega arith) in
    (
      id,
      key,
      kind,
      found,
      encoded,
      rw (less_text_asym r.id_key key (below r.id_key a), rows_above) rest,
      λ j above. below j above.1,
    )

id_at-take : (l n : ℕ) (ps : List Retrieved) → l < n → id_at l (take n ps) ≡ id_at l ps
unfolding id_at
id_at-take l zero ps h = absurd (omega arith)
id_at-take l (suc n) [] h = refl
id_at-take zero (suc n) (p ∷ ps) h = refl
id_at-take (suc l) (suc n) (p ∷ ps) h = id_at-take l n ps (omega arith)

module _ (l : ℕ) (after : Text) (t : Table) (ps : List Retrieved)
    (read : retrieve_all (rows_above after t) ≡ some ps) where
  two : suc l + 1 ≡ suc (suc l)
  two = omega arith

  -- The last page.
  scroll_rows_last : length ps ≤ suc l → scroll_rows (suc l) after t ≡ some (ps, none)
  unfolding scroll_rows page
  scroll_rows_last h =
      rw
        (
          retrieve-take (suc l + 1) (rows_above after t) ps read,
          take_all (suc l + 1) ps (omega arith),
        )
        (ground arith)

  -- A page with more behind it.
  scroll_rows_more :
      suc l < length ps → scroll_rows (suc l) after t ≡ some (take (suc l) ps, id_at l ps)
  unfolding scroll_rows page
  scroll_rows_more h =
      let long = length-take_less (suc (suc l)) ps h in
      let one : suc l - 1 ≡ l = omega arith in
      rw (two, retrieve-take (suc (suc l)) (rows_above after t) ps read)
        (rw (take-take (suc l) ps, one, id_at-take l (suc (suc l)) ps (omega arith))
          (ground (arith, long)))

-- For every page size of one or more, following the cursor returns exactly the points of the rows
-- above the key that it starts from, each once and in the order of their keys. It ends within as many
-- pages as there are such rows, and one. The table is in order, and the ids of its rows are readable.
pub scroll_all-retrieve_all :
    (f l : ℕ) (after : Text) (t : Table)
    → IsSorted t
    → All IsReadable t
    → length (rows_above after t) < f
    → (ps : List Retrieved) × (retrieve_all (rows_above after t) ≡ some ps)
      × (scroll_all f (suc l) after t ≡ some ps)
unfolding scroll_all
scroll_all-retrieve_all zero l after t s readable h = absurd (omega arith)
scroll_all-retrieve_all (suc f) l after t s readable h =
    let rows = rows_above after t in
    let (ps, read, keys) = retrieve_readable rows (All-rows_above IsReadable after t readable) in
    let same = length-ReadAs rows ps keys in
    elim (Bool-cases (ltb (suc l) (length ps))) [
      | inr last ↦ (ps, read, ground (arith, scroll_rows_last l after t ps read (ground arith)))
      | inl more ↦
          let (id, key, kind, found, encoded, rest, below) =
            cursor l rows ps keys (IsSorted-rows_above after t s)
              (omega (arith, ltb→lt _ _ more)) in
          let behind : rows_above key t ≡ drop (suc l) rows =
            sym (rows_above-rows_above after key t (below after (Above-self after t))) ∙ rest in
          let (qs, read', pages) =
            scroll_all-retrieve_all f l key t s readable
              (rw behind (omega (arith, length-drop (suc l) rows, ltb→lt _ _ more, same))) in
          let dropped = retrieve-drop (suc l) rows ps read in
          let tail : drop (suc l) ps ≡ qs = ground (arith, behind, read', dropped) in
          (
            ps,
            read,
            ground (
              arith,
              scroll_rows_more l after t ps read (ltb→lt _ _ more),
              found,
              encoded,
              pages,
              tail,
              take-append-drop (suc l) ps,
            ),
          )
    ]
