-- ===== src/Store/Tests.antt =====
-- Runs of the store, and its theorems at concrete inputs.
use ragamuffin.Base.{
  ℕ, ◌≤◌, ◌<◌, ◌≡◌, refl, true, false, Option, some, none, List, [], ◌∷◌, arith, All, length, ltb,
}
use ragamuffin.Base.Int.{pos}
use ragamuffin.Text.{codes, same_text}
use ragamuffin.Store.Payload.{
  string, integer, Fields, end, field, j_string, Members, m_end, m_member, encode_payload,
  decode_payload, marshal_members, flatten_fields,
}
use ragamuffin.Store.PointId.{uuid, num, encode_point_id, decode_point_id}
use ragamuffin.Store.Vector.{single, Floats, encode_floats}
use ragamuffin.Store.Filter.{Filter, keyword, on_field}
use ragamuffin.Store.Table.{Row, Table, less_text, rows_above}
use ragamuffin.Store.Database.{Store, lookup, table_name}
use ragamuffin.Store.Database.Points.{Point, Retrieved, upsert_into, get_points, retrieve_all}
use ragamuffin.Store.Database.Points.Upsert.{get_points-upsert_into}
use ragamuffin.Store.Database.Scroll.Pages.{scroll_all, scroll_all-retrieve_all}
use ragamuffin.Store.Database.Search.{Candidate, Query, search_collection}
use ragamuffin.Store.Database.Search.Laws.{IsHitOf}
use ragamuffin.Store.Database.Search.Picked.{IsDrawn}
use ragamuffin.Store.Database.Search.Best.{
  IsRanked, IsFitOf, IsAnswered, IsAnswered-search_collection,
}
use ragamuffin.Chunker.Links.{is_empty}

-- An arithmetic on small numbers, in place of floats.
ltb_asym : (a b : ℕ) → ltb a b ≡ true → ltb b a ≡ false
ltb_asym a b h = ground arith

abbrev small : Floats
small = record {
  widen = λ a. a;
  narrow = λ a. a;
  add = λ a b. a;
  multiply = λ a b. b;
  divide = λ a b. a;
  sqrt = λ a. a;
  is_zero = λ a. false;
  less = ltb;
  less_asym = ltb_asym;
}

abbrev fact : Fields
fact =
    field (codes "source_file") (string (codes "n.md"))
      (field (codes "chunk_index") (integer (pos 3)) end)

abbrev empty_store : Store
empty_store = record { collection = codes "a-b"; tables = []; collections = []; dims = [] }

abbrev point : Point
point = record { id = num 7; vectors = single (5 ∷ 6 ∷ []); payload = fact }

abbrev row : ℕ → Row
row n = record {
  id_key = n ∷ [];
  id_kind = codes "uuid";
  vector = encode_floats (5 ∷ []);
  payload = m_member (codes "source_file") (j_string (codes "n.md")) m_end;
  source_file = some (codes "n.md");
}

abbrev rows : Table
rows = row b'a' ∷ row b'b' ∷ row b'c' ∷ []

encode_fact : (m : Members) × (encode_payload fact ≡ some m)
unfolding encode_payload marshal_members flatten_fields
encode_fact = (_, refl)

abbrev of_note : Option Filter
of_note = some (record {
  must =
      on_field
        (record { key = codes "source_file"; value = some (keyword (codes "n.md")); lte = none })
      ∷ [];
  must_not = [];
  should = [];
})

get_points-upsert_into_example :
    ((upsert_into empty_store (codes "a-b") (point ∷ [])).1 ≡ true)
    × ((get_points
          (upsert_into empty_store (codes "a-b") (point ∷ [])).0
          (codes "a_b")
          (num 7 ∷ [])).1
        ≡ some (
            record {
              id = num 7;
              payload = decode_payload encode_fact.0;
              vectors = some (some (5 ∷ 6 ∷ []));
            }
            ∷ []))
unfolding table_name lookup
get_points-upsert_into_example =
    get_points-upsert_into empty_store (codes "a-b") (codes "a_b") point 5 (6 ∷ []) encode_fact.0
      (λ name t h. absurd (ground (arith, h))) (λ h. absurd (ground (arith, h)))
      (λ h. absurd (ground (arith, h))) refl (omega arith) refl (omega arith, (omega arith, tt))
      encode_fact.1

scroll_all-retrieve_all_example :
    (ps : List Retrieved) × (retrieve_all rows ≡ some ps) × (scroll_all 4 2 [] rows ≡ some ps)
unfolding decode_point_id less_text same_text encode_point_id rows_above
scroll_all-retrieve_all_example =
    scroll_all-retrieve_all 4 1 [] rows (((refl, (refl, tt))), ((refl, tt), (tt, tt)))
      (
        (uuid (b'a' ∷ []), refl, refl),
        ((uuid (b'b' ∷ []), refl, refl), ((uuid (b'c' ∷ []), refl, refl), tt)),
      )
      (omega arith)

abbrev question : Query
question = record { vector = 5 ∷ []; limit = 2; threshold = 0; source = []; filter = of_note }

abbrev full_store : Store
full_store = record {
  collection = codes "a";
  tables = (codes "_a", rows) ∷ [];
  collections = [];
  dims = [];
}

ltb_ordered : (a b c : ℕ) → ltb a b ≡ false → ltb b c ≡ false → ltb a c ≡ false
ltb_ordered a b c h k = ground arith

IsAnswered-search_collection_example :
    (cs : List Candidate) × (search_collection small full_store (codes "a") question ≡ some cs)
    × All (IsHitOf small question rows) cs
    × IsDrawn small question rows cs
    × IsRanked small question cs
    × (0 < 2 → length cs ≤ 2)
    × ((c : Candidate) → IsFitOf small question rows c → IsAnswered small question 2 cs c)
unfolding table_name lookup same_text decode_point_id encode_point_id is_empty
IsAnswered-search_collection_example =
    IsAnswered-search_collection small question full_store (codes "a") rows refl
      (
        (uuid (b'a' ∷ []), refl, refl),
        ((uuid (b'b' ∷ []), refl, refl), ((uuid (b'c' ∷ []), refl, refl), tt)),
      )
      refl (λ a b c ha hb hc. ltb_ordered a.score b.score c.score)
