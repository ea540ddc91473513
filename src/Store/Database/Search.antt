-- ===== src/Store/Database/Search.antt =====
-- searchCollection of internal/embeddedstore/store.go. sort.Slice is an insertion sort here: in which
-- order it leaves candidates with one score, or any when a score is NaN, which `<` does not order, is
-- not specified by the library.
pub mod Laws
pub mod Picked
pub mod Best
use ragamuffin.Base.{
  ℕ, zero, suc, ◌/◌, Bool, true, false, not, ◌&&◌, Option, none, some, List, [], ◌∷◌, ltb, ◌==◌,
  length, take, if◌then◌else◌,
}
use ragamuffin.Text.{Text, same_text, codes}
use ragamuffin.Chunker.Links.{is_empty}
use ragamuffin.Store.Payload.{Fields, decode_payload, string_payload}
use ragamuffin.Store.PointId.{PointId, decode_point_id}
use ragamuffin.Store.Vector.{Floats, Blob, decode_vector, cosine_similarity}
use ragamuffin.Store.Filter.{Filter, filter_matches}
use ragamuffin.Store.Table.{Row, Table}
use ragamuffin.Store.Database.{Store, lookup, table_name}
use ragamuffin.Store.Database.Points.{◌>>=◌}

-- candidate, and pb.ScoredPoint
pub record Candidate : Type 0 where
  pub score : ℕ
  pub id : PointId
  pub payload : Fields
  pub vector : List ℕ

pub record Query : Type 0 where
  pub vector : List ℕ
  pub limit : ℕ
  pub threshold : ℕ
  pub source : Text
  pub filter : Option Filter

module _ (fl : Floats) where
  -- The vector of a row that is compared at all: not empty, and of the query's dimension.
  unfoldable pub comparable : List ℕ → Blob → Option (List ℕ)
  comparable vector [] = none
  comparable vector (b ∷ bs) =
      if length (b ∷ bs) / 4 == length vector then decode_vector (b ∷ bs) else none

  -- `sourceFilter` is not empty and is not the payload's file.
  unfoldable pub source_fits : Text → Fields → Bool
  source_fits [] payload = true
  source_fits (c ∷ s) payload = same_text (string_payload payload (codes "source_file")) (c ∷ s)

  -- The tests of one round of the loop, behind the vector.
  unfoldable pub accepted : Query → Row → List ℕ → Bool
  unfolding source_fits
  accepted q r v =
      let payload = decode_payload r.payload in
      not (fl.less (cosine_similarity fl q.vector v) q.threshold)
      && source_fits q.source payload
      && filter_matches payload q.filter

  unfoldable pub candidate_of : Query → Row → List ℕ → Option Candidate
  candidate_of q r v = elim (decode_point_id r.id_key r.id_kind) [
    | none ↦ none
    | some id ↦ some (record {
      score = cosine_similarity fl q.vector v;
      id = id;
      payload = decode_payload r.payload;
      vector = v;
    })
  ]

  -- One round of the loop: an error, no candidate, or one.
  unfoldable pub consider : Query → Row → Option (Option Candidate)
  unfolding comparable accepted candidate_of
  consider q r = elim (comparable q.vector r.vector) [
    | none ↦ some none
    | some v ↦
        if accepted q r v
        then elim (candidate_of q r v) [ none ↦ none | some c ↦ some (some c) ]
        else some none
  ]

  unfoldable pub candidates : Query → Table → Option (List Candidate)
  candidates q [] = some []
  candidates q (r ∷ t) = elim (consider q r) [
    | none ↦ none
    | some none ↦ candidates q t
    | some (some c) ↦ elim (candidates q t) [ none ↦ none | some cs ↦ some (c ∷ cs) ]
  ]

  unfoldable pub put_sorted : Candidate → List Candidate → List Candidate
  put_sorted c [] = c ∷ []
  put_sorted c (d ∷ ds) =
      let rest = put_sorted c ds in if fl.less d.score c.score then c ∷ d ∷ ds else d ∷ rest

  unfoldable pub sort_by_score : List Candidate → List Candidate
  unfolding put_sorted
  sort_by_score [] = []
  sort_by_score (c ∷ cs) = put_sorted c (sort_by_score cs)

  -- `if limit > 0 && uint64(len(scored)) > limit { scored = scored[:limit] }`
  unfoldable pub cut_to : ℕ → List Candidate → List Candidate
  cut_to zero cs = cs
  cut_to (suc n) cs = take (suc n) cs

  unfoldable pub search_rows : Query → Table → Option (List Candidate)
  search_rows q t = elim (candidates q t) [
    | none ↦ none
    | some cs ↦ some (cut_to q.limit (sort_by_score cs))
  ]

  unfoldable pub search_collection : Store → Text → Query → Option (List Candidate)
  unfolding search_rows
  search_collection s c q = elim (is_empty q.vector) [
    | true ↦ some []
    | false ↦ elim (lookup (table_name c) s.tables) [ none ↦ none | some t ↦ search_rows q t ]
  ]

  -- Search
  unfoldable pub search : Store → Query → Option (List Candidate)
  unfolding search_collection
  search s q = search_collection s s.collection q
