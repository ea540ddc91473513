-- ===== src/Store/Database/Search/Laws.antt =====
-- The candidates of a search: each is a row that passes the tests, and sorting and cutting keeps them.
use ragamuffin.Base.{
  ℕ, zero, suc, ◌≤◌, ◌<◌, ◌≡◌, refl, inl, inr, ◌⊎◌, true, false, none, some, List, [], ◌∷◌, arith,
  Bool-cases, Option-cases, All, length, take, length-take,
}
use ragamuffin.Store.Payload.{decode_payload}
use ragamuffin.Store.PointId.{decode_point_id}
use ragamuffin.Store.Vector.{Floats, Blob, decode_vector, cosine_similarity}
use ragamuffin.Store.Filter.{filter_matches}
use ragamuffin.Store.Table.{Row, Table}
use ragamuffin.Store.Database.Scroll.Rows.{IsReadable}
use ragamuffin.Store.Database.Search.{
  Candidate, Query, comparable, accepted, source_fits, candidate_of, consider, candidates,
  put_sorted, sort_by_score, cut_to, search_rows,
}

module _ (fl : Floats) (q : Query) where
  -- The candidate is what the row decodes to, and passes every test of the query.
  abbrev pub IsHit : Row → Candidate → Type 0
  IsHit r c =
      (decode_point_id r.id_key r.id_kind ≡ some c.id)
      × (c.payload ≡ decode_payload r.payload)
      × (decode_vector r.vector ≡ some c.vector)
      × (c.score ≡ cosine_similarity fl q.vector c.vector)
      × (fl.less c.score q.threshold ≡ false)
      × (source_fits fl q.source c.payload ≡ true)
      × (filter_matches c.payload q.filter ≡ true)

  abbrev pub IsHitOf : Table → Candidate → Type 0
  IsHitOf [] c = ⊥
  IsHitOf (r ∷ t) c = IsHit r c ⊎ IsHitOf t c

  decode_vector-comparable :
      (b : Blob) (v : List ℕ) → comparable fl q.vector b ≡ some v → decode_vector b ≡ some v
  unfolding comparable
  decode_vector-comparable [] v h = cc
  decode_vector-comparable (b ∷ bs) v h = ground arith

  tests_passed :
      (r : Row) (v : List ℕ)
      → accepted fl q r v ≡ true
      → (fl.less (cosine_similarity fl q.vector v) q.threshold ≡ false)
        × (source_fits fl q.source (decode_payload r.payload) ≡ true)
        × (filter_matches (decode_payload r.payload) q.filter ≡ true)
  unfolding accepted
  tests_passed r v h = ground arith

  -- A row that can be read gives a hit or nothing.
  pub consider_readable :
      (r : Row)
      → IsReadable r
      → (consider fl q r ≡ some none)
        ⊎ ((c : Candidate) × (consider fl q r ≡ some (some c)) × IsHit r c)
  unfolding candidate_of consider
  consider_readable r (id, d, e) = elim (Option-cases (comparable fl q.vector r.vector)) [
    | inl none_of ↦ inl (rw (none_of, consider) refl)
    | inr (v, some_of) ↦ elim (Bool-cases (accepted fl q r v)) [
      | inr out ↦ inl (rw (some_of, consider) (rw out refl))
      | inl fit ↦
          let (high, source, filter) = tests_passed r v fit in
          inr (
            record {
              score = cosine_similarity fl q.vector v;
              id = id;
              payload = decode_payload r.payload;
              vector = v;
            },
            rw (some_of, consider) (rw (fit, d) refl),
            (d, refl, decode_vector-comparable r.vector v some_of, refl, high, source, filter),
          )
    ]
  ]

  All-inr :
      (r : Row) (t : Table) (cs : List Candidate) → All (IsHitOf t) cs → All (IsHitOf (r ∷ t)) cs
  All-inr r t [] h = tt
  All-inr r t (c ∷ cs) (h, hs) = (inr h, All-inr r t cs hs)

  pub candidates_readable :
      (t : Table)
      → All IsReadable t
      → (cs : List Candidate) × (candidates fl q t ≡ some cs) × All (IsHitOf t) cs
  unfolding candidates
  candidates_readable [] h = ([], refl, tt)
  candidates_readable (r ∷ t) (h, hs) =
      let (cs, e, all) = candidates_readable t hs in
      elim (consider_readable r h) [
        | inl skip ↦ (cs, rw (skip, candidates) e, All-inr r t cs all)
        | inr (c, hit, is_hit) ↦
            (c ∷ cs, rw (hit, candidates) (rw e refl), (inl is_hit, All-inr r t cs all))
      ]

  module _ (P : Candidate → Type 0) where
    pub All-put_sorted :
        (c : Candidate) (ds : List Candidate) → P c → All P ds → All P (put_sorted fl c ds)
    unfolding put_sorted
    All-put_sorted c [] p h = (p, tt)
    All-put_sorted c (d ∷ ds) p (h, hs) = elim (Bool-cases (fl.less d.score c.score)) [
      | inl l ↦ rw l (p, (h, hs))
      | inr l ↦ rw l (h, All-put_sorted c ds p hs)
    ]

    pub All-sort_by_score : (cs : List Candidate) → All P cs → All P (sort_by_score fl cs)
    unfolding sort_by_score
    All-sort_by_score [] h = tt
    All-sort_by_score (c ∷ cs) (h, hs) =
        All-put_sorted c (sort_by_score fl cs) h (All-sort_by_score cs hs)

    All-take : (n : ℕ) (cs : List Candidate) → All P cs → All P (take n cs)
    All-take zero cs h = tt
    All-take (suc n) [] h = tt
    All-take (suc n) (c ∷ cs) (h, hs) = (h, All-take n cs hs)

    pub All-cut_to : (n : ℕ) (cs : List Candidate) → All P cs → All P (cut_to fl n cs)
    unfolding cut_to
    All-cut_to zero cs h = h
    All-cut_to (suc n) cs h = All-take (suc n) cs h

  pub length-cut_to : (n : ℕ) (cs : List Candidate) → 0 < n → length (cut_to fl n cs) ≤ n
  unfolding cut_to
  length-cut_to zero cs lt = absurd (omega arith)
  length-cut_to (suc n) cs lt = omega (arith, length-take (suc n) cs)

  pub search_rows_found :
      (t : Table) (cs : List Candidate)
      → candidates fl q t ≡ some cs
      → search_rows fl q t ≡ some (cut_to fl q.limit (sort_by_score fl cs))
  unfolding search_rows
  search_rows_found t cs h = rw (h, search_rows) refl
