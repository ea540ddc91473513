-- ===== src/Store/Database/Search/Best.antt =====
-- A search answers the best of what fits: nothing that fits is left out for something worse.
use ragamuffin.Base.{
  ℕ, zero, suc, ◌/◌, ◌≤◌, ◌<◌, ◌≡◌, ◌≢◌, refl, ap, inl, inr, ◌⊎◌, true, false, none, some, List, [],
  ◌∷◌, arith, Bool-cases, Option-cases, All, length, take, ◌==◌,
}
use ragamuffin.Text.{Text}
use ragamuffin.Chunker.Links.{is_empty}
use ragamuffin.Store.Vector.{Floats, Blob, decode_vector}
use ragamuffin.Store.Table.{Row, Table}
use ragamuffin.Store.Database.{Store, lookup, table_name}
use ragamuffin.Store.Database.Scroll.Rows.{IsReadable}
use ragamuffin.Store.Database.Search.{
  Candidate, Query, comparable, accepted, candidate_of, consider, candidates, put_sorted,
  sort_by_score, cut_to, search_collection,
}
use ragamuffin.Store.Database.Search.Picked.{IsDrawn, IsDrawn-candidates}
use ragamuffin.Store.Database.Search.Laws.{
  IsHit, IsHitOf, All-put_sorted, All-sort_by_score, All-cut_to, length-cut_to, candidates_readable,
  search_rows_found,
}

abbrev pub IsIn : Candidate → List Candidate → Type 0
IsIn c [] = ⊥
IsIn c (d ∷ ds) = (c ≡ d) ⊎ IsIn c ds

All-IsIn :
    (P : Candidate → Type 0) (c : Candidate) (ds : List Candidate) → All P ds → IsIn c ds → P c
All-IsIn P c [] h i = absurd i
All-IsIn P c (d ∷ ds) (h, hs) (inl e) = rw e h
All-IsIn P c (d ∷ ds) (h, hs) (inr i) = All-IsIn P c ds hs i

module _ (fl : Floats) (q : Query) where
  -- The candidate is what the row decodes to, the row's vector has the dimension of the query's, and
  -- every test is passed.
  abbrev pub IsFit : Row → Candidate → Type 0
  IsFit r c = IsHit fl q r c × (r.vector ≢ []) × (length r.vector / 4 ≡ length q.vector)

  abbrev pub IsFitOf : Table → Candidate → Type 0
  IsFitOf [] c = ⊥
  IsFitOf (r ∷ t) c = IsFit r c ⊎ IsFitOf t c

  comparable-IsFit :
      (b : Blob) (v : List ℕ)
      → decode_vector b ≡ some v
      → b ≢ []
      → length b / 4 ≡ length q.vector
      → comparable fl q.vector b ≡ some v
  unfolding comparable
  comparable-IsFit [] v d some_of e = absurd (some_of refl)
  comparable-IsFit (x ∷ b) v d some_of e =
      let same : length (x ∷ b) / 4 == length q.vector ≡ true = ground (arith, e) in
      rw (same, comparable) d

  consider-IsFit : (r : Row) (c : Candidate) → IsFit r c → consider fl q r ≡ some (some c)
  unfolding consider candidate_of accepted
  consider-IsFit r c ((id, payload, vector, score, high, source, filter), given, size) =
      let same = comparable-IsFit r.vector c.vector vector given size in
      let fit : accepted fl q r c.vector ≡ true =
        rw (← payload) (rw (← score) (rw (high, source, filter) refl)) in
      rw (same, consider) (rw (fit, id) (rw (← payload) (rw (← score) refl)))

  IsIn-candidates :
      (t : Table) (c : Candidate) (cs : List Candidate)
      → IsFitOf t c
      → candidates fl q t ≡ some cs
      → IsIn c cs
  unfolding candidates
  IsIn-candidates [] c cs fit h = absurd fit
  IsIn-candidates (r ∷ t) c cs (inl fit) h =
      let e = consider-IsFit r c fit in
      elim (Option-cases (candidates fl q t)) [
        | inl f ↦ absurd (ground (arith, h, e, f))
        | inr (ds, f) ↦ let same : c ∷ ds ≡ cs = ground (arith, h, e, f) in rw (← same) (inl refl)
      ]
  IsIn-candidates (r ∷ t) c cs (inr fit) h = elim (Option-cases (consider fl q r)) [
    | inl e ↦ absurd (ground (arith, h, e))
    | inr (none, e) ↦ IsIn-candidates t c cs fit (ground (arith, h, e))
    | inr (some d, e) ↦ elim (Option-cases (candidates fl q t)) [
      | inl f ↦ absurd (ground (arith, h, e, f))
      | inr (ds, f) ↦
          let same : d ∷ ds ≡ cs = ground (arith, h, e, f) in
          rw (← same) (inr (IsIn-candidates t c ds fit f))
    ]
  ]

  IsIn-put_sorted :
      (c d : Candidate) (ds : List Candidate) → (c ≡ d) ⊎ IsIn c ds → IsIn c (put_sorted fl d ds)
  unfolding put_sorted
  IsIn-put_sorted c d [] i = i
  IsIn-put_sorted c d (e ∷ ds) i = elim (Bool-cases (fl.less e.score d.score)) [
    | inl l ↦ rw l i
    | inr l ↦ rw l (elim i [
      | inl same ↦ inr (IsIn-put_sorted c d ds (inl same))
      | inr (inl same) ↦ inl same
      | inr (inr within) ↦ inr (IsIn-put_sorted c d ds (inr within))
    ])
  ]

  IsIn-sort_by_score :
      (c : Candidate) (cs : List Candidate) → IsIn c cs → IsIn c (sort_by_score fl cs)
  unfolding sort_by_score
  IsIn-sort_by_score c [] i = i
  IsIn-sort_by_score c (d ∷ ds) (inl e) = IsIn-put_sorted c d (sort_by_score fl ds) (inl e)
  IsIn-sort_by_score c (d ∷ ds) (inr i) =
      IsIn-put_sorted c d (sort_by_score fl ds) (inr (IsIn-sort_by_score c ds i))

  -- No candidate has a lower score than one behind it.
  abbrev pub IsRanked : List Candidate → Type 0
  IsRanked [] = Unit
  IsRanked (c ∷ cs) = All (λ (d : Candidate). fl.less c.score d.score ≡ false) cs × IsRanked cs

  -- Of three hits, a first that is not below a second, which is not below a third, is not below the third.
  -- `<` on floats has it when no score is NaN.
  abbrev pub IsOrdered : Table → Type 0
  IsOrdered t =
      (a b c : Candidate)
      → IsHitOf fl q t a
      → IsHitOf fl q t b
      → IsHitOf fl q t c
      → fl.less a.score b.score ≡ false
      → fl.less b.score c.score ≡ false
      → fl.less a.score c.score ≡ false

  All-behind :
      (t : Table) (c d : Candidate) (ds : List Candidate)
      → IsOrdered t
      → IsHitOf fl q t c
      → IsHitOf fl q t d
      → All (IsHitOf fl q t) ds
      → fl.less c.score d.score ≡ false
      → All (λ (e : Candidate). fl.less d.score e.score ≡ false) ds
      → All (λ (e : Candidate). fl.less c.score e.score ≡ false) ds
  All-behind t c d [] o hc hd hds l all = tt
  All-behind t c d (e ∷ ds) o hc hd (he, hds) l (k, all) =
      (o c d e hc hd he l k, All-behind t c d ds o hc hd hds l all)

  IsRanked-put_sorted :
      (t : Table) (c : Candidate) (ds : List Candidate)
      → IsOrdered t
      → IsHitOf fl q t c
      → All (IsHitOf fl q t) ds
      → IsRanked ds
      → IsRanked (put_sorted fl c ds)
  unfolding put_sorted
  IsRanked-put_sorted t c [] o hc hds r = (tt, tt)
  IsRanked-put_sorted t c (d ∷ ds) o hc (hd, hds) (all, r) =
      elim (Bool-cases (fl.less d.score c.score)) [
        | inl l ↦
            let k = fl.less_asym d.score c.score l in
            rw l ((k, All-behind t c d ds o hc hd hds k all), (all, r))
        | inr l ↦ rw l (
          All-put_sorted fl q (λ (e : Candidate). fl.less d.score e.score ≡ false) c ds l all,
          IsRanked-put_sorted t c ds o hc hds r,
        )
      ]

  IsRanked-sort_by_score :
      (t : Table) (cs : List Candidate)
      → IsOrdered t
      → All (IsHitOf fl q t) cs
      → IsRanked (sort_by_score fl cs)
  unfolding sort_by_score
  IsRanked-sort_by_score t [] o h = tt
  IsRanked-sort_by_score t (c ∷ cs) o (h, hs) =
      IsRanked-put_sorted t c (sort_by_score fl cs) o h
        (All-sort_by_score fl q (IsHitOf fl q t) cs hs) (IsRanked-sort_by_score t cs o hs)

  -- A candidate is in the answer, or the answer is full and has none that is worse.
  abbrev pub IsAnswered : ℕ → List Candidate → Candidate → Type 0
  IsAnswered limit cs c =
      IsIn c cs
      ⊎ ((0 < limit)
          × (length cs ≡ limit)
          × All (λ (d : Candidate). fl.less d.score c.score ≡ false) cs)

  IsAnswered-take :
      (n : ℕ) (cs : List Candidate) (c : Candidate)
      → IsRanked cs
      → IsIn c cs
      → IsIn c (take n cs)
        ⊎ ((length (take n cs) ≡ n)
            × All (λ (d : Candidate). fl.less d.score c.score ≡ false) (take n cs))
  IsAnswered-take n [] c r i = absurd i
  IsAnswered-take zero (d ∷ cs) c r i = inr (refl, tt)
  IsAnswered-take (suc n) (d ∷ cs) c (all, r) (inl e) = inl (inl e)
  IsAnswered-take (suc n) (d ∷ cs) c (all, r) (inr i) = elim (IsAnswered-take n cs c r i) [
    | inl within ↦ inl (inr within)
    | inr (full, none_worse) ↦ inr (
      ap suc full,
      (All-IsIn (λ (e : Candidate). fl.less d.score e.score ≡ false) c cs all i, none_worse),
    )
  ]

  IsAnswered-cut_to :
      (n : ℕ) (cs : List Candidate) (c : Candidate)
      → IsRanked cs
      → IsIn c cs
      → IsAnswered n (cut_to fl n cs) c
  unfolding cut_to
  IsAnswered-cut_to zero cs c r i = inl i
  IsAnswered-cut_to (suc n) cs c r i = elim (IsAnswered-take (suc n) cs c r i) [
    | inl within ↦ inl within
    | inr (full, none_worse) ↦ inr (omega arith, full, none_worse)
  ]

  IsRanked-take : (n : ℕ) (cs : List Candidate) → IsRanked cs → IsRanked (take n cs)
  IsRanked-take zero cs h = tt
  IsRanked-take (suc n) [] h = tt
  IsRanked-take (suc n) (c ∷ cs) (all, r) = (All-of_take n c cs all, IsRanked-take n cs r)
    where
      All-of_take :
          (n : ℕ) (c : Candidate) (cs : List Candidate)
          → All (λ (d : Candidate). fl.less c.score d.score ≡ false) cs
          → All (λ (d : Candidate). fl.less c.score d.score ≡ false) (take n cs)
      All-of_take zero c cs h = tt
      All-of_take (suc n) c [] h = tt
      All-of_take (suc n) c (d ∷ cs) (h, hs) = (h, All-of_take n c cs hs)

  IsRanked-cut_to : (n : ℕ) (cs : List Candidate) → IsRanked cs → IsRanked (cut_to fl n cs)
  unfolding cut_to
  IsRanked-cut_to zero cs h = h
  IsRanked-cut_to (suc n) cs h = IsRanked-take (suc n) cs h

  -- A search of a table whose ids can be read, with a vector that is not empty, succeeds. Every result
  -- is decoded from a row of the table and passes the threshold, the file and the filter, and no row is
  -- answered twice; no result has a lower score than one behind it; a limit other than 0 is kept; and
  -- every row that has the dimension and passes the tests is among the results, or they are as many as
  -- the limit and none of them has a lower score. The scores of the hits are ordered.
  pub IsAnswered-search_collection :
      (s : Store) (name : Text) (t : Table)
      → lookup (table_name name) s.tables ≡ some t
      → All IsReadable t
      → is_empty q.vector ≡ false
      → IsOrdered t
      → (cs : List Candidate) × (search_collection fl s name q ≡ some cs)
        × All (IsHitOf fl q t) cs
        × IsDrawn fl q t cs
        × IsRanked cs
        × (0 < q.limit → length cs ≤ q.limit)
        × ((c : Candidate) → IsFitOf t c → IsAnswered q.limit cs c)
  unfolding search_collection
  IsAnswered-search_collection s name t there readable given o =
      let (cs, found, hits) = candidates_readable fl q t readable in
      let sorted = sort_by_score fl cs in
      let ranked = IsRanked-sort_by_score t cs o hits in
      (
        cut_to fl q.limit sorted,
        rw (given, search_collection) (rw there (search_rows_found fl q t cs found)),
        All-cut_to fl q (IsHitOf fl q t) q.limit sorted
            (All-sort_by_score fl q (IsHitOf fl q t) cs hits),
        IsDrawn-candidates fl q t cs readable found,
        IsRanked-cut_to q.limit sorted ranked,
        length-cut_to fl q q.limit sorted,
        λ c fit.
            IsAnswered-cut_to q.limit sorted c ranked
              (IsIn-sort_by_score c cs (IsIn-candidates t c cs fit found)),
      )
