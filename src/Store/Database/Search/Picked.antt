-- ===== src/Store/Database/Search/Picked.antt =====
-- The results of a search are drawn from the rows: no row is answered twice.
use mathlib.Core.List.{Perm}
use mathlib.Core.List.Perm
use ragamuffin.Base.{
  ℕ, zero, suc, ◌≡◌, sym, inl, inr, ◌⊎◌, some, List, [], ◌∷◌, ◌++◌, append-nil, arith, Bool-cases,
  Option-cases, All, drop, take-append-drop,
}
use ragamuffin.Store.Vector.{Floats}
use ragamuffin.Store.Table.{Row, Table}
use ragamuffin.Store.Database.Scroll.Rows.{IsReadable}
use ragamuffin.Store.Database.Search.{
  Candidate, Query, candidates, put_sorted, sort_by_score, cut_to,
}
use ragamuffin.Store.Database.Search.Laws.{IsHit, consider_readable}

module _ (fl : Floats) (q : Query) where
  -- A candidate for some of the rows, in their order, and no more than one for a row
  abbrev pub IsPicked : Table → List Candidate → Type 0
  IsPicked [] [] = Unit
  IsPicked [] (c ∷ cs) = ⊥
  IsPicked (r ∷ t) [] = Unit
  IsPicked (r ∷ t) (c ∷ cs) = (IsHit fl q r c × IsPicked t cs) ⊎ IsPicked t (c ∷ cs)

  -- The list is a part of what is picked, in another order.
  abbrev pub IsDrawn : Table → List Candidate → Type 0
  IsDrawn t cs =
      (picked : List Candidate) × (rest : List Candidate) × IsPicked t picked
      × Perm picked (cs ++ rest)

  IsPicked-skip : (r : Row) (t : Table) (cs : List Candidate) → IsPicked t cs → IsPicked (r ∷ t) cs
  IsPicked-skip r t [] h = tt
  IsPicked-skip r t (c ∷ cs) h = inr h

  IsPicked-candidates :
      (t : Table) (cs : List Candidate)
      → All IsReadable t
      → candidates fl q t ≡ some cs
      → IsPicked t cs
  unfolding candidates
  IsPicked-candidates [] [] h e = tt
  IsPicked-candidates [] (c ∷ cs) h e = absurd (ground (arith, e))
  IsPicked-candidates (r ∷ t) cs (readable, h) e = elim (consider_readable fl q r readable) [
    | inl skip ↦ IsPicked-skip r t cs (IsPicked-candidates t cs h (ground (arith, e, skip)))
    | inr (c, hit, is_hit) ↦ elim (Option-cases (candidates fl q t)) [
      | inl f ↦ absurd (ground (arith, e, hit, f))
      | inr (ds, f) ↦
          let same : c ∷ ds ≡ cs = ground (arith, e, hit, f) in
          rw (← same) (inl (is_hit, IsPicked-candidates t ds h f))
    ]
  ]

  put_sorted-perm : (c : Candidate) (ds : List Candidate) → Perm (c ∷ ds) (put_sorted fl c ds)
  unfolding put_sorted
  put_sorted-perm c [] = Perm.refl (c ∷ [])
  put_sorted-perm c (d ∷ ds) = elim (Bool-cases (fl.less d.score c.score)) [
    | inl l ↦ rw l (Perm.refl (c ∷ d ∷ ds))
    | inr l ↦ rw l (Perm.trans (Perm.swap d c ds) (Perm.cons d (put_sorted-perm c ds)))
  ]

  sort_by_score-perm : (cs : List Candidate) → Perm cs (sort_by_score fl cs)
  unfolding sort_by_score
  sort_by_score-perm [] = Perm.refl []
  sort_by_score-perm (c ∷ cs) =
      Perm.trans (Perm.cons c (sort_by_score-perm cs)) (put_sorted-perm c (sort_by_score fl cs))

  cut_to_rest :
      (n : ℕ) (cs : List Candidate) → (rest : List Candidate) × (cs ≡ cut_to fl n cs ++ rest)
  unfolding cut_to
  cut_to_rest zero cs = ([], sym (append-nil cs))
  cut_to_rest (suc n) cs = (drop (suc n) cs, sym (take-append-drop (suc n) cs))

  pub IsDrawn-candidates :
      (t : Table) (cs : List Candidate)
      → All IsReadable t
      → candidates fl q t ≡ some cs
      → IsDrawn t (cut_to fl q.limit (sort_by_score fl cs))
  IsDrawn-candidates t cs h e =
      let (rest, same) = cut_to_rest q.limit (sort_by_score fl cs) in
      (cs, rest, IsPicked-candidates t cs h e, rw (← same) (sort_by_score-perm cs))
