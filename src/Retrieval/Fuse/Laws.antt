-- ===== src/Retrieval/Fuse/Laws.antt =====
-- A fusion lists every id of its lists once, and nothing else, with the best score first.
use ragamuffin.Base.{
  ℕ, suc, ◌+◌, ◌≤◌, ◌≡◌, refl, ◌∙◌, inl, inr, false, List, [], ◌∷◌, arith, if◌then◌else◌,
  Bool-cases, ◌==◌, map,
}
use ragamuffin.Text.{Text, same_text}
use ragamuffin.Text.Order.{same_text_iff}
use ragamuffin.Text.Maps.{insert}
use ragamuffin.Retrieval.Rerank.Laws.{hit, count}
use ragamuffin.Retrieval.Fuse.{
  Scores, RankedId, add_rank, add_list, add_lists, put_ranked, ranked, default_k, fuse,
}

-- 1 for the ids of the list, 0 for any other
unfoldable pub listed : Text → List Text → ℕ
listed x [] = 0
listed x (y ∷ ys) = if same_text x y then 1 else listed x ys

unfoldable pub listed_in : Text → List (List Text) → ℕ
unfolding listed
listed_in x [] = 0
listed_in x (ys ∷ lists) = if listed x ys == 1 then 1 else listed_in x lists

keys : List (Text × ℕ) → List Text
keys [] = []
keys ((k, v) ∷ m) = k ∷ keys m

unfoldable pub result_ids : List RankedId → List Text
result_ids rs = map (λ (r : RankedId). r.id) rs

module _ (x : Text) where
  -- Storing under a key makes it stand in the map once.
  count-insert :
      (k : Text) (v : ℕ) (m : List (Text × ℕ))
      → count x (keys m) ≤ 1
      → count x (keys (insert k v m)) ≡ (if same_text x k then 1 else count x (keys m))
  unfolding insert count hit keys
  count-insert k v [] h = ground arith
  count-insert k v ((j, w) ∷ m) h =
      let rest = count-insert k v m (omega arith) in
      ground (arith, h, rest, same_text_iff x k, same_text_iff x j, same_text_iff j k)

  count-add_rank :
      (sc : Scores) (n : ℕ) (id : Text) (m : List (Text × ℕ))
      → count x (keys m) ≤ 1
      → count x (keys (add_rank sc n id m)) ≡ (if same_text x id then 1 else count x (keys m))
  unfolding add_rank
  count-add_rank sc n id m h = count-insert id _ m h

  count-add_list :
      (sc : Scores) (n : ℕ) (ids : List Text) (m : List (Text × ℕ))
      → count x (keys m) ≤ 1
      → count x (keys (add_list sc n ids m)) ≡ (if listed x ids == 1 then 1 else count x (keys m))
  unfolding add_list listed
  count-add_list sc n [] m h = ground arith
  count-add_list sc n (id ∷ ids) m h =
      let here = count-add_rank sc n id m h in
      let next = count-add_list sc (suc n) ids (add_rank sc n id m) (ground (arith, here, h)) in
      ground (arith, here, next, h)

  count-add_lists :
      (sc : Scores) (k : ℕ) (lists : List (List Text)) (m : List (Text × ℕ))
      → count x (keys m) ≤ 1
      → count x (keys (add_lists sc k lists m))
        ≡ (if listed_in x lists == 1 then 1 else count x (keys m))
  unfolding add_lists listed_in
  count-add_lists sc k [] m h = ground arith
  count-add_lists sc k (ids ∷ lists) m h =
      let here = count-add_list sc (k + 1) ids m h in
      let next = count-add_lists sc k lists (add_list sc (k + 1) ids m) (ground (arith, here, h)) in
      ground (arith, here, next, h)

  count-put_ranked :
      (sc : Scores) (id : Text) (s : ℕ) (rs : List RankedId)
      → count x (result_ids (put_ranked sc (id, s) rs)) ≡ hit x id + count x (result_ids rs)
  unfolding put_ranked result_ids count
  count-put_ranked sc id s [] = refl
  count-put_ranked sc id s (r ∷ rs) = ground (arith, count-put_ranked sc id s rs)

  count-ranked :
      (sc : Scores) (m : List (Text × ℕ)) → count x (result_ids (ranked sc m)) ≡ count x (keys m)
  unfolding ranked result_ids keys count
  count-ranked sc [] = refl
  count-ranked sc ((id, s) ∷ m) =
      omega (arith, count-put_ranked sc id s (ranked sc m), count-ranked sc m)

  count_none : count x (keys []) ≡ 0
  unfolding count keys
  count_none = refl

  listed_in-bit : (lists : List (List Text)) → listed_in x lists ≤ 1
  unfolding listed_in
  listed_in-bit [] = omega arith
  listed_in-bit (ys ∷ lists) = ground (arith, listed_in-bit lists)

module _ (sc : Scores) where
  -- No id has a higher score than the one before it.
  abbrev pub IsDescending : List RankedId → Type 0
  IsDescending [] = Unit
  IsDescending (r ∷ []) = Unit
  IsDescending (r ∷ q ∷ rs) = (sc.less r.score q.score ≡ false) × IsDescending (q ∷ rs)

  IsDescending-behind :
      (id : Text) (s : ℕ) (q : RankedId) (rs : List RankedId)
      → sc.less q.score s ≡ false
      → IsDescending (q ∷ rs)
      → IsDescending (q ∷ put_ranked sc (id, s) rs)
  unfolding put_ranked
  IsDescending-behind id s q [] f h = (f, tt)
  IsDescending-behind id s q (r ∷ rs) f (h, hs) = elim (Bool-cases (sc.less r.score s)) [
    | inl l ↦ rw l (f, (sc.less_asym r.score s l, hs))
    | inr l ↦ rw l (h, IsDescending-behind id s r rs l hs)
  ]

  IsDescending-put_ranked :
      (id : Text) (s : ℕ) (rs : List RankedId)
      → IsDescending rs
      → IsDescending (put_ranked sc (id, s) rs)
  unfolding put_ranked
  IsDescending-put_ranked id s [] h = tt
  IsDescending-put_ranked id s (r ∷ rs) h = elim (Bool-cases (sc.less r.score s)) [
    | inl l ↦ rw l (sc.less_asym r.score s l, h)
    | inr l ↦ rw l (IsDescending-behind id s r rs l h)
  ]

  IsDescending-ranked : (m : List (Text × ℕ)) → IsDescending (ranked sc m)
  unfolding ranked
  IsDescending-ranked [] = tt
  IsDescending-ranked ((id, s) ∷ m) =
      IsDescending-put_ranked id s (ranked sc m) (IsDescending-ranked m)

  -- The fusion of ranked lists holds an id once if one of the lists has it, however often, and not at
  -- all otherwise; and the best score comes first, where `<` on scores is asymmetric.
  pub fuse_lem :
      (lists : List (List Text)) (k : ℕ)
      → IsDescending (fuse sc lists k)
        × ((x : Text) → count x (result_ids (fuse sc lists k)) ≡ listed_in x lists)
  unfolding fuse
  fuse_lem lists k = (
    IsDescending-ranked (add_lists sc (default_k sc k) lists []),
    λ x.
        let found = count-add_lists x sc (default_k sc k) lists [] (omega (arith, count_none x)) in
        count-ranked x sc (add_lists sc (default_k sc k) lists [])
        ∙ ground (arith, found, count_none x, listed_in-bit x lists),
  )
