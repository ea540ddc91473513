-- ===== src/Retrieval/Fuse.antt =====
-- Fuse, FuseWithScores and Hybrid of internal/retrieval/retrieval.go. The arithmetic of the machine on
-- float32 is a parameter; the map of scores is an association list in the order of first appearance,
-- which Go leaves open, and sort.Slice is an insertion sort.
pub mod Laws
use ragamuffin.Base.{
  ℕ, zero, suc, ◌+◌, ◌≡◌, Bool, true, false, Option, none, some, List, [], ◌∷◌, if◌then◌else◌, ◌==◌,
  map,
}
use ragamuffin.Text.{Text}
use ragamuffin.Text.Maps.{lookup, insert}

-- `reciprocal n` is 1.0 / float32(n), and `zero_score` the 0 of a key that is not in the map.
pub record Scores : Type 0 where
  pub zero_score : ℕ
  pub reciprocal : ℕ → ℕ
  pub add : ℕ → ℕ → ℕ
  pub less : ℕ → ℕ → Bool
  pub less_asym : (a b : ℕ) → less a b ≡ true → less b a ≡ false

-- RankedID
pub record RankedId : Type 0 where
  pub id : Text
  pub score : ℕ

-- ScoredRanking
pub record ScoredRanking : Type 0 where
  pub source : Text
  pub items : List RankedId

module _ (sc : Scores) where
  score_or_zero : Option ℕ → ℕ
  score_or_zero none = sc.zero_score
  score_or_zero (some s) = s

  -- scores[id] += 1.0 / float32(k+rank+1)
  unfoldable pub add_rank : ℕ → Text → List (Text × ℕ) → List (Text × ℕ)
  unfolding score_or_zero
  add_rank n id m = insert id (sc.add (score_or_zero (lookup id m)) (sc.reciprocal n)) m

  -- The loop over one list; `n` is k+rank+1 of its head.
  unfoldable pub add_list : ℕ → List Text → List (Text × ℕ) → List (Text × ℕ)
  unfolding add_rank
  add_list n [] m = m
  add_list n (id ∷ ids) m = add_list (suc n) ids (add_rank n id m)

  unfoldable pub add_lists : ℕ → List (List Text) → List (Text × ℕ) → List (Text × ℕ)
  unfolding add_list
  add_lists k [] m = m
  add_lists k (ids ∷ lists) m = add_lists k lists (add_list (k + 1) ids m)

  unfoldable pub put_ranked : Text × ℕ → List RankedId → List RankedId
  put_ranked (id, s) [] = record { id = id; score = s } ∷ []
  put_ranked (id, s) (r ∷ rs) =
      let rest = put_ranked (id, s) rs in
      if sc.less r.score s then record { id = id; score = s } ∷ (r ∷ rs) else r ∷ rest

  unfoldable pub ranked : List (Text × ℕ) → List RankedId
  unfolding put_ranked
  ranked [] = []
  ranked (e ∷ m) = put_ranked e (ranked m)

  -- `if k <= 0 { k = 60 }`
  unfoldable pub default_k : ℕ → ℕ
  default_k k = if k == 0 then 60 else k

  -- Fuse
  unfoldable pub fuse : List (List Text) → ℕ → List RankedId
  unfolding default_k
  fuse lists k = ranked (add_lists (default_k k) lists [])

  -- FuseWithScores
  unfoldable pub fuse_with_scores : List ScoredRanking → ℕ → List RankedId
  unfolding default_k
  fuse_with_scores rankings k = ranked (
      add_lists (default_k k)
        (map (λ (r : ScoredRanking). map (λ (i : RankedId). i.id) r.items) rankings) [])

  -- Hybrid
  unfoldable pub hybrid : List Text → List Text → ℕ → List RankedId
  hybrid dense lexical k = fuse (dense ∷ lexical ∷ []) k
