-- ===== src/Graph/Levels.antt =====
-- The levels of louvain of internal/graph/community.go, over the passes of louvainOnePass.
pub mod Ends
pub mod Fixtures
mod Tests
use ragamuffin.Base.{
  ℕ, zero, suc, ◌+◌, Bool, true, false, Option, none, some, List, [], ◌∷◌, ◌++◌, ◌==◌,
}
use ragamuffin.Graph.{LouvainGraph, at, repeated, dense_labels, aggregate}
use ragamuffin.Graph.Louvain.{Gains, set_at, labels_from, louvain_one_pass}

-- []int{i}, for each node
unfoldable pub singletons : ℕ → ℕ → List (List ℕ)
singletons i zero = []
singletons i (suc n) = (i ∷ []) ∷ singletons (i + 1) n

-- new[c] = append(new[c], origs...)
unfoldable pub append_at : ℕ → List ℕ → List (List ℕ) → List (List ℕ)
append_at c origs [] = []
append_at zero origs (o ∷ os) = (o ++ origs) ∷ os
append_at (suc c) origs (o ∷ os) = o ∷ append_at c origs os

-- The loop that groups the original nodes by the new nodes.
unfoldable pub regroup : List ℕ → List (List ℕ) → List (List ℕ) → List (List ℕ)
unfolding append_at
regroup [] groups new = new
regroup (c ∷ dense) [] new = new
regroup (c ∷ dense) (origs ∷ groups) new = regroup dense groups (append_at c origs new)

-- comm[orig] = c
unfoldable pub label_all : ℕ → List ℕ → List ℕ → List ℕ
unfolding set_at
label_all c [] comm = comm
label_all c (orig ∷ origs) comm = label_all c origs (set_at orig c comm)

unfoldable pub label_groups : ℕ → List (List ℕ) → List ℕ → List ℕ
unfolding label_all
label_groups c [] comm = comm
label_groups c (origs ∷ groups) comm = label_groups (c + 1) groups (label_all c origs comm)

-- The communities, or what ran out of fuel.
pub data Communities : Type 0 where
  out_of_levels pass_not_over : Communities
  found : List ℕ → Communities

module _ (gains : Gains) (rounds : ℕ) where
  -- The loop over the levels; a pass has so many rounds.
  unfoldable pub levels : ℕ → LouvainGraph → List (List ℕ) → List ℕ → Communities
  unfolding louvain_one_pass regroup label_groups repeated
  levels zero cur groups comm = out_of_levels
  levels (suc fuel) cur groups comm = elim (louvain_one_pass gains rounds cur) [
    | none ↦ pass_not_over
    | some (labels, false) ↦ found comm
    | some (labels, true) ↦
        let (dense, k) = dense_labels labels in
        let new = regroup dense groups (repeated k []) in
        let relabelled = label_groups 0 new comm in
        elim (k == cur.n) [
          | true ↦ found relabelled
          | false ↦ levels fuel (aggregate cur dense k) new relabelled
        ]
  ]

  -- louvain
  unfoldable pub louvain : ℕ → LouvainGraph → Communities
  unfolding levels labels_from singletons
  louvain fuel g = levels fuel g (singletons 0 g.n) (labels_from 0 g.n)
