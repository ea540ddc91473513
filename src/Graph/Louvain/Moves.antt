-- ===== src/Graph/Louvain/Moves.antt =====
-- The moves of a pass keep the nodes and the communities.
use ragamuffin.Base.{
  ℕ, zero, suc, ◌+◌, ◌≡◌, refl, ap, ◌∙◌, List, [], ◌∷◌, length, ◌==◌, Bool-cases, inl, inr,
}
use ragamuffin.Graph.{LouvainGraph, at}
use ragamuffin.Graph.Louvain.{
  Gains, labels_from, set_at, take_at, Pass, best_community, move_node, move_nodes,
}

pub length-set_at : (i x : ℕ) (xs : List ℕ) → length (set_at i x xs) ≡ length xs
unfolding set_at
length-set_at i x [] = refl
length-set_at zero x (y ∷ ys) = refl
length-set_at (suc i) x (y ∷ ys) = ap suc (length-set_at i x ys)

pub length-labels_from : (i n : ℕ) → length (labels_from i n) ≡ n
unfolding labels_from
length-labels_from i zero = refl
length-labels_from i (suc n) = ap suc (length-labels_from (i + 1) n)

module _ (gains : Gains) where
  pub length-move_node :
      (g : LouvainGraph) (u : ℕ) (p : Pass) → length (move_node gains g u p).label ≡ length p.label
  unfolding move_node
  length-move_node g u p =
      let cu = at u p.label in
      let best = best_community gains g u cu p.label (take_at cu (at u g.degree) p.comm_tot) in
      elim (Bool-cases (best == cu)) [
        | inl e ↦ rw (e, move_node) refl
        | inr e ↦ rw (e, move_node) (length-set_at u best p.label)
      ]

  pub length-move_nodes :
      (g : LouvainGraph) (u k : ℕ) (p : Pass)
      → length (move_nodes gains g u k p).label ≡ length p.label
  unfolding move_nodes
  length-move_nodes g u zero p = refl
  length-move_nodes g u (suc k) p =
      length-move_nodes g (u + 1) k (move_node gains g u p) ∙ length-move_node g u p
