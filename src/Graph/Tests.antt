-- ===== src/Graph/Tests.antt =====
-- A graph of five entities, two of them a pair.
use ragamuffin.Base.{◌<◌, ◌↔◌, length, ℕ, ◌≡◌, refl, List, [], ◌∷◌, arith}
use ragamuffin.Text.{Text, codes, same_text}
use ragamuffin.Text.Maps.{lookup, insert}
use ragamuffin.Graph.{
  LouvainGraph, vault_graph, add_edges, add_current_edge, add_edge, add_neighbour, add_to, add_at,
  index_ids, new_louvain_graph, repeated, dense_labels, dense_from, lookup_label, aggregate,
  aggregate_nodes, aggregate_edges, place_edge, add_loop, at, fold_self_loops, fold_degrees,
  fold_total,
}
use ragamuffin.Graph.Weights.{IsWeighted}
use ragamuffin.Graph.Dense.{dense_labels_iff}
use ragamuffin.Graph.Built.{IsWeighted-vault_graph, IsWeighted-aggregate_dense}

program : Unit {0}
unfolding vault_graph add_edges add_current_edge add_edge add_neighbour add_to add_at index_ids
    new_louvain_graph repeated dense_labels dense_from lookup_label aggregate aggregate_nodes
    aggregate_edges place_edge add_loop at fold_self_loops fold_degrees fold_total lookup insert
    same_text
program = tt

abbrev ids : List Text
ids = codes "a" ∷ codes "b" ∷ codes "c" ∷ codes "d" ∷ codes "e" ∷ []

-- The edge to an unknown entity is passed over.
abbrev edges : List (Text × Text)
edges =
    (codes "a", codes "b")
    ∷ (codes "b", codes "c")
    ∷ (codes "c", codes "a")
    ∷ (codes "d", codes "e")
    ∷ (codes "c", codes "d")
    ∷ (codes "a", codes "x")
    ∷ []

abbrev graph : LouvainGraph
graph = vault_graph ids edges

ten : graph.m2 ≡ 10
unfolding program
ten = refl

abbrev labels : List ℕ
labels = 2 ∷ 2 ∷ 2 ∷ 4 ∷ 4 ∷ []

two_communities : dense_labels labels ≡ (0 ∷ 0 ∷ 0 ∷ 1 ∷ 1 ∷ [], 2)
unfolding program
two_communities = refl

-- Three edges within the first community, one within the second, and one between them.
degrees : (aggregate graph (0 ∷ 0 ∷ 0 ∷ 1 ∷ 1 ∷ []) 2).degree ≡ 7 ∷ 3 ∷ []
unfolding program
degrees = refl

dense_labels_iff_example :
    (let (out, k) = dense_labels labels in
      ((at 1 out ≡ at 3 out) ↔ (at 1 labels ≡ at 3 labels))
      × (at 1 out < k)
      × (length out ≡ length labels))
dense_labels_iff_example = dense_labels_iff labels 1 3 (omega arith) (omega arith)

IsWeighted-vault_graph_example : IsWeighted 5 graph
IsWeighted-vault_graph_example = IsWeighted-vault_graph ids edges

IsWeighted-aggregate_dense_example :
    (let (dense, k) = dense_labels labels in
      IsWeighted k (aggregate graph dense k) × ((aggregate graph dense k).m2 ≡ graph.m2))
IsWeighted-aggregate_dense_example =
    IsWeighted-aggregate_dense 5 graph labels (IsWeighted-vault_graph ids edges) (omega arith)
