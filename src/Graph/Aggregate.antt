-- ===== src/Graph/Aggregate.antt =====
-- What aggregation keeps: the total weight, however the nodes are grouped.
use ragamuffin.Base.{
  ℕ, ◌+◌, ◌*◌, ◌<◌, ◌≡◌, refl, sym, ap, ◌∙◌, false, List, [], ◌∷◌, arith, length, ltb, ◌==◌,
  if◌then◌else◌, Bool-cases, inl, inr,
}
use ragamuffin.Graph.{
  LouvainGraph, Neighbours, new_louvain_graph, add_edge, at, add_loop, place_edge, aggregate,
  aggregate_nodes, aggregate_edges, fold_self_loops,
}
use ragamuffin.Graph.Sums.{
  sum, sum-add_at, length-add_at, upper, edges_from, fold_total-sum, sum-fold_degrees,
  length-fold_degrees, sum-repeated, edges_from-repeated,
}
use ragamuffin.Graph.Weights.{
  IsSized, IsWeighted, edge_weight, IsSized-add_edge, IsAdded-add_edge,
  IsWeighted-new_louvain_graph,
}

-- A graph whose self-loops are not in the total and the degrees yet.
record IsUnfolded (k : ℕ) (g : LouvainGraph) : Type 0 where
  sized : IsSized k g
  twice_edges : g.m2 + 2 * sum g.self_loop ≡ 2 * edge_weight g
  degrees : sum g.degree ≡ g.m2

IsUnfolded-add_loop :
    (k : ℕ) (g : LouvainGraph) (c w : ℕ)
    → IsUnfolded k g
    → c < k
    → IsUnfolded k (add_loop c w g) × (edge_weight (add_loop c w g) ≡ edge_weight g + w)
unfolding add_loop edge_weight
IsUnfolded-add_loop k g c w h b =
    let size = h.sized.self_size in
    let loops = sum-add_at c w g.self_loop (omega arith) in
    let before = h.twice_edges in
    (
      record {
        sized = record {
          nodes = h.sized.nodes;
          adj_size = h.sized.adj_size;
          self_size = length-add_at c w g.self_loop ∙ size;
          degree_size = h.sized.degree_size;
        };
        twice_edges = omega arith;
        degrees = h.degrees;
      },
      omega arith,
    )

self_loop-add_edge :
    (g : LouvainGraph) (u v w : ℕ) → (u == v) ≡ false → (add_edge g u v w).self_loop ≡ g.self_loop
unfolding add_edge
self_loop-add_edge g u v w e = rw (e, add_edge) refl

IsUnfolded-add_edge :
    (k : ℕ) (g : LouvainGraph) (u v w : ℕ)
    → IsUnfolded k g
    → u < k
    → v < k
    → (u == v) ≡ false
    → IsUnfolded k (add_edge g u v w) × (edge_weight (add_edge g u v w) ≡ edge_weight g + w)
IsUnfolded-add_edge k g u v w h a b other =
    let (edges, total, sums) = IsAdded-add_edge k g u v w h.sized a b in
    let same = ap sum (self_loop-add_edge g u v w other) in
    let before = h.twice_edges in
    let d = h.degrees in
    (
      record {
        sized = IsSized-add_edge k g u v w h.sized;
        twice_edges = omega arith;
        degrees = omega arith;
      },
      edges,
    )

module _ (k : ℕ) (dense : List ℕ) (bounded : (v : ℕ) → at v dense < k) where
  IsUnfolded-place_edge :
      (u cu v w : ℕ) (g : LouvainGraph)
      → cu < k
      → IsUnfolded k g
      → IsUnfolded k (place_edge dense u cu v w g)
        × (edge_weight (place_edge dense u cu v w g) ≡ edge_weight g + (if ltb u v then w else 0))
  unfolding place_edge
  IsUnfolded-place_edge u cu v w g c h = elim (Bool-cases (ltb u v)) [
    | inr e ↦ rw (e, place_edge) (h, omega arith)
    | inl e ↦ elim (Bool-cases (cu == at v dense)) [
      | inl f ↦ rw (e, place_edge) (rw (f, place_edge) (IsUnfolded-add_loop k g cu w h c))
      | inr f ↦
          rw (e, place_edge)
            (rw (f, place_edge) (IsUnfolded-add_edge k g cu (at v dense) w h c (bounded v) f))
    ]
  ]

  IsUnfolded-aggregate_edges :
      (u cu : ℕ) (m : Neighbours) (g : LouvainGraph)
      → cu < k
      → IsUnfolded k g
      → IsUnfolded k (aggregate_edges dense u cu m g)
        × (edge_weight (aggregate_edges dense u cu m g) ≡ edge_weight g + upper u m)
  unfolding aggregate_edges upper
  IsUnfolded-aggregate_edges u cu [] g c h = (h, omega arith)
  IsUnfolded-aggregate_edges u cu ((v, w) ∷ m) g c h =
      let (placed, more) = IsUnfolded-place_edge u cu v w g c h in
      let (rest, sums) = IsUnfolded-aggregate_edges u cu m (place_edge dense u cu v w g) c placed in
      (rest, ground (arith, sums, more))

  IsUnfolded-aggregate_nodes :
      (u : ℕ) (ms : List Neighbours) (loops : List ℕ) (g : LouvainGraph)
      → length ms ≡ length loops
      → IsUnfolded k g
      → IsUnfolded k (aggregate_nodes dense u ms loops g)
        × (edge_weight (aggregate_nodes dense u ms loops g)
            ≡ edge_weight g + sum loops + edges_from u ms)
  unfolding aggregate_nodes sum edges_from
  IsUnfolded-aggregate_nodes u [] [] g e h = (h, omega arith)
  IsUnfolded-aggregate_nodes u [] (x ∷ loops) g e h = absurd (omega arith)
  IsUnfolded-aggregate_nodes u (m ∷ ms) [] g e h = absurd (omega arith)
  IsUnfolded-aggregate_nodes u (m ∷ ms) (x ∷ loops) g e h =
      let cu = at u dense in
      let (one, a) = IsUnfolded-add_loop k g cu x h (bounded u) in
      let (two, b) = IsUnfolded-aggregate_edges u cu m (add_loop cu x g) (bounded u) one in
      let (rest, c) =
        IsUnfolded-aggregate_nodes (u + 1) ms loops (aggregate_edges dense u cu m (add_loop cu x g))
          (omega arith) two in
      (rest, omega arith)

self-new_louvain_graph : (k : ℕ) → sum (new_louvain_graph k).self_loop ≡ 0
unfolding new_louvain_graph
self-new_louvain_graph k = sum-repeated k

edge_weight-new_louvain_graph : (k : ℕ) → edge_weight (new_louvain_graph k) ≡ 0
unfolding new_louvain_graph edge_weight
edge_weight-new_louvain_graph k =
    let loops = sum-repeated k in let edges = edges_from-repeated 0 k in omega arith

IsUnfolded-new_louvain_graph : (k : ℕ) → IsUnfolded k (new_louvain_graph k)
IsUnfolded-new_louvain_graph k =
    let h = IsWeighted-new_louvain_graph k in
    let e = h.twice_edges in
    let loops = self-new_louvain_graph k in
    record { sized = h.sized; twice_edges = omega arith; degrees = h.degrees }

edge_weight-parts : (g : LouvainGraph) → edge_weight g ≡ sum g.self_loop + edges_from 0 g.adj
unfolding edge_weight
edge_weight-parts g = refl

IsWeighted-fold_self_loops :
    (k : ℕ) (g : LouvainGraph)
    → IsUnfolded k g
    → IsWeighted k (fold_self_loops g) × ((fold_self_loops g).m2 ≡ 2 * edge_weight g)
unfolding fold_self_loops edge_weight
IsWeighted-fold_self_loops k g h =
    let s = h.sized in
    let same : length g.self_loop ≡ length g.degree = s.self_size ∙ sym s.degree_size in
    let total = fold_total-sum g.self_loop g.m2 in
    let degrees = sum-fold_degrees g.self_loop g.degree same in
    let before = h.twice_edges in
    let d = h.degrees in
    (
      record {
        sized = record {
          nodes = s.nodes;
          adj_size = s.adj_size;
          self_size = s.self_size;
          degree_size = length-fold_degrees g.self_loop g.degree same ∙ s.degree_size;
        };
        twice_edges = omega arith;
        degrees = omega arith;
      },
      omega arith,
    )

-- Aggregation conserves the total weight, and the new graph's total is twice the weight of its edges
-- and the sum of its degrees, as the old graph's was, for any grouping of the nodes into k communities.
pub IsWeighted-aggregate :
    (n k : ℕ) (g : LouvainGraph) (dense : List ℕ)
    → IsWeighted n g
    → ((v : ℕ) → at v dense < k)
    → IsWeighted k (aggregate g dense k) × ((aggregate g dense k).m2 ≡ g.m2)
unfolding aggregate
IsWeighted-aggregate n k g dense h bounded =
    let fresh = IsWeighted-new_louvain_graph k in
    let start : IsUnfolded k (new_louvain_graph k) = IsUnfolded-new_louvain_graph k in
    let (built, weight) =
      IsUnfolded-aggregate_nodes k dense bounded 0 g.adj g.self_loop (new_louvain_graph k)
        (h.sized.adj_size ∙ sym h.sized.self_size) start in
    let (done, total) =
      IsWeighted-fold_self_loops k (aggregate_nodes dense 0 g.adj g.self_loop (new_louvain_graph k))
        built in
    let before = h.twice_edges in
    let empty = edge_weight-new_louvain_graph k in
    let parts = edge_weight-parts g in (done, omega arith)
