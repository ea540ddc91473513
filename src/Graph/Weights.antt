-- ===== src/Graph/Weights.antt =====
-- The total weight of a graph is that of its edges, and of its degrees.
use ragamuffin.Base.{
  ℕ, ◌+◌, ◌*◌, ◌<◌, ◌≡◌, refl, ◌∙◌, false, [], arith, length, ◌==◌, Bool-cases, inl, inr,
}
use ragamuffin.Graph.{LouvainGraph, new_louvain_graph, add_edge, add_at, add_neighbour}
use ragamuffin.Graph.Sums.{
  sum, sum-add_at, length-add_at, length-add_neighbour, edges_from, edges_from-add_neighbour,
  length-repeated, sum-repeated, edges_from-repeated,
}

-- Each list has an entry for every node.
pub record IsSized (k : ℕ) (g : LouvainGraph) : Type 0 where
  pub nodes : g.n ≡ k
  pub adj_size : length g.adj ≡ k
  pub self_size : length g.self_loop ≡ k
  pub degree_size : length g.degree ≡ k

-- The weight of all edges, self-loops among them.
unfoldable pub edge_weight : LouvainGraph → ℕ
edge_weight g = sum g.self_loop + edges_from 0 g.adj

-- The total m2 is twice the weight of the edges, and the sum of the degrees.
pub record IsWeighted (k : ℕ) (g : LouvainGraph) : Type 0 where
  pub sized : IsSized k g
  pub twice_edges : g.m2 ≡ 2 * edge_weight g
  pub degrees : sum g.degree ≡ g.m2

pub IsSized-add_edge :
    (k : ℕ) (g : LouvainGraph) (u v w : ℕ) → IsSized k g → IsSized k (add_edge g u v w)
unfolding add_edge
IsSized-add_edge k g u v w s = elim (Bool-cases (u == v)) [
  | inl e ↦
      rw (e, add_edge)
        (record {
          nodes = s.nodes;
          adj_size = s.adj_size;
          self_size = length-add_at u w g.self_loop ∙ s.self_size;
          degree_size = length-add_at u (2 * w) g.degree ∙ s.degree_size;
        })
  | inr e ↦
      rw (e, add_edge)
        (record {
          nodes = s.nodes;
          adj_size =
              length-add_neighbour v u w (add_neighbour u v w g.adj)
              ∙ length-add_neighbour u v w g.adj
              ∙ s.adj_size;
          self_size = s.self_size;
          degree_size =
              length-add_at v w (add_at u w g.degree) ∙ length-add_at u w g.degree ∙ s.degree_size;
        })
]

edges-add_edge :
    (k : ℕ) (g : LouvainGraph) (u v w : ℕ)
    → IsSized k g
    → u < k
    → v < k
    → (u == v) ≡ false
    → edges_from 0 (add_neighbour v u w (add_neighbour u v w g.adj)) ≡ edges_from 0 g.adj + w
edges-add_edge k g u v w s a b other =
    let size = s.adj_size in
    let first = edges_from-add_neighbour 0 u v w g.adj (omega arith) in
    let same = length-add_neighbour u v w g.adj in
    let second = edges_from-add_neighbour 0 v u w (add_neighbour u v w g.adj) (omega arith) in
    ground (arith, first, second, other)

-- An edge of weight w adds w to the weight of the edges, and twice that to the total and the degrees.
pub IsAdded-add_edge :
    (k : ℕ) (g : LouvainGraph) (u v w : ℕ)
    → IsSized k g
    → u < k
    → v < k
    → (edge_weight (add_edge g u v w) ≡ edge_weight g + w)
      × ((add_edge g u v w).m2 ≡ g.m2 + 2 * w)
      × (sum (add_edge g u v w).degree ≡ sum g.degree + 2 * w)
unfolding add_edge edge_weight
IsAdded-add_edge k g u v w s a b =
    let ss = s.self_size in
    let ds = s.degree_size in
    elim (Bool-cases (u == v)) [
      | inl e ↦
          let loops = sum-add_at u w g.self_loop (omega arith) in
          let degrees = sum-add_at u (2 * w) g.degree (omega arith) in
          rw (e, add_edge) (omega arith, refl, degrees)
      | inr e ↦
          let edges = edges-add_edge k g u v w s a b e in
          let one = sum-add_at u w g.degree (omega arith) in
          let size = length-add_at u w g.degree in
          let two = sum-add_at v w (add_at u w g.degree) (omega arith) in
          rw (e, add_edge) (omega arith, refl, omega arith)
    ]

-- A new graph has no weight, and an edge between two of its nodes keeps the total in step.
pub IsWeighted-add_edge :
    (k : ℕ) (g : LouvainGraph) (u v w : ℕ)
    → IsWeighted k g
    → u < k
    → v < k
    → IsWeighted k (add_edge g u v w)
IsWeighted-add_edge k g u v w h a b =
    let (edges, total, degrees) = IsAdded-add_edge k g u v w h.sized a b in
    let before = h.twice_edges in
    let sums = h.degrees in
    record {
      sized = IsSized-add_edge k g u v w h.sized;
      twice_edges = omega arith;
      degrees = omega arith;
    }

pub IsWeighted-new_louvain_graph : (k : ℕ) → IsWeighted k (new_louvain_graph k)
unfolding new_louvain_graph edge_weight
IsWeighted-new_louvain_graph k =
    let loops = sum-repeated k in
    let edges = edges_from-repeated 0 k in
    record {
      sized = record {
        nodes = refl;
        adj_size = length-repeated k [];
        self_size = length-repeated k 0;
        degree_size = length-repeated k 0;
      };
      twice_edges = omega arith;
      degrees = loops;
    }
