-- ===== src/Graph.antt =====
-- The weighted graph of internal/graph/community.go: newLouvainGraph, addEdge, denseLabels, aggregate,
-- and the graph that DetectCommunities builds. An edge weighs 1.0 and every other weight is a sum of
-- such, so a weight is a whole number, exact in a float64 below 2^53. A Go map from nodes to weights is
-- an association list.
pub mod Sums
pub mod Weights
pub mod Aggregate
pub mod Dense
pub mod Built
pub mod Louvain
pub mod Levels
mod Tests
use ragamuffin.Base.{
  ℕ, zero, suc, ◌+◌, ◌*◌, Bool, true, false, Option, none, some, List, [], ◌∷◌, ltb, ◌==◌,
  if◌then◌else◌, length,
}
use ragamuffin.Text.{Text}
use ragamuffin.Text.Maps.{lookup, insert}

-- xs[i] += w
unfoldable pub add_at : ℕ → ℕ → List ℕ → List ℕ
add_at i w [] = []
add_at zero w (x ∷ xs) = (x + w) ∷ xs
add_at (suc i) w (x ∷ xs) = x ∷ add_at i w xs

-- xs[i], for an index in range
unfoldable pub at : ℕ → List ℕ → ℕ
at i [] = 0
at zero (x ∷ xs) = x
at (suc i) (x ∷ xs) = at i xs

abbrev pub Neighbours : Type 0
Neighbours = List (ℕ × ℕ)

-- m[v] += w
unfoldable pub add_to : ℕ → ℕ → Neighbours → Neighbours
add_to v w [] = (v, w) ∷ []
add_to v w ((j, x) ∷ m) =
    let rest = add_to v w m in if j == v then (j, x + w) ∷ m else (j, x) ∷ rest

-- adj[u][v] += w
unfoldable pub add_neighbour : ℕ → ℕ → ℕ → List Neighbours → List Neighbours
add_neighbour u v w [] = []
add_neighbour zero v w (m ∷ ms) = add_to v w m ∷ ms
add_neighbour (suc u) v w (m ∷ ms) = m ∷ add_neighbour u v w ms

-- louvainGraph; the number of nodes is the length of each list.
pub record LouvainGraph : Type 0 where
  pub n : ℕ
  pub adj : List Neighbours
  pub self_loop : List ℕ
  pub degree : List ℕ
  pub m2 : ℕ

unfoldable pub repeated {ℓ} : {A : Type ℓ} → ℕ → A → List A
repeated zero a = []
repeated (suc n) a = a ∷ repeated n a

-- newLouvainGraph
unfoldable pub new_louvain_graph : ℕ → LouvainGraph
unfolding repeated
new_louvain_graph n = record {
  n = n;
  adj = repeated n [];
  self_loop = repeated n 0;
  degree = repeated n 0;
  m2 = 0;
}

-- addEdge
unfoldable pub add_edge : LouvainGraph → ℕ → ℕ → ℕ → LouvainGraph
unfolding add_at add_neighbour
add_edge g u v w =
    if u == v
    then record g {
      self_loop = add_at u w g.self_loop;
      degree = add_at u (2 * w) g.degree;
      m2 = g.m2 + 2 * w;
    }
    else record g {
      adj = add_neighbour v u w (add_neighbour u v w g.adj);
      degree = add_at v w (add_at u w g.degree);
      m2 = g.m2 + 2 * w;
    }

unfoldable pub lookup_label : ℕ → List (ℕ × ℕ) → Option ℕ
lookup_label l [] = none
lookup_label l ((j, d) ∷ r) = if j == l then some d else lookup_label l r

-- The loop of denseLabels.
unfoldable pub dense_from : List (ℕ × ℕ) → ℕ → List ℕ → List ℕ × ℕ
dense_from remap next [] = ([], next)
dense_from remap next (l ∷ labels) = elim (lookup_label l remap) [
  | some d ↦ let (out, k) = dense_from remap next labels in (d ∷ out, k)
  | none ↦ let (out, k) = dense_from ((l, next) ∷ remap) (next + 1) labels in (next ∷ out, k)
]

-- denseLabels
unfoldable pub dense_labels : List ℕ → List ℕ × ℕ
unfolding dense_from
dense_labels labels = dense_from [] 0 labels

-- ng.selfLoop[c] += w
unfoldable pub add_loop : ℕ → ℕ → LouvainGraph → LouvainGraph
unfolding add_at
add_loop c w ng = record ng { self_loop = add_at c w ng.self_loop }

-- The body of the inner loop of aggregate, for the edge from node u, in community cu, to node v.
unfoldable pub place_edge : List ℕ → ℕ → ℕ → ℕ → ℕ → LouvainGraph → LouvainGraph
place_edge dense u cu v w ng =
    if ltb u v
    then (if cu == at v dense then add_loop cu w ng else add_edge ng cu (at v dense) w)
    else ng

unfoldable pub aggregate_edges : List ℕ → ℕ → ℕ → Neighbours → LouvainGraph → LouvainGraph
aggregate_edges dense u cu [] ng = ng
aggregate_edges dense u cu ((v, w) ∷ m) ng =
    aggregate_edges dense u cu m (place_edge dense u cu v w ng)

-- The outer loop, from node u on.
unfoldable pub aggregate_nodes : List ℕ → ℕ → List Neighbours → List ℕ → LouvainGraph → LouvainGraph
aggregate_nodes dense u [] loops ng = ng
aggregate_nodes dense u (m ∷ ms) [] ng = ng
aggregate_nodes dense u (m ∷ ms) (x ∷ loops) ng =
    aggregate_nodes dense (u + 1) ms loops
      (aggregate_edges dense u (at u dense) m (add_loop (at u dense) x ng))

-- The last loop: twice the self-loops join the degrees and the total, once.
unfoldable pub fold_degrees : List ℕ → List ℕ → List ℕ
fold_degrees [] ds = ds
fold_degrees (x ∷ xs) [] = []
fold_degrees (x ∷ xs) (d ∷ ds) = (if ltb 0 x then d + 2 * x else d) ∷ fold_degrees xs ds

unfoldable pub fold_total : List ℕ → ℕ → ℕ
fold_total [] t = t
fold_total (x ∷ xs) t = fold_total xs (if ltb 0 x then t + 2 * x else t)

unfoldable pub fold_self_loops : LouvainGraph → LouvainGraph
unfolding fold_degrees fold_total
fold_self_loops g = record g {
  degree = fold_degrees g.self_loop g.degree;
  m2 = fold_total g.self_loop g.m2;
}

-- aggregate
unfoldable pub aggregate : LouvainGraph → List ℕ → ℕ → LouvainGraph
unfolding aggregate_nodes new_louvain_graph fold_self_loops
aggregate g dense k =
    fold_self_loops (aggregate_nodes dense 0 g.adj g.self_loop (new_louvain_graph k))

-- idx of DetectCommunities: the number of each entity, in their order.
unfoldable pub index_ids : ℕ → List Text → List (Text × ℕ) → List (Text × ℕ)
unfolding insert
index_ids i [] idx = idx
index_ids i (id ∷ ids) idx = index_ids (i + 1) ids (insert id i idx)

-- An edge with an end that is no entity is passed over; the others weigh 1.
unfoldable pub add_current_edge : List (Text × ℕ) → Text × Text → LouvainGraph → LouvainGraph
unfolding lookup
add_current_edge idx (source, target) g = elim (lookup source idx) [
  | none ↦ g
  | some u ↦ elim (lookup target idx) [ none ↦ g | some v ↦ add_edge g u v 1 ]
]

unfoldable pub add_edges : List (Text × ℕ) → List (Text × Text) → LouvainGraph → LouvainGraph
add_edges idx [] g = g
add_edges idx (e ∷ es) g = add_edges idx es (add_current_edge idx e g)

-- The graph that DetectCommunities builds of the entities and the current edges of a vault.
unfoldable pub vault_graph : List Text → List (Text × Text) → LouvainGraph
vault_graph ids edges = add_edges (index_ids 0 ids []) edges (new_louvain_graph (length ids))
