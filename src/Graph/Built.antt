-- ===== src/Graph/Built.antt =====
-- The graph of a vault, and one level of its communities.
use ragamuffin.Base.{
  ℕ, zero, suc, ◌+◌, ◌<◌, ◌≤◌, ◌≡◌, refl, some, List, [], ◌∷◌, arith, length, ltb, Bool-cases,
  Option-cases, inl, inr,
}
use ragamuffin.Text.{Text, same_text}
use ragamuffin.Text.Maps.{lookup, insert, lookup-insert}
use ragamuffin.Graph.{
  LouvainGraph, new_louvain_graph, at, index_ids, add_current_edge, add_edges, vault_graph,
  dense_labels, aggregate,
}
use ragamuffin.Graph.Weights.{IsWeighted, IsWeighted-add_edge, IsWeighted-new_louvain_graph}
use ragamuffin.Graph.Aggregate.{IsWeighted-aggregate}
use ragamuffin.Graph.Dense.{dense_labels_iff}

-- The numbers of an index are below n.
IsBelow : ℕ → List (Text × ℕ) → Type 0
IsBelow n idx = (id : Text) (u : ℕ) → lookup id idx ≡ some u → u < n

IsBelow-nil : (n : ℕ) → IsBelow n []
unfolding IsBelow lookup
IsBelow-nil n id u e = absurd (ground (arith, e))

IsBelow-insert :
    (n i : ℕ) (id : Text) (idx : List (Text × ℕ))
    → i < n
    → IsBelow n idx
    → IsBelow n (insert id i idx)
unfolding IsBelow
IsBelow-insert n i id idx b h j u e = elim (Bool-cases (same_text id j)) [
  | inl f ↦ ground (arith, e, f, lookup-insert id j i idx, b)
  | inr f ↦ h j u (ground (arith, e, f, lookup-insert id j i idx))
]

IsBelow-index_ids :
    (n i : ℕ) (ids : List Text) (idx : List (Text × ℕ))
    → i + length ids ≤ n
    → IsBelow n idx
    → IsBelow n (index_ids i ids idx)
unfolding index_ids
IsBelow-index_ids n i [] idx b h = h
IsBelow-index_ids n i (id ∷ ids) idx b h =
    IsBelow-index_ids n (i + 1) ids (insert id i idx) (omega arith)
      (IsBelow-insert n i id idx (omega arith) h)

IsWeighted-add_current_edge :
    (n : ℕ) (idx : List (Text × ℕ)) (e : Text × Text) (g : LouvainGraph)
    → IsBelow n idx
    → IsWeighted n g
    → IsWeighted n (add_current_edge idx e g)
unfolding add_current_edge IsBelow
IsWeighted-add_current_edge n idx (source, target) g b h = elim (Option-cases (lookup source idx)) [
  | inl e ↦ rw (e, add_current_edge) h
  | inr (u, e) ↦ elim (Option-cases (lookup target idx)) [
    | inl f ↦ rw (e, add_current_edge) (rw (f, add_current_edge) h)
    | inr (v, f) ↦
        rw (e, add_current_edge)
          (rw (f, add_current_edge) (IsWeighted-add_edge n g u v 1 h (b source u e) (b target v f)))
  ]
]

IsWeighted-add_edges :
    (n : ℕ) (idx : List (Text × ℕ)) (es : List (Text × Text)) (g : LouvainGraph)
    → IsBelow n idx
    → IsWeighted n g
    → IsWeighted n (add_edges idx es g)
unfolding add_edges
IsWeighted-add_edges n idx [] g b h = h
IsWeighted-add_edges n idx (e ∷ es) g b h =
    IsWeighted-add_edges n idx es (add_current_edge idx e g) b
      (IsWeighted-add_current_edge n idx e g b h)

-- The graph of a vault: its total is twice the weight of its edges, and the sum of its degrees,
-- whatever edges the vault has.
pub IsWeighted-vault_graph :
    (ids : List Text) (edges : List (Text × Text)) → IsWeighted (length ids) (vault_graph ids edges)
unfolding vault_graph
IsWeighted-vault_graph ids edges =
    IsWeighted-add_edges (length ids) (index_ids 0 ids []) edges (new_louvain_graph (length ids))
      (IsBelow-index_ids (length ids) 0 ids [] (omega arith) (IsBelow-nil (length ids)))
      (IsWeighted-new_louvain_graph (length ids))

at_behind : (i : ℕ) (xs : List ℕ) → length xs ≤ i → at i xs ≡ 0
unfolding at
at_behind i [] h = refl
at_behind zero (x ∷ xs) h = absurd (omega arith)
at_behind (suc i) (x ∷ xs) h = at_behind i xs (omega arith)

-- Every number of the dense labels is below their count, that of a node out of range too.
below-dense_labels :
    (labels : List ℕ) (v : ℕ)
    → 0 < length labels
    → let (dense, k) = dense_labels labels in at v dense < k
below-dense_labels labels v some_label =
    let (dense, k) = dense_labels labels in
    let (same, first, size) = dense_labels_iff labels 0 0 some_label some_label in
    elim (Bool-cases (ltb v (length labels))) [
      | inl e ↦
          let (same_v, below, size_v) =
            dense_labels_iff labels v v (ground (arith, e)) (ground (arith, e)) in
          below
      | inr e ↦ let zero_at = at_behind v dense (ground (arith, e, size)) in omega arith
    ]

-- One level of the communities of a graph: with the nodes grouped by the dense form of any labels,
-- of at least one node, aggregation keeps the total weight, and in the new graph, which has a node for
-- every label, the total is again twice the weight of the edges and the sum of the degrees.
pub IsWeighted-aggregate_dense :
    (n : ℕ) (g : LouvainGraph) (labels : List ℕ)
    → IsWeighted n g
    → 0 < length labels
    → let (dense, k) = dense_labels labels in
      IsWeighted k (aggregate g dense k) × ((aggregate g dense k).m2 ≡ g.m2)
IsWeighted-aggregate_dense n g labels h some_label =
    let (dense, k) = dense_labels labels in
    IsWeighted-aggregate n k g dense h (λ v. below-dense_labels labels v some_label)
