-- ===== src/Graph/Levels/Ends.antt =====
-- The levels of louvain come to an end, one more than there are nodes being enough.
use ragamuffin.Base.{
  ℕ, zero, suc, ◌+◌, ◌<◌, ◌≤◌, ◌≡◌, refl, sym, ap, ◌∙◌, Bool, true, false, some, List, [], ◌∷◌,
  arith, length, ◌==◌, Bool-cases, Option-cases, inl, inr, ◌⊎◌,
}
use ragamuffin.Text.{Text}
use ragamuffin.Graph.{
  LouvainGraph, repeated, lookup_label, dense_from, dense_labels, aggregate, vault_graph,
}
use ragamuffin.Graph.Weights.{IsWeighted}
use ragamuffin.Graph.Built.{IsWeighted-aggregate_dense, IsWeighted-vault_graph}
use ragamuffin.Graph.Louvain.{
  Gains, set_at, labels_from, Pass, move_nodes, move_rounds, louvain_one_pass,
}
use ragamuffin.Graph.Louvain.Moves.{length-set_at, length-labels_from, length-move_nodes}
use ragamuffin.Graph.Levels.{
  singletons, regroup, label_all, label_groups, Communities, pass_not_over, found, levels, louvain,
}

length-label_all : (c : ℕ) (origs comm : List ℕ) → length (label_all c origs comm) ≡ length comm
unfolding label_all
length-label_all c [] comm = refl
length-label_all c (o ∷ os) comm = length-label_all c os (set_at o c comm) ∙ length-set_at o c comm

length-label_groups :
    (c : ℕ) (groups : List (List ℕ)) (comm : List ℕ)
    → length (label_groups c groups comm) ≡ length comm
unfolding label_groups
length-label_groups c [] comm = refl
length-label_groups c (os ∷ groups) comm =
    length-label_groups (c + 1) groups (label_all c os comm) ∙ length-label_all c os comm

-- There are no more numbers than labels.
count-dense_from :
    (r : List (ℕ × ℕ)) (next : ℕ) (labels : List ℕ)
    → (dense_from r next labels).1 ≤ next + length labels
unfolding dense_from
count-dense_from r next [] = omega arith
count-dense_from r next (l ∷ labels) = elim (Option-cases (lookup_label l r)) [
  | inr (d, e) ↦ rw (e, dense_from) (let h = count-dense_from r next labels in omega arith)
  | inl e ↦
      rw (e, dense_from) (let h = count-dense_from ((l, next) ∷ r) (next + 1) labels in omega arith)
]

count-dense_labels : (labels : List ℕ) → (dense_labels labels).1 ≤ length labels
unfolding dense_labels
count-dense_labels labels = let h = count-dense_from [] 0 labels in omega arith

-- The levels have ended before their fuel did, unless a pass was not over; each node has a label.
abbrev pub Ended : ℕ → Communities → Type 0
Ended n c = (c ≡ pass_not_over) ⊎ ((comm : List ℕ) × (c ≡ found comm) × (length comm ≡ n))

Ended-resized : (m n : ℕ) (c : Communities) → m ≡ n → Ended m c → Ended n c
Ended-resized m n c e (inl over) = inl over
Ended-resized m n c e (inr (comm, done, size)) = inr (comm, done, size ∙ e)

module _ (gains : Gains) where
  length-move_rounds :
      (g : LouvainGraph) (fuel : ℕ) (p : Pass) (labels : List ℕ) (improved : Bool)
      → move_rounds gains g fuel p ≡ some (labels, improved)
      → length labels ≡ length p.label
  unfolding move_rounds
  length-move_rounds g zero p labels improved h = absurd (ground (arith, h))
  length-move_rounds g (suc fuel) p labels improved h =
      let q = move_nodes gains g 0 g.n (record p { moved = false }) in
      let kept = length-move_nodes gains g 0 g.n (record p { moved = false }) in
      elim (Bool-cases q.moved) [
        | inr e ↦ let same : q.label ≡ labels = ground (arith, h, e) in ap length (sym same) ∙ kept
        | inl e ↦ length-move_rounds g fuel q labels improved (ground (arith, h, e)) ∙ kept
      ]

  -- A pass gives every node a label.
  length-louvain_one_pass :
      (fuel : ℕ) (g : LouvainGraph) (labels : List ℕ) (improved : Bool)
      → louvain_one_pass gains fuel g ≡ some (labels, improved)
      → length labels ≡ g.n
  unfolding louvain_one_pass
  length-louvain_one_pass fuel g labels improved h = elim (Bool-cases (g.m2 == 0)) [
    | inl e ↦
        let same : labels_from 0 g.n ≡ labels = ground (arith, h, e) in
        ap length (sym same) ∙ length-labels_from 0 g.n
    | inr e ↦
        length-move_rounds g fuel
          (record {
            label = labels_from 0 g.n;
            comm_tot = g.degree;
            moved = false;
            improved_any = false;
          })
          labels improved (ground (arith, h, e))
        ∙ length-labels_from 0 g.n
  ]

  Ended-levels :
      (rounds fuel n : ℕ) (cur : LouvainGraph) (groups : List (List ℕ)) (comm : List ℕ)
      → IsWeighted n cur
      → n < fuel
      → Ended (length comm) (levels gains rounds fuel cur groups comm)
  unfolding levels
  Ended-levels rounds zero n cur groups comm w b = absurd (omega arith)
  Ended-levels rounds (suc fuel) n cur groups comm w b =
      elim (Option-cases (louvain_one_pass gains rounds cur)) [
        | inl e ↦ inl (ground (arith, e))
        | inr ((labels, false), e) ↦ inr (comm, ground (arith, e), refl)
        | inr ((labels, true), e) ↦
            let (dense, k) = dense_labels labels in
            let new = regroup dense groups (repeated k []) in
            let relabelled = label_groups 0 new comm in
            let sized = length-louvain_one_pass rounds cur labels true e in
            let kept = length-label_groups 0 new comm in
            elim (Bool-cases (k == cur.n)) [
              | inl f ↦ inr (relabelled, rw (e, levels) (rw (f, levels) refl), kept)
              | inr f ↦
                  let at_most = count-dense_labels labels in
                  let fewer : k < n = ground (arith, at_most, sized, w.sized.nodes, f) in
                  let some_label : 0 < length labels =
                    ground (arith, fewer, sized, w.sized.nodes) in
                  let (smaller, weight) = IsWeighted-aggregate_dense n cur labels w some_label in
                  let rest =
                    Ended-levels rounds fuel k (aggregate cur dense k) new relabelled smaller
                      (omega arith) in
                  rw (e, levels) (rw (f, levels) (rw (sym kept) rest))
            ]
      ]

  -- One level more than there are nodes is enough.
  Ended-louvain :
      (rounds n : ℕ) (g : LouvainGraph) → IsWeighted n g → Ended n (louvain gains rounds (suc n) g)
  unfolding louvain
  Ended-louvain rounds n g w =
      let size : length (labels_from 0 g.n) ≡ n = length-labels_from 0 g.n ∙ w.sized.nodes in
      let ended =
        Ended-levels rounds (suc n) n g (singletons 0 g.n) (labels_from 0 g.n) w (omega arith) in
      Ended-resized (length (labels_from 0 g.n)) n _ size ended

  -- With one level more than the vault has entities, louvain does not run out of levels on the graph of
  -- a vault: unless a pass is not over in its rounds, it ends and gives every entity a community.
  pub Ended-louvain_vault :
      (rounds : ℕ) (ids : List Text) (edges : List (Text × Text))
      → Ended (length ids) (louvain gains rounds (suc (length ids)) (vault_graph ids edges))
  Ended-louvain_vault rounds ids edges =
      Ended-louvain rounds (length ids) (vault_graph ids edges) (IsWeighted-vault_graph ids edges)
