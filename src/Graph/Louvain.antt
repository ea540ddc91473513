-- ===== src/Graph/Louvain.antt =====
-- louvain and louvainOnePass of internal/graph/community.go. Weights, degrees and their sums are whole
-- numbers; the gain of a move, which divides, is computed by the parameter `Gains`. The moves of a pass
-- are on fuel, and so are the levels.
pub mod Moves
pub mod Totals
mod Tests
use ragamuffin.Base.{
  ℕ, zero, suc, ◌+◌, ◌-◌, Bool, true, false, ◌||◌, Option, none, some, List, [], ◌∷◌, ltb, ◌==◌,
  if◌then◌else◌,
}
use ragamuffin.Graph.{Neighbours, LouvainGraph, at, add_at, add_to}

-- The operations on float64, by their bits: conversion, +, -, *, / and >.
pub record Gains : Type 0 where
  pub float64 : ℕ → ℕ
  pub plus : ℕ → ℕ → ℕ
  pub minus : ℕ → ℕ → ℕ
  pub times : ℕ → ℕ → ℕ
  pub over : ℕ → ℕ → ℕ
  pub above : ℕ → ℕ → Bool

-- The constant 1e-12
abbrev pub epsilon : ℕ
epsilon = 4427486594234968593

-- xs[i] = x
unfoldable pub set_at : ℕ → ℕ → List ℕ → List ℕ
set_at i x [] = []
set_at zero x (y ∷ ys) = x ∷ ys
set_at (suc i) x (y ∷ ys) = y ∷ set_at i x ys

-- xs[i] -= w; a community has at least the degree of each of its nodes.
unfoldable pub take_at : ℕ → ℕ → List ℕ → List ℕ
unfolding set_at at
take_at i w xs = set_at i (at i xs - w) xs

unfoldable pub neighbours_of : ℕ → List Neighbours → Neighbours
neighbours_of u [] = []
neighbours_of zero (m ∷ ms) = m
neighbours_of (suc u) (m ∷ ms) = neighbours_of u ms

-- wToComm, without the self-loop
unfoldable pub weights_to : List ℕ → Neighbours → Neighbours → Neighbours
weights_to label [] to = to
weights_to label ((v, w) ∷ m) to = weights_to label m (add_to (at v label) w to)

-- wToComm[c]
unfoldable pub weight_to : ℕ → Neighbours → ℕ
weight_to c [] = 0
weight_to c ((d, w) ∷ to) = if d == c then w else weight_to c to

unfoldable pub communities_in : Neighbours → List ℕ
communities_in [] = []
communities_in ((c, w) ∷ to) = c ∷ communities_in to

unfoldable pub put_int : ℕ → List ℕ → List ℕ
put_int c [] = c ∷ []
put_int c (d ∷ ds) = let rest = put_int c ds in if ltb d c then d ∷ rest else c ∷ d ∷ ds

-- sort.Ints
unfoldable pub sort_ints : List ℕ → List ℕ
unfolding put_int
sort_ints [] = []
sort_ints (c ∷ cs) = put_int c (sort_ints cs)

unfoldable pub is_among : ℕ → List ℕ → Bool
is_among c [] = false
is_among c (d ∷ ds) = d == c || is_among c ds

-- The labels, commTot, and whether a node has moved in this round and in any.
pub record Pass : Type 0 where
  pub label : List ℕ
  pub comm_tot : List ℕ
  pub moved : Bool
  pub improved_any : Bool

unfoldable pub labels_from : ℕ → ℕ → List ℕ
labels_from i zero = []
labels_from i (suc n) = i ∷ labels_from (i + 1) n

module _ (gains : Gains) where
  -- gain, of a move into a community of total `tot` by a node of this degree
  unfoldable pub gain_of : ℕ → ℕ → ℕ → ℕ → ℕ
  gain_of weight tot degree m2 =
      gains.minus (gains.float64 weight)
        (gains.over (gains.times (gains.float64 tot) (gains.float64 degree)) (gains.float64 m2))

  -- The loop over the candidates, with the communities seen, the best gain, and its community.
  unfoldable pub best_of : LouvainGraph → ℕ → List ℕ → Neighbours → List ℕ → List ℕ → ℕ → ℕ → ℕ
  unfolding gain_of is_among
  best_of g u tot to seen [] best_gain best = best
  best_of g u tot to seen (c ∷ cs) best_gain best = elim (is_among c seen) [
    | true ↦ best_of g u tot to seen cs best_gain best
    | false ↦
        let gain = gain_of (weight_to c to) (at c tot) (at u g.degree) g.m2 in
        elim (gains.above gain (gains.plus best_gain epsilon)) [
          | true ↦ best_of g u tot to (c ∷ seen) cs gain c
          | false ↦ best_of g u tot to (c ∷ seen) cs best_gain best
        ]
  ]

  -- The community that node u, of community cu, is best in; 0.0 has the bits 0.
  unfoldable pub best_community : LouvainGraph → ℕ → ℕ → List ℕ → List ℕ → ℕ
  unfolding best_of sort_ints communities_in weights_to neighbours_of
  best_community g u cu label tot =
      let to = add_to cu (at u g.self_loop) (weights_to label (neighbours_of u g.adj) []) in
      best_of g u tot to [] (sort_ints (cu ∷ communities_in to)) 0 cu

  -- The body of the loop over the nodes
  unfoldable pub move_node : LouvainGraph → ℕ → Pass → Pass
  unfolding best_community set_at take_at
  move_node g u p =
      let cu = at u p.label in
      let degree = at u g.degree in
      let tot = take_at cu degree p.comm_tot in
      let best = best_community g u cu p.label tot in
      if best == cu then record p { comm_tot = add_at best degree tot } else record {
        label = set_at u best p.label;
        comm_tot = add_at best degree tot;
        moved = true;
        improved_any = true;
      }

  -- The loop, from node u on, over so many nodes
  unfoldable pub move_nodes : LouvainGraph → ℕ → ℕ → Pass → Pass
  move_nodes g u zero p = p
  move_nodes g u (suc k) p = move_nodes g (u + 1) k (move_node g u p)

  -- The rounds of a pass; none is a pass that is not over.
  unfoldable pub move_rounds : LouvainGraph → ℕ → Pass → Option (List ℕ × Bool)
  unfolding move_nodes
  move_rounds g zero p = none
  move_rounds g (suc fuel) p =
      let q = move_nodes g 0 g.n (record p { moved = false }) in
      elim q.moved [ false ↦ some (q.label, q.improved_any) | true ↦ move_rounds g fuel q ]

  -- louvainOnePass
  unfoldable pub louvain_one_pass : ℕ → LouvainGraph → Option (List ℕ × Bool)
  unfolding move_rounds labels_from
  louvain_one_pass fuel g = elim (g.m2 == 0) [
    | true ↦ some (labels_from 0 g.n, false)
    | false ↦ move_rounds g fuel (record {
      label = labels_from 0 g.n;
      comm_tot = g.degree;
      moved = false;
      improved_any = false;
    })
  ]
