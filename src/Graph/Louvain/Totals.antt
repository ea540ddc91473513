-- ===== src/Graph/Louvain/Totals.antt =====
-- What commTot of louvainOnePass holds while nodes move.
use ragamuffin.Base.{
  ℕ, zero, suc, ◌+◌, ◌-◌, ◌<◌, ◌≤◌, ◌≡◌, refl, sym, ap, ◌∙◌, Bool, true, false, List, [], ◌∷◌,
  arith, length, ◌==◌, if◌then◌else◌, Bool-cases, inl, inr,
}
use ragamuffin.Graph.{LouvainGraph, at, add_at}
use ragamuffin.Graph.Sums.{length-add_at}
use ragamuffin.Graph.Louvain.Moves.{length-set_at, length-labels_from}
use ragamuffin.Graph.Louvain.{
  Gains, set_at, take_at, labels_from, Pass, best_community, move_node, move_nodes,
}

-- The degrees of the nodes of a community, together
unfoldable pub tot_of : ℕ → List ℕ → List ℕ → ℕ
tot_of c [] ds = 0
tot_of c (l ∷ ls) [] = 0
tot_of c (l ∷ ls) (d ∷ ds) = (if l == c then d else 0) + tot_of c ls ds

tot_of-set_at :
    (c u x : ℕ) (ls ds : List ℕ)
    → u < length ls
    → tot_of c (set_at u x ls) ds + (if at u ls == c then at u ds else 0)
      ≡ tot_of c ls ds + (if x == c then at u ds else 0)
unfolding tot_of set_at at
tot_of-set_at c u x [] ds b = absurd (omega arith)
tot_of-set_at c zero x (l ∷ ls) [] b = ground arith
tot_of-set_at c (suc u) x (l ∷ ls) [] b = ground arith
tot_of-set_at c zero x (l ∷ ls) (d ∷ ds) b = ground arith
tot_of-set_at c (suc u) x (l ∷ ls) (d ∷ ds) b =
    let h = tot_of-set_at c u x ls ds (omega arith) in omega arith

at-tot_of : (u : ℕ) (ls ds : List ℕ) → u < length ls → at u ds ≤ tot_of (at u ls) ls ds
unfolding tot_of at
at-tot_of u [] ds b = absurd (omega arith)
at-tot_of zero (l ∷ ls) [] b = omega arith
at-tot_of (suc u) (l ∷ ls) [] b = omega arith
at-tot_of zero (l ∷ ls) (d ∷ ds) b = ground arith
at-tot_of (suc u) (l ∷ ls) (d ∷ ds) b = let h = at-tot_of u ls ds (omega arith) in omega arith

at-set_at :
    (i j x : ℕ) (xs : List ℕ)
    → j < length xs
    → at j (set_at i x xs) ≡ (if i == j then x else at j xs)
unfolding at set_at
at-set_at i j x [] b = absurd (omega arith)
at-set_at zero zero x (y ∷ ys) b = refl
at-set_at zero (suc j) x (y ∷ ys) b = ground arith
at-set_at (suc i) zero x (y ∷ ys) b = ground arith
at-set_at (suc i) (suc j) x (y ∷ ys) b = ground (arith, at-set_at i j x ys (omega arith))

at-add_at :
    (i j w : ℕ) (xs : List ℕ)
    → j < length xs
    → at j (add_at i w xs) ≡ (if i == j then at j xs + w else at j xs)
unfolding at add_at
at-add_at i j w [] b = absurd (omega arith)
at-add_at zero zero w (y ∷ ys) b = refl
at-add_at zero (suc j) w (y ∷ ys) b = ground arith
at-add_at (suc i) zero w (y ∷ ys) b = ground arith
at-add_at (suc i) (suc j) w (y ∷ ys) b = ground (arith, at-add_at i j w ys (omega arith))

-- A move of node u, of degree d, between two communities
at-moved :
    (c u best : ℕ) (ls ds tot : List ℕ)
    → u < length ls
    → c < length tot
    → ((b : ℕ) → b < length tot → at b tot ≡ tot_of b ls ds)
    → at c (add_at best (at u ds) (take_at (at u ls) (at u ds) tot))
      ≡ tot_of c (set_at u best ls) ds
unfolding take_at
at-moved c u best ls ds tot b h inv =
    let cu = at u ls in
    let d = at u ds in
    let taken = set_at cu (at cu tot - d) tot in
    let size = length-set_at cu (at cu tot - d) tot in
    let added = at-add_at best c d taken (ground (arith, size, h)) in
    let left = at-set_at cu c (at cu tot - d) tot h in
    let moved = tot_of-set_at c u best ls ds b in
    let within = at-tot_of u ls ds b in
    let here = inv c h in
    elim (Bool-cases (cu == c)) [
      | inl e ↦
          let same : cu ≡ c = ground (arith, e) in
          let t : at cu tot ≡ tot_of cu ls ds =
            ap (λ x. at x tot) same ∙ here ∙ ap (λ x. tot_of x ls ds) (sym same) in
          let stays : d ≤ at c tot = ground (arith, within, t, here, same) in
          elim (Bool-cases (best == c)) [
            | inl f ↦ ground (arith, added, left, moved, stays, t, here, same, e, f)
            | inr f ↦ ground (arith, added, left, moved, stays, t, here, same, e, f)
          ]
      | inr e ↦ elim (Bool-cases (best == c)) [
        | inl f ↦ ground (arith, added, left, moved, here, e, f)
        | inr f ↦ ground (arith, added, left, moved, here, e, f)
      ]
    ]

set_at_self : (i : ℕ) (xs : List ℕ) → set_at i (at i xs) xs ≡ xs
unfolding set_at at
set_at_self i [] = refl
set_at_self zero (x ∷ xs) = refl
set_at_self (suc i) (x ∷ xs) = ap (λ ys. x ∷ ys) (set_at_self i xs)

-- Each node has a label, and commTot has for each community the degrees of its nodes.
pub record IsTotal (g : LouvainGraph) (p : Pass) : Type 0 where
  pub labelled : length p.label ≡ g.n
  pub totals : (c : ℕ) → c < length p.comm_tot → at c p.comm_tot ≡ tot_of c p.label g.degree

IsTotal-moved :
    (g : LouvainGraph) (u best : ℕ) (p : Pass) (labels : List ℕ) (moved improved : Bool)
    → u < g.n
    → IsTotal g p
    → labels ≡ set_at u best p.label
    → IsTotal g (record {
      label = labels;
      comm_tot = add_at best (at u g.degree) (take_at (at u p.label) (at u g.degree) p.comm_tot);
      moved = moved;
      improved_any = improved;
    })
unfolding take_at
IsTotal-moved g u best p labels moved improved b h same =
    let cu = at u p.label in
    let d = at u g.degree in
    let size =
      length-add_at best d (take_at cu d p.comm_tot)
      ∙ length-set_at cu (at cu p.comm_tot - d) p.comm_tot in
    record {
      labelled = ap length same ∙ length-set_at u best p.label ∙ h.labelled;
      totals = λ c k.
          at-moved c u best p.label g.degree p.comm_tot (ground (arith, b, h.labelled))
            (ground (arith, k, size)) h.totals
          ∙ ap (λ ls. tot_of c ls g.degree) (sym same);
    }

module _ (gains : Gains) where
  IsTotal-move_node :
      (g : LouvainGraph) (u : ℕ) (p : Pass)
      → u < g.n
      → IsTotal g p
      → IsTotal g (move_node gains g u p)
  unfolding move_node
  IsTotal-move_node g u p b h =
      let cu = at u p.label in
      let best = best_community gains g u cu p.label (take_at cu (at u g.degree) p.comm_tot) in
      elim (Bool-cases (best == cu)) [
        | inr e ↦
            rw (e, move_node) (IsTotal-moved g u best p (set_at u best p.label) true true b h refl)
        | inl e ↦
            let same : best ≡ cu = ground (arith, e) in
            rw (e, move_node)
              (IsTotal-moved g u best p p.label p.moved p.improved_any b h
                (sym (set_at_self u p.label) ∙ ap (λ x. set_at u x p.label) (sym same)))
      ]

  -- From any node on, however many nodes of the graph are looked at, and whatever gains are found,
  -- commTot holds for each community the sum of the degrees of its nodes, if it did before and every node
  -- has a label.
  pub IsTotal-move_nodes :
      (g : LouvainGraph) (u k : ℕ) (p : Pass)
      → u + k ≤ g.n
      → IsTotal g p
      → IsTotal g (move_nodes gains g u k p)
  unfolding move_nodes
  IsTotal-move_nodes g u zero p b h = h
  IsTotal-move_nodes g u (suc k) p b h =
      IsTotal-move_nodes g (u + 1) k (move_node gains g u p) (omega arith)
        (IsTotal-move_node g u p (omega arith) h)

-- At the start of a pass every node is a community of its own.
tot_of-apart : (c i : ℕ) (ds : List ℕ) → c < i → tot_of c (labels_from i (length ds)) ds ≡ 0
unfolding tot_of labels_from
tot_of-apart c i [] b = refl
tot_of-apart c i (d ∷ ds) b = ground (arith, tot_of-apart c (i + 1) ds (omega arith), b)

tot_of-labels_from :
    (j c i : ℕ) (ds : List ℕ)
    → j ≡ i + c
    → c < length ds
    → tot_of j (labels_from i (length ds)) ds ≡ at c ds
unfolding tot_of labels_from at
tot_of-labels_from j c i [] e b = absurd (omega arith)
tot_of-labels_from j zero i (d ∷ ds) e b =
    let apart = tot_of-apart j (i + 1) ds (omega arith) in
    let own : i == j ≡ true = ground (arith, e) in ground (arith, apart, own)
tot_of-labels_from j (suc c) i (d ∷ ds) e b =
    let rest = tot_of-labels_from j c (i + 1) ds (omega arith) (omega arith) in
    let other : i == j ≡ false = ground (arith, e) in ground (arith, rest, other)

pub IsTotal-first :
    (g : LouvainGraph) (moved improved : Bool)
    → length g.degree ≡ g.n
    → IsTotal g (record {
      label = labels_from 0 g.n;
      comm_tot = g.degree;
      moved = moved;
      improved_any = improved;
    })
IsTotal-first g moved improved h = record {
  labelled = length-labels_from 0 g.n;
  totals = λ c b.
      sym (tot_of-labels_from c c 0 g.degree (omega arith) b)
      ∙ ap (λ n. tot_of c (labels_from 0 n) g.degree) h;
}
