-- ===== src/Graph/Levels/Fixtures.antt =====
-- Two triangles with a bridge.
use ragamuffin.Base.{◌+◌, ◌*◌, ◌-◌, ◌&&◌, List, [], ◌∷◌, ltb}
use ragamuffin.Text.{Text, codes, same_text}
use ragamuffin.Text.Maps.{lookup, insert}
use ragamuffin.Graph.{
  LouvainGraph, vault_graph, add_edges, add_current_edge, add_edge, add_neighbour, add_to, add_at,
  index_ids, new_louvain_graph, repeated, dense_labels, dense_from, lookup_label, aggregate,
  aggregate_nodes, aggregate_edges, place_edge, add_loop, at, fold_self_loops, fold_degrees,
  fold_total,
}
use ragamuffin.Graph.Louvain.{
  Gains, set_at, take_at, neighbours_of, weights_to, weight_to, communities_in, put_int, sort_ints,
  is_among, labels_from, gain_of, best_of, best_community, move_node, move_nodes, move_rounds,
  louvain_one_pass,
}
use ragamuffin.Graph.Levels.{
  singletons, append_at, regroup, label_all, label_groups, levels, louvain,
}

unfoldable pub program : Unit {0}
unfolding vault_graph add_edges add_current_edge add_edge add_neighbour add_to add_at index_ids
    new_louvain_graph repeated dense_labels dense_from lookup_label aggregate aggregate_nodes
    aggregate_edges place_edge add_loop at fold_self_loops fold_degrees fold_total lookup insert
    same_text set_at take_at neighbours_of weights_to weight_to communities_in put_int sort_ints
    is_among labels_from gain_of best_of best_community move_node move_nodes move_rounds
    louvain_one_pass singletons append_at regroup label_all label_groups levels louvain
program = tt

-- A gain as the difference of a weight and a quotient, kept apart: with m2 = 14 the comparison of
-- w - t * d / 14 with a bound is that of 14 * w with t * d, and of two gains by their numerators above
-- 10000.
abbrev pub gains : Gains
gains = record {
  float64 = λ w. w;
  plus = λ a b. a;
  minus = λ a b. 14 * a + 10000 - b;
  times = λ a b. a * b;
  over = λ a b. a;
  above = λ a b. ltb b a && ltb 10000 a;
}

abbrev pub ids : List Text
ids = codes "a" ∷ codes "b" ∷ codes "c" ∷ codes "d" ∷ codes "e" ∷ codes "f" ∷ []

abbrev pub edges : List (Text × Text)
edges =
    (codes "a", codes "b")
    ∷ (codes "b", codes "c")
    ∷ (codes "c", codes "a")
    ∷ (codes "d", codes "e")
    ∷ (codes "e", codes "f")
    ∷ (codes "f", codes "d")
    ∷ (codes "c", codes "d")
    ∷ []

abbrev pub graph : LouvainGraph
graph = vault_graph ids edges
