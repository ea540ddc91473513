-- ===== src/Graph/Louvain/Tests.antt =====
-- The totals after two moves, of two triangles with a bridge.
use ragamuffin.Base.{◌≡◌, refl, false, [], ◌∷◌, arith}
use ragamuffin.Graph.Louvain.{Pass, labels_from, move_nodes}
use ragamuffin.Graph.Louvain.Totals.{IsTotal, IsTotal-first, IsTotal-move_nodes}
use ragamuffin.Graph.Levels.Fixtures.{gains, graph, program}

abbrev first : Pass
first = record {
  label = labels_from 0 graph.n;
  comm_tot = graph.degree;
  moved = false;
  improved_any = false;
}

totals : (move_nodes gains graph 0 2 first).comm_tot ≡ 0 ∷ 4 ∷ 3 ∷ 3 ∷ 2 ∷ 2 ∷ []
unfolding program
totals = refl

IsTotal-move_nodes_example : IsTotal graph (move_nodes gains graph 0 2 first)
unfolding program
IsTotal-move_nodes_example =
    IsTotal-move_nodes gains graph 0 2 first (omega arith) (IsTotal-first graph false false refl)
