-- ===== src/Graph/Levels/Tests.antt =====
-- louvain finds the two triangles.
use ragamuffin.Base.{◌≡◌, refl, [], ◌∷◌}
use ragamuffin.Graph.{vault_graph}
use ragamuffin.Graph.Levels.{found, louvain}
use ragamuffin.Graph.Levels.Ends.{Ended, Ended-louvain_vault}
use ragamuffin.Graph.Levels.Fixtures.{gains, ids, edges, program}

two_triangles : louvain gains 4 7 (vault_graph ids edges) ≡ found (0 ∷ 0 ∷ 0 ∷ 1 ∷ 1 ∷ 1 ∷ [])
unfolding program
two_triangles = refl

Ended-louvain_vault_example : Ended 6 (louvain gains 4 7 (vault_graph ids edges))
Ended-louvain_vault_example = Ended-louvain_vault gains 4 ids edges
