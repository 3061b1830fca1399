-- ===== src/Tests/Drawn.antt =====
-- `func_to_mgraph` at a chart of two blocks.
use graph_slick.Base.{ℕ, ◌≡◌, refl, true, none, some, [], ◌∷◌, ◌++◌, length, get_elem?, pos, Text}
use graph_slick.OrdMap.{find, int_ord}
use graph_slick.Algo.{Block, FlowChart}
use graph_slick.Algo.Single.{SingleGraph, func_to_mgraph}
use graph_slick.Algo.Single.Drawn.{chart_edges, drawn, func_to_mgraph-drawn}

abbrev pub two_blocks : FlowChart
two_blocks =
    record { start = 100; end = 110; succs = pos 1 ∷ pos 0 ∷ [] }
    ∷ record { start = 110; end = 120; succs = [] }
    ∷ []

abbrev pub addresses : ℕ → ℕ → Text
addresses a b = a ∷ b ∷ []

abbrev no_graph : SingleGraph
no_graph = record { node_count = 0; edges = []; node_map = [] }

func_to_mgraph-drawn_example :
    (g' : SingleGraph) × (func_to_mgraph addresses true (λ _. none) 100 no_graph (some two_blocks)
      ≡ some g')
    × (g'.node_count ≡ length two_blocks)
    × (g'.edges ≡ [] ++ chart_edges 0 two_blocks)
    × ((n : ℕ) (b : Block)
        → get_elem? two_blocks n ≡ some b
        → find (pos n) g'.node_map ≡ some (drawn addresses true n b))
func_to_mgraph-drawn_example =
    func_to_mgraph-drawn addresses true (λ _. none) 100 two_blocks no_graph refl
