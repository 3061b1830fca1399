-- ===== src/Tests/Built.antt =====
-- The theorem on building from a nested vector, at a chart of four blocks of which three are mentioned.
use graph_slick.Base.{ℕ, ◌+◌, ◌≡◌, refl, true, [], ◌∷◌, arith, All, List, ℤ, pos}
use graph_slick.Heap.{GroupMan, ok}
use graph_slick.Algo.{Block, FlowChart, build_groupman_from_3dvec}
use graph_slick.Algo.Vectors.{InChart}
use graph_slick.Algo.Built.{Built, build_groupman_from_3dvec-Built}
use graph_slick.Tests.Owned.{
  path_tree, similar_tree, two_lists, two-IsTree, similar-IsTree, two-IsOwned,
}

abbrev block : ℕ → Block
block a = record { start = a; end = a + 10; succs = [] }

abbrev four_blocks : FlowChart
four_blocks = block 100 ∷ block 110 ∷ block 120 ∷ block 130 ∷ []

abbrev vector : List (List (List ℤ))
vector = ((pos 0 ∷ []) ∷ (pos 2 ∷ pos 1 ∷ []) ∷ []) ∷ []

vector-InChart : All (All (All (InChart four_blocks))) vector
vector-InChart = ((((block 100, refl), tt), (((block 120, refl), ((block 110, refl), tt)), tt)), tt)

build_groupman_from_3dvec-Built_example :
    (w' : GroupMan) × (build_groupman_from_3dvec four_blocks vector true two_lists ≡ ok tt w')
    × Built four_blocks vector (path_tree ∷ similar_tree ∷ []) two_lists w'
build_groupman_from_3dvec-Built_example =
    build_groupman_from_3dvec-Built four_blocks vector (path_tree ∷ []) (similar_tree ∷ [])
      two_lists (omega arith) vector-InChart refl refl (two-IsTree, tt) (similar-IsTree, tt)
      two-IsOwned
