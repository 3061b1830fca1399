-- ===== src/Tests/Numbering.antt =====
-- The ids of the combined graph at the sample: the first node of a group of two.
use graph_slick.Base.{ℕ, ◌≡◌, refl, false, some, [], ◌∷◌, arith, pos, Text}
use graph_slick.OrdMap.{find, addr_ord, int_ord}
use graph_slick.Heap.{nodeloc, ok}
use graph_slick.Manager.{find_nodeid_loc}
use graph_slick.Algo.{Block, FlowChart}
use graph_slick.Algo.Combined.{Tables, get_groupid}
use graph_slick.Algo.Combined.Labels.{Numbered, Labelled}
use graph_slick.Algo.Combined.Numbering.{Drawable, Gives, get_groupid-Gives}
use graph_slick.Tests.Sample.{sample, node, sg_cell}

abbrev block : Block
block = record { start = 140; end = 150; succs = [] }

abbrev four_blocks : FlowChart
four_blocks = block ∷ block ∷ block ∷ block ∷ []

abbrev no_tables : Tables
no_tables = record { group2id = []; node_map = []; node_count = 0; edges = [] }

abbrev no_text : ℕ → ℕ → Text
no_text a b = []

none-Numbered : Numbered []
unfolding find
none-Numbered = record {
  bounded = λ ng n e. ground (arith, e);
  distinct = λ a b n e f. ground (arith, e);
}

located_1 : find_nodeid_loc sample (pos 1) ≡ some (nodeloc 1 3 6)
unfolding find_nodeid_loc find
located_1 = refl

drawable : Drawable four_blocks sample (nodeloc 1 3 6)
drawable = (
  6 ∷ 7 ∷ [],
  sg_cell,
  refl,
  refl,
  ((node (pos 1) 110, block, refl, refl), ((node (pos 2) 120, block, refl, refl), tt)),
)

get_groupid-Gives_example :
    (n : ℕ) × (t' : Tables) × (get_groupid no_text four_blocks false no_tables (pos 1) sample
      ≡ ok (some n, t') sample)
    × Gives no_text four_blocks false no_tables t' 3 n
    × (false ≡ false
        → Labelled no_text four_blocks sample no_tables
        → Labelled no_text four_blocks sample t')
get_groupid-Gives_example =
    get_groupid-Gives no_text four_blocks false no_tables (pos 1) (nodeloc 1 3 6) sample located_1
      drawable none-Numbered
