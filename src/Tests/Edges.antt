-- ===== src/Tests/Edges.antt =====
-- The combined graph of the sample: a loop through its groups, with one edge inside a group.
use graph_slick.Base.{ℕ, ◌≡◌, refl, true, false, List, [], ◌∷◌, ℤ, pos, Text}
use graph_slick.OrdMap.{find, int_ord}
use graph_slick.Heap.{nodeloc, ok}
use graph_slick.Manager.{find_nodeid_loc}
use graph_slick.Algo.{Block, FlowChart}
use graph_slick.Algo.Combined.{Tables, build}
use graph_slick.Algo.Combined.Drawing.{Ready, AllReady, IsCombined}
use graph_slick.Algo.Combined.Edges.{build-Draws}
use graph_slick.Tests.Sample.{sample, node, sg_cell}

abbrev block : List ℤ → Block
block succs = record { start = 140; end = 150; succs = succs }

abbrev pub looping : FlowChart
looping = block (pos 1 ∷ []) ∷ block (pos 2 ∷ pos 3 ∷ []) ∷ block (pos 0 ∷ []) ∷ block [] ∷ []

abbrev no_tables : Tables
no_tables = record { group2id = []; node_map = []; node_count = 0; edges = [] }

abbrev pub no_text : ℕ → ℕ → Text
no_text a b = []

Ready-0 : Ready looping sample (pos 0)
unfolding find_nodeid_loc find
Ready-0 =
    (nodeloc 1 2 5, refl, (5 ∷ [], sg_cell, refl, refl, ((node (pos 0) 100, _, refl, refl), tt)))

Ready-1 : Ready looping sample (pos 1)
unfolding find_nodeid_loc find
Ready-1 = (
  nodeloc 1 3 6,
  refl,
  (
    6 ∷ 7 ∷ [],
    sg_cell,
    refl,
    refl,
    ((node (pos 1) 110, _, refl, refl), ((node (pos 2) 120, _, refl, refl), tt)),
  ),
)

Ready-2 : Ready looping sample (pos 2)
unfolding find_nodeid_loc find
Ready-2 = (
  nodeloc 1 3 7,
  refl,
  (
    6 ∷ 7 ∷ [],
    sg_cell,
    refl,
    refl,
    ((node (pos 1) 110, _, refl, refl), ((node (pos 2) 120, _, refl, refl), tt)),
  ),
)

Ready-3 : Ready looping sample (pos 3)
unfolding find_nodeid_loc find
Ready-3 =
    (nodeloc 1 4 8, refl, (8 ∷ [], sg_cell, refl, refl, ((node (pos 3) 130, _, refl, refl), tt)))

pub looping-AllReady : AllReady looping sample 0 looping
looping-AllReady = (
  Ready-0,
  (Ready-1, tt),
  (Ready-1, (Ready-2, (Ready-3, tt)), (Ready-2, (Ready-0, tt), (Ready-3, tt, tt))),
)

build-Draws_example :
    (t' : Tables) × (build no_text looping false no_tables sample ≡ ok (true, t') sample)
    × IsCombined no_text looping false sample no_tables t'
build-Draws_example =
    build-Draws no_text looping false no_tables sample ((sg_cell, refl), tt) looping-AllReady refl
