-- ===== src/Tests/Sanitized.antt =====
-- `sanitize_groupman` at the sample and a chart with one block more than the sample has nodes.
use graph_slick.Base.{◌≡◌, true, none, some, [], ◌∷◌, arith}
use graph_slick.OrdMap.{int_ord}
use graph_slick.Heap.{GroupMan, ok}
use graph_slick.Algo.{Block, FlowChart, sanitize_groupman}
use graph_slick.Algo.Orphans.{missing}
use graph_slick.Algo.Sanitized.{Sanitized, sanitize_groupman-Sanitized}
use graph_slick.Tests.Sample.{sample}

abbrev block : Block
block = record { start = 140; end = 150; succs = [] }

abbrev five_blocks : FlowChart
five_blocks = block ∷ block ∷ block ∷ block ∷ block ∷ []

sanitize_groupman-Sanitized_example :
    (w' : GroupMan) × (sanitize_groupman (λ _. none) 100 (some five_blocks) sample ≡ ok true w')
    × Sanitized sample w' (missing sample.all_nodes 0 five_blocks)
sanitize_groupman-Sanitized_example =
    sanitize_groupman-Sanitized (λ _. none) 100 five_blocks sample (omega arith)
