-- ===== src/Algo/Single.antt =====
-- `func_to_mgraph` of algo.cpp, the graph with a node for each block, and `gnodemap_t` of util.h.
-- `chart` and `disasm` stand for `get_func_flowchart` and for the text that `get_disasm_text` adds.
pub mod Drawn
use graph_slick.Base.{
  ℕ, suc, Bool, Option, none, some, List, [], ◌∷◌, ◌++◌, length, map, if◌then◌else◌, ℤ, pos, Text,
  codes, show_int,
}
use graph_slick.OrdMap.{Map, find, insert, int_ord}
use graph_slick.Algo.{Block, FlowChart, given_or}
use graph_slick.Algo.Combined.{GNode}

-- `gnodemap_t::add`: the map behind and the entry of the id, a new one only where there was none
abbrev pub entry_or_new : ℤ → Map ℤ GNode → Option GNode → Map ℤ GNode × GNode
entry_or_new nid m (some n) = (m, n)
entry_or_new nid m none =
    let n : GNode = record { id = 0; text = []; hint = [] } in (insert nid n m, n)

unfoldable pub add_gnode : ℤ → Map ℤ GNode → Map ℤ GNode × GNode
add_gnode nid m = entry_or_new nid m (find nid m)

-- `gnodemap_t::get`
unfoldable pub get_gnode : Map ℤ GNode → ℤ → Option GNode
get_gnode m nid = find nid m

-- `mutable_graph_t` and the node map that the caller passes
pub record SingleGraph : Type 0 where
  pub node_count : ℕ
  pub edges : List (ℤ × ℤ)
  pub node_map : Map ℤ GNode

module _ (disasm : ℕ → ℕ → Text) (append_node_id : Bool) where
  -- the text of a block's node
  unfoldable pub block_text : ℤ → Block → Text → Text
  block_text nid b text =
      (if append_node_id then codes "ID(" ++ show_int nid ++ codes ")\n" else text)
      ++ disasm b.start b.end

  -- one round of the loop over the blocks
  unfoldable pub add_block_node : ℤ → Block → SingleGraph → SingleGraph
  unfolding block_text
  add_block_node nid b g =
      let (m, n) = add_gnode nid g.node_map in
      record g {
        node_map = insert nid (record n { text = block_text nid b n.text }) m;
        edges = g.edges ++ map (λ succ. (nid, succ)) b.succs;
      }

  unfoldable pub add_block_nodes : ℕ → FlowChart → SingleGraph → SingleGraph
  unfolding add_block_node
  add_block_nodes n [] g = g
  add_block_nodes n (b ∷ bs) g = add_block_nodes (suc n) bs (add_block_node (pos n) b g)

  abbrev pub graph_of : Option FlowChart → SingleGraph → Option SingleGraph
  graph_of none g = none
  graph_of (some fc) g = some (add_block_nodes 0 fc (record g { node_count = length fc }))

  -- none where the code returns false
  unfoldable pub func_to_mgraph :
      (chart : ℕ → Option FlowChart) → ℕ → SingleGraph → Option FlowChart → Option SingleGraph
  func_to_mgraph chart func_ea g fc = graph_of (given_or fc (chart func_ea)) g
