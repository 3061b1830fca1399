-- ===== src/Algo.antt =====
-- algo.hpp and algo.cpp: building a manager from a flowchart, completing it with the nodes that it
-- misses, and the combined graph. IDA's flowchart is its list of basic blocks; IDA's function
-- lookup with the flowchart's creation (`chart`) and its disassembler (`disasm`) are parameters.
pub mod Combined
pub mod Single
pub mod Orphans
pub mod Sanitized
pub mod Vectors
pub mod Groupings
pub mod Unmentioned
pub mod Built
use graph_slick.Base.{
  ℕ, zero, suc, ◌+◌, Bool, true, false, Option, none, some, List, [], ◌∷◌, ◌++◌, ◌==◌, length,
  get_elem?, if◌then◌else◌, ℤ, pos, negsuc, Text, codes, show_int,
}
use graph_slick.OrdMap.{find, int_ord}
use graph_slick.Heap.{
  Addr, null, GroupMan, Cmd, pure, ◌>>=◌, ◌>>◌, get, modify, deref, load_nd, load_sg, store_nd,
  store_sg, new_nd, new_sg,
}
use graph_slick.Groups.{add_node, add_nodegroup, gcount, delete_sg}
use graph_slick.Manager.{path, clear, map_nodedef, initialize_lookups, add_supergroup}

-- `qbasic_block_t`, with the successors of the block
pub record Block : Type 0 where
  pub start : ℕ
  pub end : ℕ
  pub succs : List ℤ

abbrev pub FlowChart : Type 0
FlowChart = List Block

-- `fc->blocks[nid]`, out of range without a test
abbrev pub block_at : FlowChart → ℤ → Option Block
block_at fc (pos n) = get_elem? fc n
block_at fc (negsuc n) = none

-- a new node of a group, with its fields set
unfoldable pub add_block : Addr → ℤ → Block → Cmd Addr
add_block ng nid b = do
  nd ← add_node ng null
  store_nd nd (record { nid = nid; start = b.start; end = b.end })
  pure nd

-- a new super group at the end of the path list, with the texts of a number
unfoldable pub add_numbered_sg : ℤ → Cmd Addr
add_numbered_sg n = do
  sg ← add_supergroup path null
  s ← load_sg sg
  store_sg sg (record s {
    id = codes "ID_" ++ show_int n;
    name = codes "SG_" ++ show_int n;
    is_synthetic = false;
  })
  pure sg

-- one node that the manager does not know, in a group of its own
unfoldable pub add_orphan : Addr → ℕ → Block → Cmd (Unit {0})
add_orphan sg n b = do
  nd ← new_nd
  store_nd nd (record { nid = pos n; start = b.start; end = b.end })
  ng ← add_nodegroup sg null
  add_node ng nd
  pure tt

-- the loop of `sanitize_groupman` over the blocks, from number `n` on
unfoldable pub add_missing : Addr → ℕ → FlowChart → Cmd (Unit {0})
add_missing sg n [] = pure tt
add_missing sg n (b ∷ bs) = do
  w ← get
  elim (find (pos n) w.all_nodes) [ some _ ↦ pure tt | none ↦ add_orphan sg n b ]
  add_missing sg (suc n) bs

-- the end of `sanitize_groupman`: the super group of the missing nodes is kept if it has a group
unfoldable pub keep_orphans : Addr → Cmd (Unit {0})
keep_orphans sg = do
  count ← gcount sg
  if count == 0 then delete_sg sg else (do
    s ← load_sg sg
    store_sg sg
        (record s { id = codes "orphan_nodes"; name = codes "orphan_nodes"; is_synthetic = true })
    add_supergroup path sg
    pure tt)

unfoldable pub sanitize_chart : FlowChart → Cmd Bool
sanitize_chart fc = do sg ← new_sg; add_missing sg 0 fc; keep_orphans sg; pure true

abbrev pub sanitize_given : Option FlowChart → Cmd Bool
sanitize_given none = pure false
sanitize_given (some fc) = sanitize_chart fc

abbrev pub given_or : Option FlowChart → Option FlowChart → Option FlowChart
given_or (some fc) other = some fc
given_or none other = other

-- `sanitize_groupman`; without a flowchart it asks for the one of the function
unfoldable pub sanitize_groupman : (chart : ℕ → Option FlowChart) → ℕ → Option FlowChart → Cmd Bool
sanitize_groupman chart ea fc = sanitize_given (given_or fc (chart ea))

-- the last lines of both builders: only a sanitized manager gets its lookups
unfoldable pub finish_build : Bool → FlowChart → Cmd (Unit {0})
finish_build false fc = pure tt
finish_build true fc = do done ← sanitize_chart fc; if done then initialize_lookups else pure tt

abbrev pub noname : Text
noname = codes "noname.bbgroup"

-- the loop of `build_groupman_from_fc`
unfoldable pub build_blocks : ℕ → FlowChart → Cmd (Unit {0})
build_blocks n [] = pure tt
build_blocks n (b ∷ bs) = do
  sg ← add_numbered_sg (pos n)
  ng ← add_nodegroup sg null
  nd ← add_block ng (pos n) b
  map_nodedef (pos n) nd
  build_blocks (suc n) bs

unfoldable pub build_groupman_from_fc : FlowChart → Bool → Cmd (Unit {0})
build_groupman_from_fc fc sanitize = do
  clear
  modify (λ w. record w { src_filename = noname })
  build_blocks 0 fc
  finish_build sanitize fc

-- the three loops of `build_groupman_from_3dvec`
unfoldable pub build_nodes : FlowChart → Addr → List ℤ → Cmd (Unit {0})
build_nodes fc ng [] = pure tt
build_nodes fc ng (nid ∷ nids) = do
  b ← deref (block_at fc nid)
  nd ← add_block ng nid b
  map_nodedef nid nd
  build_nodes fc ng nids

unfoldable pub build_groups : FlowChart → Addr → List (List ℤ) → Cmd (Unit {0})
build_groups fc sg [] = pure tt
build_groups fc sg (nids ∷ more) = do
  ng ← add_nodegroup sg null
  build_nodes fc ng nids
  build_groups fc sg more

unfoldable pub build_sgs : FlowChart → ℕ → List (List (List ℤ)) → Cmd (Unit {0})
build_sgs fc n [] = pure tt
build_sgs fc n (groups ∷ more) = do
  sg ← add_numbered_sg (pos n)
  build_groups fc sg groups
  build_sgs fc (suc n) more

unfoldable pub build_groupman_from_3dvec : FlowChart → List (List (List ℤ)) → Bool → Cmd (Unit {0})
build_groupman_from_3dvec fc groups sanitize = do
  clear
  modify (λ w. record w { src_filename = noname })
  build_sgs fc 0 groups
  finish_build sanitize fc
