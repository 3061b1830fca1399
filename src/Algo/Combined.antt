-- ===== src/Algo/Combined.antt =====
-- `fc_to_combined_mg` of algo.hpp. A mutable graph is its number of
-- nodes and its edges in the order in which they were added.
pub mod Labels
pub mod Numbering
pub mod Drawing
pub mod Edges
use graph_slick.Base.{
  ℕ, suc, ◌+◌, ◌-◌, Bool, true, false, Option, none, some, List, [], ◌∷◌, ◌++◌, ◌==◌, ltb, length,
  if◌then◌else◌, ℤ, pos, Text, codes, show_int,
}
use graph_slick.OrdMap.{Map, find, insert, int_ord, addr_ord}
use graph_slick.Heap.{Addr, NodeLoc, Cmd, pure, ◌>>=◌, get, deref, load_nd, load_ng, load_sg}
use graph_slick.Groups.{gcount, get_display_name}
use graph_slick.Manager.{find_nodeid_loc}
use graph_slick.Algo.{Block, FlowChart, block_at, given_or}

-- `gnode_t`
pub record GNode : Type 0 where
  pub id : ℕ
  pub text : Text
  pub hint : Text

abbrev pub Edge : Type 0
Edge = ℕ × ℕ

-- the tables that the caller passes by reference, and the graph
pub record Tables : Type 0 where
  pub group2id : Map Addr ℕ
  pub node_map : Map ℕ GNode
  pub node_count : ℕ
  pub edges : List Edge

module _ (disasm : ℕ → ℕ → Text) (fc : FlowChart) (show_nids_only : Bool) where
  -- the loop over the nodes of a group; `t` counts down as in the code
  unfoldable pub node_texts : ℕ → List Addr → GNode → Cmd GNode
  node_texts t [] gn = pure gn
  node_texts t (p ∷ nds) gn = do
    nd ← load_nd p
    let sep = if ltb 0 (t - 1) then codes ", " else []
    let text = if show_nids_only then gn.text ++ show_int nd.nid ++ sep else gn.text
    let left = if show_nids_only then t - 1 else t
    b ← deref (block_at fc nd.nid)
    node_texts left nds (record gn { text = text; hint = gn.hint ++ disasm b.start b.end })

  -- the label of a group that shows more than ids; the super group is read for its name
  unfoldable pub label : NodeLoc → List Addr → GNode → Cmd GNode
  label loc nds gn =
      if ltb 1 (length nds)
      then (do
        s ← load_sg loc.sg
        let name = get_display_name s []
        pure (record gn { text = gn.text ++ codes "\n\n\n" ++ name ++ codes "\n\n\n" }))
      else pure (record gn { text = gn.hint })

  -- a group that has no id yet: it gets the next one
  unfoldable pub new_groupid : Tables → NodeLoc → Cmd (ℕ × Tables)
  unfolding node_texts label
  new_groupid t loc = do
    let group_id = length t.group2id
    nds ← load_ng loc.ng
    gn ← node_texts (length nds) nds (record { id = group_id; text = []; hint = [] })
    labelled ← (if show_nids_only then pure gn else label loc nds gn)
    pure (
      group_id,
      record t {
        group2id = insert loc.ng group_id t.group2id;
        node_map = insert group_id labelled t.node_map;
      },
    )

  abbrev pub groupid_at : Tables → Option NodeLoc → Cmd (Option ℕ × Tables)
  groupid_at t none = pure (none, t)
  groupid_at t (some loc) = elim (find loc.ng t.group2id) [
    | some group_id ↦ pure (some group_id, t)
    | none ↦ do (group_id, t') ← new_groupid t loc; pure (some group_id, t')
  ]

  -- `get_groupid`; none stands for -1
  unfoldable pub get_groupid : Tables → ℤ → Cmd (Option ℕ × Tables)
  get_groupid t n = do w ← get; groupid_at t (find_nodeid_loc w n)

  -- the loop over the successors of a node; false where the code returns false
  unfoldable pub add_edges : ℕ → Tables → List ℤ → Cmd (Bool × Tables)
  add_edges group_id t [] = pure (true, t)
  add_edges group_id t (n ∷ succs) = do
    (succ, t') ← get_groupid t n
    elim succ [
      | none ↦ pure (false, t')
      | some succ_id ↦
          add_edges group_id
            (if succ_id == group_id
              then t'
              else record t' { edges = t'.edges ++ (group_id, succ_id) ∷ [] })
            succs
    ]

  -- the loop over the blocks, from number `nid` on
  unfoldable pub build_nodes : ℕ → Tables → List Block → Cmd (Bool × Tables)
  build_nodes nid t [] = pure (true, t)
  build_nodes nid t (b ∷ bs) = do
    (group, t') ← get_groupid t (pos nid)
    elim group [
      | none ↦ pure (false, t')
      | some group_id ↦ do
        (fine, t'') ← add_edges group_id t' b.succs
        if fine then build_nodes (suc nid) t'' bs else pure (false, t'')
    ]

  -- the number of groups of the path super groups
  unfoldable pub count_groups : List Addr → Cmd ℕ
  count_groups [] = pure 0
  count_groups (sg ∷ sgs) = do n ← gcount sg; rest ← count_groups sgs; pure (n + rest)

  unfoldable pub build : Tables → Cmd (Bool × Tables)
  unfolding count_groups
  build t = do
    w ← get
    count ← count_groups w.path_sgl
    build_nodes 0 (record t { node_count = count }) fc

-- The class constructor, called as a function: the tables behind. Without a flowchart it asks for
-- the one of the function, and does nothing where there is none. It shows more than the ids.
abbrev pub build_given : (ℕ → ℕ → Text) → Option FlowChart → Tables → Cmd Tables
build_given disasm none t = pure t
build_given disasm (some fc) t = do (_, t') ← build disasm fc false t; pure t'

unfoldable pub fc_to_combined_mg :
    (ℕ → ℕ → Text) → (chart : ℕ → Option FlowChart) → ℕ → Option FlowChart → Tables → Cmd Tables
fc_to_combined_mg disasm chart func_ea fc t = build_given disasm (given_or fc (chart func_ea)) t
