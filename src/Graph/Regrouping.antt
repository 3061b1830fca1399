-- ===== src/Graph/Regrouping.antt =====
-- The handlers of the graph view that change the groups (plugin.cpp). What `refresh_viewer` does,
-- which may call the view back, is a parameter.
pub mod Popped
pub mod Counts
pub mod Alone
pub mod Splitting
pub mod OwnGroups
use graph_slick.Base.{
  ℕ, Bool, true, false, ◌||◌, Option, none, some, List, [], ◌∷◌, ◌++◌, ◌==◌, length, if◌then◌else◌,
  ℤ, is_empty,
}
use mathlib.Core.List.{reverse}
use graph_slick.OrdMap.{Map, same, insert, int_ord, addr_ord}
use graph_slick.Heap.{Addr, null, NodeLoc, new_nd, deref, load_nd, load_ng, store_ng}
use graph_slick.Groups.{
  remove, add_node, get_first_node, add_nodegroup, remove_nodegroup, gcount, copy_attr_from,
}
use graph_slick.Manager.{path, find_nodeid_loc, initialize_lookups, add_supergroup}
use graph_slick.Manager.Regroup.{combine_ngl, move_nodes_to_ng, reset_groupping}
use graph_slick.Graph.{
  Mode, soft, single, combined, jumped, chooser_refreshed, no_id, ViewCmd, give, lift, ◌>>=◌, ◌>>◌,
  view, gm, change, emit_event, get_gvnid_from_nid, get_ng_from_ngid, get_sg_from_ng,
}
use graph_slick.Graph.Describe.{edit_sg_description}

-- the groups of the selected ids; NULL for an id that no group has
unfoldable pub picked_groups : Map Addr ℤ → Map ℤ ℕ → List Addr
picked_groups m [] = []
picked_groups m ((n, _) ∷ sel) = get_ng_from_ngid m n ∷ picked_groups m sel

abbrev pub picked_node : List Addr → Option NodeLoc → ViewCmd (List Addr)
picked_node nds none = give nds
picked_node nds (some loc) =
    if loc.nd == null then (do p ← lift new_nd; give (nds ++ p ∷ [])) else give (nds ++ loc.nd ∷ [])

-- the nodes of the selected ids, in the local `nodegroup_t`
unfoldable pub picked_nodes : List Addr → Map ℤ ℕ → ViewCmd (List Addr)
picked_nodes nds [] = give nds
picked_nodes nds ((n, _) ∷ sel) = do
  w ← gm
  nds' ← picked_node nds (find_nodeid_loc w n)
  picked_nodes nds' sel

abbrev pub combine_in : Mode → Map ℤ ℕ → ViewCmd Addr
combine_in soft sel = give null
combine_in combined sel = do v ← view; lift (combine_ngl (picked_groups v.ng2id sel))
combine_in single sel = do nds ← picked_nodes [] sel; lift (move_nodes_to_ng nds)

-- the loop that notes the group and the super group of each selected id, by address of the group
abbrev pub note_loc : Map Addr Addr → Option NodeLoc → Map Addr Addr
note_loc found none = found
note_loc found (some loc) = insert loc.ng loc.sg found

abbrev pub found_in : Mode → ℤ → Map Addr Addr → ViewCmd (Map Addr Addr)
found_in soft n found = give found
found_in single n found = do w ← gm; give (note_loc found (find_nodeid_loc w n))
found_in combined n found = do
  v ← view
  let ng = get_ng_from_ngid v.ng2id n
  if ng == null then give found else (do sg ← get_sg_from_ng ng; give (insert ng sg found))

unfoldable pub find_groups : Map ℤ ℕ → Map Addr Addr → ViewCmd (Map Addr Addr)
find_groups [] found = give found
find_groups ((n, _) ∷ sel) found = do
  v ← view
  found' ← found_in v.cur_view_mode n found
  find_groups sel found'

-- one group out of a super group with several: it gets a super group of its own
unfoldable pub promote_one : Addr → Addr → ViewCmd (Unit {0})
promote_one ng sg = do
  lift (remove_nodegroup sg ng false)
  new_sg ← lift (add_supergroup path null)
  lift (copy_attr_from new_sg sg)
  lift (add_nodegroup new_sg ng)
  edit_sg_description new_sg
  give tt

unfoldable pub promote_all : Map Addr Addr → ViewCmd (Unit {0})
promote_all [] = give tt
promote_all ((ng, sg) ∷ rest) = do
  n ← lift (gcount sg)
  if n == 1 then give tt else promote_one ng sg
  promote_all rest

-- a node behind the group that it came from, in a new group of the super group
unfoldable pub own_ng : Addr → Addr → ViewCmd (Unit {0})
own_ng sg p = do
  ng ← lift (add_nodegroup sg null)
  lift (add_node ng p)
  nd ← lift (load_nd p)
  change (λ v. record v { focus_node = nd.nid })

abbrev pub split_node : NodeLoc → ViewCmd (Unit {0})
split_node loc = do
  nds ← lift (load_ng loc.ng)
  if length nds == 1
      then give tt
      else (do lift (store_ng loc.ng (remove loc.nd nds)); own_ng loc.sg loc.nd)

-- The loop in single view mode. False where the code returns: at an id that the lookups miss.
unfoldable pub split_nodes : Map ℤ ℕ → ViewCmd Bool
split_nodes [] = give true
split_nodes ((n, _) ∷ sel) = do
  w ← gm
  elim (find_nodeid_loc w n) [ none ↦ give false | some loc ↦ do split_node loc; split_nodes sel ]

-- The inner loop in combined mode: it takes the nodes of a group from its back until one is left.
-- The list is the group, back first.
unfoldable pub pop_nodes : Addr → Addr → List Addr → ViewCmd (Unit {0})
pop_nodes ng sg [] = give tt
pop_nodes ng sg (p ∷ []) = give tt
pop_nodes ng sg (p ∷ q ∷ front) = do
  lift (store_ng ng (reverse (q ∷ front)))
  own_ng sg p
  pop_nodes ng sg (q ∷ front)

abbrev pub split_group : Addr → ViewCmd (Unit {0})
split_group ng = do
  nds ← lift (load_ng ng)
  first ← lift (get_first_node ng)
  if length nds == 1 || first == null then give tt else do
    nd ← lift (load_nd first)
    w ← gm
    loc ← lift (deref (find_nodeid_loc w nd.nid))
    if loc.sg == null then give tt else pop_nodes ng loc.sg (reverse nds)

unfoldable pub split_groups : Map ℤ ℕ → ViewCmd (Unit {0})
split_groups [] = give tt
split_groups ((n, _) ∷ sel) = do
  v ← view
  let ng = get_ng_from_ngid v.ng2id n
  if ng == null then give tt else split_group ng
  split_groups sel

abbrev pub split_in : Mode → Map ℤ ℕ → ViewCmd Bool
split_in soft sel = give true
split_in single sel = split_nodes sel
split_in combined sel = split_groups sel >> give true

-- the focus after a layout: the jump goes to the graph node of the focus node
unfoldable pub take_focus : ViewCmd (Unit {0})
take_focus = do
  v ← view
  w ← gm
  let n = get_gvnid_from_nid v w v.focus_node
  if same v.focus_node no_id then give tt else (do
    if same n no_id then give tt else emit_event (jumped n)
    change (λ v'. record v' { focus_node = no_id }))

module _ (refresh_viewer : ViewCmd (Unit {0})) where
  unfoldable pub redo_layout : Mode → ViewCmd (Unit {0})
  unfolding take_focus
  redo_layout rm = do change (λ v. record v { refresh_mode = rm }); refresh_viewer; take_focus

  unfoldable pub redo_current_layout : ViewCmd (Unit {0})
  redo_current_layout = do v ← view; redo_layout v.cur_view_mode

  -- the refresh of the chooser and of the layout, at the end of each handler
  abbrev pub show_changes : ViewCmd (Unit {0})
  show_changes = emit_event (chooser_refreshed true) >> redo_current_layout

  abbrev pub describe_new : Addr → ViewCmd (Unit {0})
  describe_new new_ng = do
    sg ← get_sg_from_ng new_ng
    edit_sg_description sg
    p ← lift (get_first_node new_ng)
    if p == null
        then give tt
        else (do nd ← lift (load_nd p); change (λ v. record v { focus_node = nd.nid }))

  unfoldable pub combine_node_groups : ViewCmd (Unit {0})
  combine_node_groups = do
    v ← view
    new_ng ← combine_in v.cur_view_mode v.selected_nodes
    if new_ng == null then give tt else describe_new new_ng
    show_changes

  unfoldable pub promote_node_groups_to_sgs : ViewCmd (Unit {0})
  promote_node_groups_to_sgs = do
    v ← view
    found ← find_groups v.selected_nodes []
    promote_all found
    lift initialize_lookups
    show_changes

  unfoldable pub move_nodes_to_own_ng : ViewCmd (Unit {0})
  move_nodes_to_own_ng = do
    v ← view
    if is_empty v.selected_nodes then give tt else do
      finished ← split_in v.cur_view_mode v.selected_nodes
      if finished then lift initialize_lookups >> show_changes else give tt

  -- the menu command "reset groupping"
  unfoldable pub reset_all : ViewCmd (Unit {0})
  reset_all = lift reset_groupping >> show_changes
