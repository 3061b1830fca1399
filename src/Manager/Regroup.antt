-- ===== src/Manager/Regroup.antt =====
-- The operations of `groupman_t` that move nodes between groups.
use graph_slick.Base.{
  true, false, List, [], ◌∷◌, ◌++◌, ◌==◌, if◌then◌else◌, ℤ, codes, show_int, is_empty,
}
use graph_slick.OrdMap.{Map}
use graph_slick.Heap.{
  Addr, null, Cmd, pure, ◌>>=◌, ◌>>◌, get, deref, load_nd, load_ng, load_sg, store_ng, store_sg,
}
use graph_slick.Groups.{
  remove, add_node, get_first_node, find_biggest, add_nodegroup, remove_nodegroup, sg_empty,
}
use graph_slick.Manager.{
  path, find_nodeid_loc, initialize_lookups, add_supergroup, remove_supergroup, remove_sg,
  clear_sgl,
}

-- `add_node` of each node of a list
unfoldable pub add_nodes : Addr → List Addr → Cmd (Unit {0})
add_nodes ng [] = pure tt
add_nodes ng (nd ∷ l) = add_node ng nd >> add_nodes ng l

-- one group of `combine_ngl` that is not the destination and has a first node
unfoldable pub combine_group : Addr → Addr → Addr → Cmd (Unit {0})
combine_group dest ng first = do
  nd ← load_nd first
  w ← get
  nds ← load_ng ng
  add_nodes dest nds
  store_ng ng []
  loc ← deref (find_nodeid_loc w nd.nid)
  remove_nodegroup loc.sg ng false
  empty ← sg_empty loc.sg
  if empty then remove_supergroup path loc.sg else pure tt

unfoldable pub combine_step : Addr → Addr → Cmd (Unit {0})
combine_step dest ng = do
  first ← get_first_node ng
  if first == null then pure tt else combine_group dest ng first

unfoldable pub combine_loop : Addr → List Addr → Cmd (Unit {0})
combine_loop dest [] = pure tt
combine_loop dest (ng ∷ ngl) =
    (if ng == dest then pure tt else combine_step dest ng) >> combine_loop dest ngl

unfoldable pub combine_ngl : List Addr → Cmd Addr
combine_ngl ngl = do
  dest ← find_biggest ngl
  if dest == null then pure null else do combine_loop dest ngl; initialize_lookups; pure dest

-- `sg0` and `new_ng` of `move_nodes_to_ng`: set at the first node
unfoldable pub start_ng : Addr → Addr → Addr → Cmd (Addr × Addr)
start_ng sg0 new_ng sg =
    if sg0 == null then (do ng ← add_nodegroup sg null; pure (sg, ng)) else pure (sg0, new_ng)

-- the removal of a group that lost its last node, and of its super group
unfoldable pub drop_empty : Addr → Addr → Cmd (Unit {0})
drop_empty sg ng = do
  left ← load_ng ng
  if is_empty left
      then (do
        remove_nodegroup sg ng true
        empty ← sg_empty sg
        if empty then remove_sg path sg true else pure tt)
      else pure tt

-- one node of `move_nodes_to_ng`
unfoldable pub move_step : Addr → Addr → Addr → Cmd (Addr × Addr)
move_step sg0 new_ng p = do
  nd ← load_nd p
  w ← get
  loc ← deref (find_nodeid_loc w nd.nid)
  (sg, ng) ← start_ng sg0 new_ng loc.sg
  nds ← load_ng loc.ng
  store_ng loc.ng (remove loc.nd nds)
  drop_empty loc.sg loc.ng
  add_node ng loc.nd
  pure (sg, ng)

unfoldable pub move_loop : Addr → Addr → List Addr → Cmd Addr
move_loop sg0 new_ng [] = pure new_ng
move_loop sg0 new_ng (p ∷ nds) = do (sg, ng) ← move_step sg0 new_ng p; move_loop sg ng nds

unfoldable pub move_nodes_to_ng : List Addr → Cmd Addr
move_nodes_to_ng nds = do new_ng ← move_loop null null nds; initialize_lookups; pure new_ng

-- `ng->clear()` for each group of a list
unfoldable pub forget_nodes : List Addr → Cmd (Unit {0})
forget_nodes [] = pure tt
forget_nodes (ng ∷ ngs) = store_ng ng [] >> forget_nodes ngs

unfoldable pub forget_groups : List Addr → Cmd (Unit {0})
forget_groups [] = pure tt
forget_groups (sg ∷ sgs) = do s ← load_sg sg; forget_nodes s.groups; forget_groups sgs

-- one super group and one node group for each entry of `all_nodes`
unfoldable pub repopulate : Map ℤ Addr → Cmd (Unit {0})
repopulate [] = pure tt
repopulate ((_, p) ∷ rest) = do
  sg ← add_supergroup path null
  ng ← add_nodegroup sg null
  add_node ng p
  nd ← load_nd p
  s ← load_sg sg
  store_sg sg (record s { id = codes "node" ++ show_int nd.nid })
  repopulate rest

unfoldable pub reset_groupping : Cmd (Unit {0})
reset_groupping = do
  w ← get
  forget_groups w.path_sgl
  clear_sgl path
  v ← get
  repopulate v.all_nodes
  initialize_lookups
