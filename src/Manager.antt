-- ===== src/Manager.antt =====
-- `groupman_t` of groupman.cpp: the lists of super groups and the two lookup maps.
pub mod Regroup
pub mod Lookups
pub mod Address
pub mod Counts
pub mod Joined
pub mod Kept
pub mod Rounds
pub mod Combine
pub mod Clear
pub mod Forget
pub mod Repopulate
pub mod Reset
pub mod Known
use graph_slick.Base.{
  ℕ, suc, ◌+◌, Bool, true, false, not, ◌&&◌, Option, none, some, List, [], ◌∷◌, ◌++◌, ◌==◌, ltb,
  length, if◌then◌else◌, ℤ, pos, Text, codes, show_int, is_empty,
}
use graph_slick.OrdMap.{Map, find, insert, int_ord}
use graph_slick.Heap.{
  Addr, null, NodeDef, SuperGroup, NodeLoc, nodeloc, GroupMan, Cmd, pure, ◌>>=◌, ◌>>◌, get, modify,
  deref, load_nd, load_ng, load_sg, store_ng, store_sg, new_sg,
}
use graph_slick.Groups.{
  remove, front_or_null, add_node, get_first_node, find_biggest, add_nodegroup, delete_sg, clear_sg,
  remove_nodegroup, sg_empty, gcount,
}

-- the two lists of super groups of the manager
pub data Sgl : Type 0 where
  path similar : Sgl

abbrev pub get_sgl : Sgl → GroupMan → List Addr
get_sgl path w = w.path_sgl
get_sgl similar w = w.similar_sgl

abbrev pub set_sgl : Sgl → List Addr → GroupMan → GroupMan
set_sgl path l w = record w { path_sgl = l }
set_sgl similar l w = record w { similar_sgl = l }

-- the loop of `clear_sgl`
unfoldable pub delete_sgs : List Addr → Cmd (Unit {0})
delete_sgs [] = pure tt
delete_sgs (sg ∷ l) = delete_sg sg >> delete_sgs l

unfoldable pub clear_sgl : Sgl → Cmd (Unit {0})
unfolding delete_sgs
clear_sgl sgl = do w ← get; delete_sgs (get_sgl sgl w); modify (set_sgl sgl [])

-- `groupman_t::clear`; the lookup map `nid2loc` is left as it is
unfoldable pub clear : Cmd (Unit {0})
clear = do clear_sgl path; clear_sgl similar; modify (λ w. record w { all_nodes = [] })

unfoldable pub map_nodedef : ℤ → Addr → Cmd (Unit {0})
map_nodedef nid nd = modify (λ w. record w { all_nodes = insert nid nd w.all_nodes })

unfoldable pub find_nodeid_loc : GroupMan → ℤ → Option NodeLoc
find_nodeid_loc w nid = find nid w.nid2loc

-- the loop of `find_node_loc`, over the entries of `all_nodes`
unfoldable pub find_node_from : ℕ → Map ℤ Addr → Cmd (Option NodeLoc)
find_node_from ea [] = pure none
find_node_from ea ((_, p) ∷ rest) = do
  nd ← load_nd p
  w ← get
  if not (ltb nd.start ea) && ltb ea nd.end
      then pure (find_nodeid_loc w nd.nid)
      else find_node_from ea rest

unfoldable pub find_node_loc : ℕ → Cmd (Option NodeLoc)
unfolding find_node_from
find_node_loc ea = do w ← get; find_node_from ea w.all_nodes

abbrev pub first_in_sg : List Addr → Cmd Addr
first_in_sg [] = pure null
first_in_sg (ng ∷ _) = do nds ← load_ng ng; pure (front_or_null nds)

abbrev pub first_in_path : List Addr → Cmd Addr
first_in_path [] = pure null
first_in_path (sg ∷ _) = do s ← load_sg sg; first_in_sg s.groups

-- the first node of the first group of the first super group, NULL if one of them is missing
unfoldable pub get_first_nd : Cmd Addr
get_first_nd = do w ← get; first_in_path w.path_sgl

-- the three loops of `initialize_lookups`
unfoldable pub lookup_nodes : Addr → Addr → List Addr → Cmd (Unit {0})
lookup_nodes sg ng [] = pure tt
lookup_nodes sg ng (p ∷ nds) = do
  nd ← load_nd p
  modify (λ w. record w { nid2loc = insert nd.nid (nodeloc sg ng p) w.nid2loc })
  lookup_nodes sg ng nds

unfoldable pub lookup_groups : Addr → List Addr → Cmd (Unit {0})
lookup_groups sg [] = pure tt
lookup_groups sg (ng ∷ ngs) = do nds ← load_ng ng; lookup_nodes sg ng nds; lookup_groups sg ngs

unfoldable pub lookup_sgs : List Addr → Cmd (Unit {0})
lookup_sgs [] = pure tt
lookup_sgs (sg ∷ sgs) = do s ← load_sg sg; lookup_groups sg s.groups; lookup_sgs sgs

unfoldable pub initialize_lookups : Cmd (Unit {0})
unfolding lookup_nodes lookup_groups lookup_sgs
initialize_lookups = do modify (λ w. record w { nid2loc = [] }); w ← get; lookup_sgs w.path_sgl

unfoldable pub add_supergroup : Sgl → Addr → Cmd Addr
add_supergroup sgl sg = do
  p ← if sg == null then new_sg else pure sg
  modify (λ w. set_sgl sgl (get_sgl sgl w ++ p ∷ []) w)
  pure p

unfoldable pub remove_supergroup : Sgl → Addr → Cmd (Unit {0})
remove_supergroup sgl sg = modify (λ w. set_sgl sgl (remove sg (get_sgl sgl w)) w)

-- `supergroup_listp_t::remove_sg`, on a list of the manager
unfoldable pub remove_sg : Sgl → Addr → Bool → Cmd (Unit {0})
remove_sg sgl sg free_it = do
  modify (λ w. set_sgl sgl (remove sg (get_sgl sgl w)) w)
  if free_it then clear_sg sg >> delete_sg sg else pure tt
