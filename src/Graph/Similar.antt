-- ===== src/Graph/Similar.antt =====
-- `find_similar` of the chooser (plugin.cpp), which the view calls through `gsgv_actions_t`.
use graph_slick.Base.{Option, none, some, List, [], ◌∷◌, ℤ}
use graph_slick.Heap.{Addr, null, NodeLoc, Cmd, pure, ◌>>=◌, ◌>>◌, get}
use graph_slick.Groups.{add_node, list_add_nodegroup}
use graph_slick.Manager.{find_nodeid_loc}

abbrev pub add_similar : Addr → Option NodeLoc → Cmd (Unit {0})
add_similar ng none = pure tt
add_similar ng (some loc) = do add_node ng loc.nd; pure tt

-- the inner loop: ids that the lookups miss are passed over
unfoldable pub similar_nodes : Addr → List ℤ → Cmd (Unit {0})
similar_nodes ng [] = pure tt
similar_nodes ng (nid ∷ nids) = do
  w ← get
  add_similar ng (find_nodeid_loc w nid)
  similar_nodes ng nids

-- the outer loop; `ngl` is the new list
unfoldable pub similar_groups : List Addr → List (List ℤ) → Cmd (List Addr)
similar_groups ngl [] = pure ngl
similar_groups ngl (nids ∷ more) = do
  (ngl', ng) ← list_add_nodegroup ngl null
  similar_nodes ng nids
  similar_groups ngl' more

-- the answer of the matcher is none where `FindSimilar` returns false; none stands for NULL
abbrev pub similar_in : Option (List (List ℤ)) → Cmd (Option (List Addr))
similar_in none = pure none
similar_in (some []) = pure none
similar_in (some (nids ∷ more)) = do ngl ← similar_groups [] (nids ∷ more); pure (some ngl)

unfoldable pub find_similar :
    (matcher : List ℤ → Option (List (List ℤ))) → List ℤ → Cmd (Option (List Addr))
find_similar matcher sel_nodes = similar_in (matcher sel_nodes)
