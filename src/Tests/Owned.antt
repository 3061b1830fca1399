-- ===== src/Tests/Owned.antt =====
-- The theorems on deleting and regrouping whole lists at the sample and at a manager with two lists.
use graph_slick.Base.{◌≡◌, refl, some, [], ◌∷◌, arith, pos, false, ◌==◌, if◌then◌else◌}
use graph_slick.Heap.{SuperGroup, Heap, GroupMan, ok}
use graph_slick.Groups.Owned.{Tree, IsTree}
use graph_slick.Manager.{clear}
use graph_slick.Manager.Regroup.{reset_groupping}
use graph_slick.Manager.Clear.{IsOwned, Frees, clear-Frees}
use graph_slick.Manager.Reset.{IsReset, reset_groupping-IsReset}
use graph_slick.Tests.Sample.{sample, node, sg_cell, heap}

abbrev pub path_tree : Tree
path_tree = (1, (2, 5 ∷ []) ∷ (3, 6 ∷ 7 ∷ []) ∷ (4, 8 ∷ []) ∷ [])

abbrev similar_cell : SuperGroup
similar_cell = record { id = []; name = []; is_synthetic = false; groups = 10 ∷ [] }

abbrev pub two_heap : Heap
two_heap = record heap {
  nds = λ q. if q == 11 then some (node (pos 7) 200) else heap.nds q;
  ngs = λ q. if q == 10 then some (11 ∷ []) else heap.ngs q;
  sgs = λ q. if q == 9 then some similar_cell else heap.sgs q;
  next = 12;
}

abbrev pub two_lists : GroupMan
two_lists = record sample { heap = two_heap; similar_sgl = 9 ∷ [] }

abbrev pub similar_tree : Tree
similar_tree = (9, (10, 11 ∷ []) ∷ [])

sample-IsTree : IsTree heap path_tree
sample-IsTree = (
  omega arith,
  (
    sg_cell,
    refl,
    refl,
    (
      (omega arith, refl, ((omega arith, (node (pos 0) 100, refl)), tt)),
      (
        (
          omega arith,
          refl,
          ((omega arith, (node (pos 1) 110, refl)), ((omega arith, (node (pos 2) 120, refl)), tt)),
        ),
        ((omega arith, refl, ((omega arith, (node (pos 3) 130, refl)), tt)), tt),
      ),
    ),
  ),
)

pub two-IsTree : IsTree two_heap path_tree
two-IsTree = (
  omega arith,
  (
    sg_cell,
    refl,
    refl,
    (
      (omega arith, refl, ((omega arith, (node (pos 0) 100, refl)), tt)),
      (
        (
          omega arith,
          refl,
          ((omega arith, (node (pos 1) 110, refl)), ((omega arith, (node (pos 2) 120, refl)), tt)),
        ),
        ((omega arith, refl, ((omega arith, (node (pos 3) 130, refl)), tt)), tt),
      ),
    ),
  ),
)

pub similar-IsTree : IsTree two_heap similar_tree
similar-IsTree = (
  omega arith,
  (
    similar_cell,
    refl,
    refl,
    ((omega arith, refl, ((omega arith, (node (pos 7) 200, refl)), tt)), tt),
  ),
)

sample-IsOwned : IsOwned (path_tree ∷ [])
sample-IsOwned = record {
  sgs_Distinct = (refl, tt);
  groups_Distinct = (refl, (refl, (refl, tt)));
  nodes_Distinct = (refl, (refl, (refl, (refl, tt))));
}

pub two-IsOwned : IsOwned (path_tree ∷ similar_tree ∷ [])
two-IsOwned = record {
  sgs_Distinct = (refl, (refl, tt));
  groups_Distinct = (refl, (refl, (refl, (refl, tt))));
  nodes_Distinct = (refl, (refl, (refl, (refl, (refl, tt)))));
}

clear-Frees_example :
    (h : Heap) × (clear two_lists
      ≡ ok tt (record two_lists { heap = h; path_sgl = []; similar_sgl = []; all_nodes = [] }))
    × Frees (path_tree ∷ similar_tree ∷ []) two_heap h
clear-Frees_example =
    clear-Frees (path_tree ∷ []) (similar_tree ∷ []) two_lists refl refl (two-IsTree, tt)
      (similar-IsTree, tt) two-IsOwned

reset_groupping-IsReset_example :
    (v : GroupMan) × (reset_groupping sample ≡ ok tt v) × IsReset (path_tree ∷ []) sample v
reset_groupping-IsReset_example =
    reset_groupping-IsReset (path_tree ∷ []) sample refl (sample-IsTree, tt) sample-IsOwned
      (
        (omega arith, (node (pos 0) 100, refl, refl)),
        (
          (omega arith, (node (pos 1) 110, refl, refl)),
          (
            (omega arith, (node (pos 2) 120, refl, refl)),
            ((omega arith, (node (pos 3) 130, refl, refl)), tt),
          ),
        ),
      )
      ((refl, (refl, (refl, tt))), ((refl, (refl, tt)), ((refl, tt), (tt, tt))))
