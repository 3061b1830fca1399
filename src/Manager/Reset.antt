-- ===== src/Manager/Reset.antt =====
-- `reset_groupping` of groupman.cpp as a whole, with the lookups that it leaves.
use graph_slick.Base.{
  suc, ◌<◌, ◌≡◌, refl, sym, ap, subst, ◌∙◌, inl, inr, Bool-cases, Option-cases, Option, some, none,
  List, [], ◌∷◌, All, arith, ℤ, if◌then◌else◌,
}
use graph_slick.OrdMap.{Map, find, same, int_ord}
use graph_slick.OrdMap.Laws.{same_iff}
use graph_slick.OrdMap.Sorted.{IsSorted, Above-find}
use graph_slick.Heap.{with_ngs, Addr, NodeDef, Heap, GroupMan, NodeLoc, nodeloc, ok}
use graph_slick.Heap.Freed.{has}
use graph_slick.View.{nid_at-eq, members-eq, groups_of-eq, locations, LiveSgs}
use graph_slick.Groups.Owned.{Tree, sgs_of, groups_of_trees, IsTree}
use graph_slick.Manager.{delete_sgs, clear_sgl, find_nodeid_loc}
use graph_slick.Manager.Regroup.{forget_groups, reset_groupping}
use graph_slick.Manager.Lookups.{
  index, with_index, last_with, initialize_lookups-index, find_nodeid_loc-index,
}
use graph_slick.Manager.Clear.{IsOwned}
use graph_slick.Manager.Forget.{forget_groups-FreesGroups}
use graph_slick.Manager.Repopulate.{
  node_sg, single_sgs, after, OnePerNode, Keyed, with_path, repopulate-OnePerNode,
}

-- the places of the entries
abbrev places : Addr → Map ℤ Addr → List NodeLoc
places n [] = []
places n ((_, p) ∷ m) = nodeloc n (suc n) p ∷ places (suc (suc n)) m

-- the node at a place
abbrev pub node_of : Option NodeLoc → Option Addr
node_of none = none
node_of (some l) = some l.nd

module _ (h : Heap) where
  locations-places :
      (n : Addr) (m : Map ℤ Addr)
      → OnePerNode h.sgs h.ngs n m
      → locations h (single_sgs n m) ≡ places n m
  locations-places n [] one = refl
  locations-places n ((nid, p) ∷ m) (s, g, one) =
      rw (groups_of-eq h n s, members-eq h (suc n) g, locations-places (suc (suc n)) m one) refl

  OnePerNode-LiveSgs :
      (n : Addr) (m : Map ℤ Addr)
      → OnePerNode h.sgs h.ngs n m
      → Keyed h.nds m
      → LiveSgs h (single_sgs n m)
  OnePerNode-LiveSgs n [] one keyed = tt
  OnePerNode-LiveSgs n ((nid, p) ∷ m) (s, g, one) ((ne, (d, e, named)), keyed) = (
    (node_sg nid n, s, (((p ∷ [], g, ((ne, (d, e)), tt))), tt)),
    OnePerNode-LiveSgs (suc (suc n)) m one keyed,
  )

  last_with-places :
      (k : ℤ) (n : Addr) (m : Map ℤ Addr)
      → Keyed h.nds m
      → IsSorted m
      → node_of (last_with h k (places n m)) ≡ find k m
  unfolding last_with find
  last_with-places k n [] keyed sorted = refl
  last_with-places k n ((nid, p) ∷ m) ((ne, (d, e, named)), keyed) (up, sorted) =
      let rest = last_with-places k (suc (suc n)) m keyed sorted in
      let key = nid_at-eq h p e ∙ named in
      elim (Bool-cases (same k nid)) [
        | inl hit ↦
            let gone : find k m ≡ none =
              subst (λ (i : ℤ). find i m ≡ none) (sym ((same_iff k nid).0 hit))
                (Above-find nid m up) in
            elim (Option-cases (last_with h k (places (suc (suc n)) m))) [
              | inl missed ↦ rw (missed, key, hit) refl
              | inr (q, found) ↦ ground (arith, found, gone, rest)
            ]
        | inr miss ↦ elim (Option-cases (last_with h k (places (suc (suc n)) m))) [
          | inl missed ↦ rw (missed, key, miss) (sym (ap node_of missed) ∙ rest)
          | inr (q, found) ↦ rw (found, miss) (sym (ap node_of found) ∙ rest)
        ]
      ]

Keyed-kept :
    (f g : Addr → Option NodeDef) (m : Map ℤ Addr)
    → ((a : Addr) → g a ≡ f a)
    → Keyed f m
    → Keyed g m
Keyed-kept f g [] same_nds keyed = tt
Keyed-kept f g ((nid, p) ∷ m) same_nds ((ne, (d, e, named)), keyed) =
    ((ne, (d, same_nds p ∙ e, named)), Keyed-kept f g m same_nds keyed)

-- `v` is `w` with its path trees replaced by one super group for each entry of the map of nodes
pub record IsReset (ts : List Tree) (w v : GroupMan) : Type 0 where
  pub path_new : v.path_sgl ≡ single_sgs w.next w.all_nodes
  pub cells_new : OnePerNode v.sgs v.ngs w.next w.all_nodes
  pub sgs_old : (a : Addr) → a < w.next → v.sgs a ≡ (if has a (sgs_of ts) then none else w.sgs a)
  pub ngs_old :
      (a : Addr) → a < w.next → v.ngs a ≡ (if has a (groups_of_trees ts) then none else w.ngs a)
  pub nds_kept : (a : Addr) → v.nds a ≡ w.nds a
  pub all_nodes_kept : v.all_nodes ≡ w.all_nodes
  pub similar_kept : v.similar_sgl ≡ w.similar_sgl
  pub lookups_new : (k : ℤ) → node_of (find_nodeid_loc v k) ≡ find k w.all_nodes

-- Where the path list holds trees whose objects are all there and at different addresses, and the
-- map of nodes leads, in key order, from ids to nodes with these ids, `reset_groupping` does not
-- fault. It deletes the super groups and groups of the trees and no other, keeps every node and the
-- map of nodes, and makes the path list one new super group "node<id>" for each entry, in the order of the ids, with one
-- new group that holds just its node. The lookups then find an id if and only if the map of nodes
-- has it, at the same node.
pub reset_groupping-IsReset :
    (ts : List Tree) (w : GroupMan)
    → w.path_sgl ≡ sgs_of ts
    → All (IsTree w.heap) ts
    → IsOwned ts
    → Keyed w.nds w.all_nodes
    → IsSorted w.all_nodes
    → (v : GroupMan) × (reset_groupping w ≡ ok tt v) × IsReset ts w v
unfolding reset_groupping clear_sgl
reset_groupping-IsReset ts w ep all o keyed sorted =
    let (g0, h, run0, run1, fr) = forget_groups-FreesGroups ts w all o in
    let m = w.all_nodes in
    let w1 : GroupMan = record w { heap = h; path_sgl = [] } in
    let keyed1 = Keyed-kept w.nds h.nds m fr.nds_kept keyed in
    let (s, g, run2, one, old_s, old_g) = repopulate-OnePerNode m w1 keyed1 in
    let w2 : GroupMan = with_path w1 s g (after h.next m) (single_sgs h.next m) in
    let run3 = initialize_lookups-index w2 (OnePerNode-LiveSgs w2.heap h.next m one keyed1) in
    let v : GroupMan = with_index w2 (index w2.heap (locations w2.heap w2.path_sgl) []) in
    let run0' = ap (λ (l : List Addr). forget_groups l w) ep ∙ run0 in
    let run1' = ap (λ (l : List Addr). delete_sgs l (with_ngs w g0)) ep ∙ run1 in
    let looks = λ (k : ℤ).
      ap node_of (
        find_nodeid_loc-index w2 k
        ∙ ap (λ (l : List NodeLoc). last_with w2.heap k l) (locations-places w2.heap h.next m one))
      ∙ last_with-places w2.heap k h.next m keyed1 sorted in
    (
      v,
      rw (run0', run1', run2, run3) refl,
      record {
        path_new = ap (λ (n : Addr). single_sgs n m) fr.next_kept;
        cells_new = subst (λ (n : Addr). OnePerNode s g n m) fr.next_kept one;
        sgs_old = λ a lt. old_s a (rw (fr.next_kept) lt) ∙ fr.sgs_Freed a;
        ngs_old = λ a lt. old_g a (rw (fr.next_kept) lt) ∙ fr.groups_Freed a;
        nds_kept = fr.nds_kept;
        all_nodes_kept = refl;
        similar_kept = refl;
        lookups_new = looks;
      },
    )
