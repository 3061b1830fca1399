-- ===== src/Algo/Built.antt =====
-- `build_groupman_from_3dvec` of algo.cpp as a whole, with the clearing before it and the completion
-- behind it.
use mathlib.Core.List.{append-nil, append_assoc}
use graph_slick.Base.{
  ℕ, suc, ◌<◌, ◌≡◌, ◌≢◌, refl, sym, ap, subst, ◌∙◌, true, false, none, some, List, [], ◌∷◌, ◌++◌,
  All, arith, ℤ, if◌then◌else◌,
}
use graph_slick.OrdMap.{Map, find, int_ord}
use graph_slick.Heap.{Addr, GroupMan, SuperGroup, ok, update}
use graph_slick.Heap.Laws.{update_self, update_other}
use graph_slick.Heap.Freed.{has}
use graph_slick.View.{LiveSgs, locations}
use graph_slick.Groups.Owned.{Tree, sgs_of, groups_of_trees, nodes_of_trees, IsTree}
use graph_slick.Manager.{find_nodeid_loc}
use graph_slick.Manager.Clear.{IsOwned, clear-Frees}
use graph_slick.Manager.Lookups.{
  index, with_index, last_with, initialize_lookups-index, find_nodeid_loc-index,
}
use graph_slick.BbGroup.Content.{ShowsSg, Shows, Keeps, ShowsSg-Keeps, Shows-Keeps}
use graph_slick.Chooser.Shown.{Shows-LiveSgs, Placed-LiveSgs}
use graph_slick.Algo.{
  FlowChart, build_sgs, finish_build, noname, sanitize_groupman, build_groupman_from_3dvec,
}
use graph_slick.Algo.Orphans.{missing}
use graph_slick.Algo.Sanitized.{Placed, sanitize_groupman-Sanitized}
use graph_slick.Manager.Known.{is_some, mem_id, Learns, Learns-trans, or_false}
use graph_slick.Algo.Vectors.{InChart}
use graph_slick.Algo.Unmentioned.{unmentioned, missing-unmentioned, Placed-index}
use graph_slick.Algo.Groupings.{
  ids_in, all_ids, contents, numbered_content, numbered_sg, with_sg, Extends, add_numbered_sg-ok,
  build_groups-Shows,
}

module _ (fc : FlowChart) where
  build_sgs-Shows :
      (v : List (List (List ℤ))) (n : ℕ) (w : GroupMan)
      → 0 < w.next
      → All (All (All (InChart fc))) v
      → (sgs : List Addr) × (w' : GroupMan) × (build_sgs fc n v w ≡ ok tt w')
        × Shows w'.heap sgs (contents fc n v)
        × Extends w w' sgs
        × Learns w w' (all_ids v)
  unfolding build_sgs
  build_sgs-Shows [] n w real h = (
    [],
    w,
    refl,
    tt,
    record {
      keeps = record { nds_kept = λ q lt. refl; ngs_kept = λ q lt. refl; grows = omega arith };
      sgs_kept = λ q lt. refl;
      path_longer = sym (append-nil w.path_sgl);
      similar_kept = refl;
    },
    λ k. refl,
  )
  build_sgs-Shows (groups ∷ v) n w real (h, hs) =
      let w1 : GroupMan = with_sg n w in
      let blank : SuperGroup = record { id = []; name = []; is_synthetic = false; groups = [] } in
      let there = update_self (update w.sgs w.next (some blank)) w.next (some (numbered_sg n)) in
      let (gs, w2, run2, host, shows, since, learns) =
        build_groups-Shows fc groups w.next (numbered_sg n) w1 (omega arith) there h in
      let (sgs, w', run, more, ext, learns') =
        build_sgs-Shows v (suc n) w2 (omega (arith, since.grows)) hs in
      let first : ShowsSg w2.heap w.next (numbered_content fc n groups) = (
        record (numbered_sg n) { groups = gs },
        omega (arith, since.grows),
        host,
        refl,
        refl,
        shows,
      ) in
      (
        w.next ∷ sgs,
        w',
        rw (add_numbered_sg-ok n w, run2) run,
        (
          ShowsSg-Keeps w2.heap w'.heap w.next (numbered_content fc n groups) ext.keeps
              (ext.sgs_kept w.next) first,
          more,
        ),
        record {
          keeps = record {
            nds_kept = λ q lt.
                ext.keeps.nds_kept q (omega (arith, lt, since.grows))
                ∙ since.nds_kept q (omega (arith, lt));
            ngs_kept = λ q lt.
                ext.keeps.ngs_kept q (omega (arith, lt, since.grows))
                ∙ since.ngs_kept q (omega (arith, lt));
            grows = omega (arith, since.grows, ext.keeps.grows);
          };
          sgs_kept = λ q lt.
              let ne : q ≢ w.next = omega (arith, lt) in
              ext.sgs_kept q (omega (arith, lt, since.grows))
              ∙ since.sgs_kept q ne
              ∙ update_other (update w.sgs w.next (some blank)) w.next (some (numbered_sg n)) q ne
              ∙ update_other w.sgs w.next (some blank) q ne;
          path_longer =
              ext.path_longer
              ∙ ap (λ (l : List Addr). l ++ sgs) since.path_kept
              ∙ append_assoc w.path_sgl (w.next ∷ []) sgs;
          similar_kept = ext.similar_kept ∙ since.similar_kept;
        },
        Learns-trans w w2 w' (ids_in groups) (all_ids v) learns learns',
      )

-- what building from a nested vector leaves, where the lists owned the trees `ts` before
pub record Built (fc : FlowChart) (v : List (List (List ℤ))) (ts : List Tree) (w w' : GroupMan)
    : Type 0 where
  pub shown : List Addr
  pub orphans : Addr
  pub shows : Shows w'.heap shown (contents fc 0 v)
  pub placed : Placed orphans (record w { path_sgl = shown }) w' (unmentioned (all_ids v) 0 fc)
  pub known : (k : ℤ) → is_some (find k w'.all_nodes) ≡ mem_id k (all_ids v)
  pub similar_empty : w'.similar_sgl ≡ []
  pub old_sgs : (q : Addr) → q < w.next → w'.sgs q ≡ (if has q (sgs_of ts) then none else w.sgs q)
  pub old_ngs :
      (q : Addr) → q < w.next → w'.ngs q ≡ (if has q (groups_of_trees ts) then none else w.ngs q)
  pub old_nds :
      (q : Addr) → q < w.next → w'.nds q ≡ (if has q (nodes_of_trees ts) then none else w.nds q)
  pub live : LiveSgs w'.heap w'.path_sgl
  pub lookups : (k : ℤ) → find_nodeid_loc w' k ≡ last_with w'.heap k (locations w'.heap w'.path_sgl)

-- Where all ids of the vector are numbers of blocks, no address in use is NULL, and the two lists of
-- the manager hold the trees `ts` and `us`, whose objects are all there and at different addresses,
-- building with completion does not fault. The old objects of the lists are deleted and no others.
-- The path shows a super group for each part of the vector, in order, its groups and nodes in the
-- order of the vector with the bounds of the blocks, and behind them, if a block is not mentioned, a
-- synthetic super group with a group of its own for each such block. The map of nodes has exactly the
-- ids mentioned, the similar list is empty, and an id leads to its last place in the path.
pub build_groupman_from_3dvec-Built :
    (fc : FlowChart) (v : List (List (List ℤ))) (ts us : List Tree) (w : GroupMan)
    → 0 < w.next
    → All (All (All (InChart fc))) v
    → w.path_sgl ≡ sgs_of ts
    → w.similar_sgl ≡ sgs_of us
    → All (IsTree w.heap) ts
    → All (IsTree w.heap) us
    → IsOwned (ts ++ us)
    → (w' : GroupMan) × (build_groupman_from_3dvec fc v true w ≡ ok tt w')
      × Built fc v (ts ++ us) w w'
unfolding build_groupman_from_3dvec finish_build sanitize_groupman find
build_groupman_from_3dvec-Built fc v ts us w real ids ep es all_t all_u o =
    let (h, run0, fr) = clear-Frees ts us w ep es all_t all_u o in
    let w1 : GroupMan = record w {
      heap = h;
      path_sgl = [];
      similar_sgl = [];
      all_nodes = [];
      src_filename = noname;
    } in
    let real1 : 0 < h.next = rw (fr.next_kept) real in
    let (sgs, w2, run2, shows, ext, learns) = build_sgs-Shows fc v 0 w1 real1 ids in
    let (w3, run3, san) =
      sanitize_groupman-Sanitized (λ _. none) 0 fc w2 (omega (arith, real1, ext.keeps.grows)) in
    let keeps : Keeps w2.heap w3.heap = record {
      nds_kept = san.old_nds;
      ngs_kept = san.old_ngs;
      grows = san.grows;
    } in
    let shows3 = Shows-Keeps w2.heap w3.heap sgs (contents fc 0 v) keeps san.old_sgs shows in
    let live0 : LiveSgs w3.heap w2.path_sgl =
      subst (LiveSgs w3.heap) (sym ext.path_longer)
        (Shows-LiveSgs w3.heap sgs (contents fc 0 v) shows3) in
    let (_, _, _, live) =
      Placed-LiveSgs w2.next w2 w3 (missing w2.all_nodes 0 fc) live0 san.placed in
    let run4 = initialize_lookups-index w3 live in
    let w4 : GroupMan = with_index w3 (index w3.heap (locations w3.heap w3.path_sgl) []) in
    let known2 : (k : ℤ) → is_some (find k w2.all_nodes) ≡ mem_id k (all_ids v) =
      λ k. learns k ∙ or_false (mem_id k (all_ids v)) in
    let old : (q : Addr) → q < w.next → q < h.next = λ q lt. rw (fr.next_kept) lt in
    let later : (q : Addr) → q < h.next → q < w2.next =
      λ q lt. omega (arith, lt, ext.keeps.grows) in
    (
      w4,
      rw (run0, run2, run3, run4) refl,
      record {
        shown = sgs;
        orphans = w2.next;
        shows = shows3;
        placed =
            subst (Placed w2.next (record w { path_sgl = sgs }) w4)
              (missing-unmentioned w2.all_nodes (all_ids v) 0 fc known2)
              (Placed-index w2.next (record w { path_sgl = sgs }) w2 w3
                (index w3.heap (locations w3.heap w3.path_sgl) []) (missing w2.all_nodes 0 fc)
                ext.path_longer san.placed);
        known = λ k. ap (λ (m : Map ℤ Addr). is_some (find k m)) san.all_nodes_kept ∙ known2 k;
        similar_empty = san.similar_kept ∙ ext.similar_kept;
        old_sgs =
            λ q lt. san.old_sgs q (later q (old q lt)) ∙ ext.sgs_kept q (old q lt) ∙ fr.sgs_Freed q;
        old_ngs = λ q lt.
            san.old_ngs q (later q (old q lt))
            ∙ ext.keeps.ngs_kept q (old q lt)
            ∙ fr.groups_Freed q;
        old_nds = λ q lt.
            san.old_nds q (later q (old q lt)) ∙ ext.keeps.nds_kept q (old q lt) ∙ fr.nodes_Freed q;
        live = live;
        lookups = find_nodeid_loc-index w3;
      },
    )
