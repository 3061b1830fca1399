-- ===== src/Algo/Groupings.antt =====
-- The super groups that `build_groupman_from_3dvec` of algo.cpp makes.
use mathlib.Core.List.{append-nil, append_assoc}
use graph_slick.Base.{
  ℕ, suc, ◌<◌, ◌≡◌, ◌≢◌, refl, sym, ap, ◌∙◌, false, Option, some, List, [], ◌∷◌, ◌++◌, map, All,
  arith, ℤ, pos, codes, show_int,
}
use graph_slick.Heap.{Addr, null, SuperGroup, GroupMan, ok, update, with_sgs, new_ng, new_sg}
use graph_slick.Heap.Laws.{update_self, update_other, load_sg-ok, store_sg-ok}
use graph_slick.Groups.{add_nodegroup}
use graph_slick.Manager.{add_supergroup}
use graph_slick.BbGroup.Content.{Content, ShowsGroups, Keeps}
use graph_slick.BbGroup.Effects.{Since, Since-refl, Since-trans, ShowsGroup-Since}
use graph_slick.Algo.{FlowChart, build_nodes, build_groups, add_numbered_sg}
use graph_slick.Algo.Orphans.{with_groups}
use graph_slick.Manager.Known.{Learns, Learns-trans}
use graph_slick.Algo.Vectors.{InChart, block_node, build_nodes-Shows}

abbrev pub ids_in : List (List ℤ) → List ℤ
ids_in [] = []
ids_in (nids ∷ more) = nids ++ ids_in more

abbrev pub all_ids : List (List (List ℤ)) → List ℤ
all_ids [] = []
all_ids (groups ∷ more) = ids_in groups ++ all_ids more

module _ (fc : FlowChart) where
  build_group-Shows :
      (nids : List ℤ) (sg : Addr) (s : SuperGroup) (w : GroupMan)
      → 0 < w.next
      → w.sgs sg ≡ some s
      → All (InChart fc) nids
      → (w1 : GroupMan) × (w' : GroupMan) × (add_nodegroup sg null w ≡ ok w.next w1)
        × (build_nodes fc w.next nids w1 ≡ ok tt w')
        × (w'.sgs sg ≡ some (with_groups s (w.next ∷ [])))
        × ShowsGroups w'.heap (w.next ∷ []) (map (block_node fc) nids ∷ [])
        × Since w.next w.next sg w w'
        × Learns w w' nids
  unfolding add_nodegroup new_ng
  build_group-Shows nids sg s w real e h =
      let wa : GroupMan = record w {
        heap = record w.heap { ngs = update w.ngs w.next (some []); next = suc w.next };
      } in
      let wb : GroupMan = with_sgs wa (update w.sgs sg (some (with_groups s (w.next ∷ [])))) in
      let (ps, w', run, group, shows, since, same_sgs, learns) =
        build_nodes-Shows fc nids w.next null [] wb (omega arith)
          (update_self w.ngs w.next (some [])) h in
      (
        wb,
        w',
        rw (load_sg-ok wa sg e, store_sg-ok wa sg (with_groups s (w.next ∷ [])) e) refl,
        run,
        ap (λ (f : Addr → Option SuperGroup). f sg) same_sgs
            ∙ update_self w.sgs sg (some (with_groups s (w.next ∷ []))),
        ((ps, omega (arith, since.grows), group, shows), tt),
        record {
          nds_kept = λ q lt. since.nds_kept q (omega (arith, lt));
          ngs_kept = λ q lt.
              let ne : q ≢ w.next = omega (arith, lt) in
              since.ngs_kept q lt ∙ update_other w.ngs w.next (some []) q ne;
          sgs_kept = λ q ne.
              ap (λ (f : Addr → Option SuperGroup). f q) same_sgs
              ∙ update_other w.sgs sg (some (with_groups s (w.next ∷ []))) q ne;
          grows = omega (arith, since.grows);
          path_kept = since.path_kept;
          similar_kept = since.similar_kept;
        },
        learns,
      )

  pub build_groups-Shows :
      (groups : List (List ℤ)) (sg : Addr) (s : SuperGroup) (w : GroupMan)
      → 0 < w.next
      → w.sgs sg ≡ some s
      → All (All (InChart fc)) groups
      → (gs : List Addr) × (w' : GroupMan) × (build_groups fc sg groups w ≡ ok tt w')
        × (w'.sgs sg ≡ some (with_groups s gs))
        × ShowsGroups w'.heap gs (map (map (block_node fc)) groups)
        × Since w.next w.next sg w w'
        × Learns w w' (ids_in groups)
  unfolding build_groups
  build_groups-Shows [] sg s w real e h = (
    [],
    w,
    refl,
    e ∙ ap (λ (l : List Addr). some (record s { groups = l })) (sym (append-nil s.groups)),
    tt,
    Since-refl w.next w.next sg w,
    λ k. refl,
  )
  build_groups-Shows (nids ∷ groups) sg s w real e (h, hs) =
      let (w1, w2, run1, run2, host, shows, since, learns) =
        build_group-Shows nids sg s w real e h in
      let (gs, w', run, host', shows', since', learns') =
        build_groups-Shows groups sg (with_groups s (w.next ∷ [])) w2
          (omega (arith, real, since.grows)) host hs in
      (
        w.next ∷ gs,
        w',
        rw (run1, run2) run,
        host'
            ∙ ap (λ (l : List Addr). some (record s { groups = l }))
                (append_assoc s.groups (w.next ∷ []) gs),
        (ShowsGroup-Since sg w2 w' w.next (map (block_node fc) nids) since' shows.0, shows'),
        Since-trans w.next w.next w2.next w2.next sg w w2 w' since.grows since.grows since since',
        Learns-trans w w2 w' nids (ids_in groups) learns learns',
      )

  abbrev pub numbered_content : ℕ → List (List ℤ) → Content
  numbered_content n groups = record {
    id = codes "ID_" ++ show_int (pos n);
    name = codes "SG_" ++ show_int (pos n);
    groups = map (map (block_node fc)) groups;
  }

  -- what the nested vector says
  abbrev pub contents : ℕ → List (List (List ℤ)) → List Content
  contents n [] = []
  contents n (groups ∷ more) = numbered_content n groups ∷ contents (suc n) more

-- new super groups at the end of the path, and the cells that were there
pub record Extends (w w' : GroupMan) (sgs : List Addr) : Type 0 where
  pub keeps : Keeps w.heap w'.heap
  pub sgs_kept : (q : Addr) → q < w.next → w'.sgs q ≡ w.sgs q
  pub path_longer : w'.path_sgl ≡ w.path_sgl ++ sgs
  pub similar_kept : w'.similar_sgl ≡ w.similar_sgl

abbrev pub numbered_sg : ℕ → SuperGroup
numbered_sg n = record {
  id = codes "ID_" ++ show_int (pos n);
  name = codes "SG_" ++ show_int (pos n);
  is_synthetic = false;
  groups = [];
}

abbrev pub with_sg : ℕ → GroupMan → GroupMan
with_sg n w = record w {
  heap = record w.heap {
    sgs =
        update
          (update w.sgs w.next
            (some (record { id = []; name = []; is_synthetic = false; groups = [] })))
          w.next (some (numbered_sg n));
    next = suc w.next;
  };
  path_sgl = w.path_sgl ++ w.next ∷ [];
}

pub add_numbered_sg-ok :
    (n : ℕ) (w : GroupMan) → add_numbered_sg (pos n) w ≡ ok w.next (with_sg n w)
unfolding add_numbered_sg add_supergroup new_sg
add_numbered_sg-ok n w =
    let blank : SuperGroup = record { id = []; name = []; is_synthetic = false; groups = [] } in
    let w1 : GroupMan = record w {
      heap = record w.heap { sgs = update w.sgs w.next (some blank); next = suc w.next };
      path_sgl = w.path_sgl ++ w.next ∷ [];
    } in
    let there = update_self w.sgs w.next (some blank) in
    rw (load_sg-ok w1 w.next there, store_sg-ok w1 w.next (numbered_sg n) there) refl
