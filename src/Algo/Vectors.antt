-- ===== src/Algo/Vectors.antt =====
-- What the three loops of `build_groupman_from_3dvec` of algo.cpp make: super groups, groups and
-- nodes as the nested vector has them.
use mathlib.Core.List.{append-nil, append_assoc}
use graph_slick.Base.{
  suc, ◌<◌, ◌≡◌, ◌≢◌, refl, sym, ap, ◌∙◌, Option, none, some, List, [], ◌∷◌, ◌++◌, map, All, arith,
  ℤ, pos,
}
use graph_slick.OrdMap.{insert, int_ord}
use graph_slick.Heap.{Addr, NodeDef, GroupMan, ok, update, with_nds, with_ngs, new_nd}
use graph_slick.Heap.Laws.{update_self, update_other, load_ng-ok, store_nd-ok, store_ng-ok}
use graph_slick.Groups.{add_node}
use graph_slick.Manager.{map_nodedef}
use graph_slick.Manager.Known.{Learns, Learns-trans, insert-Learns}
use graph_slick.BbGroup.Content.{ShowsNodes}
use graph_slick.BbGroup.Effects.{Since, Since-refl, Since-trans}
use graph_slick.Algo.{Block, FlowChart, block_at, add_block, build_nodes}

-- the id is the number of a block
abbrev pub InChart : FlowChart → ℤ → Type 0
InChart fc nid = (b : Block) × (block_at fc nid ≡ some b)

abbrev of_block : ℤ → Option Block → NodeDef
of_block nid none = record { nid = nid; start = 0; end = 0 }
of_block nid (some b) = record { nid = nid; start = b.start; end = b.end }

-- the node of a block
abbrev pub block_node : FlowChart → ℤ → NodeDef
block_node fc nid = of_block nid (block_at fc nid)

record Adds (ng sg : Addr) (d : NodeDef) (l : List Addr) (w w' : GroupMan) : Type 0 where
  group : w'.ngs ng ≡ some (l ++ w.next ∷ [])
  node : w'.nds w.next ≡ some d
  next_is : w'.next ≡ suc w.next
  since : Since w.next ng sg w w'
  same_sgs : w'.sgs ≡ w.sgs
  all_nodes_is : w'.all_nodes ≡ insert d.nid w.next w.all_nodes

-- a node and its entry in the map
add_block-Adds :
    (ng sg : Addr) (nid : ℤ) (b : Block) (l : List Addr) (w : GroupMan)
    → w.ngs ng ≡ some l
    → (w1 : GroupMan) × (w2 : GroupMan) × (add_block ng nid b w ≡ ok w.next w1)
      × (map_nodedef nid w.next w1 ≡ ok tt w2)
      × Adds ng sg (record { nid = nid; start = b.start; end = b.end }) l w w2
unfolding add_block add_node new_nd map_nodedef
add_block-Adds ng sg nid b l w e =
    let blank : NodeDef = record { nid = pos 0; start = 0; end = 0 } in
    let d : NodeDef = record { nid = nid; start = b.start; end = b.end } in
    let wa : GroupMan = record w {
      heap = record w.heap { nds = update w.nds w.next (some blank); next = suc w.next };
    } in
    let wb : GroupMan = with_ngs wa (update w.ngs ng (some (l ++ w.next ∷ []))) in
    let wc : GroupMan = with_nds wb (update wb.nds w.next (some d)) in
    (
      wc,
      record wc { all_nodes = insert nid w.next wc.all_nodes },
      rw
          (
            load_ng-ok wa ng e,
            store_ng-ok wa ng (l ++ w.next ∷ []) e,
            store_nd-ok wb w.next d (update_self w.nds w.next (some blank)),
          )
          refl,
      refl,
      record {
        group = update_self w.ngs ng (some (l ++ w.next ∷ []));
        node = update_self wb.nds w.next (some d);
        next_is = refl;
        same_sgs = refl;
        all_nodes_is = refl;
        since = record {
          nds_kept = λ q lt.
              let ne : q ≢ w.next = omega (arith, lt) in
              update_other wb.nds w.next (some d) q ne
              ∙ update_other w.nds w.next (some blank) q ne;
          ngs_kept = λ q lt. update_other w.ngs ng (some (l ++ w.next ∷ [])) q (omega (arith, lt));
          sgs_kept = λ q ne. refl;
          grows = omega arith;
          path_kept = refl;
          similar_kept = refl;
        };
      },
    )

module _ (fc : FlowChart) where
  pub build_nodes-Shows :
      (nids : List ℤ) (ng sg : Addr) (l : List Addr) (w : GroupMan)
      → 0 < w.next
      → w.ngs ng ≡ some l
      → All (InChart fc) nids
      → (ps : List Addr) × (w' : GroupMan) × (build_nodes fc ng nids w ≡ ok tt w')
        × (w'.ngs ng ≡ some (l ++ ps))
        × ShowsNodes w'.heap ps (map (block_node fc) nids)
        × Since w.next ng sg w w'
        × (w'.sgs ≡ w.sgs)
        × Learns w w' nids
  unfolding build_nodes
  build_nodes-Shows [] ng sg l w real e h = (
    [],
    w,
    refl,
    e ∙ ap (λ (k : List Addr). some k) (sym (append-nil l)),
    tt,
    Since-refl w.next ng sg w,
    refl,
    λ k. refl,
  )
  build_nodes-Shows (nid ∷ nids) ng sg l w real e ((b, found), h) =
      let (w1, w2, run1, run2, a) = add_block-Adds ng sg nid b l w e in
      let (ps, w', run, group, shows, since, same_sgs, learns) =
        build_nodes-Shows nids ng sg (l ++ w.next ∷ []) w2 (omega (arith, a.next_is)) a.group h in
      (
        w.next ∷ ps,
        w',
        rw (found, run1, run2) run,
        group ∙ ap (λ (k : List Addr). some k) (append_assoc l (w.next ∷ []) ps),
        (
          omega (arith, real),
          omega (arith, a.next_is, since.grows),
          since.nds_kept w.next (omega (arith, a.next_is))
              ∙ a.node
              ∙ ap (λ (o : Option Block). some (of_block nid o)) (sym found),
          shows,
        ),
        Since-trans w.next ng w2.next ng sg w w2 w' (omega (arith, a.next_is)) (omega arith) a.since
            since,
        same_sgs ∙ a.same_sgs,
        Learns-trans w w2 w' (nid ∷ []) nids (insert-Learns w w2 nid w.next a.all_nodes_is) learns,
      )
