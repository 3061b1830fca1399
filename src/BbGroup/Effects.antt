-- ===== src/BbGroup/Effects.antt =====
-- What parsing a printed group list does to the heap: new groups with the printed nodes.
use graph_slick.Base.{
  ℕ, suc, ◌<◌, ◌≤◌, ◌≡◌, ◌≢◌, refl, ap, sym, ◌∙◌, some, List, [], ◌∷◌, ◌++◌, arith, pos, Text,
}
use mathlib.Core.List.{append-nil, append_assoc}
use graph_slick.OrdMap.{insert, int_ord}
use graph_slick.Heap.{Addr, NodeDef, GroupMan, ok, update, with_nds, with_ngs, new_nd}
use graph_slick.Heap.Laws.{update_self, update_other, load_ng-ok, store_nd-ok, store_ng-ok}
use graph_slick.Groups.{add_node}
use graph_slick.Manager.{map_nodedef}
use graph_slick.Manager.Known.{Learns, Learns-trans, insert-Learns}
use graph_slick.BbGroup.{Sdk, parsed_node, parse_nodes}
use graph_slick.BbGroup.Content.{ShowsGroup-Keeps, ShowsNodes, ShowsGroup, node_ids}
use graph_slick.BbGroup.Laws.{SdkLaws, Scans}

-- Cells that a run leaves: the nodes below `m`, the groups below `n`, the super groups but `sg`.
pub record Since (m n sg : ℕ) (w w' : GroupMan) : Type 0 where
  pub nds_kept : (q : Addr) → q < m → w'.nds q ≡ w.nds q
  pub ngs_kept : (q : Addr) → q < n → w'.ngs q ≡ w.ngs q
  pub sgs_kept : (q : Addr) → q ≢ sg → w'.sgs q ≡ w.sgs q
  pub grows : w.next ≤ w'.next
  pub path_kept : w'.path_sgl ≡ w.path_sgl
  pub similar_kept : w'.similar_sgl ≡ w.similar_sgl

pub Since-refl : (m n sg : ℕ) (w : GroupMan) → Since m n sg w w
Since-refl m n sg w = record {
  nds_kept = λ q lt. refl;
  ngs_kept = λ q lt. refl;
  sgs_kept = λ q ne. refl;
  grows = omega arith;
  path_kept = refl;
  similar_kept = refl;
}

pub Since-trans :
    (m n i j sg : ℕ) (u v w : GroupMan)
    → m ≤ i
    → n ≤ j
    → Since m n sg u v
    → Since i j sg v w
    → Since m n sg u w
Since-trans m n i j sg u v w mi nj f g = record {
  nds_kept = λ q lt. g.nds_kept q (omega (arith, lt, mi)) ∙ f.nds_kept q lt;
  ngs_kept = λ q lt. g.ngs_kept q (omega (arith, lt, nj)) ∙ f.ngs_kept q lt;
  sgs_kept = λ q ne. g.sgs_kept q ne ∙ f.sgs_kept q ne;
  grows = omega (arith, f.grows, g.grows);
  path_kept = g.path_kept ∙ f.path_kept;
  similar_kept = g.similar_kept ∙ f.similar_kept;
}

pub ShowsGroup-Since :
    (sg : ℕ) (w w' : GroupMan) (g : Addr) (ds : List NodeDef)
    → Since w.next w.next sg w w'
    → ShowsGroup w.heap g ds
    → ShowsGroup w'.heap g ds
ShowsGroup-Since sg w w' g ds k =
    ShowsGroup-Keeps w.heap w'.heap g ds
      (record { nds_kept = k.nds_kept; ngs_kept = k.ngs_kept; grows = k.grows })

module _ (sdk : Sdk) where
  -- a node that scanned
  record Adds (ng sg : Addr) (d : NodeDef) (l : List Addr) (w w' : GroupMan) : Type 0 where
    group : w'.ngs ng ≡ some (l ++ w.next ∷ [])
    node : w'.nds w.next ≡ some d
    next_is : w'.next ≡ suc w.next
    since : Since w.next ng sg w w'
    same_sgs : w'.sgs ≡ w.sgs
    learns : Learns w w' (d.nid ∷ [])

  parsed_node-Adds :
      (ng sg : Addr) (d : NodeDef) (l : List Addr) (w : GroupMan)
      → w.ngs ng ≡ some l
      → (w' : GroupMan) × (parsed_node sdk ng (some (d.nid, d.start, d.end)) w ≡ ok tt w')
        × Adds ng sg d l w w'
  unfolding add_node new_nd map_nodedef
  parsed_node-Adds ng sg d l w e =
      let blank : NodeDef = record { nid = pos 0; start = 0; end = 0 } in
      let wa : GroupMan = record w {
        heap = record w.heap { nds = update w.nds w.next (some blank); next = suc w.next };
      } in
      let wb : GroupMan = with_ngs wa (update w.ngs ng (some (l ++ w.next ∷ []))) in
      let wc : GroupMan = with_nds wb (update wb.nds w.next (some d)) in
      let wd : GroupMan = record wc { all_nodes = insert d.nid w.next wc.all_nodes } in
      (
        wd,
        rw
            (
              load_ng-ok wa ng e,
              store_ng-ok wa ng (l ++ w.next ∷ []) e,
              store_nd-ok wb w.next d (update_self w.nds w.next (some blank)),
            )
            refl,
        record {
          group = update_self w.ngs ng (some (l ++ w.next ∷ []));
          node = update_self wb.nds w.next (some d);
          next_is = refl;
          same_sgs = refl;
          learns = insert-Learns w wd d.nid w.next refl;
          since = record {
            nds_kept = λ q lt.
                let ne : q ≢ w.next = omega (arith, lt) in
                update_other wb.nds w.next (some d) q ne
                ∙ update_other w.nds w.next (some blank) q ne;
            ngs_kept =
                λ q lt. update_other w.ngs ng (some (l ++ w.next ∷ [])) q (omega (arith, lt));
            sgs_kept = λ q ne. refl;
            grows = omega arith;
            path_kept = refl;
            similar_kept = refl;
          };
        },
      )

  module _ (laws : SdkLaws sdk) where
    pub parse_nodes-Shows :
        (ts : List Text) (ds : List NodeDef) (ng sg : Addr) (l : List Addr) (w : GroupMan)
        → 0 < w.next
        → w.ngs ng ≡ some l
        → Scans sdk laws ts ds
        → (ps : List Addr) × (w' : GroupMan) × (parse_nodes sdk ng ts w ≡ ok tt w')
          × (w'.ngs ng ≡ some (l ++ ps))
          × ShowsNodes w'.heap ps ds
          × Since w.next ng sg w w'
          × (w'.sgs ≡ w.sgs)
          × Learns w w' (node_ids ds)
    unfolding parse_nodes
    parse_nodes-Shows [] [] ng sg l w real e h = (
      [],
      w,
      refl,
      e ∙ ap (λ (k : List Addr). some k) (sym (append-nil l)),
      tt,
      Since-refl w.next ng sg w,
      refl,
      λ k. refl,
    )
    parse_nodes-Shows [] (_ ∷ _) ng sg l w real e h = absurd h
    parse_nodes-Shows (_ ∷ _) [] ng sg l w real e h = absurd h
    parse_nodes-Shows (t ∷ ts) (d ∷ ds) ng sg l w real e (scan, h) =
        let (w1, run1, a) = parsed_node-Adds ng sg d l w e in
        let (ps, w', run, group, shows, since, same, learns) =
          parse_nodes-Shows ts ds ng sg (l ++ w.next ∷ []) w1 (omega (arith, a.next_is)) a.group
            h in
        (
          w.next ∷ ps,
          w',
          rw (scan, run1) run,
          group ∙ ap (λ (k : List Addr). some k) (append_assoc l (w.next ∷ []) ps),
          (
            omega (arith, real),
            omega (arith, a.next_is, since.grows),
            since.nds_kept w.next (omega (arith, a.next_is)) ∙ a.node,
            shows,
          ),
          Since-trans w.next ng w1.next ng sg w w1 w' (omega (arith, a.next_is)) (omega arith)
              a.since since,
          same ∙ a.same_sgs,
          Learns-trans w w1 w' (d.nid ∷ []) (node_ids ds) a.learns learns,
        )
