-- ===== src/Algo/Sanitized.antt =====
-- `sanitize_groupman` as a whole: where the missing nodes end up, and what stays as it was.
use graph_slick.Base.{
  ℕ, suc, ◌<◌, ◌≤◌, ◌≡◌, ◌≢◌, refl, ap, ◌∙◌, Option, some, none, List, [], ◌∷◌, ◌++◌, arith, ◌==◌,
  true, false, codes, length,
}
use graph_slick.Heap.{Addr, null, NodeDef, SuperGroup, GroupMan, ok, update, with_sgs, new_sg}
use graph_slick.Heap.Laws.{update_self, update_other, load_sg-ok, store_sg-ok, free_sg-ok}
use graph_slick.Groups.{free_nodegroup, clear_sg, delete_sg, gcount}
use graph_slick.Manager.{add_supergroup, path, set_sgl}
use graph_slick.Algo.{FlowChart, keep_orphans, sanitize_chart, sanitize_groupman}
use graph_slick.Algo.Orphans.{Singles, missing, with_groups, add_missing-Completes}

abbrev blank_sg : SuperGroup
blank_sg = record { id = []; name = []; is_synthetic = false; groups = [] }

abbrev pub orphan_sg : List Addr → SuperGroup
orphan_sg gs = record {
  id = codes "orphan_nodes";
  name = codes "orphan_nodes";
  is_synthetic = true;
  groups = gs;
}

-- With no missing node the path stays; else it ends in a synthetic super group at `sg`, with a group
-- of its own for each missing node, in order.
abbrev pub Placed : Addr → GroupMan → GroupMan → List NodeDef → Type 0
Placed sg w w' [] = w'.path_sgl ≡ w.path_sgl
Placed sg w w' (d ∷ ds) =
    (gs : List Addr) × (w'.path_sgl ≡ w.path_sgl ++ sg ∷ [])
    × (w'.sgs sg ≡ some (orphan_sg gs))
    × Singles w'.heap gs (d ∷ ds)

record Keeps (sg : Addr) (w w' : GroupMan) (ms : List NodeDef) : Type 0 where
  same_nds : w'.nds ≡ w.nds
  same_ngs : w'.ngs ≡ w.ngs
  other_sgs : (q : Addr) → q ≢ sg → w'.sgs q ≡ w.sgs q
  same_nodes : w'.all_nodes ≡ w.all_nodes
  same_lookups : w'.nid2loc ≡ w.nid2loc
  same_similar : w'.similar_sgl ≡ w.similar_sgl
  same_next : w'.next ≡ w.next
  placed : Placed sg w w' ms

clear_sg-blank :
    (sg : Addr) (w : GroupMan)
    → w.sgs sg ≡ some blank_sg
    → clear_sg sg w ≡ ok tt (with_sgs w (update w.sgs sg (some blank_sg)))
unfolding clear_sg free_nodegroup
clear_sg-blank sg w e = rw (load_sg-ok w sg e, load_sg-ok w sg e, store_sg-ok w sg blank_sg e) refl

delete_sg-blank :
    (sg : Addr) (w : GroupMan)
    → sg ≢ null
    → w.sgs sg ≡ some blank_sg
    → delete_sg sg w ≡ ok tt (with_sgs w (update (update w.sgs sg (some blank_sg)) sg none))
unfolding delete_sg
delete_sg-blank sg w real e =
    let there : (sg == null) ≡ false = ground arith in
    let w1 : GroupMan = with_sgs w (update w.sgs sg (some blank_sg)) in
    rw (there, clear_sg-blank sg w e, free_sg-ok w1 sg (update_self w.sgs sg (some blank_sg))) refl

keep_orphans-Keeps :
    (sg : Addr) (gs : List Addr) (ms : List NodeDef) (w : GroupMan)
    → sg ≢ null
    → w.sgs sg ≡ some (with_groups blank_sg gs)
    → Singles w.heap gs ms
    → (w' : GroupMan) × (keep_orphans sg w ≡ ok tt w') × Keeps sg w w' ms
unfolding keep_orphans gcount add_supergroup
keep_orphans-Keeps sg [] [] w real e h =
    let w1 : GroupMan = with_sgs w (update w.sgs sg (some blank_sg)) in
    let w2 : GroupMan = with_sgs w1 (update w1.sgs sg none) in
    (
      w2,
      rw (load_sg-ok w sg e, delete_sg-blank sg w real e) refl,
      record {
        same_nds = refl;
        same_ngs = refl;
        other_sgs =
            λ q ne. update_other w1.sgs sg none q ne ∙ update_other w.sgs sg (some blank_sg) q ne;
        same_nodes = refl;
        same_lookups = refl;
        same_similar = refl;
        same_next = refl;
        placed = refl;
      },
    )
keep_orphans-Keeps sg [] (d ∷ ds) w real e h = absurd h
keep_orphans-Keeps sg (g ∷ gs) [] w real e h = absurd h
keep_orphans-Keeps sg (g ∷ gs) (d ∷ ds) w real e h =
    let there : (sg == null) ≡ false = ground arith in
    let some_group : (suc (length gs) == 0) ≡ false = ground arith in
    let w1 : GroupMan = with_sgs w (update w.sgs sg (some (orphan_sg (g ∷ gs)))) in
    let w2 : GroupMan = set_sgl path (w.path_sgl ++ sg ∷ []) w1 in
    (
      w2,
      rw
          (
            load_sg-ok w sg e,
            some_group,
            load_sg-ok w sg e,
            store_sg-ok w sg (orphan_sg (g ∷ gs)) e,
            there,
          )
          refl,
      record {
        same_nds = refl;
        same_ngs = refl;
        other_sgs = λ q ne. update_other w.sgs sg (some (orphan_sg (g ∷ gs))) q ne;
        same_nodes = refl;
        same_lookups = refl;
        same_similar = refl;
        same_next = refl;
        placed = (g ∷ gs, refl, update_self w.sgs sg (some (orphan_sg (g ∷ gs))), h);
      },
    )

-- What a call leaves.
pub record Sanitized (w w' : GroupMan) (ms : List NodeDef) : Type 0 where
  pub placed : Placed w.next w w' ms
  pub all_nodes_kept : w'.all_nodes ≡ w.all_nodes
  pub lookups_kept : w'.nid2loc ≡ w.nid2loc
  pub similar_kept : w'.similar_sgl ≡ w.similar_sgl
  pub grows : w.next ≤ w'.next
  pub old_nds : (q : Addr) → q < w.next → w'.nds q ≡ w.nds q
  pub old_ngs : (q : Addr) → q < w.next → w'.ngs q ≡ w.ngs q
  pub old_sgs : (q : Addr) → q < w.next → w'.sgs q ≡ w.sgs q

Placed-from :
    (sg : Addr) (w w1 w' : GroupMan) (ms : List NodeDef)
    → w1.path_sgl ≡ w.path_sgl
    → Placed sg w1 w' ms
    → Placed sg w w' ms
Placed-from sg w w1 w' [] e p = p ∙ e
Placed-from sg w w1 w' (d ∷ ds) e (gs, on_path, host, h) =
    (gs, on_path ∙ ap (λ (l : List Addr). l ++ sg ∷ []) e, host, h)

-- Given a flowchart, where no address in use is NULL, sanitizing does not fault and returns true. If
-- the manager knows every block, the path stays; else the path gets one more super group, synthetic,
-- with a group of its own for each block that the manager does not know, in order, its node having
-- the number and the bounds of the block. The objects that were there, the map of all nodes and the
-- lookups do not change: the map does not get the added nodes.
pub sanitize_groupman-Sanitized :
    (chart : ℕ → Option FlowChart) (func_ea : ℕ) (fc : FlowChart) (w : GroupMan)
    → 0 < w.next
    → (w' : GroupMan) × (sanitize_groupman chart func_ea (some fc) w ≡ ok true w')
      × Sanitized w w' (missing w.all_nodes 0 fc)
unfolding sanitize_groupman sanitize_chart new_sg
sanitize_groupman-Sanitized chart func_ea fc w real =
    let sg = w.next in
    let w0 : GroupMan = record w {
      heap = record w.heap { sgs = update w.sgs sg (some blank_sg); next = suc sg };
    } in
    let (w1, run1, c) =
      add_missing-Completes sg 0 fc blank_sg w0 (omega arith)
        (update_self w.sgs sg (some blank_sg)) in
    let (w', run', k) =
      keep_orphans-Keeps sg c.gs (missing w.all_nodes 0 fc) w1 (omega (arith, real)) c.host
        c.singles in
    (
      w',
      rw (run1, run') refl,
      record {
        placed = Placed-from sg w w1 w' (missing w.all_nodes 0 fc) c.frame.path_kept k.placed;
        all_nodes_kept = k.same_nodes ∙ c.frame.nodes_kept;
        lookups_kept = k.same_lookups ∙ c.frame.lookups_kept;
        similar_kept = k.same_similar ∙ c.frame.similar_kept;
        grows = omega (arith, c.frame.grows, k.same_next);
        old_nds = λ q lt.
            ap (λ (f : Addr → Option NodeDef). f q) k.same_nds
            ∙ c.frame.nds_kept q (omega (arith, lt));
        old_ngs = λ q lt.
            ap (λ (f : Addr → Option (List Addr)). f q) k.same_ngs
            ∙ c.frame.ngs_kept q (omega (arith, lt));
        old_sgs = λ q lt.
            let ne : q ≢ sg = omega (arith, lt) in
            k.other_sgs q ne ∙ c.frame.sgs_kept q ne ∙ update_other w.sgs sg (some blank_sg) q ne;
      },
    )
