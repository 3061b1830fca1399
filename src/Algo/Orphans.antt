-- ===== src/Algo/Orphans.antt =====
-- What `sanitize_groupman` adds: a group of its own for each node that the manager does not know.
use graph_slick.Base.{
  ℕ, suc, ◌<◌, ◌≤◌, ◌≡◌, ◌≢◌, refl, sym, subst, ap, ◌∙◌, Option-cases, inl, inr, none, some, List,
  [], ◌∷◌, ◌++◌, arith, ◌==◌, false, ℤ, pos,
}
use mathlib.Core.List.{append_assoc, append-nil}
use graph_slick.OrdMap.{Map, find, int_ord}
use graph_slick.Heap.{
  Addr, null, NodeDef, SuperGroup, Heap, GroupMan, ok, update, with_nds, with_ngs, with_sgs, new_nd,
  new_ng,
}
use graph_slick.Heap.Laws.{
  update_self, update_other, load_sg-ok, load_ng-ok, store_nd-ok, store_ng-ok, store_sg-ok,
}
use graph_slick.Groups.{add_node, add_nodegroup}
use graph_slick.Algo.{Block, FlowChart, add_orphan, add_missing}

abbrev pub node_of : ℕ → Block → NodeDef
node_of n b = record { nid = pos n; start = b.start; end = b.end }

abbrev pub with_groups : SuperGroup → List Addr → SuperGroup
with_groups s gs = record s { groups = s.groups ++ gs }

-- the manager and the objects that were there before, but for the super group `sg`
pub record Frame (sg : Addr) (w w' : GroupMan) : Type 0 where
  pub nds_kept : (q : Addr) → q < w.next → w'.nds q ≡ w.nds q
  pub ngs_kept : (q : Addr) → q < w.next → w'.ngs q ≡ w.ngs q
  pub sgs_kept : (q : Addr) → q ≢ sg → w'.sgs q ≡ w.sgs q
  pub grows : w.next ≤ w'.next
  pub nodes_kept : w'.all_nodes ≡ w.all_nodes
  pub path_kept : w'.path_sgl ≡ w.path_sgl
  pub similar_kept : w'.similar_sgl ≡ w.similar_sgl
  pub lookups_kept : w'.nid2loc ≡ w.nid2loc

Frame-refl : (sg : Addr) (w : GroupMan) → Frame sg w w
Frame-refl sg w = record {
  nds_kept = λ q lt. refl;
  ngs_kept = λ q lt. refl;
  sgs_kept = λ q ne. refl;
  grows = omega arith;
  nodes_kept = refl;
  path_kept = refl;
  similar_kept = refl;
  lookups_kept = refl;
}

Frame-trans : (sg : Addr) (u v w : GroupMan) → Frame sg u v → Frame sg v w → Frame sg u w
Frame-trans sg u v w f g = record {
  nds_kept = λ q lt. g.nds_kept q (omega (arith, f.grows, lt)) ∙ f.nds_kept q lt;
  ngs_kept = λ q lt. g.ngs_kept q (omega (arith, f.grows, lt)) ∙ f.ngs_kept q lt;
  sgs_kept = λ q ne. g.sgs_kept q ne ∙ f.sgs_kept q ne;
  grows = omega (arith, f.grows, g.grows);
  nodes_kept = g.nodes_kept ∙ f.nodes_kept;
  path_kept = g.path_kept ∙ f.path_kept;
  similar_kept = g.similar_kept ∙ f.similar_kept;
  lookups_kept = g.lookups_kept ∙ f.lookups_kept;
}

-- each group of the first list has one node, which is the entry of the second list
abbrev pub Singles : Heap → List Addr → List NodeDef → Type 0
Singles h [] [] = Unit
Singles h [] (_ ∷ _) = ⊥
Singles h (_ ∷ _) [] = ⊥
Singles h (g ∷ gs) (d ∷ ds) =
    (p : Addr) × (p ≢ null) × (h.ngs g ≡ some (p ∷ [])) × (h.nds p ≡ some d) × Singles h gs ds

-- the blocks whose number the map does not have
unfoldable pub missing : Map ℤ Addr → ℕ → FlowChart → List NodeDef
missing m n [] = []
missing m n (b ∷ bs) = elim (find (pos n) m) [
  | some _ ↦ missing m (suc n) bs
  | none ↦ node_of n b ∷ missing m (suc n) bs
]

missing-known :
    (m : Map ℤ Addr) (n : ℕ) (b : Block) (bs : FlowChart) (p : Addr)
    → find (pos n) m ≡ some p
    → missing m n (b ∷ bs) ≡ missing m (suc n) bs
unfolding missing
missing-known m n b bs p e = rw (e, missing) refl

missing-unknown :
    (m : Map ℤ Addr) (n : ℕ) (b : Block) (bs : FlowChart)
    → find (pos n) m ≡ none
    → missing m n (b ∷ bs) ≡ node_of n b ∷ missing m (suc n) bs
unfolding missing
missing-unknown m n b bs e = rw (e, missing) refl

pub record Adds (sg : Addr) (n : ℕ) (b : Block) (s : SuperGroup) (w w' : GroupMan) : Type 0 where
  pub frame : Frame sg w w'
  pub group : w'.ngs (suc w.next) ≡ some (w.next ∷ [])
  pub node : w'.nds w.next ≡ some (node_of n b)
  pub host : w'.sgs sg ≡ some (with_groups s (suc w.next ∷ []))
  pub next : w'.next ≡ suc (suc w.next)

add_orphan-Adds :
    (sg : Addr) (n : ℕ) (b : Block) (s : SuperGroup) (w : GroupMan)
    → 0 < w.next
    → w.sgs sg ≡ some s
    → (w' : GroupMan) × (add_orphan sg n b w ≡ ok tt w') × Adds sg n b s w w'
unfolding add_orphan new_nd new_ng add_nodegroup add_node
add_orphan-Adds sg n b s w real e =
    let blank : NodeDef = record { nid = pos 0; start = 0; end = 0 } in
    let wa : GroupMan = record w {
      heap = record w.heap { nds = update w.nds w.next (some blank); next = suc w.next };
    } in
    let wb : GroupMan = with_nds wa (update wa.nds w.next (some (node_of n b))) in
    let wc : GroupMan = record wb {
      heap = record wb.heap { ngs = update w.ngs (suc w.next) (some []); next = suc (suc w.next) };
    } in
    let wd : GroupMan = with_sgs wc (update w.sgs sg (some (with_groups s (suc w.next ∷ [])))) in
    let we : GroupMan = with_ngs wd (update wd.ngs (suc w.next) (some (w.next ∷ []))) in
    let there : (w.next == null) ≡ false = ground arith in
    (
      we,
      rw
          (
            store_nd-ok wa w.next (node_of n b) (update_self w.nds w.next (some blank)),
            load_sg-ok wc sg e,
            store_sg-ok wc sg (with_groups s (suc w.next ∷ [])) e,
            there,
            load_ng-ok wd (suc w.next) (update_self w.ngs (suc w.next) (some [])),
            store_ng-ok wd (suc w.next) (w.next ∷ []) (update_self w.ngs (suc w.next) (some [])),
          )
          refl,
      record {
        frame = record {
          nds_kept = λ q lt.
              let ne : q ≢ w.next = omega (arith, lt) in
              update_other wa.nds w.next (some (node_of n b)) q ne
              ∙ update_other w.nds w.next (some blank) q ne;
          ngs_kept = λ q lt.
              let ne : q ≢ suc w.next = omega (arith, lt) in
              update_other wd.ngs (suc w.next) (some (w.next ∷ [])) q ne
              ∙ update_other w.ngs (suc w.next) (some []) q ne;
          sgs_kept = λ q ne. update_other w.sgs sg (some (with_groups s (suc w.next ∷ []))) q ne;
          grows = omega arith;
          nodes_kept = refl;
          path_kept = refl;
          similar_kept = refl;
          lookups_kept = refl;
        };
        group = update_self wd.ngs (suc w.next) (some (w.next ∷ []));
        node = update_self wa.nds w.next (some (node_of n b));
        host = update_self w.sgs sg (some (with_groups s (suc w.next ∷ [])));
        next = refl;
      },
    )

-- what the loop over the blocks has done: new groups for the missing nodes, at the end of `sg`
pub record Completes (sg : Addr) (s : SuperGroup) (w w' : GroupMan) (ms : List NodeDef)
    : Type 0 where
  pub gs : List Addr
  pub host : w'.sgs sg ≡ some (with_groups s gs)
  pub singles : Singles w'.heap gs ms
  pub frame : Frame sg w w'

pub add_missing-Completes :
    (sg : Addr) (n : ℕ) (fc : FlowChart) (s : SuperGroup) (w : GroupMan)
    → 0 < w.next
    → w.sgs sg ≡ some s
    → (w' : GroupMan) × (add_missing sg n fc w ≡ ok tt w')
      × Completes sg s w w' (missing w.all_nodes n fc)
unfolding add_missing missing
add_missing-Completes sg n [] s w real e = (
  w,
  refl,
  record {
    gs = [];
    host = e ∙ ap (λ (l : List Addr). some (record s { groups = l })) (sym (append-nil s.groups));
    singles = tt;
    frame = Frame-refl sg w;
  },
)
add_missing-Completes sg n (b ∷ bs) s w real e = elim (Option-cases (find (pos n) w.all_nodes)) [
  | inr (p, known) ↦
      rw (known, missing-known w.all_nodes n b bs p known)
        (add_missing-Completes sg (suc n) bs s w real e)
  | inl unknown ↦
      let (w1, run1, a) = add_orphan-Adds sg n b s w real e in
      let (w', run, c) =
        add_missing-Completes sg (suc n) bs (with_groups s (suc w.next ∷ [])) w1
          (omega (arith, a.next)) a.host in
      let kept = ap (λ (m : Map ℤ Addr). missing m (suc n) bs) a.frame.nodes_kept in
      (
        w',
        rw (unknown, run1) run,
        rw (missing-unknown w.all_nodes n b bs unknown) (record {
          gs = suc w.next ∷ c.gs;
          host =
              c.host
              ∙ ap (λ (l : List Addr). some (record s { groups = l }))
                  (append_assoc s.groups (suc w.next ∷ []) c.gs);
          singles = (
            w.next,
            omega (arith, real),
            c.frame.ngs_kept (suc w.next) (omega (arith, a.next)) ∙ a.group,
            c.frame.nds_kept w.next (omega (arith, a.next)) ∙ a.node,
            subst (Singles w'.heap c.gs) kept c.singles,
          );
          frame = Frame-trans sg w w1 w' a.frame c.frame;
        }),
      )
]
