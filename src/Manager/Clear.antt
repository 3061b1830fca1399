-- ===== src/Manager/Clear.antt =====
-- `clear_sgl` and `clear` of groupman.cpp free what the lists own, each object once.
use mathlib.Core.List.{append_assoc}
use graph_slick.Base.{subst, ◌≡◌, refl, ap, ◌∙◌, Option, none, List, [], ◌∷◌, ◌++◌, All, arith}
use graph_slick.Heap.{Addr, Heap, GroupMan, ok}
use graph_slick.Heap.Freed.{◌∉◌, Disjoint, Distinct, Freed, Distinct-append, Filled-trans}
use graph_slick.Groups.Owned.{
  Branch, Tree, groups_in, nodes_in, sgs_of, groups_of_trees, nodes_of_trees, IsTree, Spares,
  trees_frame,
}
use graph_slick.Groups.Freeing.{Freed-Spares, with_all, delete_sg-Freed}
use graph_slick.Manager.{delete_sgs, clear_sgl, clear}

-- no object lies at two places of the trees
pub record IsOwned (ts : List Tree) : Type 0 where
  pub sgs_Distinct : Distinct (sgs_of ts)
  pub groups_Distinct : Distinct (groups_of_trees ts)
  pub nodes_Distinct : Distinct (nodes_of_trees ts)

-- the super groups, groups and nodes of the trees are gone, all other objects are as they were
pub record Frees (ts : List Tree) (h h' : Heap) : Type 0 where
  pub sgs_Freed : Freed (sgs_of ts) h.sgs h'.sgs
  pub groups_Freed : Freed (groups_of_trees ts) h.ngs h'.ngs
  pub nodes_Freed : Freed (nodes_of_trees ts) h.nds h'.nds
  pub next_kept : h'.next ≡ h.next

IsOwned-tail :
    (sg : Addr) (bs : List Branch) (ts : List Tree) → IsOwned ((sg, bs) ∷ ts) → IsOwned ts
IsOwned-tail sg bs ts o = record {
  sgs_Distinct = o.sgs_Distinct.1;
  groups_Distinct = (Distinct-append (groups_in bs) (groups_of_trees ts) o.groups_Distinct).1;
  nodes_Distinct = (Distinct-append (nodes_in bs) (nodes_of_trees ts) o.nodes_Distinct).1;
}

Freed-one-Spares :
    {A : Type 0} (p : Addr) (xs : List Addr) (f g : Addr → Option A)
    → p ∉ xs
    → Freed (p ∷ []) f g
    → Spares xs f g
Freed-one-Spares p xs f g out freed =
    Freed-Spares (p ∷ []) xs f g (λ a i. ground (arith, i, out)) freed

pub delete_sgs-Frees :
    (ts : List Tree) (w : GroupMan)
    → All (IsTree w.heap) ts
    → IsOwned ts
    → (h : Heap) × (delete_sgs (sgs_of ts) w ≡ ok tt (record w { heap = h })) × Frees ts w.heap h
unfolding delete_sgs
delete_sgs-Frees [] w all o = (
  w.heap,
  refl,
  record {
    sgs_Freed = λ a. refl;
    groups_Freed = λ a. refl;
    nodes_Freed = λ a. refl;
    next_kept = refl;
  },
)
delete_sgs-Frees ((sg, bs) ∷ ts) w (t, all) o =
    let (dg, _, apart_g) = Distinct-append (groups_in bs) (groups_of_trees ts) o.groups_Distinct in
    let (dn, _, apart_n) = Distinct-append (nodes_in bs) (nodes_of_trees ts) o.nodes_Distinct in
    let (f, g, k, run, freed_n, freed_g, freed_s) = delete_sg-Freed sg bs w t dg dn in
    let w1 : GroupMan = with_all w f g k in
    let all1 =
      trees_frame w.heap w1.heap ts
        (Freed-one-Spares sg (sgs_of ts) w.sgs k o.sgs_Distinct.0 freed_s)
        (Freed-Spares (groups_in bs) (groups_of_trees ts) w.ngs g apart_g freed_g)
        (Freed-Spares (nodes_in bs) (nodes_of_trees ts) w.nds f apart_n freed_n) all in
    let (h, run1, fr) = delete_sgs-Frees ts w1 all1 (IsOwned-tail sg bs ts o) in
    (
      h,
      rw run run1,
      record {
        sgs_Freed = Filled-trans none (sg ∷ []) (sgs_of ts) w.sgs k h.sgs freed_s fr.sgs_Freed;
        groups_Freed =
            Filled-trans none (groups_in bs) (groups_of_trees ts) w.ngs g h.ngs freed_g
              fr.groups_Freed;
        nodes_Freed =
            Filled-trans none (nodes_in bs) (nodes_of_trees ts) w.nds f h.nds freed_n
              fr.nodes_Freed;
        next_kept = fr.next_kept;
      },
    )

sgs_of-append : (ts us : List Tree) → sgs_of (ts ++ us) ≡ sgs_of ts ++ sgs_of us
sgs_of-append [] us = refl
sgs_of-append ((sg, bs) ∷ ts) us = rw (sgs_of-append ts us) refl

groups_of_trees-append :
    (ts us : List Tree) → groups_of_trees (ts ++ us) ≡ groups_of_trees ts ++ groups_of_trees us
groups_of_trees-append [] us = refl
groups_of_trees-append ((sg, bs) ∷ ts) us = rw (groups_of_trees-append ts us) (simp (append_assoc))

nodes_of_trees-append :
    (ts us : List Tree) → nodes_of_trees (ts ++ us) ≡ nodes_of_trees ts ++ nodes_of_trees us
nodes_of_trees-append [] us = refl
nodes_of_trees-append ((sg, bs) ∷ ts) us = rw (nodes_of_trees-append ts us) (simp (append_assoc))

-- the trees of two lists are apart
IsOwned-append :
    (ts us : List Tree)
    → IsOwned (ts ++ us)
    → IsOwned ts
      × IsOwned us
      × Disjoint (sgs_of ts) (sgs_of us)
      × Disjoint (groups_of_trees ts) (groups_of_trees us)
      × Disjoint (nodes_of_trees ts) (nodes_of_trees us)
IsOwned-append ts us o =
    let s = subst Distinct (sgs_of-append ts us) o.sgs_Distinct in
    let g = subst Distinct (groups_of_trees-append ts us) o.groups_Distinct in
    let n = subst Distinct (nodes_of_trees-append ts us) o.nodes_Distinct in
    let (ds, es, apart_s) = Distinct-append (sgs_of ts) (sgs_of us) s in
    let (dg, eg, apart_g) = Distinct-append (groups_of_trees ts) (groups_of_trees us) g in
    let (dn, en, apart_n) = Distinct-append (nodes_of_trees ts) (nodes_of_trees us) n in
    (
      record { sgs_Distinct = ds; groups_Distinct = dg; nodes_Distinct = dn },
      record { sgs_Distinct = es; groups_Distinct = eg; nodes_Distinct = en },
      apart_s,
      apart_g,
      apart_n,
    )

Frees-append :
    (ts us : List Tree) (h h1 h2 : Heap) → Frees ts h h1 → Frees us h1 h2 → Frees (ts ++ us) h h2
Frees-append ts us h h1 h2 a b = record {
  sgs_Freed =
      rw (sgs_of-append ts us)
        (Filled-trans none (sgs_of ts) (sgs_of us) h.sgs h1.sgs h2.sgs a.sgs_Freed b.sgs_Freed);
  groups_Freed = rw (groups_of_trees-append ts us) (
      Filled-trans none (groups_of_trees ts) (groups_of_trees us) h.ngs h1.ngs h2.ngs a.groups_Freed
        b.groups_Freed);
  nodes_Freed = rw (nodes_of_trees-append ts us) (
      Filled-trans none (nodes_of_trees ts) (nodes_of_trees us) h.nds h1.nds h2.nds a.nodes_Freed
        b.nodes_Freed);
  next_kept = b.next_kept ∙ a.next_kept;
}

-- Where the two lists of super groups hold the trees `ts` and `us`, whose super groups, groups and
-- nodes are all there and at different addresses, `clear` does not fault: it frees each of these
-- objects once and no other, and leaves both lists and the map of nodes empty; the map of locations stays.
pub clear-Frees :
    (ts us : List Tree) (w : GroupMan)
    → w.path_sgl ≡ sgs_of ts
    → w.similar_sgl ≡ sgs_of us
    → All (IsTree w.heap) ts
    → All (IsTree w.heap) us
    → IsOwned (ts ++ us)
    → (h : Heap) × (clear w
        ≡ ok tt (record w { heap = h; path_sgl = []; similar_sgl = []; all_nodes = [] }))
      × Frees (ts ++ us) w.heap h
unfolding clear clear_sgl
clear-Frees ts us w ep es all_t all_u o =
    let (ot, ou, apart_s, apart_g, apart_n) = IsOwned-append ts us o in
    let (h, run, fr) = delete_sgs-Frees ts w all_t ot in
    let w1 : GroupMan = record w { heap = h; path_sgl = [] } in
    let all_u1 =
      trees_frame w.heap h us
        (Freed-Spares (sgs_of ts) (sgs_of us) w.sgs h.sgs apart_s fr.sgs_Freed)
        (Freed-Spares (groups_of_trees ts) (groups_of_trees us) w.ngs h.ngs apart_g fr.groups_Freed)
        (Freed-Spares (nodes_of_trees ts) (nodes_of_trees us) w.nds h.nds apart_n fr.nodes_Freed)
        all_u in
    let (k, run1, fr1) = delete_sgs-Frees us w1 all_u1 ou in
    let run' = ap (λ (l : List Addr). delete_sgs l w) ep ∙ run in
    let run1' = ap (λ (l : List Addr). delete_sgs l w1) es ∙ run1 in
    (k, rw (run', run1') refl, Frees-append ts us w.heap h k fr fr1)
