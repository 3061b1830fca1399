-- ===== src/Manager/Forget.antt =====
-- The first half of `reset_groupping` of groupman.cpp: the groups are emptied before they are
-- deleted, so that the nodes stay.
use graph_slick.Base.{◌≡◌, refl, sym, ap, subst, ◌∙◌, Option, some, none, List, [], ◌∷◌, All, arith}
use graph_slick.Heap.{Addr, Heap, GroupMan, ok, update, with_ngs}
use graph_slick.Heap.Laws.{load_sg-ok, store_ng-ok}
use graph_slick.Heap.Freed.{
  ◌∈◌, has-append, Filled-in, Distinct, Filled, Freed, Distinct-append, Filled-update, Filled-trans,
  Filled-out,
}
use graph_slick.Groups.Owned.{
  Branch, Tree, groups_in, nodes_in, sgs_of, groups_of_trees, nodes_of_trees, IsBranch, IsTree,
  Spares, branches_frame, trees_frame,
}
use graph_slick.Groups.Freeing.{update-Spares}
use graph_slick.Manager.{delete_sgs}
use graph_slick.Manager.Clear.{IsOwned, delete_sgs-Frees}
use graph_slick.Manager.Regroup.{forget_nodes, forget_groups}

forget_nodes-Filled :
    (bs : List Branch) (w : GroupMan)
    → All (IsBranch w.heap) bs
    → Distinct (groups_in bs)
    → (g : (Addr → Option (List Addr))) × (forget_nodes (groups_in bs) w ≡ ok tt (with_ngs w g))
      × Filled (some []) (groups_in bs) w.ngs g
unfolding forget_nodes
forget_nodes-Filled [] w all d = (w.ngs, refl, λ a. refl)
forget_nodes-Filled ((ng, l) ∷ bs) w ((real, e, ns), all) (out, d) =
    let w1 : GroupMan = with_ngs w (update w.ngs ng (some [])) in
    let all1 =
      branches_frame w.heap w1.heap bs (update-Spares w.ngs ng (some []) (groups_in bs) out)
        (λ a i. refl) all in
    let (g, run, filled) = forget_nodes-Filled bs w1 all1 d in
    (
      g,
      rw (store_ng-ok w ng [] e) run,
      Filled-trans (some []) (ng ∷ []) (groups_in bs) w.ngs w1.ngs g
          (Filled-update w.ngs ng (some [])) filled,
    )

forget_groups-Filled :
    (ts : List Tree) (w : GroupMan)
    → All (IsTree w.heap) ts
    → Distinct (groups_of_trees ts)
    → (g : (Addr → Option (List Addr))) × (forget_groups (sgs_of ts) w ≡ ok tt (with_ngs w g))
      × Filled (some []) (groups_of_trees ts) w.ngs g
unfolding forget_groups
forget_groups-Filled [] w all d = (w.ngs, refl, λ a. refl)
forget_groups-Filled ((sg, bs) ∷ ts) w ((real, (s, e, shape, b)), all) d =
    let (db, dt, apart) = Distinct-append (groups_in bs) (groups_of_trees ts) d in
    let (g1, run1, filled1) = forget_nodes-Filled bs w b db in
    let w1 : GroupMan = with_ngs w g1 in
    let stay : Spares (groups_of_trees ts) w.ngs g1 =
      λ a i. Filled-out (some []) (groups_in bs) w.ngs g1 filled1 a (ground (arith, i, apart a)) in
    let all1 = trees_frame w.heap w1.heap ts (λ a i. refl) stay (λ a i. refl) all in
    let (g, run, filled) = forget_groups-Filled ts w1 all1 dt in
    (
      g,
      rw (load_sg-ok w sg e, shape, run1) run,
      Filled-trans (some []) (groups_in bs) (groups_of_trees ts) w.ngs g1 g filled1 filled,
    )

-- the same trees with no nodes
abbrev pub bare : List Branch → List Branch
bare [] = []
bare ((ng, _) ∷ bs) = (ng, []) ∷ bare bs

abbrev pub bare_trees : List Tree → List Tree
bare_trees [] = []
bare_trees ((sg, bs) ∷ ts) = (sg, bare bs) ∷ bare_trees ts

groups_in-bare : (bs : List Branch) → groups_in (bare bs) ≡ groups_in bs
groups_in-bare [] = refl
groups_in-bare ((ng, l) ∷ bs) = rw (groups_in-bare bs) refl

nodes_in-bare : (bs : List Branch) → nodes_in (bare bs) ≡ []
nodes_in-bare [] = refl
nodes_in-bare ((ng, l) ∷ bs) = nodes_in-bare bs

sgs_of-bare : (ts : List Tree) → sgs_of (bare_trees ts) ≡ sgs_of ts
sgs_of-bare [] = refl
sgs_of-bare ((sg, bs) ∷ ts) = rw (sgs_of-bare ts) refl

groups_of_trees-bare : (ts : List Tree) → groups_of_trees (bare_trees ts) ≡ groups_of_trees ts
groups_of_trees-bare [] = refl
groups_of_trees-bare ((sg, bs) ∷ ts) = rw (groups_in-bare bs, groups_of_trees-bare ts) refl

nodes_of_trees-bare : (ts : List Tree) → nodes_of_trees (bare_trees ts) ≡ []
nodes_of_trees-bare [] = refl
nodes_of_trees-bare ((sg, bs) ∷ ts) = rw (nodes_in-bare bs, nodes_of_trees-bare ts) refl

bare-IsBranch :
    (h h' : Heap) (bs : List Branch)
    → ((a : Addr) → a ∈ groups_in bs → h'.ngs a ≡ some [])
    → All (IsBranch h) bs
    → All (IsBranch h') (bare bs)
bare-IsBranch h h' [] empty all = tt
bare-IsBranch h h' ((ng, l) ∷ bs) empty ((real, _, _), all) = (
  (real, empty ng (ground arith), tt),
  bare-IsBranch h h' bs (λ a i. empty a (ground (arith, i))) all,
)

bare-IsTree :
    (h h' : Heap) (ts : List Tree)
    → ((a : Addr) → h'.sgs a ≡ h.sgs a)
    → ((a : Addr) → a ∈ groups_of_trees ts → h'.ngs a ≡ some [])
    → All (IsTree h) ts
    → All (IsTree h') (bare_trees ts)
bare-IsTree h h' [] same empty all = tt
bare-IsTree h h' ((sg, bs) ∷ ts) same empty ((real, (s, e, shape, b)), all) =
    let split = λ (a : Addr). has-append a (groups_in bs) (groups_of_trees ts) in
    (
      (
        real,
        (
          s,
          same sg ∙ e,
          shape ∙ sym (groups_in-bare bs),
          bare-IsBranch h h' bs (λ a i. empty a (ground (arith, i, split a))) b,
        ),
      ),
      bare-IsTree h h' ts same (λ a i. empty a (ground (arith, i, split a))) all,
    )

-- the nodes of the trees stay, their groups and super groups go
pub record FreesGroups (ts : List Tree) (h h' : Heap) : Type 0 where
  pub sgs_Freed : Freed (sgs_of ts) h.sgs h'.sgs
  pub groups_Freed : Freed (groups_of_trees ts) h.ngs h'.ngs
  pub nds_kept : (a : Addr) → h'.nds a ≡ h.nds a
  pub next_kept : h'.next ≡ h.next

Filled-twice :
    {A : Type 0} (c d : Option A) (xs : List Addr) (f g h : Addr → Option A)
    → Filled c xs f g
    → Filled d xs g h
    → Filled d xs f h
Filled-twice c d xs f g h s t a = ground (arith, s a, t a)

pub forget_groups-FreesGroups :
    (ts : List Tree) (w : GroupMan)
    → All (IsTree w.heap) ts
    → IsOwned ts
    → (g : (Addr → Option (List Addr))) × (h : Heap) × (forget_groups (sgs_of ts) w
        ≡ ok tt (with_ngs w g))
      × (delete_sgs (sgs_of ts) (with_ngs w g) ≡ ok tt (record w { heap = h }))
      × FreesGroups ts w.heap h
forget_groups-FreesGroups ts w all o =
    let (g, run, filled) = forget_groups-Filled ts w all o.groups_Distinct in
    let w1 : GroupMan = with_ngs w g in
    let all1 =
      bare-IsTree w.heap w1.heap ts (λ a. refl)
        (λ a i. Filled-in (some []) (groups_of_trees ts) w.ngs g filled a i) all in
    let o1 : IsOwned (bare_trees ts) = record {
      sgs_Distinct = rw (sgs_of-bare ts) o.sgs_Distinct;
      groups_Distinct = rw (groups_of_trees-bare ts) o.groups_Distinct;
      nodes_Distinct = rw (nodes_of_trees-bare ts) tt;
    } in
    let (h, run1, fr) = delete_sgs-Frees (bare_trees ts) w1 all1 o1 in
    let fs = subst (λ (l : List Addr). Freed l w.sgs h.sgs) (sgs_of-bare ts) fr.sgs_Freed in
    let fg = subst (λ (l : List Addr). Freed l g h.ngs) (groups_of_trees-bare ts) fr.groups_Freed in
    let fn =
      subst (λ (l : List Addr). Freed l w.nds h.nds) (nodes_of_trees-bare ts) fr.nodes_Freed in
    (
      g,
      h,
      run,
      ap (λ (l : List Addr). delete_sgs l w1) (sym (sgs_of-bare ts)) ∙ run1,
      record {
        sgs_Freed = fs;
        groups_Freed = Filled-twice (some []) none (groups_of_trees ts) w.ngs g h.ngs filled fg;
        nds_kept = fn;
        next_kept = fr.next_kept;
      },
    )
