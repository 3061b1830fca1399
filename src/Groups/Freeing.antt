-- ===== src/Groups/Freeing.antt =====
-- Deleting groups and super groups frees all that hangs on them.
use graph_slick.Base.{◌≡◌, refl, true, false, Option, some, none, List, [], ◌∷◌, All, arith, ◌==◌}
use graph_slick.Heap.{
  Addr, null, NodeDef, SuperGroup, GroupMan, ok, update, with_nds, with_ngs, with_sgs,
}
use graph_slick.Heap.Laws.{
  update_self, update_other, load_ng-ok, load_sg-ok, store_sg-ok, delete_nd-ok, delete_ng-ok,
  free_sg-ok,
}
use graph_slick.Heap.Freed.{
  ◌∉◌, Disjoint, Distinct, Freed, Distinct-append, Filled-update, Filled-trans, Filled-out,
}
use graph_slick.View.{IsNode}
use graph_slick.Groups.{delete_nds, free_nodes, free_nodegroup, clear_sg, delete_sg}
use graph_slick.Groups.Owned.{
  Branch, groups_in, nodes_in, IsBranch, IsTree, Spares, nodes_frame, branches_frame,
}

-- what is not freed is spared
pub Freed-Spares :
    {A : Type 0} (xs ys : List Addr) (f g : Addr → Option A)
    → Disjoint xs ys
    → Freed xs f g
    → Spares ys f g
Freed-Spares xs ys f g apart freed a i = Filled-out none xs f g freed a (ground (arith, i, apart a))

-- the other cells, where one is freed
pub update-Spares :
    {A : Type 0} (f : Addr → Option A) (p : Addr) (c : Option A) (xs : List Addr)
    → p ∉ xs
    → Spares xs f (update f p c)
update-Spares f p c xs out a i = update_other f p c a (λ e. ground (arith, out, i, e))

delete_nds-Freed :
    (l : List Addr) (w : GroupMan)
    → All (IsNode w.heap) l
    → Distinct l
    → (f : (Addr → Option NodeDef)) × (delete_nds l w ≡ ok tt (with_nds w f)) × Freed l w.nds f
unfolding delete_nds
delete_nds-Freed [] w all d = (w.nds, refl, λ a. refl)
delete_nds-Freed (p ∷ l) w ((real, (c, e)), all) (out, d) =
    let w1 : GroupMan = with_nds w (update w.nds p none) in
    let all1 = nodes_frame w.heap w1.heap l (update-Spares w.nds p none l out) all in
    let (f, run, freed) = delete_nds-Freed l w1 all1 d in
    (
      f,
      rw (delete_nd-ok w p real e) run,
      Filled-trans none (p ∷ []) l w.nds w1.nds f (Filled-update w.nds p none) freed,
    )

-- the manager with other cells of nodes and groups
abbrev pub with_cells : GroupMan → (Addr → Option NodeDef) → (Addr → Option (List Addr)) → GroupMan
with_cells w f g = record w { heap = record w.heap { nds = f; ngs = g } }

pub free_nodegroup-Freed :
    (bs : List Branch) (w : GroupMan)
    → All (IsBranch w.heap) bs
    → Distinct (groups_in bs)
    → Distinct (nodes_in bs)
    → (f : (Addr → Option NodeDef)) × (g : (Addr → Option (List Addr))) × (free_nodegroup true
          (groups_in bs)
          w
        ≡ ok tt (with_cells w f g))
      × Freed (nodes_in bs) w.nds f
      × Freed (groups_in bs) w.ngs g
unfolding free_nodegroup free_nodes
free_nodegroup-Freed [] w all dg dn = (w.nds, w.ngs, refl, (λ a. refl), λ a. refl)
free_nodegroup-Freed ((ng, l) ∷ bs) w ((real, e, ns), all) (out, dg) dn =
    let (dl, db, apart) = Distinct-append l (nodes_in bs) dn in
    let (f1, run1, freed1) = delete_nds-Freed l w ns dl in
    let w1 : GroupMan = with_nds w f1 in
    let w2 : GroupMan = with_ngs w1 (update w.ngs ng none) in
    let all2 =
      branches_frame w.heap w2.heap bs (update-Spares w.ngs ng none (groups_in bs) out)
        (Freed-Spares l (nodes_in bs) w.nds f1 apart freed1) all in
    let (f, g, run, freed_nodes, freed_groups) = free_nodegroup-Freed bs w2 all2 dg db in
    (
      f,
      g,
      rw (load_ng-ok w ng e, run1, delete_ng-ok w1 ng real e) run,
      Filled-trans none l (nodes_in bs) w.nds f1 f freed1 freed_nodes,
      Filled-trans none (ng ∷ []) (groups_in bs) w.ngs w2.ngs g (Filled-update w.ngs ng none)
          freed_groups,
    )

Freed-twice :
    {A : Type 0} (f : Addr → Option A) (p : Addr) (c : Option A)
    → Freed (p ∷ []) f (update (update f p c) p none)
unfolding update
Freed-twice f p c a = ground arith

-- the manager with other cells of all classes
abbrev pub with_all :
    GroupMan
    → (Addr → Option NodeDef)
    → (Addr → Option (List Addr))
    → (Addr → Option SuperGroup)
    → GroupMan
with_all w f g s = record w { heap = record w.heap { nds = f; ngs = g; sgs = s } }

pub delete_sg-Freed :
    (sg : Addr) (bs : List Branch) (w : GroupMan)
    → IsTree w.heap (sg, bs)
    → Distinct (groups_in bs)
    → Distinct (nodes_in bs)
    → (f : (Addr → Option NodeDef)) × (g : (Addr → Option (List Addr))) × (k : (Addr
        → Option SuperGroup))
      × (delete_sg sg w ≡ ok tt (with_all w f g k))
      × Freed (nodes_in bs) w.nds f
      × Freed (groups_in bs) w.ngs g
      × Freed (sg ∷ []) w.sgs k
unfolding delete_sg clear_sg
delete_sg-Freed sg bs w (real, (s, e, shape, all)) dg dn =
    let (f, g, run, freed_nodes, freed_groups) = free_nodegroup-Freed bs w all dg dn in
    let there : (sg == null) ≡ false = ground (arith, real) in
    let w1 : GroupMan = with_cells w f g in
    let s' : SuperGroup = record s { groups = [] } in
    let w2 : GroupMan = with_sgs w1 (update w.sgs sg (some s')) in
    (
      f,
      g,
      update (update w.sgs sg (some s')) sg none,
      rw
          (
            there,
            load_sg-ok w sg e,
            shape,
            run,
            load_sg-ok w1 sg e,
            store_sg-ok w1 sg s' e,
            free_sg-ok w2 sg (update_self w.sgs sg (some s')),
          )
          refl,
      freed_nodes,
      freed_groups,
      Freed-twice w.sgs sg (some s'),
    )
