-- ===== src/Heap/Laws.antt =====
-- What one access does where its object is there. With these the accesses stay shut.
use graph_slick.Base.{◌≡◌, ◌≢◌, false, Option, some, none, List, arith, ◌==◌}
use graph_slick.Heap.{
  Addr, null, NodeDef, SuperGroup, GroupMan, ok, update, with_nds, with_ngs, with_sgs, load_nd,
  load_ng, load_sg, store_nd, store_ng, store_sg, delete_nd, delete_ng, free_sg,
}

module _ {A : Type 0} (f : Addr → Option A) (p : Addr) (c : Option A) where
  pub update_self : update f p c p ≡ c
  unfolding update
  update_self = ground arith

  pub update_other : (q : Addr) → q ≢ p → update f p c q ≡ f q
  unfolding update
  update_other q ne = ground arith

module _ (w : GroupMan) (p : Addr) where
  pub load_nd-ok : {d : NodeDef} → w.nds p ≡ some d → load_nd p w ≡ ok d w
  unfolding load_nd
  load_nd-ok e = rw e

  pub load_ng-ok : {l : List Addr} → w.ngs p ≡ some l → load_ng p w ≡ ok l w
  unfolding load_ng
  load_ng-ok e = rw e

  pub load_sg-ok : {s : SuperGroup} → w.sgs p ≡ some s → load_sg p w ≡ ok s w
  unfolding load_sg
  load_sg-ok e = rw e

  pub store_nd-ok :
      {d : NodeDef} (new : NodeDef)
      → w.nds p ≡ some d
      → store_nd p new w ≡ ok tt (with_nds w (update w.nds p (some new)))
  unfolding store_nd
  store_nd-ok new e = rw (load_nd-ok e)

  pub store_ng-ok :
      {l : List Addr} (new : List Addr)
      → w.ngs p ≡ some l
      → store_ng p new w ≡ ok tt (with_ngs w (update w.ngs p (some new)))
  unfolding store_ng
  store_ng-ok new e = rw (load_ng-ok e)

  pub store_sg-ok :
      {s : SuperGroup} (new : SuperGroup)
      → w.sgs p ≡ some s
      → store_sg p new w ≡ ok tt (with_sgs w (update w.sgs p (some new)))
  unfolding store_sg
  store_sg-ok new e = rw (load_sg-ok e)

  pub delete_nd-ok :
      {d : NodeDef}
      → p ≢ null
      → w.nds p ≡ some d
      → delete_nd p w ≡ ok tt (with_nds w (update w.nds p none))
  unfolding delete_nd
  delete_nd-ok ne e = let real : (p == null) ≡ false = ground arith in rw (real, load_nd-ok e)

  pub delete_ng-ok :
      {l : List Addr}
      → p ≢ null
      → w.ngs p ≡ some l
      → delete_ng p w ≡ ok tt (with_ngs w (update w.ngs p none))
  unfolding delete_ng
  delete_ng-ok ne e = let real : (p == null) ≡ false = ground arith in rw (real, load_ng-ok e)

  pub free_sg-ok :
      {s : SuperGroup} → w.sgs p ≡ some s → free_sg p w ≡ ok tt (with_sgs w (update w.sgs p none))
  unfolding free_sg
  free_sg-ok e = rw (load_sg-ok e)
