-- ===== src/Manager/Joined.antt =====
-- One round of `combine_ngl`: the nodes of a group go to the destination.
use graph_slick.Base.{
  ◌≡◌, ◌≢◌, ap, sym, ◌∙◌, refl, false, Option, some, List, [], ◌∷◌, ◌++◌, arith, ◌==◌, List-cases,
  inl, inr, ◌⊎◌, All, is_empty,
}
use mathlib.Core.List.{append_assoc, append-nil}
use graph_slick.OrdMap.{find, int_ord}
use graph_slick.Heap.{
  Addr, null, NodeDef, SuperGroup, NodeLoc, GroupMan, ok, update, with_ngs, with_sgs,
}
use graph_slick.Heap.Laws.{
  update_self, update_other, load_nd-ok, load_ng-ok, load_sg-ok, store_ng-ok, store_sg-ok,
}
use graph_slick.Groups.{remove, add_node, remove_nodegroup, sg_empty}
use graph_slick.Manager.{find_nodeid_loc, remove_supergroup}
use graph_slick.Manager.Regroup.{add_nodes, combine_group}

add_node-ok :
    (w : GroupMan) (ng p : Addr) (ld : List Addr)
    → p ≢ null
    → w.ngs ng ≡ some ld
    → add_node ng p w ≡ ok p (with_ngs w (update w.ngs ng (some (ld ++ p ∷ []))))
unfolding add_node
add_node-ok w ng p ld ne e =
    let real : (p == null) ≡ false = ground arith in
    rw (real, load_ng-ok w ng e, store_ng-ok w ng (ld ++ p ∷ []) e)

remove_nodegroup-ok :
    (w : GroupMan) (sg ng : Addr) (s : SuperGroup)
    → w.sgs sg ≡ some s
    → remove_nodegroup sg ng false w
      ≡ ok tt (with_sgs w (update w.sgs sg (some (record s { groups = remove ng s.groups }))))
unfolding remove_nodegroup
remove_nodegroup-ok w sg ng s e =
    rw (load_sg-ok w sg e, store_sg-ok w sg (record s { groups = remove ng s.groups }) e)

sg_empty-ok :
    (w : GroupMan) (sg : Addr) (s : SuperGroup)
    → w.sgs sg ≡ some s
    → sg_empty sg w ≡ ok (is_empty s.groups) w
unfolding sg_empty
sg_empty-ok w sg s e = rw (load_sg-ok w sg e)

-- `add_node` of nodes that are there appends them, and changes no other group
add_nodes-append :
    (w : GroupMan) (ng : Addr) (ld l : List Addr)
    → w.ngs ng ≡ some ld
    → All (λ p. p ≢ null) l
    → (g : Addr → Option (List Addr)) × (add_nodes ng l w ≡ ok tt (with_ngs w g))
      × (g ng ≡ some (ld ++ l))
      × ((q : Addr) → q ≢ ng → g q ≡ w.ngs q)
unfolding add_nodes
add_nodes-append w ng ld [] e real = (w.ngs, refl, e ∙ ap some (sym (append-nil ld)), λ q ne. refl)
add_nodes-append w ng ld (p ∷ l) e (ne, real) =
    let cell = some (ld ++ p ∷ []) in
    let f = update w.ngs ng cell in
    let (g, run, got, same) =
      add_nodes-append (with_ngs w f) ng (ld ++ p ∷ []) l (update_self w.ngs ng cell) real in
    (
      g,
      rw (add_node-ok w ng p ld ne e) run,
      got ∙ ap some (append_assoc ld (p ∷ []) l),
      λ q other. same q other ∙ update_other w.ngs ng cell q other,
    )

-- What joining one group to the destination does; `sg` is the super group that the lookups give.
pub record Joined (w w' : GroupMan) (dest ng sg : Addr) (ld l : List Addr) (s : SuperGroup)
    : Type 0 where
  pub nds : w'.nds ≡ w.nds
  pub nid2loc : w'.nid2loc ≡ w.nid2loc
  pub got : w'.ngs dest ≡ some (ld ++ l)
  pub cleared : w'.ngs ng ≡ some []
  pub others : (q : Addr) → q ≢ dest → q ≢ ng → w'.ngs q ≡ w.ngs q
  pub shrunk : w'.sgs sg ≡ some (record s { groups = remove ng s.groups })
  pub sgs_same : (q : Addr) → q ≢ sg → w'.sgs q ≡ w.sgs q
  pub listed :
      (w'.path_sgl ≡ w.path_sgl)
      ⊎ ((w'.path_sgl ≡ remove sg w.path_sgl) × (remove ng s.groups ≡ []))

module _ (w : GroupMan) (dest ng : Addr) (apart : dest ≢ ng) where
  pub combine_group-Joined :
      (p : Addr) (ld l : List Addr) (d : NodeDef) (loc : NodeLoc) (s : SuperGroup)
      → w.ngs dest ≡ some ld
      → w.ngs ng ≡ some l
      → All (λ q. q ≢ null) l
      → w.nds p ≡ some d
      → find d.nid w.nid2loc ≡ some loc
      → w.sgs loc.sg ≡ some s
      → (w' : GroupMan) × (combine_group dest ng p w ≡ ok tt w') × Joined w w' dest ng loc.sg ld l s
  unfolding combine_group remove_supergroup find_nodeid_loc
  combine_group-Joined p ld l d loc s ed en real ep found es =
      let (g, run, got, same) = add_nodes-append w dest ld l ed real in
      let gn : g ng ≡ some l = same ng (λ e. apart (sym e)) ∙ en in
      let w1 = with_ngs w g in
      let w2 = with_ngs w1 (update g ng (some [])) in
      let s' : SuperGroup = record s { groups = remove ng s.groups } in
      let w3 = with_sgs w2 (update w2.sgs loc.sg (some s')) in
      let now = update_self w2.sgs loc.sg (some s') in
      let rest = remove loc.sg w.path_sgl in
      elim (List-cases (remove ng s.groups)) [
        | inl gone ↦ (
          record w3 { path_sgl = rest },
          rw
              (
                load_nd-ok w p ep,
                load_ng-ok w ng en,
                run,
                store_ng-ok w1 ng [] gn,
                found,
                remove_nodegroup-ok w2 loc.sg ng s es,
                sg_empty-ok w3 loc.sg s' now,
                gone,
              )
              refl,
          record {
            nds = refl;
            nid2loc = refl;
            got = update_other g ng (some []) dest apart ∙ got;
            cleared = update_self g ng (some []);
            others = λ q far off. update_other g ng (some []) q off ∙ same q far;
            shrunk = now;
            sgs_same = λ q off. update_other w.sgs loc.sg (some s') q off;
            listed = inr (refl, gone);
          },
        )
        | inr (x, rest, some_left) ↦ (
          w3,
          rw
              (
                load_nd-ok w p ep,
                load_ng-ok w ng en,
                run,
                store_ng-ok w1 ng [] gn,
                found,
                remove_nodegroup-ok w2 loc.sg ng s es,
                sg_empty-ok w3 loc.sg s' now,
                some_left,
              )
              refl,
          record {
            nds = refl;
            nid2loc = refl;
            got = update_other g ng (some []) dest apart ∙ got;
            cleared = update_self g ng (some []);
            others = λ q far off. update_other g ng (some []) q off ∙ same q far;
            shrunk = now;
            sgs_same = λ q off. update_other w.sgs loc.sg (some s') q off;
            listed = inl refl;
          },
        )
      ]
