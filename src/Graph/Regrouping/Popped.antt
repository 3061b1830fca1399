-- ===== src/Graph/Regrouping/Popped.antt =====
-- One node that `move_nodes_to_own_ng` of plugin.cpp takes from the back of its group, and what it
-- does to the counts of nodes and groups.
use graph_slick.Base.{
  ℕ, suc, ◌+◌, ◌*◌, ◌≡◌, ◌≢◌, refl, ap, ◌∙◌, false, inl, inr, Bool-cases, some, List, [], ◌∷◌, ◌++◌,
  arith, ◌==◌,
}
use graph_slick.Heap.{
  Addr, null, NodeDef, SuperGroup, GroupMan, ok, update, with_ngs, with_sgs, new_ng,
}
use graph_slick.Heap.Laws.{
  update_self, update_other, load_nd-ok, load_ng-ok, load_sg-ok, store_ng-ok, store_sg-ok,
}
use graph_slick.Groups.{add_node, add_nodegroup}
use graph_slick.Manager.Counts.{count, sum_of}
use graph_slick.Graph.{GraphView}
use graph_slick.Graph.Regrouping.{own_ng}

-- `w'` is `w` where `ng` has kept its nodes but the last, which has a new group in `sg`
pub record Popped (w w' : GroupMan) (ng sg p : Addr) (kept : List Addr) (s : SuperGroup)
    : Type 0 where
  pub next : w'.next ≡ suc w.next
  pub nds : w'.nds ≡ w.nds
  pub nid2loc : w'.nid2loc ≡ w.nid2loc
  pub path_sgl : w'.path_sgl ≡ w.path_sgl
  pub left : w'.ngs ng ≡ some kept
  pub own : w'.ngs w.next ≡ some (p ∷ [])
  pub others : (q : Addr) → q ≢ ng → q ≢ w.next → w'.ngs q ≡ w.ngs q
  pub grown : w'.sgs sg ≡ some (record s { groups = s.groups ++ w.next ∷ [] })
  pub sgs_same : (q : Addr) → q ≢ sg → w'.sgs q ≡ w.sgs q

pub pop-Popped :
    (v : GraphView) (w : GroupMan) (ng sg p : Addr) (kept : List Addr) (s : SuperGroup)
    (d : NodeDef)
    → ng ≢ w.next
    → p ≢ null
    → w.sgs sg ≡ some s
    → w.nds p ≡ some d
    → (w' : GroupMan) × (own_ng sg p v (with_ngs w (update w.ngs ng (some kept)))
        ≡ ok (tt, record v { focus_node = d.nid }) w')
      × Popped w w' ng sg p kept s
unfolding own_ng add_nodegroup new_ng add_node
pop-Popped v w ng sg p kept s d off ne es ep =
    let n = w.next in
    let real : (p == null) ≡ false = ground arith in
    let g1 = update w.ngs ng (some kept) in
    let g2 = update g1 n (some []) in
    let g3 = update g2 n (some (p ∷ [])) in
    let s' : SuperGroup = record s { groups = s.groups ++ n ∷ [] } in
    let k = update w.sgs sg (some s') in
    let w1 : GroupMan = with_ngs w g1 in
    let w2 : GroupMan = record w1 { heap = record w1.heap { ngs = g2; next = suc n } } in
    let w3 : GroupMan = with_sgs w2 k in
    let w4 : GroupMan = with_ngs w3 g3 in
    (
      w4,
      rw
          (
            load_sg-ok w2 sg es,
            store_sg-ok w2 sg s' es,
            real,
            load_ng-ok w3 n (update_self g1 n (some [])),
            store_ng-ok w3 n (p ∷ []) (update_self g1 n (some [])),
            load_nd-ok w4 p ep,
          )
          refl,
      record {
        next = refl;
        nds = refl;
        nid2loc = refl;
        path_sgl = refl;
        left =
            update_other g2 n (some (p ∷ [])) ng off
            ∙ update_other g1 n (some []) ng off
            ∙ update_self w.ngs ng (some kept);
        own = update_self g2 n (some (p ∷ []));
        others = λ q a b.
            update_other g2 n (some (p ∷ [])) q b
            ∙ update_other g1 n (some []) q b
            ∙ update_other w.ngs ng (some kept) q a;
        grown = update_self w.sgs sg (some s');
        sgs_same = λ q a. update_other w.sgs sg (some s') q a;
      },
    )

-- a value that `src` loses in part, in a list without `fresh`
pub sum_of-loss :
    (f g : Addr → ℕ) (src fresh amount : ℕ) (xs : List Addr)
    → g src + amount ≡ f src
    → ((q : Addr) → q ≢ src → q ≢ fresh → g q ≡ f q)
    → count fresh xs ≡ 0
    → sum_of g xs + amount * count src xs ≡ sum_of f xs
sum_of-loss f g src fresh amount [] less same none_there = omega arith
sum_of-loss f g src fresh amount (x ∷ xs) less same none_there = elim (Bool-cases (x == src)) [
  | inl here ↦
      let e : x ≡ src = ground arith in
      let rest = sum_of-loss f g src fresh amount xs less same (omega (arith, none_there)) in
      rw here (omega (arith, rest, less, ap g e, ap f e))
  | inr away ↦
      let out : x ≢ fresh = λ e. ground (arith, none_there, e) in
      let rest = sum_of-loss f g src fresh amount xs less same (omega (arith, none_there)) in
      rw away (omega (arith, rest, same x (ground arith) out))
]
