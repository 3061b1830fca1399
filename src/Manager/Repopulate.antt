-- ===== src/Manager/Repopulate.antt =====
-- The second half of `reset_groupping` of groupman.cpp: one super group and one group for each node.
use mathlib.Core.List.{append_assoc, append-nil}
use graph_slick.Base.{
  suc, ◌<◌, ◌≡◌, ◌≢◌, refl, sym, ap, ◌∙◌, false, Option, some, List, [], ◌∷◌, ◌++◌, arith, ℤ, codes,
  show_int, ◌==◌,
}
use graph_slick.OrdMap.{Map, int_ord}
use graph_slick.Heap.{
  Addr, null, NodeDef, SuperGroup, GroupMan, ok, update, with_ngs, new_sg, new_ng,
}
use graph_slick.Heap.Laws.{
  update_self, update_other, load_nd-ok, load_ng-ok, load_sg-ok, store_ng-ok, store_sg-ok,
}
use graph_slick.Groups.{add_node, add_nodegroup}
use graph_slick.Manager.{add_supergroup}
use graph_slick.Manager.Regroup.{repopulate}

-- the super group of one node, whose group is at the next address
abbrev pub node_sg : ℤ → Addr → SuperGroup
node_sg nid n = record {
  id = codes "node" ++ show_int nid;
  name = [];
  is_synthetic = false;
  groups = suc n ∷ [];
}

-- the addresses of these super groups, the first being `n`, and the first address after them
abbrev pub single_sgs : Addr → Map ℤ Addr → List Addr
single_sgs n [] = []
single_sgs n (_ ∷ m) = n ∷ single_sgs (suc (suc n)) m

abbrev pub after : Addr → Map ℤ Addr → Addr
after n [] = n
after n (_ ∷ m) = after (suc (suc n)) m

-- the cells from `n` on hold a super group with one group with one node for each entry
abbrev pub OnePerNode :
    (Addr → Option SuperGroup) → (Addr → Option (List Addr)) → Addr → Map ℤ Addr → Type 0
OnePerNode s g n [] = Unit
OnePerNode s g n ((nid, p) ∷ m) =
    (s n ≡ some (node_sg nid n)) × (g (suc n) ≡ some (p ∷ [])) × OnePerNode s g (suc (suc n)) m

-- each entry leads from an id to a node with that id
abbrev pub Keyed : (Addr → Option NodeDef) → Map ℤ Addr → Type 0
Keyed f [] = Unit
Keyed f ((nid, p) ∷ m) = ((p ≢ null) × ((d : NodeDef) × (f p ≡ some d) × (d.nid ≡ nid))) × Keyed f m

-- the manager with other cells, another next address and another path list
abbrev pub with_path :
    GroupMan
    → (Addr → Option SuperGroup)
    → (Addr → Option (List Addr))
    → Addr
    → List Addr
    → GroupMan
with_path w s g n l = record w { heap = record w.heap { sgs = s; ngs = g; next = n }; path_sgl = l }

add_node-real :
    (ng p : Addr) (l : List Addr) (w : GroupMan)
    → p ≢ null
    → w.ngs ng ≡ some l
    → add_node ng p w ≡ ok p (with_ngs w (update w.ngs ng (some (l ++ p ∷ []))))
unfolding add_node
add_node-real ng p l w ne e =
    let real : (p == null) ≡ false = ground arith in
    rw (real, load_ng-ok w ng e, store_ng-ok w ng (l ++ p ∷ []) e) refl

pub repopulate-OnePerNode :
    (m : Map ℤ Addr) (w : GroupMan)
    → Keyed w.nds m
    → (s : (Addr → Option SuperGroup)) × (g : (Addr → Option (List Addr))) × (repopulate m w
        ≡ ok tt (with_path w s g (after w.next m) (w.path_sgl ++ single_sgs w.next m)))
      × OnePerNode s g w.next m
      × ((q : Addr) → q < w.next → s q ≡ w.sgs q)
      × ((q : Addr) → q < w.next → g q ≡ w.ngs q)
unfolding repopulate add_supergroup add_nodegroup new_sg new_ng
repopulate-OnePerNode [] w keyed = (
  w.sgs,
  w.ngs,
  ap (λ (l : List Addr). ok tt (record w { path_sgl = l })) (sym (append-nil w.path_sgl)),
  tt,
  (λ q lt. refl),
  λ q lt. refl,
)
repopulate-OnePerNode ((nid, p) ∷ m) w ((ne, (d, e, named)), keyed) =
    let n = w.next in
    let blank : SuperGroup = record { id = []; name = []; is_synthetic = false; groups = [] } in
    let grouped : SuperGroup = record blank { groups = suc n ∷ [] } in
    let s1 = update w.sgs n (some blank) in
    let s2 = update s1 n (some grouped) in
    let s3 = update s2 n (some (node_sg d.nid n)) in
    let g1 = update w.ngs (suc n) (some []) in
    let g2 = update g1 (suc n) (some (p ∷ [])) in
    let l = w.path_sgl ++ n ∷ [] in
    let w1 : GroupMan = with_path w s1 g1 (suc (suc n)) l in
    let w2 : GroupMan = with_path w s2 g1 (suc (suc n)) l in
    let w3 : GroupMan = with_path w s2 g2 (suc (suc n)) l in
    let w4 : GroupMan = with_path w s3 g2 (suc (suc n)) l in
    let (s, g, run, one, old_s, old_g) = repopulate-OnePerNode m w4 keyed in
    (
      s,
      g,
      rw
          (
            load_sg-ok w1 n (update_self w.sgs n (some blank)),
            store_sg-ok w1 n grouped (update_self w.sgs n (some blank)),
            add_node-real (suc n) p [] w2 ne (update_self w.ngs (suc n) (some [])),
            load_nd-ok w3 p e,
            load_sg-ok w3 n (update_self s1 n (some grouped)),
            store_sg-ok w3 n (node_sg d.nid n) (update_self s1 n (some grouped)),
            run,
            append_assoc w.path_sgl (n ∷ []) (single_sgs (suc (suc n)) m),
          )
          refl,
      (
        old_s n (omega arith)
            ∙ update_self s2 n (some (node_sg d.nid n))
            ∙ ap (λ (i : ℤ). some (node_sg i n)) named,
        old_g (suc n) (omega arith) ∙ update_self g1 (suc n) (some (p ∷ [])),
        one,
      ),
      (λ q lt.
          old_s q (omega (arith, lt))
          ∙ update_other s2 n (some (node_sg d.nid n)) q (ground (arith, lt))
          ∙ update_other s1 n (some grouped) q (ground (arith, lt))
          ∙ update_other w.sgs n (some blank) q (ground (arith, lt))),
      λ q lt.
          old_g q (omega (arith, lt))
          ∙ update_other g1 (suc n) (some (p ∷ [])) q (ground (arith, lt))
          ∙ update_other w.ngs (suc n) (some []) q (ground (arith, lt)),
    )
