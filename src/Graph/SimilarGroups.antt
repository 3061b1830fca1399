-- ===== src/Graph/SimilarGroups.antt =====
-- The groups that `find_similar` makes, and the command on similar nodes where it makes none.
use graph_slick.Base.{
  ℕ, suc, ◌+◌, ◌<◌, ◌≡◌, ◌≢◌, refl, sym, ap, ◌∙◌, inl, inr, false, Option-cases, Option, none, some,
  List, [], ◌∷◌, ◌++◌, length, arith, ℤ, ◌==◌,
}
use mathlib.Core.List.{append_assoc, append-nil}
use graph_slick.OrdMap.{Map, find, int_ord}
use graph_slick.Heap.{Addr, null, NodeLoc, GroupMan, ok, update, with_ngs, new_ng}
use graph_slick.Heap.Laws.{update_self, update_other, load_ng-ok, store_ng-ok}
use graph_slick.Groups.{add_node, list_add_nodegroup}
use graph_slick.Manager.{find_nodeid_loc}
use graph_slick.Graph.Similar.{similar_nodes, similar_groups, find_similar}

-- the nodes of the ids that the lookups know
abbrev pub located : Map ℤ NodeLoc → List ℤ → List Addr
located m [] = []
located m (nid ∷ nids) = elim (find nid m) [
  | none ↦ located m nids
  | some loc ↦ loc.nd ∷ located m nids
]

-- consecutive addresses, one for each group
abbrev pub fresh : ℕ → List (List ℤ) → List Addr
fresh n [] = []
fresh n (_ ∷ gs) = n ∷ fresh (suc n) gs

-- the cells from `n` on hold the located nodes of the groups
abbrev pub Holds : Map ℤ NodeLoc → (Addr → Option (List Addr)) → ℕ → List (List ℤ) → Type 0
Holds m f n [] = Unit
Holds m f n (nids ∷ gs) = (f n ≡ some (located m nids)) × Holds m f (suc n) gs

-- the manager with other node groups and another next address
abbrev pub with_new : GroupMan → (Addr → Option (List Addr)) → Addr → GroupMan
with_new w f n = record w { heap = record w.heap { ngs = f; next = n } }

-- every node that the lookups know is there
abbrev pub NoNull : Map ℤ NodeLoc → Type 0
NoNull m = (nid : ℤ) (loc : NodeLoc) → find nid m ≡ some loc → loc.nd ≢ null

add_node-real :
    (ng p : Addr) (l : List Addr) (w : GroupMan)
    → p ≢ null
    → w.ngs ng ≡ some l
    → add_node ng p w ≡ ok p (with_ngs w (update w.ngs ng (some (l ++ p ∷ []))))
unfolding add_node
add_node-real ng p l w ne e =
    let real : (p == null) ≡ false = ground arith in
    rw (real, load_ng-ok w ng e, store_ng-ok w ng (l ++ p ∷ []) e) refl

nodes_lem :
    (ng : Addr) (nids : List ℤ) (l : List Addr) (w : GroupMan)
    → NoNull w.nid2loc
    → w.ngs ng ≡ some l
    → (f : (Addr → Option (List Addr))) × (similar_nodes ng nids w ≡ ok tt (with_ngs w f))
      × (f ng ≡ some (l ++ located w.nid2loc nids))
      × ((q : Addr) → q ≢ ng → f q ≡ w.ngs q)
unfolding similar_nodes find_nodeid_loc
nodes_lem ng [] l w real e = (w.ngs, refl, rw (append-nil l) e, λ q ne. refl)
nodes_lem ng (nid ∷ nids) l w real e = elim (Option-cases (find nid w.nid2loc)) [
  | inl missing ↦
      let (f, run, mine, others) = nodes_lem ng nids l w real e in
      (f, rw (missing, run) refl, rw (located, missing) mine, others)
  | inr (loc, here) ↦
      let w1 : GroupMan = with_ngs w (update w.ngs ng (some (l ++ loc.nd ∷ []))) in
      let (f, run, mine, others) =
        nodes_lem ng nids (l ++ loc.nd ∷ []) w1 real
          (update_self w.ngs ng (some (l ++ loc.nd ∷ []))) in
      (
        f,
        rw (here, add_node-real ng loc.nd l w (real nid loc here) e, run) refl,
        rw (located, here)
            (mine
              ∙ ap (λ (x : List Addr). some x)
                  (append_assoc l (loc.nd ∷ []) (located w.nid2loc nids))),
        λ q ne. others q ne ∙ update_other w.ngs ng (some (l ++ loc.nd ∷ [])) q ne,
      )
]

plus_zero : (n : ℕ) → n ≡ n + 0
plus_zero n = omega arith

plus_suc : (n m : ℕ) → suc n + m ≡ n + suc m
plus_suc n m = omega arith

groups_lem :
    (gs : List (List ℤ)) (ngl : List Addr) (w : GroupMan)
    → NoNull w.nid2loc
    → (f : (Addr → Option (List Addr))) × (similar_groups ngl gs w
        ≡ ok (ngl ++ fresh w.next gs) (with_new w f (w.next + length gs)))
      × Holds w.nid2loc f w.next gs
      × ((q : Addr) → q < w.next → f q ≡ w.ngs q)
unfolding similar_groups list_add_nodegroup new_ng
groups_lem [] ngl w real = (
  w.ngs,
  ap (λ (n : ℕ). ok ngl (with_new w w.ngs n)) (plus_zero w.next)
      ∙ ap (λ (l : List Addr). ok l (with_new w w.ngs (w.next + 0))) (sym (append-nil ngl)),
  tt,
  λ q lt. refl,
)
groups_lem (nids ∷ gs) ngl w real =
    let n = w.next in
    let w1 : GroupMan = with_new w (update w.ngs n (some [])) (suc n) in
    let (f1, run1, mine, others1) = nodes_lem n nids [] w1 real (update_self w.ngs n (some [])) in
    let w2 : GroupMan = with_ngs w1 f1 in
    let (f, run2, holds, others2) = groups_lem gs (ngl ++ n ∷ []) w2 real in
    (
      f,
      rw (run1, run2)
          (ap (λ (l : List Addr). ok l (with_new w2 f (suc n + length gs)))
              (append_assoc ngl (n ∷ []) (fresh (suc n) gs))
            ∙ ap (λ (k : ℕ). ok (ngl ++ n ∷ fresh (suc n) gs) (with_new w f k))
                (plus_suc n (length gs))),
      (others2 n (omega arith) ∙ mine, holds),
      λ q lt.
          others2 q (omega (arith, lt))
          ∙ others1 q (ground (arith, lt))
          ∙ update_other w.ngs n (some []) q (ground (arith, lt)),
    )

-- Where the matcher finds groups of ids and each place in the lookups has a node, find_similar does
-- not fault: it makes a new group for each of them, in order, that holds the nodes of the ids that
-- the lookups know, in order, and changes nothing else of the manager.
pub find_similar_lem :
    (matcher : List ℤ → Option (List (List ℤ))) (sel_nodes nids : List ℤ) (gs : List (List ℤ))
    (w : GroupMan)
    → NoNull w.nid2loc
    → matcher sel_nodes ≡ some (nids ∷ gs)
    → (f : (Addr → Option (List Addr))) × (find_similar matcher sel_nodes w
        ≡ ok (some (fresh w.next (nids ∷ gs))) (with_new w f (w.next + length (nids ∷ gs))))
      × Holds w.nid2loc f w.next (nids ∷ gs)
      × ((q : Addr) → q < w.next → f q ≡ w.ngs q)
unfolding find_similar
find_similar_lem matcher sel_nodes nids gs w real e =
    let (f, run, holds, old) = groups_lem (nids ∷ gs) [] w real in (f, rw (e, run) refl, holds, old)
