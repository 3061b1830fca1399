-- ===== src/Manager/Lookups.antt =====
-- `initialize_lookups` against the places of the nodes in the path super groups.
use graph_slick.Base.{
  ◌≡◌, ◌≢◌, refl, sym, ap, ◌∙◌, ◌↔◌, Option, none, some, List, [], ◌∷◌, ◌++◌, map, arith, ℤ,
  if◌then◌else◌, All, Memᴰ-cons, inl, inr,
}
use mathlib.Core.List.{Memᴰ}
use mathlib.Core.List.Memᴰ
use graph_slick.Heap.Returns
use graph_slick.Heap.Returns.{Returns, returns}
use graph_slick.OrdMap.{Map, insert, find, same, int_ord}
use graph_slick.OrdMap.Laws.{find-insert, same_iff, same_refl}
use graph_slick.Heap.{Addr, NodeLoc, nodeloc, Heap, GroupMan, ok, load_nd, load_ng, load_sg}
use graph_slick.View.{
  nid_at, members-eq, groups_of-eq, nid_at-eq, group_locs, locations, IsNode, GroupOk, LiveSgs,
}
use graph_slick.Manager.{
  lookup_nodes, lookup_groups, lookup_sgs, initialize_lookups, find_nodeid_loc,
}

-- the map after the given places were entered one by one
abbrev pub index : Heap → List NodeLoc → Map ℤ NodeLoc → Map ℤ NodeLoc
index h [] m = m
index h (l ∷ ls) m = index h ls (insert (nid_at h l.nd) l m)

index-append :
    (h : Heap) (xs ys : List NodeLoc) (m : Map ℤ NodeLoc)
    → index h (xs ++ ys) m ≡ index h ys (index h xs m)
index-append h [] ys m = refl
index-append h (x ∷ xs) ys m = index-append h xs ys (insert (nid_at h x.nd) x m)

abbrev pub with_index : GroupMan → Map ℤ NodeLoc → GroupMan
with_index w m = record w { nid2loc = m }

module _ (w : GroupMan) where
  lookup_nodes-index :
      (sg ng : Addr) (nds : List Addr) (m : Map ℤ NodeLoc)
      → All (IsNode w.heap) nds
      → lookup_nodes sg ng nds (with_index w m)
        ≡ ok tt (with_index w (index w.heap (map (nodeloc sg ng) nds) m))
  unfolding lookup_nodes load_nd
  lookup_nodes-index sg ng [] m live = refl
  lookup_nodes-index sg ng (p ∷ nds) m ((_, (d, e)), live) =
      rw (e, lookup_nodes)
        (lookup_nodes-index sg ng nds (insert d.nid (nodeloc sg ng p) m) live
          ∙ ap
              (λ n. ok tt (
                with_index w
                  (index w.heap (map (nodeloc sg ng) nds) (insert n (nodeloc sg ng p) m))))
              (sym (nid_at-eq w.heap p e)))

  lookup_groups-index :
      (sg : Addr) (ngs : List Addr) (m : Map ℤ NodeLoc)
      → All (GroupOk (IsNode w.heap) w.heap) ngs
      → lookup_groups sg ngs (with_index w m)
        ≡ ok tt (with_index w (index w.heap (group_locs w.heap sg ngs) m))
  unfolding lookup_groups load_ng
  lookup_groups-index sg [] m live = refl
  lookup_groups-index sg (ng ∷ ngs) m ((l, e, nodes), live) =
      rw
        (
          e,
          lookup_groups,
          members-eq w.heap ng e,
          lookup_nodes-index sg ng l m nodes,
          index-append w.heap,
        )
        (lookup_groups-index sg ngs (index w.heap (map (nodeloc sg ng) l) m) live)

  lookup_sgs-index :
      (sgs : List Addr) (m : Map ℤ NodeLoc)
      → LiveSgs w.heap sgs
      → lookup_sgs sgs (with_index w m)
        ≡ ok tt (with_index w (index w.heap (locations w.heap sgs) m))
  unfolding lookup_sgs load_sg
  lookup_sgs-index [] m live = refl
  lookup_sgs-index (sg ∷ sgs) m ((s, e, groups), live) =
      rw
        (
          e,
          lookup_sgs,
          groups_of-eq w.heap sg e,
          lookup_groups-index sg s.groups m groups,
          index-append w.heap,
        )
        (lookup_sgs-index sgs _ live)

  pub initialize_lookups-index :
      LiveSgs w.heap w.path_sgl
      → initialize_lookups w ≡ ok tt (with_index w (index w.heap (locations w.heap w.path_sgl) []))
  unfolding initialize_lookups
  initialize_lookups-index live = lookup_sgs-index w.path_sgl [] live

-- the last place in the list whose node has the id
unfoldable pub last_with : Heap → ℤ → List NodeLoc → Option NodeLoc
last_with h k [] = none
last_with h k (l ∷ ls) = elim (last_with h k ls) [
  | none ↦ if same k (nid_at h l.nd) then some l else none
  | some q ↦ some q
]

abbrev or_find : Option NodeLoc → Option NodeLoc → Option NodeLoc
or_find none n = n
or_find (some l) n = some l

find-index :
    (h : Heap) (k : ℤ) (ls : List NodeLoc) (m : Map ℤ NodeLoc)
    → find k (index h ls m) ≡ or_find (last_with h k ls) (find k m)
unfolding last_with
find-index h k [] m = refl
find-index h k (l ∷ ls) m =
    ground
      (arith, find-index h k ls (insert (nid_at h l.nd) l m), find-insert k (nid_at h l.nd) l m)

pub find_nodeid_loc-index :
    (w : GroupMan) (k : ℤ)
    → find_nodeid_loc (with_index w (index w.heap (locations w.heap w.path_sgl) [])) k
      ≡ last_with w.heap k (locations w.heap w.path_sgl)
unfolding find_nodeid_loc find
find_nodeid_loc-index w k = ground (arith, find-index w.heap k (locations w.heap w.path_sgl) [])

-- On a path list whose objects are all present `initialize_lookups` does not fault, changes the
-- lookup map only, and afterwards an id leads to the last place, in walking order, whose node has it.
pub initialize_lookups-last_with :
    (w : GroupMan)
    → LiveSgs w.heap w.path_sgl
    → Returns
        (λ _ v.
          (v ≡ record w { nid2loc = v.nid2loc })
          × ((k : ℤ) → find_nodeid_loc v k ≡ last_with w.heap k (locations w.heap w.path_sgl)))
        (initialize_lookups w)
unfolding find_nodeid_loc find
initialize_lookups-last_with w live =
    rw (initialize_lookups-index w live) (returns (refl, find_nodeid_loc-index w))

-- no two places hold nodes of one id
abbrev pub Distinct : Heap → List NodeLoc → Type 0
Distinct h [] = Unit
Distinct h (l ∷ ls) = All (λ q. nid_at h q.nd ≢ nid_at h l.nd) ls × Distinct h ls

last_with_sound :
    (h : Heap) (k : ℤ) (ls : List NodeLoc) (l : NodeLoc)
    → last_with h k ls ≡ some l
    → Memᴰ l ls × (nid_at h l.nd ≡ k)
unfolding last_with
last_with_sound h k [] l e = cc
last_with_sound h k (q ∷ ls) l e =
    ground (arith, last_with_sound h k ls l, same_iff k (nid_at h q.nd), Memᴰ-cons l q ls)

last_with_absent :
    (h : Heap) (k : ℤ) (ls : List NodeLoc)
    → All (λ q. nid_at h q.nd ≢ k) ls
    → last_with h k ls ≡ none
unfolding last_with
last_with_absent h k [] a = refl
last_with_absent h k (q ∷ ls) (ne, a) =
    ground (arith, last_with_absent h k ls a, same_iff k (nid_at h q.nd))

last_with_complete :
    (h : Heap) (ls : List NodeLoc) (l : NodeLoc)
    → Distinct h ls
    → Memᴰ l ls
    → last_with h (nid_at h l.nd) ls ≡ some l
unfolding last_with
last_with_complete h [] l d m = absurd (Memᴰ.not-nil m)
last_with_complete h (q ∷ ls) l (apart, d) m = elim (Memᴰ.cases_cons m) [
  | inl e ↦ ground (
    arith,
    ap (λ (x : NodeLoc). nid_at h x.nd) e,
    last_with_absent h (nid_at h q.nd) ls apart,
    same_refl (nid_at h q.nd),
  )
  | inr later ↦ rw (last_with_complete h ls l d later)
]

-- With all objects present and no id twice in the path list, after `initialize_lookups` an id leads
-- to a place if and only if the path list has that place and its node has that id.
pub initialize_lookups_exact :
    (w : GroupMan)
    → LiveSgs w.heap w.path_sgl
    → Distinct w.heap (locations w.heap w.path_sgl)
    → Returns
        (λ _ v.
          (k : ℤ) (l : NodeLoc)
          → (find_nodeid_loc v k ≡ some l)
            ↔ (Memᴰ l (locations w.heap w.path_sgl) × (nid_at w.heap l.nd ≡ k)))
        (initialize_lookups w)
initialize_lookups_exact w live distinct =
    Returns.mono (initialize_lookups-last_with w live) λ _ v (_, finds) k l.
      let ls = locations w.heap w.path_sgl in
      (
        λ e. last_with_sound w.heap k ls l (sym (finds k) ∙ e),
        λ (m, named).
            finds k
            ∙ ap (λ (i : ℤ). last_with w.heap i ls) (sym named)
            ∙ last_with_complete w.heap ls l distinct m,
      )
