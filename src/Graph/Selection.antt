-- ===== src/Graph/Selection.antt =====
-- What the handlers of Select do to the two colour maps of the view, and the lookup of a group by
-- its id.
use graph_slick.Base.{
  ℕ, ◌≡◌, ◌≢◌, refl, sym, subst, Bool, true, false, inl, inr, Bool-cases, Option-cases, Option,
  none, some, [], ◌∷◌, arith, All, ℤ,
}
use graph_slick.OrdMap.{Map, same, find, insert, int_ord, addr_ord}
use graph_slick.OrdMap.Laws.{find-insert, same_iff, same_refl}
use graph_slick.OrdMap.Sorted.{IsSorted, insert-IsSorted, erase-IsSorted, find-erase}
use graph_slick.Heap.{Addr, GroupMan, ok}
use graph_slick.Graph.{GraphView, get_ng_id, get_ng_from_ngid}
use graph_slick.Graph.Select.{
  node_sel_color, refresh_view, flip_node, toggle_select_node, merge_from,
  merge_highlight_with_selection,
}

-- the colour after a toggle
abbrev pub flipped : Option ℕ → Option ℕ
flipped none = some node_sel_color
flipped (some _) = none

pub record Toggles (n : ℤ) (v v' : GraphView) : Type 0 where
  pub toggled : find n v'.selected_nodes ≡ flipped (find n v.selected_nodes)
  pub others : (k : ℤ) → k ≢ n → find k v'.selected_nodes ≡ find k v.selected_nodes
  pub sorted : IsSorted v'.selected_nodes
  pub highlight : v'.highlighted_nodes ≡ v.highlighted_nodes

flip_node-Toggles :
    (n : ℤ) (v : GraphView)
    → IsSorted v.selected_nodes
    → Toggles n v (flip_node n v (find n v.selected_nodes))
flip_node-Toggles n v h = elim (Option-cases (find n v.selected_nodes)) [
  | inl e ↦ rw e (record {
    toggled = rw (find-insert n n node_sel_color v.selected_nodes, same_refl n, e) refl;
    others = λ k ne.
        rw (find-insert k n node_sel_color v.selected_nodes) (ground (arith, ne, same_iff k n));
    sorted = insert-IsSorted n node_sel_color v.selected_nodes h;
    highlight = refl;
  })
  | inr (c, e) ↦ rw e (record {
    toggled = rw (find-erase n n v.selected_nodes h, same_refl n, e) refl;
    others = λ k ne. rw (find-erase k n v.selected_nodes h) (ground (arith, ne, same_iff k n));
    sorted = erase-IsSorted n v.selected_nodes h;
    highlight = refl;
  })
]

-- A toggle selects the node where it was not selected, takes it out of the selection where it was,
-- and leaves the other nodes and the highlight as they are. The selection, a map in key order, stays
-- one; the manager does not change.
pub toggle_select_node-Toggles :
    (n : ℤ) (delay_refresh : Bool) (v : GraphView) (w : GroupMan)
    → IsSorted v.selected_nodes
    → (v' : GraphView) × (toggle_select_node n delay_refresh v w ≡ ok (tt, v') w) × Toggles n v v'
unfolding toggle_select_node refresh_view
toggle_select_node-Toggles n true v w h = (_, refl, flip_node-Toggles n v h)
toggle_select_node-Toggles n false v w h =
    let t = flip_node-Toggles n v h in
    (
      _,
      refl,
      record { toggled = t.toggled; others = t.others; sorted = t.sorted; highlight = t.highlight },
    )

-- the colour of a node after a merge of the highlight into the selection
abbrev pub merged : Option ℕ → Option ℕ → Option ℕ
merged (some c) hl = some c
merged none none = none
merged none (some _) = some node_sel_color

pub find-merge_from :
    (k : ℤ) (hl sel : Map ℤ ℕ) → find k (merge_from hl sel) ≡ merged (find k sel) (find k hl)
unfolding merge_from find
find-merge_from k [] sel = elim (Option-cases (find k sel)) [
  | inl e ↦ rw e refl
  | inr (c, e) ↦ rw e refl
]
find-merge_from k ((n, c) ∷ hl) sel = elim (Option-cases (find n sel)) [
  | inl e ↦
      rw (e, find-merge_from k hl (insert n node_sel_color sel), find-insert k n node_sel_color sel)
        (elim (Bool-cases (same k n)) [
          | inl a ↦ rw (a, subst (λ x. find x sel ≡ none) (sym ((same_iff k n).0 a)) e) refl
          | inr a ↦ rw a refl
        ])
  | inr (d, e) ↦
      rw (e, find-merge_from k hl sel)
        (elim (Bool-cases (same k n)) [
          | inl a ↦ rw (a, subst (λ x. find x sel ≡ some d) (sym ((same_iff k n).0 a)) e) refl
          | inr a ↦ rw a refl
        ])
]

-- After a merge a node is selected as before where it was; otherwise it has the selection colour if
-- it is highlighted, and is not selected if it is not. The highlight and the manager do not change.
pub merge_highlight_with_selection-merged :
    (v : GraphView) (w : GroupMan)
    → (v' : GraphView) × (merge_highlight_with_selection v w ≡ ok (tt, v') w)
      × ((k : ℤ)
          → find k v'.selected_nodes
            ≡ merged (find k v.selected_nodes) (find k v.highlighted_nodes))
      × (v'.highlighted_nodes ≡ v.highlighted_nodes)
unfolding merge_highlight_with_selection
merge_highlight_with_selection-merged v w =
    (_, refl, (λ k. find-merge_from k v.highlighted_nodes v.selected_nodes), refl)

-- no two groups have one id
abbrev pub IdsDiffer : Map Addr ℤ → Type 0
IdsDiffer [] = Unit
IdsDiffer ((_, n) ∷ m) = All (λ (_, j). same n j ≡ false) m × IdsDiffer m

apart :
    (n : ℤ) (m : Map Addr ℤ) (ng : Addr) (i : ℤ)
    → All (λ (_, j). same n j ≡ false) m
    → find ng m ≡ some i
    → same n i ≡ false
unfolding find
apart n [] ng i h e = ground (arith, e)
apart n ((g, j) ∷ m) ng i (nj, h) e = ground (arith, nj, e, apart n m ng i h)

back :
    (m : Map Addr ℤ) (ng : Addr) (n : ℤ)
    → IdsDiffer m
    → find ng m ≡ some n
    → get_ng_from_ngid m n ≡ ng
unfolding find get_ng_from_ngid
back [] ng n h e = ground (arith, e)
back ((g, j) ∷ m) ng n (far, h) e = elim (Bool-cases (same ng g)) [
  | inl here ↦ ground (arith, here, e, same_iff ng g, same_refl j)
  | inr there ↦ ground (arith, there, e, apart j m ng n far, back m ng n h)
]

-- Where no two groups of the view have one id, the id of a group leads back to the group.
pub get_ng_from_ngid-get_ng_id :
    (m : Map Addr ℤ) (ng : Addr) (n : ℤ)
    → IdsDiffer m
    → find ng m ≡ some n
    → get_ng_from_ngid m (get_ng_id m ng) ≡ ng
unfolding get_ng_id
get_ng_from_ngid-get_ng_id m ng n h e = rw e (back m ng n h e)
