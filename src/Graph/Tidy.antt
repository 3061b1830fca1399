-- ===== src/Graph/Tidy.antt =====
-- Runs of commands on the selection: while no click takes out the entry of the iterator, the
-- iterator stays usable.
use graph_slick.Base.{
  ℕ, ◌≡◌, ◌≢◌, refl, sym, ap, subst, ◌∙◌, Bool, true, false, Bool-cases, Option-cases, inl, inr,
  none, some, [], ◌∷◌, arith, ℤ, is_empty,
}
use graph_slick.OrdMap.{Map, same, find, insert, erase, int_ord}
use graph_slick.OrdMap.Laws.{same_iff, find-insert}
use graph_slick.OrdMap.Sorted.{IsSorted, insert-IsSorted, erase-IsSorted, find-erase}
use graph_slick.Heap.{GroupMan, Run, ok, fault}
use graph_slick.Graph.{Cursor, at, at_end, dangling, jumped, GraphView, ViewCmd}
use graph_slick.Graph.Select.{
  node_sel_color, clear_selection, clear_highlighting, toggle_select_node, flip_node, erased,
  merge_from, merge_highlight_with_selection, jump_to_next_selected, jump_to_next_node,
  refresh_view,
}
use graph_slick.Graph.Usable.{IsUsable, step_cursor-IsUsable}
use graph_slick.Graph.Selection.{find-merge_from}
use graph_slick.Graph.Jumps.{jump-step, walked}

-- the selection is in key order and its iterator is usable
pub record IsTidy (v : GraphView) : Type 0 where
  pub sorted : IsSorted v.selected_nodes
  pub usable : IsUsable v.it_selected_node v.selected_nodes

-- what the user does to the selection
pub data Action : Type 0 where
  clear_selected clear_highlighted : Bool → Action
  click_node : ℤ → Bool → Action
  merge jump : Action

abbrev pub perform : Action → ViewCmd (Unit {0})
perform (clear_selected delay) = clear_selection delay
perform (clear_highlighted delay) = clear_highlighting delay
perform (click_node n delay) = toggle_select_node n delay
perform merge = merge_highlight_with_selection
perform jump = jump_to_next_selected

-- a click may not take out the entry of the iterator
abbrev pub IsAllowed : Action → GraphView → Type 0
IsAllowed (clear_selected delay) v = Unit
IsAllowed (clear_highlighted delay) v = Unit
IsAllowed (click_node n delay) v = v.it_selected_node ≢ at n
IsAllowed merge v = Unit
IsAllowed jump v = Unit

-- sequences of allowed actions
pub data Reach (w : GroupMan) : GraphView → GraphView → Type 0 where
  stop : {v : GraphView} → Reach w v v
  act :
      {v v1 v2 : GraphView} (a : Action)
      → IsAllowed a v
      → perform a v w ≡ ok (tt, v1) w
      → Reach w v1 v2
      → Reach w v v2

IsUsable-keeps :
    (c : Cursor) (m m' : Map ℤ ℕ)
    → ((k : ℤ) (d : ℕ) → c ≡ at k → find k m ≡ some d → find k m' ≡ some d)
    → IsUsable c m
    → IsUsable c m'
IsUsable-keeps at_end m m' keeps u = tt
IsUsable-keeps dangling m m' keeps u = absurd u
IsUsable-keeps (at k) m m' keeps (d, here) = (d, keeps k d refl here)

merge_from-IsSorted : (hl sel : Map ℤ ℕ) → IsSorted sel → IsSorted (merge_from hl sel)
unfolding merge_from
merge_from-IsSorted [] sel h = h
merge_from-IsSorted ((n, _) ∷ hl) sel h = elim (Option-cases (find n sel)) [
  | inl e ↦ rw e (
      merge_from-IsSorted hl (insert n node_sel_color sel) (insert-IsSorted n node_sel_color sel h))
  | inr (c, e) ↦ rw e (merge_from-IsSorted hl sel h)
]

erased-other : (n : ℤ) (c : Cursor) (m : Map ℤ ℕ) → IsUsable c m → c ≢ at n → erased n c ≡ c
erased-other n at_end m u ne = refl
erased-other n dangling m u ne = absurd u
erased-other n (at j) m u ne = elim (Bool-cases (same j n)) [
  | inl a ↦ absurd (ne (ap (λ (k : ℤ). at k) ((same_iff j n).0 a)))
  | inr a ↦ rw a refl
]

unselected :
    (n k : ℤ) (d : ℕ) (m : Map ℤ ℕ) → find n m ≡ none → find k m ≡ some d → same k n ≡ false
unselected n k d m e here = elim (Bool-cases (same k n)) [
  | inl a ↦
      let clash : find n m ≡ some d =
        subst (λ (x : ℤ). find x m ≡ some d) ((same_iff k n).0 a) here in
      let bad : none ≡ some d = rw e at clash in ground (arith, bad)
  | inr a ↦ a
]

elsewhere : (n k : ℤ) (c : Cursor) → c ≡ at k → c ≢ at n → same k n ≡ false
elsewhere n k c it ne = elim (Bool-cases (same k n)) [
  | inl a ↦ absurd (ne (it ∙ ap (λ (x : ℤ). at x) ((same_iff k n).0 a)))
  | inr a ↦ a
]

flip_node-IsTidy :
    (n : ℤ) (v : GraphView)
    → IsTidy v
    → v.it_selected_node ≢ at n
    → IsTidy (flip_node n v (find n v.selected_nodes))
flip_node-IsTidy n v t ne = elim (Option-cases (find n v.selected_nodes)) [
  | inl e ↦ rw e (record {
    sorted = insert-IsSorted n node_sel_color v.selected_nodes t.sorted;
    usable =
        IsUsable-keeps v.it_selected_node v.selected_nodes
          (insert n node_sel_color v.selected_nodes)
          (λ k d it here.
            rw (find-insert k n node_sel_color v.selected_nodes)
              (rw (unselected n k d v.selected_nodes e here) here))
          t.usable;
  })
  | inr (c, e) ↦ rw e (record {
    sorted = erase-IsSorted n v.selected_nodes t.sorted;
    usable = rw (erased-other n v.it_selected_node v.selected_nodes t.usable ne) (
        IsUsable-keeps v.it_selected_node v.selected_nodes (erase n v.selected_nodes)
          (λ k d it here.
            rw (find-erase k n v.selected_nodes t.sorted)
              (rw (elsewhere n k v.it_selected_node it ne) here))
          t.usable);
  })
]

perform-IsTidy :
    (a : Action) (v : GraphView) (w : GroupMan)
    → IsTidy v
    → IsAllowed a v
    → (v1 : GraphView) × (perform a v w ≡ ok (tt, v1) w) × IsTidy v1
unfolding clear_selection clear_highlighting refresh_view toggle_select_node
    merge_highlight_with_selection jump_to_next_selected jump_to_next_node
perform-IsTidy (clear_selected true) v w t allowed = (_, refl, record { sorted = tt; usable = tt })
perform-IsTidy (clear_selected false) v w t allowed = (_, refl, record { sorted = tt; usable = tt })
perform-IsTidy (clear_highlighted true) v w t allowed =
    (_, refl, record { sorted = t.sorted; usable = t.usable })
perform-IsTidy (clear_highlighted false) v w t allowed =
    (_, refl, record { sorted = t.sorted; usable = t.usable })
perform-IsTidy (click_node n true) v w t allowed = (_, refl, flip_node-IsTidy n v t allowed)
perform-IsTidy (click_node n false) v w t allowed =
    let f = flip_node-IsTidy n v t allowed in
    (_, refl, record { sorted = f.sorted; usable = f.usable })
perform-IsTidy merge v w t allowed = (
  _,
  refl,
  record {
    sorted = merge_from-IsSorted v.highlighted_nodes v.selected_nodes t.sorted;
    usable =
        IsUsable-keeps v.it_selected_node v.selected_nodes
          (merge_from v.highlighted_nodes v.selected_nodes)
          (λ k d it here. rw (find-merge_from k v.highlighted_nodes v.selected_nodes, here) refl)
          t.usable;
  },
)
perform-IsTidy jump v w t allowed = elim (Bool-cases (is_empty v.selected_nodes)) [
  | inl none_left ↦ (v, rw none_left refl, t)
  | inr some_node ↦
      let (k, c, step, usable) =
        step_cursor-IsUsable v.it_selected_node v.selected_nodes t.sorted some_node t.usable in
      (
        walked v c (jumped k ∷ []),
        jump-step v w k c some_node step,
        record { sorted = t.sorted; usable = usable },
      )
]

abbrev view_behind : GraphView → Run (Unit {0} × GraphView) → GraphView
view_behind v (ok (_, v1) w) = v1
view_behind v fault = v

-- From a view whose selection is in key order and whose iterator is usable, clearing, merging,
-- jumping and clicks that do not take out the iterator's entry lead, in any sequence, only to such
-- views, in which the next jump does not fault.
pub Reach-IsTidy :
    (w : GroupMan) (v v' : GraphView)
    → IsTidy v
    → Reach w v v'
    → IsTidy v' × ((v'' : GraphView) × (jump_to_next_selected v' w ≡ ok (tt, v'') w))
Reach-IsTidy w v _ t stop = let (v1, run, _) = perform-IsTidy jump v w t tt in (t, (v1, run))
Reach-IsTidy w v v' t (act a allowed run more) =
    let (v1, run1, t1) = perform-IsTidy a v w t allowed in
    let here = ap (view_behind v) (sym run1 ∙ run) in
    Reach-IsTidy w _ v' (subst IsTidy here t1) more
