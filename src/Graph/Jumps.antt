-- ===== src/Graph/Jumps.antt =====
-- The walk of "jump to next selected node" (`jump_to_next_node`) through the selection, and its
-- iterator after "select all".
use graph_slick.Base.{
  ℕ, zero, suc, ◌≡◌, refl, sym, ap, subst, ◌∙◌, false, some, List, [], ◌∷◌, ◌++◌, map, arith, All,
  ℤ, length, is_empty,
}
use mathlib.Core.List.{append_assoc, append-nil}
use graph_slick.OrdMap.{Map, same, insert, int_ord}
use graph_slick.OrdMap.Laws.{same_refl}
use graph_slick.OrdMap.Sorted.{IsSorted, Above-append}
use graph_slick.Heap.{Addr, GroupMan, ok, fault}
use graph_slick.Heap.Laws.{load_nd-ok}
use graph_slick.View.{IsNode}
use graph_slick.Graph.{Cursor, at, at_end, dangling, Event, jumped, GraphView, ViewCmd, give, ◌>>◌}
use graph_slick.Graph.Select.{
  node_sel_color, begin_of, next_of, from_entry, step_cursor, jump_to_next_node,
  jump_to_next_selected, select_from, select_all_nodes,
}

-- the command, a number of times
abbrev pub jumps : ℕ → ViewCmd (Unit {0})
jumps zero = give tt
jumps (suc n) = jump_to_next_selected >> jumps n

abbrev pub jumps_to : Map ℤ ℕ → List Event
jumps_to = map (λ (k, _). jumped k)

abbrev pub walked : GraphView → Cursor → List Event → GraphView
walked v c es = record v { it_selected_node = c; events = v.events ++ es }

next_of-append :
    (before : Map ℤ ℕ) (k : ℤ) (c : ℕ) (after : Map ℤ ℕ)
    → IsSorted (before ++ (k, c) ∷ after)
    → next_of k (before ++ (k, c) ∷ after) ≡ some (begin_of after)
unfolding next_of
next_of-append [] k c after h = rw (same_refl k) refl
next_of-append ((j, d) ∷ before) k c after (up, h) =
    let apart : same j k ≡ false = ground (arith, Above-append j k c before after up) in
    rw apart (next_of-append before k c after h)

pub step-middle :
    (before : Map ℤ ℕ) (k : ℤ) (c : ℕ) (after : Map ℤ ℕ)
    → IsSorted (before ++ (k, c) ∷ after)
    → step_cursor (at k) (before ++ (k, c) ∷ after) ≡ some (k, begin_of after)
unfolding step_cursor
step-middle before k c after h = ap (from_entry k) (next_of-append before k c after h)

middle_nonempty :
    (before : Map ℤ ℕ) (e : ℤ × ℕ) (after : Map ℤ ℕ) → is_empty (before ++ e ∷ after) ≡ false
middle_nonempty [] e after = refl
middle_nonempty (_ ∷ before) e after = refl

pub jump-step :
    (v : GraphView) (w : GroupMan) (k : ℤ) (c : Cursor)
    → is_empty v.selected_nodes ≡ false
    → step_cursor v.it_selected_node v.selected_nodes ≡ some (k, c)
    → jump_to_next_selected v w ≡ ok (tt, walked v c (jumped k ∷ [])) w
unfolding jump_to_next_selected jump_to_next_node
jump-step v w k c some_node step = rw (some_node, step) refl

walked_nil : (v : GraphView) → v.it_selected_node ≡ at_end → v ≡ walked v at_end []
walked_nil v it =
    ap (λ (c : Cursor). record v { it_selected_node = c }) it
    ∙ ap (λ (es : List Event). record v { it_selected_node = at_end; events = es })
        (sym (append-nil v.events))

walked-walked :
    (v : GraphView) (c d : Cursor) (k : ℤ) (es : List Event)
    → walked (walked v c (jumped k ∷ [])) d es ≡ walked v d (jumped k ∷ es)
walked-walked v c d k es =
    ap (λ (l : List Event). record v { it_selected_node = d; events = l })
      (append_assoc v.events (jumped k ∷ []) es)

-- The rest of the walk, from the entry behind `before` on.
pub walk :
    (before after : Map ℤ ℕ) (v : GraphView) (w : GroupMan)
    → IsSorted (before ++ after)
    → v.selected_nodes ≡ before ++ after
    → v.it_selected_node ≡ begin_of after
    → jumps (length after) v w ≡ ok (tt, walked v at_end (jumps_to after)) w
walk before [] v w h sel it = ap (λ (u : GraphView). ok (tt, u) w) (walked_nil v it)
walk before ((k, c) ∷ after) v w h sel it =
    let split = sym (append_assoc before ((k, c) ∷ []) after) in
    let step : step_cursor v.it_selected_node v.selected_nodes ≡ some (k, begin_of after) =
      rw (sel, it) (step-middle before k c after h) in
    let some_node : is_empty v.selected_nodes ≡ false =
      rw sel (middle_nonempty before (k, c) after) in
    rw (jump-step v w k (begin_of after) some_node step) (
      walk (before ++ (k, c) ∷ []) after (walked v (begin_of after) (jumped k ∷ [])) w
        (subst IsSorted split h) (sel ∙ split) refl
      ∙ ap (λ (u : GraphView). ok (tt, u) w)
          (walked-walked v (begin_of after) at_end k (jumps_to after)))

from_end :
    (v : GraphView) (w : GroupMan) (m : Map ℤ ℕ)
    → v.selected_nodes ≡ m
    → IsSorted m
    → v.it_selected_node ≡ at_end
    → jumps (length m) v w ≡ ok (tt, walked v at_end (jumps_to m)) w
unfolding step_cursor
from_end v w [] e h it = ap (λ (u : GraphView). ok (tt, u) w) (walked_nil v it)
from_end v w ((k, c) ∷ after) e h it =
    rw (jump-step v w k (begin_of after) (rw e refl) (rw (it, e) refl)) (
      walk ((k, c) ∷ []) after (walked v (begin_of after) (jumped k ∷ [])) w h e refl
      ∙ ap (λ (u : GraphView). ok (tt, u) w)
          (walked-walked v (begin_of after) at_end k (jumps_to after)))

-- From an iterator at the end, as many jumps as there are selected nodes go to each of them once, in
-- the order of the ids, and leave the iterator at the end again.
pub jumps_lem :
    (v : GraphView) (w : GroupMan)
    → IsSorted v.selected_nodes
    → v.it_selected_node ≡ at_end
    → jumps (length v.selected_nodes) v w ≡ ok (tt, walked v at_end (jumps_to v.selected_nodes)) w
jumps_lem v w h it = from_end v w v.selected_nodes refl h it

insert_nonempty : (n : ℤ) (c : ℕ) (m : Map ℤ ℕ) → is_empty (insert n c m) ≡ false
unfolding insert
insert_nonempty n c [] = refl
insert_nonempty n c ((j, d) ∷ m) = ground arith

-- the loop of `select_all_nodes` leaves the iterator, and entries where there is one to begin with
select_from_keeps :
    (nodes : Map ℤ Addr) (v : GraphView) (w : GroupMan)
    → All (λ (_, q). IsNode w.heap q) nodes
    → (v' : GraphView) × (select_from nodes v w ≡ ok (tt, v') w)
      × (v'.it_selected_node ≡ v.it_selected_node)
      × (is_empty nodes ≡ false → is_empty v'.selected_nodes ≡ false)
      × (is_empty v.selected_nodes ≡ false → is_empty v'.selected_nodes ≡ false)
unfolding select_from
select_from_keeps [] v w real = (v, refl, refl, (λ no. ground (arith, no)), λ h. h)
select_from_keeps ((_, p) ∷ rest) v w ((_, (d, e)), real) =
    let v1 : GraphView = record v {
      selected_nodes = insert d.nid node_sel_color v.selected_nodes;
    } in
    let (v', run, it, _, kept) = select_from_keeps rest v1 w real in
    let filled = kept (insert_nonempty d.nid node_sel_color v.selected_nodes) in
    (v', rw (load_nd-ok w p e, run) refl, it, (λ _. filled), λ _. filled)

-- "Select all" leaves an iterator that stood at an entry without one: the next jump uses it after
-- the entry is gone.
pub select_all_nodes_dangles :
    (v : GraphView) (w : GroupMan) (k : ℤ) (id : ℤ) (p : Addr) (rest : Map ℤ Addr)
    → v.it_selected_node ≡ at k
    → w.all_nodes ≡ (id, p) ∷ rest
    → All (λ (_, q). IsNode w.heap q) w.all_nodes
    → (select_all_nodes >> jump_to_next_selected) v w ≡ fault
unfolding select_all_nodes jump_to_next_selected jump_to_next_node step_cursor
select_all_nodes_dangles v w k id p rest it all real =
    let v0 : GraphView = record v { selected_nodes = []; it_selected_node = dangling } in
    let (v', run, it', filled, _) = select_from_keeps w.all_nodes v0 w real in
    let some_node = filled (rw all refl) in rw (it, run, some_node, it') refl
