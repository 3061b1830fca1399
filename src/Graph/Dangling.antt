-- ===== src/Graph/Dangling.antt =====
-- The iterator of the selection when the entry that it stands at is taken out by a click.
use graph_slick.Base.{ℕ, ◌≡◌, refl, Bool, true, false, some, ℤ, is_empty}
use graph_slick.OrdMap.{find, erase, int_ord}
use graph_slick.OrdMap.Laws.{same_refl}
use graph_slick.Heap.{GroupMan, fault}
use graph_slick.Graph.{at, GraphView, ◌>>◌}
use graph_slick.Graph.Select.{
  refresh_view, toggle_select_node, jump_to_next_selected, jump_to_next_node, step_cursor,
}

-- A click that takes the node out of the selection at which the iterator stands leaves the iterator
-- without an entry: while other nodes are selected, the next jump uses it after the entry is gone.
pub toggle_select_node_dangles :
    (v : GraphView) (w : GroupMan) (k : ℤ) (c : ℕ) (delay_refresh : Bool)
    → v.it_selected_node ≡ at k
    → find k v.selected_nodes ≡ some c
    → is_empty (erase k v.selected_nodes) ≡ false
    → (toggle_select_node k delay_refresh >> jump_to_next_selected) v w ≡ fault
unfolding toggle_select_node refresh_view jump_to_next_selected jump_to_next_node step_cursor
toggle_select_node_dangles v w k c true it here others = rw (here, others, it, same_refl k) refl
toggle_select_node_dangles v w k c false it here others = rw (here, others, it, same_refl k) refl
