-- ===== src/Graph/Select.antt =====
-- The handlers of the graph view on selection and highlighting (plugin.cpp), and the colours that
-- its callback serves.
use graph_slick.Base.{
  ℕ, Bool, true, false, Option, none, some, List, [], ◌∷◌, ◌==◌, if◌then◌else◌, ℤ, Text, is_empty,
}
use graph_slick.OrdMap.{Map, same, find, insert, erase, int_ord}
use graph_slick.Heap.{Addr, null, load_nd, load_ng, modify}
use graph_slick.Graph.{
  Mode, soft, single, combined, Cursor, at, at_end, dangling, jumped, GraphView, no_id, ViewCmd,
  give, lift, broken, ◌>>=◌, ◌>>◌, view, gm, change, emit_event, get_ngid_from_ng,
}

abbrev pub node_sel_color : ℕ
node_sel_color = 8156589

-- `refresh_view`; the rest of it is a comment
unfoldable pub refresh_view : ViewCmd (Unit {0})
refresh_view = change (λ v. record v { refresh_mode = single })

-- the cursor after all entries of its map were erased
abbrev pub cleared : Cursor → Cursor
cleared at_end = at_end
cleared dangling = dangling
cleared (at k) = dangling

-- the cursor after the entry of `k` was erased
abbrev pub erased : ℤ → Cursor → Cursor
erased k at_end = at_end
erased k dangling = dangling
erased k (at j) = if same j k then dangling else at j

unfoldable pub reset_states : GraphView → GraphView
reset_states v = record v {
  node_map = [];
  ng2id = [];
  highlighted_nodes = [];
  selected_nodes = [];
  it_selected_node = at_end;
  it_highlighted_node = at_end;
  cur_node = no_id;
}

unfoldable pub clear_selection : Bool → ViewCmd (Unit {0})
clear_selection delay_refresh = do
  change (λ v. record v { selected_nodes = []; it_selected_node = at_end })
  if delay_refresh then give tt else refresh_view

unfoldable pub clear_highlighting : Bool → ViewCmd (Unit {0})
clear_highlighting delay_refresh = do
  change (λ v. record v { highlighted_nodes = []; it_highlighted_node = at_end })
  if delay_refresh then give tt else refresh_view

-- the loop of `select_all_nodes`, over the entries of `all_nodes`
unfoldable pub select_from : Map ℤ Addr → ViewCmd (Unit {0})
select_from [] = give tt
select_from ((_, p) ∷ rest) = do
  nd ← lift (load_nd p)
  change (λ v. record v { selected_nodes = insert nd.nid node_sel_color v.selected_nodes })
  select_from rest

-- the iterator is not set again
unfoldable pub select_all_nodes : ViewCmd (Unit {0})
select_all_nodes = do
  change (λ v. record v { selected_nodes = []; it_selected_node = cleared v.it_selected_node })
  w ← gm
  select_from w.all_nodes

abbrev pub flip_node : ℤ → GraphView → Option ℕ → GraphView
flip_node n v none = record v { selected_nodes = insert n node_sel_color v.selected_nodes }
flip_node n v (some _) = record v {
  selected_nodes = erase n v.selected_nodes;
  it_selected_node = erased n v.it_selected_node;
}

unfoldable pub toggle_select_node : ℤ → Bool → ViewCmd (Unit {0})
toggle_select_node n delay_refresh = do
  change (λ v. flip_node n v (find n v.selected_nodes))
  if delay_refresh then give tt else refresh_view

-- the loop of `merge_highlight_with_selection`
unfoldable pub merge_from : Map ℤ ℕ → Map ℤ ℕ → Map ℤ ℕ
merge_from [] sel = sel
merge_from ((n, _) ∷ rest) sel =
    merge_from rest (elim (find n sel) [ some _ ↦ sel | none ↦ insert n node_sel_color sel ])

unfoldable pub merge_highlight_with_selection : ViewCmd (Unit {0})
merge_highlight_with_selection =
    change (λ v. record v { selected_nodes = merge_from v.highlighted_nodes v.selected_nodes })

-- `begin` of a map
abbrev pub begin_of : Map ℤ ℕ → Cursor
begin_of [] = at_end
begin_of ((j, _) ∷ m) = at j

-- the iterator behind the entry of `k`; none where no entry has the key
unfoldable pub next_of : ℤ → Map ℤ ℕ → Option Cursor
next_of k [] = none
next_of k ((j, _) ∷ m) = if same j k then some (begin_of m) else next_of k m

abbrev pub from_entry : ℤ → Option Cursor → Option (ℤ × Cursor)
from_entry k none = none
from_entry k (some c) = some (k, c)

-- the jump through an iterator that is not at the end: where it goes and the iterator behind it
unfoldable pub step_cursor : Cursor → Map ℤ ℕ → Option (ℤ × Cursor)
step_cursor at_end [] = none
step_cursor at_end ((j, _) ∷ m) = some (j, begin_of m)
step_cursor dangling m = none
step_cursor (at k) m = from_entry k (next_of k m)

abbrev pub jump_in : (Cursor → GraphView → GraphView) → Option (ℤ × Cursor) → ViewCmd (Unit {0})
jump_in put none = broken
jump_in put (some (n, c)) = do emit_event (jumped n); change (put c)

-- `jump_to_next_node`: `put` writes the iterator that is passed by reference
unfoldable pub jump_to_next_node :
    (Cursor → GraphView → GraphView) → Cursor → Map ℤ ℕ → ViewCmd (Unit {0})
jump_to_next_node put it cont = if is_empty cont then give tt else jump_in put (step_cursor it cont)

-- the menu command on the selected nodes
unfoldable pub jump_to_next_selected : ViewCmd (Unit {0})
jump_to_next_selected = do
  v ← view
  jump_to_next_node (λ c v'. record v' { it_selected_node = c }) v.it_selected_node v.selected_nodes

-- the loop of `highlight_nodes` over a group, and the ids in `newly_colored`
unfoldable pub color_nodes : ℕ → List Addr → Map ℤ (Unit {0}) → ViewCmd (Map ℤ (Unit {0}))
color_nodes clr [] new = give new
color_nodes clr (p ∷ nds) new = do
  nd ← lift (load_nd p)
  change (λ v. record v { highlighted_nodes = insert nd.nid clr v.highlighted_nodes })
  color_nodes clr nds (insert nd.nid tt new)

-- The printing of the ids in single view mode reads `all_nodes` with `[]`, which adds a missing id
-- with a NULL node; a node that is there is read.
unfoldable pub print_nodes : Map ℤ (Unit {0}) → ViewCmd (Unit {0})
print_nodes [] = give tt
print_nodes ((nid, _) ∷ new) = do
  w ← gm
  elim (find nid w.all_nodes) [
    | none ↦ lift (modify (λ w'. record w' { all_nodes = insert nid null w'.all_nodes }))
    | some p ↦ if p == null then give tt else (do nd ← lift (load_nd p); give tt)
  ]
  print_nodes new

abbrev pub after_colors : Bool → Map ℤ (Unit {0}) → ViewCmd Bool
after_colors delay_refresh new = do
  v ← view
  if delay_refresh then (if v.debug then print_nodes new else give tt) else refresh_view
  give true

abbrev pub highlight_in : Mode → Addr → ℕ → Bool → ViewCmd Bool
highlight_in soft ng clr delay_refresh = give false
highlight_in combined ng clr delay_refresh = do
  n ← get_ngid_from_ng ng
  if same n no_id then give false else (do
    change (λ v. record v { highlighted_nodes = insert n clr v.highlighted_nodes })
    after_colors delay_refresh [])
highlight_in single ng clr delay_refresh = do
  nds ← lift (load_ng ng)
  new ← color_nodes clr nds []
  after_colors delay_refresh new

-- `highlight_nodes` of one group; in combined mode the printing reads nothing
unfoldable pub highlight_nodes : Addr → ℕ → Bool → ViewCmd Bool
highlight_nodes ng clr delay_refresh = do
  v ← view
  highlight_in v.cur_view_mode ng clr delay_refresh

-- the background of a node in the answer to `grcode_user_text`: selection before highlight
unfoldable pub bgcolor : GraphView → ℤ → Option ℕ
bgcolor v node = elim (find node v.selected_nodes) [
  | some c ↦ some c
  | none ↦ find node v.highlighted_nodes
]

-- the answer to `grcode_user_text`: the text and the background; none for result 0
unfoldable pub user_text : GraphView → ℤ → Option (Text × Option ℕ)
user_text v node = elim (find node v.node_map) [
  | none ↦ none
  | some gnode ↦ some (gnode.text, bgcolor v node)
]
