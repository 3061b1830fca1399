-- ===== src/Graph/Menu.antt =====
-- The menu commands of the graph view (`on_menu` of plugin.cpp).
pub mod Ids
pub mod Items
pub mod Served
pub mod Kept
pub mod Reach
pub mod Public
pub mod Offered
pub mod Run
use graph_slick.Base.{
  ℕ, Bool, true, false, not, Option, List, [], ◌∷◌, ◌==◌, ltb, length, if◌then◌else◌, ℤ, pos, Text,
}
use graph_slick.OrdMap.{same, insert, int_ord}
use graph_slick.Heap.{Addr, null}
use graph_slick.ColorGen.{Double}
use graph_slick.Graph.{
  Mode, soft, single, combined, Layout, digraph, tree, circle, chooser_refreshed, GraphView, no_id,
  ViewCmd, give, ◌>>=◌, ◌>>◌, view, change, emit_event, get_sg_from_ngid,
}
use graph_slick.Graph.Select.{
  clear_selection, clear_highlighting, select_all_nodes, merge_highlight_with_selection, cleared,
  jump_to_next_selected, jump_to_next_node, node_sel_color,
}
use graph_slick.Graph.Highlight.{highlight_similar_selection, find_and_highlight_nodes, similar_to}
use graph_slick.Graph.Describe.{edit_sg_description}
use graph_slick.Graph.Regrouping.{
  redo_layout, combine_node_groups, promote_node_groups_to_sgs, move_nodes_to_own_ng, reset_all,
}

-- the buttons of the layout question
pub data Button : Type 0 where
  yes_button no_button cancel_button : Button

-- The items of `init`, and `set_sel_mode_item`, the one that `set_sel_mode` adds. The layout
-- question comes with its answer.
pub data MenuItem : Type 0 where
  clear_sel clear_highlight select_all set_sel_mode_item single_view_mode : MenuItem
  combined_view_mode show_options highlight_similar find_highlight : MenuItem
  change_graph_layout : Button → MenuItem
  edit_sg_desc combine_ngs jump_next_selected_node jump_next_highlighted_node : MenuItem
  remove_nodes_from_group merge_highlight promote_node_groups reset_groupping_item test : MenuItem

abbrev pub layout_of : Button → Layout
layout_of yes_button = circle
layout_of no_button = tree
layout_of cancel_button = digraph

abbrev pub set_layout : Layout → GraphView → GraphView
set_layout l v = record v { options = record v.options { graph_layout = l } }

-- `set_sel_mode`; the exchange of the menu item's label is `exchange_label` of Ids
unfoldable pub set_sel_mode : Bool → ViewCmd (Unit {0})
set_sel_mode sel_mode = change (λ v. record v { in_sel_mode = sel_mode })

abbrev pub is_combined : Mode → Bool
is_combined soft = false
is_combined single = false
is_combined combined = true

abbrev pub edit_at : Addr → ViewCmd (Unit {0})
edit_at sg = if sg == null then give tt else do
  changed ← edit_sg_description sg
  if changed then emit_event (chooser_refreshed false) else give tt

-- the description of the current node's super group
unfoldable pub edit_current : ViewCmd (Unit {0})
edit_current = do
  v ← view
  if is_combined v.cur_view_mode
      then (if same v.cur_node no_id
          then give tt
          else (do sg ← get_sg_from_ngid v.cur_node; edit_at sg))
      else give tt

-- the selection of the test command; its iterator is not set again
abbrev pub test_selection : GraphView → GraphView
test_selection v = record v {
  selected_nodes =
      insert (pos 4) node_sel_color
        (insert (pos 3) node_sel_color (insert (pos 1) node_sel_color []));
  it_selected_node = cleared v.it_selected_node;
}

module _ {W : Type 0} (d : Double W) (fuel : ℕ) (matcher : List ℤ → Option (List (List ℤ)))
    (stristr : Text → Text → Bool) (refresh_viewer : ViewCmd (Unit {0})) where
  unfoldable pub on_menu : MenuItem → ViewCmd (Unit {0})
  on_menu clear_sel = do v ← view; clear_selection v.manual_refresh_mode
  on_menu clear_highlight = do v ← view; clear_highlighting v.manual_refresh_mode
  on_menu select_all = select_all_nodes
  on_menu set_sel_mode_item = do v ← view; set_sel_mode (not v.in_sel_mode)
  on_menu single_view_mode = redo_layout refresh_viewer single
  on_menu combined_view_mode = redo_layout refresh_viewer combined
  -- the dialog has an empty body
  on_menu show_options = give tt
  on_menu highlight_similar = do
    v ← view
    highlight_similar_selection d fuel matcher v.manual_refresh_mode
  on_menu find_highlight = do
    v ← view
    find_and_highlight_nodes d fuel stristr v.manual_refresh_mode
  on_menu (change_graph_layout b) = do
    change (set_layout (layout_of b))
    v ← view
    redo_layout refresh_viewer v.cur_view_mode
  on_menu edit_sg_desc = edit_current
  on_menu combine_ngs = do
    v ← view
    if ltb 1 (length v.selected_nodes) then combine_node_groups refresh_viewer else give tt
  on_menu jump_next_selected_node = jump_to_next_selected
  on_menu jump_next_highlighted_node = do
    v ← view
    jump_to_next_node (λ c v'. record v' { it_highlighted_node = c }) v.it_highlighted_node
        v.highlighted_nodes
  on_menu remove_nodes_from_group = move_nodes_to_own_ng refresh_viewer
  on_menu merge_highlight = merge_highlight_with_selection
  on_menu promote_node_groups = promote_node_groups_to_sgs refresh_viewer
  on_menu reset_groupping_item = reset_all refresh_viewer
  on_menu test = change test_selection >> similar_to d fuel matcher (pos 1 ∷ pos 3 ∷ pos 4 ∷ [])
