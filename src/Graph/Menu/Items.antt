-- ===== src/Graph/Menu/Items.antt =====
-- The items that `init` of the graph view gives its context menu, and the way from the id of an item
-- to the command (plugin.cpp, built with PUBLIC).
use graph_slick.Base.{Bool, Option, none, some, List, [], ◌∷◌, if◌then◌else◌, ℤ, Text, codes}
use graph_slick.OrdMap.{same, find, int_ord}
use graph_slick.Heap.{Addr}
use graph_slick.Graph.Menu as Menu
use graph_slick.Graph.Menu.{Button, MenuItem}
use graph_slick.Graph.Menu.Ids.{
  Idm, idm_clear_sel, idm_clear_highlight, idm_select_all, idm_set_sel_mode, idm_single_view_mode,
  idm_combined_view_mode, idm_show_options, idm_highlight_similar, idm_find_highlight,
  idm_change_graph_layout, idm_edit_sg_desc, idm_combine_ngs, idm_jump_next_selected_node,
  idm_jump_next_highlighted_node, idm_remove_nodes_from_group, idm_merge_highlight_with_selection,
  idm_promote_node_groups, idm_reset_groupping, idm_test, idms, Ids, MenuContext, ViewerCall, Menus,
  MenuCmd, add_menu, assign, exchange_label,
}

-- one line of `init`
pub data Entry : Type 0 where
  separator : Entry
  entry : Idm → Text → Option Text → Entry

abbrev pub key : Text → Option Text
key k = some k

-- the lines of `init` before the last separator
abbrev pub init_entries : List Entry
init_entries =
    separator
    ∷ entry idm_show_options (codes "Show options") (key (codes "O"))
    ∷ separator
    ∷ entry idm_clear_sel (codes "Clear selection") (key (codes "D"))
    ∷ entry idm_clear_highlight (codes "Clear highlighting") (key (codes "H"))
    ∷ entry idm_select_all (codes "Select all") (key (codes "A"))
    ∷ entry idm_merge_highlight_with_selection (codes "Merge highlight with selection")
        (key (codes "V"))
    ∷ entry idm_jump_next_highlighted_node (codes "Jump to next highlighted node") (key (codes "J"))
    ∷ entry idm_jump_next_selected_node (codes "Jump to next selected node") (key (codes "K"))
    ∷ separator
    ∷ entry idm_change_graph_layout (codes "Change graph layout") none
    ∷ entry idm_single_view_mode (codes "Switch to ungroupped view") (key (codes "U"))
    ∷ entry idm_combined_view_mode (codes "Switch to groupped view") (key (codes "G"))
    ∷ separator
    ∷ entry idm_highlight_similar (codes "Highlight similar nodes") (key (codes "M"))
    ∷ entry idm_find_highlight (codes "Find group") (key (codes "F"))
    ∷ entry idm_combine_ngs (codes "Combine nodes") (key (codes "C"))
    ∷ entry idm_edit_sg_desc (codes "Edit group description") (key (codes "E"))
    ∷ separator
    ∷ []

module _ (accepts : ViewerCall → Bool) where
  abbrev pub and_then : {A B : Type 0} → Option (A × Menus) → (A → MenuCmd B) → Option (B × Menus)
  and_then none k = none
  and_then (some (a, m)) k = k a m

  abbrev pub add_entry : Addr → Entry → MenuCmd (Unit {0})
  add_entry this separator m = some (tt, (add_menu accepts this (codes "-") none m).1)
  add_entry this (entry i name hotkey) m = assign accepts this i name hotkey m

  unfoldable pub add_entries : Addr → List Entry → MenuCmd (Unit {0})
  add_entries this [] m = some (tt, m)
  add_entries this (e ∷ es) m = and_then (add_entry this e m) (λ _. add_entries this es)

  -- the menu part of `init`
  unfoldable pub init_menus : Addr → Bool → MenuCmd (Unit {0})
  init_menus this in_sel_mode m =
      and_then (add_entries this init_entries m) (λ _. exchange_label accepts this in_sel_mode)

  -- the selection mode is changed some times
  abbrev pub exchange_labels : Addr → List Bool → MenuCmd (Unit {0})
  exchange_labels this [] m = some (tt, m)
  exchange_labels this (b ∷ bs) m =
      and_then (exchange_label accepts this b m) (λ _. exchange_labels this bs)

  abbrev pub init_and_exchange : Addr → Bool → List Bool → MenuCmd (Unit {0})
  init_and_exchange this b bs m = and_then (init_menus this b m) (λ _. exchange_labels this bs)

-- the first field, in the order of the tests, that has the id
unfoldable pub first_with : Ids → ℤ → List Idm → Option Idm
first_with ids k [] = none
first_with ids k (i ∷ l) = if same k (ids i) then some i else first_with ids k l

-- what `s_menu_item_callback` does: nothing, or the branch of the view's `on_menu` that it runs
pub data Chosen : Type 0 where
  nothing : Chosen
  branch : Addr → Option Idm → Chosen

abbrev pub branch_of : Addr → ℤ → Option Ids → Option Chosen
branch_of gsgv id none = none
branch_of gsgv id (some ids) = some (branch gsgv (first_with ids id idms))

abbrev pub chosen_at : ℤ → Menus → Option MenuContext → Option Chosen
chosen_at id m none = some nothing
chosen_at id m (some ctx) = branch_of ctx.gsgv id (m.views ctx.gsgv)

unfoldable pub s_menu_item_callback : ℤ → Menus → Option Chosen
s_menu_item_callback id m = chosen_at id m (find id m.menu_ids)

-- the command of a field; the layout question comes with its answer
abbrev pub command_of : Button → Idm → MenuItem
command_of b idm_clear_sel = Menu.clear_sel
command_of b idm_clear_highlight = Menu.clear_highlight
command_of b idm_select_all = Menu.select_all
command_of b idm_set_sel_mode = Menu.set_sel_mode_item
command_of b idm_single_view_mode = Menu.single_view_mode
command_of b idm_combined_view_mode = Menu.combined_view_mode
command_of b idm_show_options = Menu.show_options
command_of b idm_highlight_similar = Menu.highlight_similar
command_of b idm_find_highlight = Menu.find_highlight
command_of b idm_change_graph_layout = Menu.change_graph_layout b
command_of b idm_edit_sg_desc = Menu.edit_sg_desc
command_of b idm_combine_ngs = Menu.combine_ngs
command_of b idm_jump_next_selected_node = Menu.jump_next_selected_node
command_of b idm_jump_next_highlighted_node = Menu.jump_next_highlighted_node
command_of b idm_remove_nodes_from_group = Menu.remove_nodes_from_group
command_of b idm_merge_highlight_with_selection = Menu.merge_highlight
command_of b idm_promote_node_groups = Menu.promote_node_groups
command_of b idm_reset_groupping = Menu.reset_groupping_item
command_of b idm_test = Menu.test
