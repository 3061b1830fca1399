-- ===== src/Graph/Menu/Ids.antt =====
-- The context menu of the graph view (plugin.cpp): the static map of menu ids, the fields `idm_*` of
-- the views, and what adds, removes and finds the items. The answers of the viewer are a parameter.
use graph_slick.Base.{
  ℕ, suc, Bool, true, false, Option, none, some, List, [], ◌∷◌, ◌++◌, ◌==◌, if◌then◌else◌, ℤ, pos,
  Text, codes,
}
use graph_slick.OrdMap.{Map, same, find, insert, erase, int_ord}
use graph_slick.Heap.{Addr}
use graph_slick.Graph.{no_id}

-- the fields that hold the ids of the menu items of a view
pub data Idm : Type 0 where
  idm_clear_sel idm_clear_highlight idm_select_all idm_set_sel_mode idm_single_view_mode : Idm
  idm_combined_view_mode idm_show_options idm_highlight_similar idm_find_highlight : Idm
  idm_change_graph_layout idm_edit_sg_desc idm_combine_ngs idm_jump_next_selected_node : Idm
  idm_jump_next_highlighted_node idm_remove_nodes_from_group : Idm
  idm_merge_highlight_with_selection idm_promote_node_groups idm_reset_groupping idm_test : Idm

-- their order in the tests of `on_menu`
abbrev pub idms : List Idm
idms =
    idm_clear_sel ∷ idm_clear_highlight ∷ idm_select_all ∷ idm_set_sel_mode ∷ idm_single_view_mode
    ∷ idm_combined_view_mode ∷ idm_show_options ∷ idm_highlight_similar ∷ idm_find_highlight
    ∷ idm_change_graph_layout ∷ idm_edit_sg_desc ∷ idm_combine_ngs ∷ idm_jump_next_selected_node
    ∷ idm_jump_next_highlighted_node ∷ idm_remove_nodes_from_group
    ∷ idm_merge_highlight_with_selection ∷ idm_promote_node_groups ∷ idm_reset_groupping ∷ idm_test
    ∷ []

-- the number of a field in this order
abbrev pub idm_no : Idm → ℕ
idm_no idm_clear_sel = 0
idm_no idm_clear_highlight = 1
idm_no idm_select_all = 2
idm_no idm_set_sel_mode = 3
idm_no idm_single_view_mode = 4
idm_no idm_combined_view_mode = 5
idm_no idm_show_options = 6
idm_no idm_highlight_similar = 7
idm_no idm_find_highlight = 8
idm_no idm_change_graph_layout = 9
idm_no idm_edit_sg_desc = 10
idm_no idm_combine_ngs = 11
idm_no idm_jump_next_selected_node = 12
idm_no idm_jump_next_highlighted_node = 13
idm_no idm_remove_nodes_from_group = 14
idm_no idm_merge_highlight_with_selection = 15
idm_no idm_promote_node_groups = 16
idm_no idm_reset_groupping = 17
idm_no idm_test = 18

abbrev pub Ids : Type 0
Ids = Idm → ℤ

-- as the constructor of a view leaves them
abbrev pub no_ids : Ids
no_ids i = no_id

abbrev pub set_id : Ids → Idm → ℤ → Ids
set_id ids i n j = if idm_no j == idm_no i then n else ids j

-- `menucbctx_t`; a view is its address
pub record MenuContext : Type 0 where
  pub gsgv : Addr
  pub name : Text

-- What the graph viewer of a view is asked: to add an item, with the id that its callback gets
-- (none for a separator, which has no callback) and its hotkey, or to remove one.
pub data ViewerCall : Type 0 where
  added : Addr → Text → Option ℤ → Option Text → ViewerCall
  removed : Addr → Text → ViewerCall

-- `menu_ids`, the static `id` of `add_menu`, the fields of the views that are there, and the calls
-- of the viewers
pub record Menus : Type 0 where
  pub menu_ids : Map ℤ MenuContext
  pub last_id : ℕ
  pub views : Addr → Option Ids
  pub calls : List ViewerCall

-- a command, none where it uses a view that is gone
abbrev pub MenuCmd : Type 0 → Type 0
MenuCmd A = Menus → Option (A × Menus)

abbrev pub called : ViewerCall → Menus → Menus
called c m = record m { calls = m.calls ++ c ∷ [] }

-- a single dash
abbrev pub is_sep : Text → Bool
is_sep [] = false
is_sep (c ∷ []) = c == b'-'
is_sep (_ ∷ _ ∷ _) = false

abbrev pub with_view :
    Option Ids → Menus → (Ids → Option (Unit {0} × Menus)) → Option (Unit {0} × Menus)
with_view none m k = none
with_view (some ids) m k = k ids

abbrev pub set_view : Addr → Ids → Menus → Menus
set_view this ids m = record m { views = λ v. if v == this then some ids else m.views v }

abbrev pub del_found : ℤ → Option MenuContext → MenuCmd (Unit {0})
del_found menu_id none m = some (tt, m)
del_found menu_id (some ctx) m = with_view (m.views ctx.gsgv) m λ _.
    some (tt, record (called (removed ctx.gsgv ctx.name) m) { menu_ids = erase menu_id m.menu_ids })

-- `del_menu`
unfoldable pub del_menu : ℤ → MenuCmd (Unit {0})
del_menu menu_id m =
    if same menu_id no_id then some (tt, m) else del_found menu_id (find menu_id m.menu_ids) m

abbrev pub sel_label : Bool → Text
sel_label false = codes "Start selection mode"
sel_label true = codes "End selection mode"

module _ (accepts : ViewerCall → Bool) where
  abbrev pub answered : Bool → ℤ → Menus → ℤ × Menus
  answered true id m = (id, m)
  answered false id m = (no_id, record m { menu_ids = erase id m.menu_ids })

  -- `add_menu`
  unfoldable pub add_menu : Addr → Text → Option Text → Menus → ℤ × Menus
  add_menu this name hotkey m =
      if is_sep name
      then (no_id, called (added this name none hotkey) m)
      else (let id = pos (suc m.last_id) in
          let call = added this name (some id) hotkey in
          let ctx : MenuContext = record { gsgv = this; name = name } in
          answered (accepts call) id (
            called call
              (record m { menu_ids = insert id ctx m.menu_ids; last_id = suc m.last_id })))

  -- `this->idm = add_menu(name, hotkey)`
  abbrev pub assign : Addr → Idm → Text → Option Text → MenuCmd (Unit {0})
  assign this i name hotkey m =
      let added_item = add_menu this name hotkey m in
      with_view (added_item.1.views this) added_item.1
        λ ids. some (tt, set_view this (set_id ids i added_item.0) added_item.1)

  abbrev pub then_assign : Addr → Bool → Option (Unit {0} × Menus) → Option (Unit {0} × Menus)
  then_assign this sel_mode none = none
  then_assign this sel_mode (some (_, m)) =
      assign this idm_set_sel_mode (sel_label sel_mode) (some (codes "S")) m

  -- the exchange of the item by `set_sel_mode`
  unfoldable pub exchange_label : Addr → Bool → MenuCmd (Unit {0})
  exchange_label this sel_mode m = with_view (m.views this) m λ ids. then_assign this sel_mode (
      if same (ids idm_set_sel_mode) no_id then some (tt, m) else del_menu (ids idm_set_sel_mode) m)
