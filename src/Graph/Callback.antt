-- ===== src/Graph/Callback.antt =====
-- The callback of the graph viewer (`gr_callback` of plugin.cpp), the switches of the view mode and
-- the constructor of the view. `disasm` is the disassembler, `fc` the flowchart of the function.
use graph_slick.Base.{
  ℕ, Bool, true, false, ◌||◌, Option, none, some, List, [], map, if◌then◌else◌, ℤ, pos, Text,
  is_empty,
}
use graph_slick.OrdMap.{same, find, int_ord}
use graph_slick.Algo.{FlowChart}
use graph_slick.Algo.Single.{SingleGraph, func_to_mgraph}
use graph_slick.Algo.Combined.{GNode, Tables, fc_to_combined_mg}
use graph_slick.Graph.{
  Mode, soft, single, combined, at_end, drawn, layout_redone, view_closed, Options, GraphView,
  no_id, ViewCmd, give, lift, ◌>>=◌, ◌>>◌, view, change, emit_event,
}
use graph_slick.Graph.Select.{reset_states, toggle_select_node, user_text}

-- what the viewer tells or asks; a click comes with the item under it, none for NULL
pub data Request : Type 0 where
  clicked : Option (Bool × ℤ) → Request
  changed_current : ℤ → Request
  creating_group deleting_group changed_graph user_refresh destroyed : Request
  user_text_of user_hint_of : ℤ → Request

-- the result, with the text and the background or the hint that are passed back
pub data Reply : Type 0 where
  result : ℕ → Reply
  text_result : Text → Option ℕ → Reply
  hint_result : Text → Reply

-- The constructor. It leaves the mode and the iterators unset; here they are `soft` and at the end
-- until the first redraw.
unfoldable pub new_view : Options → List (Option Text) → GraphView
new_view options answers = record {
  cur_node = no_id;
  focus_node = no_id;
  node_map = [];
  ng2id = [];
  refresh_mode = options.start_view_mode;
  cur_view_mode = soft;
  highlighted_nodes = [];
  selected_nodes = [];
  it_selected_node = at_end;
  it_highlighted_node = at_end;
  in_sel_mode = false;
  options = options;
  answers = answers;
  events = [];
}

abbrev pub click : GraphView → Option (Bool × ℤ) → ViewCmd (Unit {0})
click v none = give tt
click v (some (is_node, node)) =
    if v.in_sel_mode
    then (if is_node then toggle_select_node node v.manual_refresh_mode else give tt)
    else give tt

-- the hint of a node, or its text where it has none
unfoldable pub hint_of : GNode → Text
hint_of n = if is_empty n.hint then n.text else n.hint

abbrev pub hint_reply : ℤ → Option GNode → Reply
hint_reply node none = result 0
hint_reply node (some n) = if same node no_id then result 0 else hint_result (hint_of n)

abbrev pub text_reply : Option (Text × Option ℕ) → Reply
text_reply none = result 0
text_reply (some (text, color)) = text_result text color

module _ (disasm : ℕ → ℕ → Text) (fc : FlowChart) where
  abbrev pub show_single : Option SingleGraph → ViewCmd (Unit {0})
  show_single none = give tt
  show_single (some g) = do
    change (λ v. record v { node_map = g.node_map })
    emit_event (drawn g.node_count g.edges)

  unfoldable pub switch_to_single_view_mode : ViewCmd (Unit {0})
  switch_to_single_view_mode = do
    v ← view
    let g : SingleGraph = record { node_count = 0; edges = []; node_map = v.node_map }
    show_single (func_to_mgraph disasm v.append_node_id (λ _. none) 0 g (some fc))

  -- the tables as the view keeps them, their ids as `int`
  abbrev pub show_combined : Tables → ViewCmd (Unit {0})
  show_combined t = do
    change (λ v. record v {
      node_map = map (λ (n, gnode). (pos n, gnode)) t.node_map;
      ng2id = map (λ (ng, n). (ng, pos n)) t.group2id;
    })
    emit_event (drawn t.node_count (map (λ (a, b). (pos a, pos b)) t.edges))

  -- The tables are empty, since the callback has reset the view. What was built is shown also where
  -- the building stops early.
  unfoldable pub switch_to_combined_view_mode : ViewCmd (Unit {0})
  switch_to_combined_view_mode = do
    t ← lift (
        fc_to_combined_mg disasm (λ _. none) 0 (some fc)
          (record { group2id = []; node_map = []; node_count = 0; edges = [] }))
    show_combined t

  abbrev pub switch_to : Mode → ViewCmd (Unit {0})
  switch_to soft = give tt
  switch_to single = switch_to_single_view_mode
  switch_to combined = switch_to_combined_view_mode

  abbrev pub is_soft : Mode → Bool
  is_soft soft = true
  is_soft single = false
  is_soft combined = false

  -- a redraw: the nodes are made again where there are none or where a mode is asked for
  unfoldable pub redraw : ViewCmd (Unit {0})
  redraw = do
    v ← view
    if is_empty v.node_map || (if is_soft v.refresh_mode then false else true)
        then (do
          change (λ v'. record (reset_states v') { cur_view_mode = v.refresh_mode })
          switch_to v.refresh_mode)
        else give tt
    emit_event layout_redone

  unfoldable pub gr_callback : Request → ViewCmd Reply
  gr_callback (clicked item) = do v ← view; click v item; give (result 0)
  gr_callback (changed_current n) = do change (λ v. record v { cur_node = n }); give (result 0)
  gr_callback creating_group = give (result 0)
  gr_callback deleting_group = give (result 0)
  gr_callback changed_graph = give (result 0)
  gr_callback user_refresh = do redraw; give (result 1)
  gr_callback (user_text_of n) = do v ← view; give (text_reply (user_text v n))
  gr_callback (user_hint_of n) = do v ← view; give (hint_reply n (find n v.node_map))
  gr_callback destroyed = do emit_event view_closed; give (result 0)
