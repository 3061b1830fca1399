-- ===== src/Graph.antt =====
-- `gsgraphview_t` of plugin.cpp: the state of the graph view, commands over it, and its lookups
-- between ids, groups and super groups. The view shares the manager and the heap of Heap.
pub mod Select
pub mod Highlight
pub mod Similar
pub mod Callback
pub mod Menu
pub mod Describe
pub mod Regrouping
pub mod Selection
pub mod Jumps
pub mod Visits
pub mod Dangling
pub mod Redraw
pub mod SimilarGroups
pub mod Unmatched
pub mod Tidy
pub mod Usable
use graph_slick.Base.{
  ℕ, zero, Bool, true, false, Option, none, some, List, [], ◌∷◌, ◌++◌, ◌==◌, if◌then◌else◌, ℤ, pos,
  negsuc, Text,
}
use graph_slick.OrdMap.{Map, same, find, int_ord, addr_ord}
use graph_slick.Heap.{
  Addr, null, NodeDef, NodeLoc, GroupMan, Run, ok, fault, Cmd, and_then, load_nd,
}
use graph_slick.Groups.{get_first_node}
use graph_slick.Manager.{find_nodeid_loc}
use graph_slick.Algo.Combined.{GNode}

-- `gvrefresh_modes_e`
pub data Mode : Type 0 where
  soft single combined : Mode

-- `layout_type_t` of the SDK
pub data Layout : Type 0 where
  digraph tree circle : Layout

-- `gsoptions_t`
pub record Options : Type 0 where
  pub append_node_id : Bool
  pub no_initial_path_info : Bool
  pub manual_refresh_mode : Bool
  pub highlight_syntethic_nodes : Bool
  pub show_options_dialog_next_time : Bool
  pub enlarge_group_name : Bool
  pub debug : Bool
  pub graph_layout : Layout
  pub start_view_mode : Mode

-- its constructor
abbrev pub default_options : Options
default_options = record {
  append_node_id = false;
  no_initial_path_info = false;
  manual_refresh_mode = true;
  highlight_syntethic_nodes = false;
  show_options_dialog_next_time = true;
  enlarge_group_name = true;
  debug = true;
  graph_layout = digraph;
  start_view_mode = combined;
}

-- An iterator of a colour map. `dangling` is one whose entry was erased.
pub data Cursor : Type 0 where
  at : ℤ → Cursor
  at_end dangling : Cursor

-- What the view asks of the graph viewer and of the chooser: `chooser_refreshed` has the argument of
-- `notify_refresh`, `drawn` the number of nodes and the edges of a new graph.
pub data Event : Type 0 where
  jumped : ℤ → Event
  chooser_refreshed : Bool → Event
  drawn : ℕ → List (ℤ × ℤ) → Event
  layout_redone view_closed : Event

-- The answers are what the user will type at the coming prompts, none where a prompt is cancelled;
-- behind the last one every prompt is cancelled.
pub record GraphView : Type 0 where
  pub cur_node : ℤ
  pub focus_node : ℤ
  pub node_map : Map ℤ GNode
  pub ng2id : Map Addr ℤ
  pub refresh_mode : Mode
  pub cur_view_mode : Mode
  pub highlighted_nodes : Map ℤ ℕ
  pub selected_nodes : Map ℤ ℕ
  pub it_selected_node : Cursor
  pub it_highlighted_node : Cursor
  pub in_sel_mode : Bool
  pub options : Options
  pub open options use *
  pub answers : List (Option Text)
  pub events : List Event

-- -1
abbrev pub no_id : ℤ
no_id = negsuc 0

abbrev pub ViewCmd : Type 0 → Type 0
ViewCmd A = GraphView → Cmd (A × GraphView)

abbrev pub give : {A : Type 0} → A → ViewCmd A
give a v = ok (a, v)

-- a command of the manager
abbrev pub lift : {A : Type 0} → Cmd A → ViewCmd A
lift m v w = and_then (m w) (λ a. ok (a, v))

abbrev pub broken : {A : Type 0} → ViewCmd A
broken v w = fault

module _ {A B : Type 0} where
  infixl 5 ◌>>=◌ ◌>>◌
  abbrev pub ◌>>=◌ : ViewCmd A → (A → ViewCmd B) → ViewCmd B
  m >>= k = λ v w. and_then (m v w) (λ (a, v'). k a v')

  abbrev pub ◌>>◌ : ViewCmd A → ViewCmd B → ViewCmd B
  m >> n = m >>= λ _. n

abbrev pub view : ViewCmd GraphView
view v = ok (v, v)

abbrev pub gm : ViewCmd GroupMan
gm v w = ok (w, v) w

abbrev pub change : (GraphView → GraphView) → ViewCmd (Unit {0})
change f v = ok (tt, f v)

abbrev pub emit_event : Event → ViewCmd (Unit {0})
emit_event e = change (λ v. record v { events = v.events ++ e ∷ [] })

-- `ng2nid_t::get_ng_id`
abbrev pub id_or_none : Option ℤ → ℤ
id_or_none none = no_id
id_or_none (some n) = n

unfoldable pub get_ng_id : Map Addr ℤ → Addr → ℤ
get_ng_id m ng = id_or_none (find ng m)

abbrev pub ng_id_at : GraphView → Option NodeLoc → ℤ
ng_id_at v none = no_id
ng_id_at v (some loc) = get_ng_id v.ng2id loc.ng

unfoldable pub get_gvnid_from_nid : GraphView → GroupMan → ℤ → ℤ
get_gvnid_from_nid v w nid = elim v.cur_view_mode [
  | single ↦ nid
  | soft ↦ ng_id_at v (find_nodeid_loc w nid)
  | combined ↦ ng_id_at v (find_nodeid_loc w nid)
]

-- `get_ng_from_ngid`: the first group, in address order, that has the id
unfoldable pub get_ng_from_ngid : Map Addr ℤ → ℤ → Addr
get_ng_from_ngid [] ngid = null
get_ng_from_ngid ((ng, n) ∷ m) ngid = if same n ngid then ng else get_ng_from_ngid m ngid

abbrev pub sg_at : Option NodeLoc → Addr
sg_at none = null
sg_at (some loc) = loc.sg

unfoldable pub get_sg_from_ng : Addr → ViewCmd Addr
get_sg_from_ng ng = do
  p ← lift (get_first_node ng)
  if p == null
      then give null
      else (do nd ← lift (load_nd p); w ← gm; give (sg_at (find_nodeid_loc w nd.nid)))

-- the argument is not read: the code takes the current node
unfoldable pub get_sg_from_ngid : ℤ → ViewCmd Addr
get_sg_from_ngid ngid = do
  v ← view
  let ng = get_ng_from_ngid v.ng2id v.cur_node
  if ng == null then give null else get_sg_from_ng ng

abbrev pub first_nid : Addr → ViewCmd ℤ
first_nid ng = do
  p ← lift (get_first_node ng)
  if p == null then give no_id else (do nd ← lift (load_nd p); give nd.nid)

abbrev pub ngid_in : Mode → Addr → ViewCmd ℤ
ngid_in soft ng = give no_id
ngid_in combined ng = do v ← view; give (get_ng_id v.ng2id ng)
ngid_in single ng = first_nid ng

unfoldable pub get_ngid_from_ng : Addr → ViewCmd ℤ
get_ngid_from_ng ng = do v ← view; if ng == null then give no_id else ngid_in v.cur_view_mode ng
