-- ===== src/Graph/Redraw.antt =====
-- What a redraw of the graph viewer does to the view.
use graph_slick.Base.{
  map, All, ℕ, ◌≡◌, refl, Bool, true, false, ◌||◌, is_empty, none, some, [], ◌∷◌, ◌++◌, ℤ, pos,
  length, get_elem?, Text,
}
use mathlib.Core.List.{append_assoc}
use graph_slick.OrdMap.{find, int_ord, addr_ord}
use graph_slick.Heap.{Addr, SuperGroup, GroupMan, ok}
use graph_slick.Algo.{Block, FlowChart}
use graph_slick.Algo.Single.{SingleGraph}
use graph_slick.Algo.Single.Drawn.{chart_edges, drawn, func_to_mgraph-drawn}
use graph_slick.Algo.Combined.{Tables, fc_to_combined_mg}
use graph_slick.Algo.Combined.Labels.{Numbered, Labelled}
use graph_slick.Algo.Combined.Drawing.{
  AllReady, block_edges, id_in, HasGroupId, LiesOutside, visited, group_count,
}
use graph_slick.Algo.Combined.Edges.{build-Draws}
use graph_slick.Graph.{
  combined, single, at_end, Event, GraphView, no_id, ViewCmd, ◌>>◌, layout_redone,
}
use graph_slick.Graph as Graph
use graph_slick.Graph.Select.{refresh_view, reset_states, toggle_select_node, flip_node}
use graph_slick.Graph.Callback.{redraw, switch_to_single_view_mode, switch_to_combined_view_mode}

module _ (disasm : ℕ → ℕ → Text) (fc : FlowChart) where
  -- The view shows the blocks, nothing being selected, highlighted or current.
  pub record ShowsBlocks (v v' : GraphView) : Type 0 where
    pub mode : v'.cur_view_mode ≡ single
    pub selection : v'.selected_nodes ≡ []
    pub highlight : v'.highlighted_nodes ≡ []
    pub selection_at_end : v'.it_selected_node ≡ at_end
    pub highlight_at_end : v'.it_highlighted_node ≡ at_end
    pub current : v'.cur_node ≡ no_id
    pub groups : v'.ng2id ≡ []
    pub texts :
        (n : ℕ) (b : Block)
        → get_elem? fc n ≡ some b
        → find (pos n) v'.node_map ≡ some (drawn disasm v.append_node_id n b)
    pub events :
        v'.events ≡ v.events ++ Graph.drawn (length fc) (chart_edges 0 fc) ∷ layout_redone ∷ []

  or_true : (b : Bool) → (b || true) ≡ true
  or_true true = refl
  or_true false = refl

  -- A redraw for which the single view mode is asked does not fault and leaves the manager. The
  -- view is in that mode, shows each block with its text, and has drawn an edge to each successor,
  -- block by block; nothing is selected, highlighted or current, and both iterators are at the
  -- end.
  pub redraw-ShowsBlocks :
      (v : GraphView) (w : GroupMan)
      → v.refresh_mode ≡ single
      → (v' : GraphView) × (redraw disasm fc v w ≡ ok (tt, v') w) × ShowsBlocks v v'
  unfolding redraw switch_to_single_view_mode reset_states
  redraw-ShowsBlocks v w mode =
      let g0 : SingleGraph = record { node_count = 0; edges = []; node_map = [] } in
      let (g, run, count, edges, texts) =
        func_to_mgraph-drawn disasm v.append_node_id (λ _. none) 0 fc g0 refl in
      let v' : GraphView = record (reset_states v) {
        cur_view_mode = single;
        node_map = g.node_map;
        events = v.events ++ Graph.drawn g.node_count g.edges ∷ [] ++ layout_redone ∷ [];
      } in
      (
        v',
        rw (mode, or_true (is_empty v.node_map), run) refl,
        record {
          mode = refl;
          selection = refl;
          highlight = refl;
          selection_at_end = refl;
          highlight_at_end = refl;
          current = refl;
          groups = refl;
          texts = texts;
          events = rw (count, edges) (append_assoc v.events _ _);
        },
      )

  abbrev pub click_and_redraw : ℤ → ViewCmd (Unit {0})
  click_and_redraw n = toggle_select_node n false >> redraw disasm fc

  -- the view between the click and the redraw
  abbrev pub clicked_view : ℤ → GraphView → GraphView
  clicked_view n v = record (flip_node n v (find n v.selected_nodes)) { refresh_mode = single }

  -- Outside the manual refresh mode a click asks for a redraw in the single view mode: the redraw
  -- leaves any other mode and drops the selection, the clicked node included.
  pub click_and_redraw-ShowsBlocks :
      (v : GraphView) (w : GroupMan) (n : ℤ)
      → (v' : GraphView) × (click_and_redraw n v w ≡ ok (tt, v') w)
        × ShowsBlocks (clicked_view n v) v'
  unfolding toggle_select_node refresh_view
  click_and_redraw-ShowsBlocks v w n =
      let (v', run, shows) = redraw-ShowsBlocks (clicked_view n v) w refl in
      (v', rw run refl, shows)

  -- The view shows the groups that have an id in the table, nothing being selected, highlighted or
  -- current.
  pub record ShowsGroups (v v' : GraphView) (w : GroupMan) (t : Tables) : Type 0 where
    pub mode : v'.cur_view_mode ≡ combined
    pub selection : v'.selected_nodes ≡ []
    pub highlight : v'.highlighted_nodes ≡ []
    pub selection_at_end : v'.it_selected_node ≡ at_end
    pub highlight_at_end : v'.it_highlighted_node ≡ at_end
    pub current : v'.cur_node ≡ no_id
    pub nodes : v'.node_map ≡ map (λ (n, gnode). (pos n, gnode)) t.node_map
    pub labelled : Labelled disasm fc w t
    pub ids : v'.ng2id ≡ map (λ (ng, n). (ng, pos n)) t.group2id
    pub numbered : Numbered t.group2id
    pub covers : All (HasGroupId w t.group2id) (visited 0 fc)
    pub others : (q : Addr) → All (LiesOutside w q) (visited 0 fc) → find q t.group2id ≡ none
    pub events :
        v'.events
        ≡ v.events
          ++ Graph.drawn
              (group_count w.heap w.path_sgl)
              (map (λ (a, b). (pos a, pos b)) (block_edges (id_in w t.group2id) 0 fc))
            ∷ layout_redone
            ∷ []

  -- A redraw for which the combined view mode is asked, where the lookups locate every block and
  -- every successor, in groups that are there and whose nodes lie in the flowchart, and the path
  -- super groups are there, does not fault and leaves the manager. The view is in that mode. The
  -- groups of the blocks and of the successors have ids in it, and no other group; the ids are
  -- distinct and below their number. The view's node at an id has the disassembly of the group's
  -- blocks as hint, and as text the name of the group's super group between empty lines, or the hint
  -- where the group has at most one node. It has drawn as many nodes as the path has groups and,
  -- block by block and in the order of the successors, an edge from the id of the block's group to
  -- the id of the successor's group where the groups differ. Nothing is selected, highlighted or
  -- current, and both iterators are at the end.
  pub redraw-ShowsGroups :
      (v : GraphView) (w : GroupMan)
      → v.refresh_mode ≡ combined
      → All (λ sg. (s : SuperGroup) × (w.sgs sg ≡ some s)) w.path_sgl
      → AllReady fc w 0 fc
      → (v' : GraphView) × (t : Tables) × (redraw disasm fc v w ≡ ok (tt, v') w)
        × ShowsGroups v v' w t
  unfolding redraw switch_to_combined_view_mode fc_to_combined_mg reset_states
  redraw-ShowsGroups v w mode live ready =
      let t0 : Tables = record { group2id = []; node_map = []; node_count = 0; edges = [] } in
      let (t, run, c) = build-Draws disasm fc false t0 w live ready refl in
      let v' : GraphView = record (reset_states v) {
        cur_view_mode = combined;
        node_map = map (λ (n, gnode). (pos n, gnode)) t.node_map;
        ng2id = map (λ (ng, n). (ng, pos n)) t.group2id;
        events =
            v.events
            ++ Graph.drawn t.node_count (map (λ (a, b). (pos a, pos b)) t.edges) ∷ []
            ++ layout_redone ∷ [];
      } in
      (
        v',
        t,
        rw (mode, or_true (is_empty v.node_map), run) refl,
        record {
          mode = refl;
          selection = refl;
          highlight = refl;
          selection_at_end = refl;
          highlight_at_end = refl;
          current = refl;
          nodes = refl;
          labelled = c.labelled refl;
          ids = refl;
          numbered = c.numbered;
          covers = c.covers;
          others = c.others;
          events = rw (c.count, c.drawn) (append_assoc v.events _ _);
        },
      )
