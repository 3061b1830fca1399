-- ===== src/Tests/Graph.antt =====
-- The theorems on the graph view at a view of the sample with three selected nodes.
use graph_slick.Base.{◌≡◌, refl, true, [], ◌∷◌, arith, ℤ, pos}
use graph_slick.OrdMap.{find, int_ord, addr_ord}
use graph_slick.Heap.{ok, fault}
use graph_slick.Graph.{
  default_options, combined, at, at_end, jumped, GraphView, no_id, ◌>>◌, get_ng_id,
  get_ng_from_ngid,
}
use graph_slick.Graph.Select.{
  toggle_select_node, merge_highlight_with_selection, select_all_nodes, jump_to_next_selected,
}
use graph_slick.Graph.Selection.{
  Toggles, merged, toggle_select_node-Toggles, merge_highlight_with_selection-merged,
  get_ng_from_ngid-get_ng_id,
}
use graph_slick.Graph.Jumps.{jumps, jumps_lem, walked, select_all_nodes_dangles}
use graph_slick.Tests.Sample.{sample, node}

abbrev pub sample_view : GraphView
sample_view = record {
  cur_node = no_id;
  focus_node = no_id;
  node_map = [];
  ng2id = (2, pos 0) ∷ (3, pos 1) ∷ (4, pos 2) ∷ [];
  refresh_mode = combined;
  cur_view_mode = combined;
  highlighted_nodes = (pos 1, 77) ∷ [];
  selected_nodes = (pos 0, 8156589) ∷ (pos 2, 8156589) ∷ (pos 3, 8156589) ∷ [];
  it_selected_node = at_end;
  it_highlighted_node = at_end;
  in_sel_mode = true;
  options = default_options;
  answers = [];
  events = [];
}

toggle_select_node-Toggles_example :
    (v' : GraphView) × (toggle_select_node (pos 2) true sample_view sample ≡ ok (tt, v') sample)
    × Toggles (pos 2) sample_view v'
toggle_select_node-Toggles_example =
    toggle_select_node-Toggles (pos 2) true sample_view sample
      ((refl, (refl, tt)), ((refl, tt), (tt, tt)))

merge_highlight_with_selection-merged_example :
    (v' : GraphView) × (merge_highlight_with_selection sample_view sample ≡ ok (tt, v') sample)
    × ((k : ℤ)
        → find k v'.selected_nodes
          ≡ merged (find k sample_view.selected_nodes) (find k sample_view.highlighted_nodes))
    × (v'.highlighted_nodes ≡ sample_view.highlighted_nodes)
merge_highlight_with_selection-merged_example =
    merge_highlight_with_selection-merged sample_view sample

get_ng_from_ngid-get_ng_id_example :
    get_ng_from_ngid sample_view.ng2id (get_ng_id sample_view.ng2id 3) ≡ 3
unfolding find
get_ng_from_ngid-get_ng_id_example =
    get_ng_from_ngid-get_ng_id sample_view.ng2id 3 (pos 1)
      ((refl, (refl, tt)), ((refl, tt), (tt, tt))) refl

jumps_lem_example :
    jumps 3 sample_view sample
    ≡ ok
        (tt, walked sample_view at_end (jumped (pos 0) ∷ jumped (pos 2) ∷ jumped (pos 3) ∷ []))
        sample
jumps_lem_example = jumps_lem sample_view sample ((refl, (refl, tt)), ((refl, tt), (tt, tt))) refl

abbrev at_entry : GraphView
at_entry = record sample_view { it_selected_node = at (pos 2) }

select_all_nodes_dangles_example :
    (select_all_nodes >> jump_to_next_selected) at_entry sample ≡ fault
select_all_nodes_dangles_example =
    select_all_nodes_dangles at_entry sample (pos 2) (pos 0) 5
      ((pos 1, 6) ∷ (pos 2, 7) ∷ (pos 3, 8) ∷ []) refl refl
      (
        (omega arith, (node (pos 0) 100, refl)),
        (
          (omega arith, (node (pos 1) 110, refl)),
          ((omega arith, (node (pos 2) 120, refl)), ((omega arith, (node (pos 3) 130, refl)), tt)),
        ),
      )
