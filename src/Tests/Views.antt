-- ===== src/Tests/Views.antt =====
-- The graph view at the sample: its jumps, redraws and similar groups.
use graph_slick.Base.{
  false, ℕ, ◌<◌, ◌≤◌, ◌≡◌, refl, true, some, Option, List, [], ◌∷◌, ◌++◌, arith, ℤ, pos,
}
use graph_slick.OrdMap.{find, erase, int_ord}
use graph_slick.Heap.{Addr, ok, fault}
use graph_slick.Graph.{combined, single, at, Event, jumped, GraphView, ◌>>◌}
use graph_slick.Graph.Select.{
  toggle_select_node, jump_to_next_selected, jump_to_next_node, step_cursor, next_of, flip_node,
}
use graph_slick.Graph.Jumps.{jumps, walked}
use graph_slick.Graph.Visits.{jumps_visit}
use graph_slick.Graph.Dangling.{toggle_select_node_dangles}
use graph_slick.Graph.Callback.{redraw}
use graph_slick.Graph.Redraw.{
  ShowsBlocks, ShowsGroups, redraw-ShowsGroups, redraw-ShowsBlocks, click_and_redraw, clicked_view,
  click_and_redraw-ShowsBlocks,
}
use graph_slick.Graph.Tidy.{IsTidy, click_node, jump, Reach, stop, act, Reach-IsTidy}
use graph_slick.Graph.Similar.{find_similar}
use graph_slick.Graph.SimilarGroups.{NoNull, Holds, with_new, find_similar_lem}
use graph_slick.Graph.Highlight.{find_and_highlight_nodes, is_match}
use graph_slick.Graph.Unmatched.{find_and_highlight_nodes_faults}
use graph_slick.Algo.Combined.{Tables}
use graph_slick.Tests.Edges.{looping, no_text, looping-AllReady}
use graph_slick.Tests.Sample.{sample, lookups, sg_cell}
use graph_slick.Tests.Graph.{sample_view}
use graph_slick.Tests.Drawn.{two_blocks, addresses}
use graph_slick.Tests.Colors.{thousandths}

-- the iterator at the second of three selected nodes
abbrev halfway : GraphView
halfway = record sample_view { it_selected_node = at (pos 2); refresh_mode = single }

jumps_visit_example :
    (n : ℕ) × (n ≤ 6)
    × ((v' : GraphView) × (jumps n halfway sample ≡ ok (tt, v') sample)
        × ((es : List Event) × (es' : List Event) × (v'.events ≡ es ++ jumped (pos 0) ∷ es')))
jumps_visit_example =
    jumps_visit halfway sample [] (pos 0) 8156589 ((pos 2, 8156589) ∷ (pos 3, 8156589) ∷ [])
      ((refl, (refl, tt)), ((refl, tt), (tt, tt)))
      ((pos 0, 8156589) ∷ [], (pos 2, 8156589) ∷ (pos 3, 8156589) ∷ [], refl, refl) refl

toggle_select_node_dangles_example :
    (toggle_select_node (pos 2) true >> jump_to_next_selected) halfway sample ≡ fault
unfolding find erase
toggle_select_node_dangles_example =
    toggle_select_node_dangles halfway sample (pos 2) 8156589 true refl refl refl

redraw-ShowsBlocks_example :
    (v' : GraphView) × (redraw addresses two_blocks halfway sample ≡ ok (tt, v') sample)
    × ShowsBlocks addresses two_blocks halfway v'
redraw-ShowsBlocks_example = redraw-ShowsBlocks addresses two_blocks halfway sample refl

click_and_redraw-ShowsBlocks_example :
    (v' : GraphView) × (click_and_redraw addresses two_blocks (pos 1) sample_view sample
      ≡ ok (tt, v') sample)
    × ShowsBlocks addresses two_blocks (clicked_view addresses two_blocks (pos 1) sample_view) v'
click_and_redraw-ShowsBlocks_example =
    click_and_redraw-ShowsBlocks addresses two_blocks sample_view sample (pos 1)

lookups-NoNull : NoNull lookups
unfolding find
lookups-NoNull nid loc e = ground (arith, e)

abbrev answer : List ℤ → Option (List (List ℤ))
answer l = some ((pos 1 ∷ pos 9 ∷ []) ∷ (pos 3 ∷ []) ∷ [])

find_similar_lem_example :
    (f : (Addr → Option (List Addr))) × (find_similar answer [] sample
      ≡ ok (some (9 ∷ 10 ∷ [])) (with_new sample f 11))
    × Holds lookups f 9 ((pos 1 ∷ pos 9 ∷ []) ∷ (pos 3 ∷ []) ∷ [])
    × ((q : Addr) → q < 9 → f q ≡ sample.ngs q)
find_similar_lem_example =
    find_similar_lem answer [] (pos 1 ∷ pos 9 ∷ []) ((pos 3 ∷ []) ∷ []) sample lookups-NoNull refl

abbrev one_by_one : GraphView
one_by_one = record sample_view { cur_view_mode = single }

abbrev grouped : GraphView
grouped = record sample_view { refresh_mode = combined }

redraw-ShowsGroups_example :
    (v' : GraphView) × (t : Tables) × (redraw no_text looping grouped sample ≡ ok (tt, v') sample)
    × ShowsGroups no_text looping grouped v' sample t
redraw-ShowsGroups_example =
    redraw-ShowsGroups no_text looping grouped sample refl ((sg_cell, refl), tt) looping-AllReady

abbrev asked : GraphView
asked = record sample_view { answers = some (b'x' ∷ []) ∷ [] }

find_and_highlight_nodes_faults_example :
    find_and_highlight_nodes thousandths 2 (λ s p. false) true asked sample ≡ fault
unfolding is_match
find_and_highlight_nodes_faults_example =
    find_and_highlight_nodes_faults thousandths 2 (λ s p. false) asked sample (b'x' ∷ []) [] refl
      ((sg_cell, refl, refl), tt)

halfway-IsTidy : IsTidy halfway
unfolding find
halfway-IsTidy = record {
  sorted = ((refl, (refl, tt)), ((refl, tt), (tt, tt)));
  usable = (_, refl);
}

abbrev jumped_once : GraphView
jumped_once = walked halfway (at (pos 3)) (jumped (pos 2) ∷ [])

abbrev clicked_then : GraphView
clicked_then = flip_node (pos 1) jumped_once (find (pos 1) jumped_once.selected_nodes)

jump_and_click : Reach sample halfway clicked_then
unfolding jump_to_next_selected jump_to_next_node step_cursor next_of toggle_select_node
jump_and_click =
    act {v1 = jumped_once} jump tt refl
      (act {v1 = clicked_then} (click_node (pos 1) true) (λ e. ground (arith, e)) refl stop)

Reach-IsTidy_example :
    IsTidy clicked_then
    × ((v'' : GraphView) × (jump_to_next_selected clicked_then sample ≡ ok (tt, v'') sample))
Reach-IsTidy_example = Reach-IsTidy sample halfway clicked_then halfway-IsTidy jump_and_click
