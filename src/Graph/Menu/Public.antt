-- ===== src/Graph/Menu/Public.antt =====
-- Which fields hold an id after `init` of the graph view (plugin.cpp, built with PUBLIC).
use graph_slick.Base.{ℕ, suc, ◌≡◌, ◌≢◌, refl, Bool, true, false, List, [], ◌∷◌, pos}
use mathlib.Core.Bool.{false≢true, true≢false}
use graph_slick.Graph.{no_id}
use graph_slick.Graph.Menu.Ids.{
  Idm, idm_clear_sel, idm_clear_highlight, idm_select_all, idm_set_sel_mode, idm_single_view_mode,
  idm_combined_view_mode, idm_show_options, idm_highlight_similar, idm_find_highlight,
  idm_change_graph_layout, idm_edit_sg_desc, idm_combine_ngs, idm_jump_next_selected_node,
  idm_jump_next_highlighted_node, idm_remove_nodes_from_group, idm_merge_highlight_with_selection,
  idm_promote_node_groups, idm_reset_groupping, idm_test, Ids, set_id, no_ids,
}
use graph_slick.Graph.Menu.Items.{Entry, separator, entry, init_entries}
use graph_slick.Graph.Menu.Kept.{no_pos}

-- the commands that a build with PUBLIC offers
abbrev pub is_public : Idm → Bool
is_public idm_clear_sel = true
is_public idm_clear_highlight = true
is_public idm_select_all = true
is_public idm_set_sel_mode = true
is_public idm_single_view_mode = true
is_public idm_combined_view_mode = true
is_public idm_show_options = true
is_public idm_highlight_similar = true
is_public idm_find_highlight = true
is_public idm_change_graph_layout = true
is_public idm_edit_sg_desc = true
is_public idm_combine_ngs = true
is_public idm_jump_next_selected_node = true
is_public idm_jump_next_highlighted_node = true
is_public idm_remove_nodes_from_group = false
is_public idm_merge_highlight_with_selection = true
is_public idm_promote_node_groups = false
is_public idm_reset_groupping = false
is_public idm_test = false

-- the fields after some lines of `init`, the last id being `n`
abbrev pub after_entries : Ids → ℕ → List Entry → Ids
after_entries ids n [] = ids
after_entries ids n (separator ∷ es) = after_entries ids n es
after_entries ids n (entry i _ _ ∷ es) = after_entries (set_id ids i (pos (suc n))) (suc n) es

abbrev pub init_ids : ℕ → ℕ → Ids
init_ids n k = set_id (after_entries no_ids n init_entries) idm_set_sel_mode (pos (suc k))

pub init_public : (n k : ℕ) (i : Idm) → is_public i ≡ true → init_ids n k i ≢ no_id
init_public n k idm_clear_sel p = no_pos _
init_public n k idm_clear_highlight p = no_pos _
init_public n k idm_select_all p = no_pos _
init_public n k idm_set_sel_mode p = no_pos _
init_public n k idm_single_view_mode p = no_pos _
init_public n k idm_combined_view_mode p = no_pos _
init_public n k idm_show_options p = no_pos _
init_public n k idm_highlight_similar p = no_pos _
init_public n k idm_find_highlight p = no_pos _
init_public n k idm_change_graph_layout p = no_pos _
init_public n k idm_edit_sg_desc p = no_pos _
init_public n k idm_combine_ngs p = no_pos _
init_public n k idm_jump_next_selected_node p = no_pos _
init_public n k idm_jump_next_highlighted_node p = no_pos _
init_public n k idm_remove_nodes_from_group p = absurd (false≢true p)
init_public n k idm_merge_highlight_with_selection p = no_pos _
init_public n k idm_promote_node_groups p = absurd (false≢true p)
init_public n k idm_reset_groupping p = absurd (false≢true p)
init_public n k idm_test p = absurd (false≢true p)

pub init_hidden : (n k : ℕ) (i : Idm) → is_public i ≡ false → init_ids n k i ≡ no_id
init_hidden n k idm_clear_sel p = absurd (true≢false p)
init_hidden n k idm_clear_highlight p = absurd (true≢false p)
init_hidden n k idm_select_all p = absurd (true≢false p)
init_hidden n k idm_set_sel_mode p = absurd (true≢false p)
init_hidden n k idm_single_view_mode p = absurd (true≢false p)
init_hidden n k idm_combined_view_mode p = absurd (true≢false p)
init_hidden n k idm_show_options p = absurd (true≢false p)
init_hidden n k idm_highlight_similar p = absurd (true≢false p)
init_hidden n k idm_find_highlight p = absurd (true≢false p)
init_hidden n k idm_change_graph_layout p = absurd (true≢false p)
init_hidden n k idm_edit_sg_desc p = absurd (true≢false p)
init_hidden n k idm_combine_ngs p = absurd (true≢false p)
init_hidden n k idm_jump_next_selected_node p = absurd (true≢false p)
init_hidden n k idm_jump_next_highlighted_node p = absurd (true≢false p)
init_hidden n k idm_remove_nodes_from_group p = refl
init_hidden n k idm_merge_highlight_with_selection p = absurd (true≢false p)
init_hidden n k idm_promote_node_groups p = refl
init_hidden n k idm_reset_groupping p = refl
init_hidden n k idm_test p = refl
