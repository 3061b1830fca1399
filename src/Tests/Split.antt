-- ===== src/Tests/Split.antt =====
-- The theorem on moving nodes to groups of their own, at the sample.
use graph_slick.Base.{◌≡◌, refl, ℤ, inl, inr, [], ◌∷◌, arith, All, pos}
use graph_slick.OrdMap.{find, int_ord}
use graph_slick.Heap.{nodeloc, GroupMan}
use graph_slick.View.{groups_of}
use graph_slick.Graph.{GraphView, ViewCmd, combined, get_ng_from_ngid, give}
use graph_slick.Graph.Regrouping.{picked_groups, move_nodes_to_own_ng, show_changes}
use graph_slick.Graph.Regrouping.Alone.{IsSound, IsSplittable}
use graph_slick.Graph.Regrouping.OwnGroups.{IsPick, OwnGroups, move_nodes_to_own_ng-OwnGroups}
use graph_slick.Tests.Sample.{sample, node}
use graph_slick.Tests.Graph.{sample_view}
use graph_slick.Tests.Groups.{sample-LiveSgs}

abbrev grouped_view : GraphView
grouped_view = record sample_view {
  cur_view_mode = combined;
  ng2id = (2, pos 0) ∷ (3, pos 1) ∷ (4, pos 2) ∷ [];
  selected_nodes = (pos 1, 9) ∷ (pos 8, 9) ∷ [];
}

sample-IsSound : IsSound sample
unfolding groups_of
sample-IsSound = record { live = sample-LiveSgs; fresh = λ q le. ground (arith, le) }

sample-IsSplittable : IsSplittable sample 3
unfolding groups_of find
sample-IsSplittable = (
  6 ∷ 7 ∷ [],
  refl,
  ((omega arith, (node (pos 1) 110, refl)), ((omega arith, (node (pos 2) 120, refl)), tt)),
  refl,
  (node (pos 1) 110, refl, (nodeloc 1 3 6, refl, omega arith, refl)),
)

abbrev no_refresh : ViewCmd (Unit {0})
no_refresh = give tt

picks : All (IsPick sample) (picked_groups grouped_view.ng2id grouped_view.selected_nodes)
unfolding picked_groups get_ng_from_ngid
picks = (inr (omega arith, sample-IsSplittable), (inl refl, tt))

move_nodes_to_own_ng-OwnGroups_example :
    (f : ℤ) × (w' : GroupMan) × (move_nodes_to_own_ng no_refresh grouped_view sample
      ≡ show_changes no_refresh (record grouped_view { focus_node = f }) w')
    × OwnGroups sample w' (picked_groups grouped_view.ng2id grouped_view.selected_nodes)
move_nodes_to_own_ng-OwnGroups_example =
    move_nodes_to_own_ng-OwnGroups no_refresh grouped_view sample refl refl sample-IsSound picks
