-- ===== src/Graph/Regrouping/OwnGroups.antt =====
-- `move_nodes_to_own_ng` of plugin.cpp as a whole, in the combined view mode.
use graph_slick.Base.{
  ℕ, ◌<◌, ◌≡◌, ◌≢◌, refl, sym, ap, subst, ◌∙◌, ◌⊎◌, true, false, inl, inr, List, [], ◌∷◌, arith,
  ◌==◌, All, All-mono, ℤ, is_empty,
}
use graph_slick.OrdMap.{Map}
use graph_slick.Heap.{Addr, null, GroupMan, ok}
use graph_slick.View.{members, members-eq, members_congr, locations}
use graph_slick.Manager.{find_nodeid_loc}
use graph_slick.Manager.Counts.{nodes_count}
use graph_slick.Manager.Kept.{addr_cases}
use graph_slick.Manager.Lookups.{
  index, with_index, last_with, initialize_lookups-index, find_nodeid_loc-index,
}
use graph_slick.Graph.{GraphView, ViewCmd, Mode, combined, get_ng_from_ngid}
use graph_slick.Graph.Regrouping.{
  picked_groups, split_in, split_groups, move_nodes_to_own_ng, show_changes,
}
use graph_slick.Graph.Regrouping.Alone.{IsSound, IsSplittable, IsAlone, below}
use graph_slick.Graph.Regrouping.Splitting.{Splits, split_group-Splits}

-- the group of a selected id, NULL for an id that no group has
abbrev pub IsPick : GroupMan → Addr → Type 0
IsPick w ng = (ng ≡ null) ⊎ ((ng ≢ null) × IsSplittable w ng)

-- each node that the group had has a group of its own
abbrev pub IsSplit : GroupMan → GroupMan → Addr → Type 0
IsSplit w w' ng = (ng ≡ null) ⊎ All (IsAlone w') (members w.heap ng)

-- the outcome of splitting the groups `ngl`
pub record SplitsAll (w w' : GroupMan) (ngl : List Addr) : Type 0 where
  pub sound : IsSound w'
  pub nodes : (a : Addr) → nodes_count w'.heap a w'.path_sgl ≡ nodes_count w.heap a w.path_sgl
  pub split : All (IsSplit w w') ngl
  pub alone : (q : Addr) → IsAlone w q → IsAlone w' q
  pub others : (q : Addr) → q < w.next → All (λ ng. q ≢ ng) ngl → w'.ngs q ≡ w.ngs q
  pub path_same : w'.path_sgl ≡ w.path_sgl

module _ (w w1 : GroupMan) (ng : Addr) (sp : Splits w w1 ng) where
  picks_kept : (ngl : List Addr) → All (IsPick w) ngl → All (IsPick w1) ngl
  picks_kept [] h = tt
  picks_kept (q ∷ ngl) (inl e, h) = (inl e, picks_kept ngl h)
  picks_kept (q ∷ ngl) (inr (ne, t), h) = (inr (ne, sp.splittable q t), picks_kept ngl h)

module _ (w w1 w2 : GroupMan) (ng : Addr) (i : IsSound w) (sp : Splits w w1 ng)
    (mine : All (IsAlone w2) (members w.heap ng)) where
  splits_kept :
      (ngl : List Addr) → All (IsPick w) ngl → All (IsSplit w1 w2) ngl → All (IsSplit w w2) ngl
  splits_kept [] h k = tt
  splits_kept (q ∷ ngl) (inl e, h) (_, k) = (inl e, splits_kept ngl h k)
  splits_kept (q ∷ ngl) (inr t, h) (inl e, k) = (inl e, splits_kept ngl h k)
  splits_kept (q ∷ ngl) (inr (ne, (l, e, ns, once, home)), h) (inr al, k) = (
    inr (elim (addr_cases q ng) [
      | inl here ↦ subst (λ (g : Addr). All (IsAlone w2) (members w.heap g)) (sym here) mine
      | inr off ↦
          subst (All (IsAlone w2))
            (members_congr w.heap w1.heap q (sp.others q (below w q i once) off)) al
    ]),
    splits_kept ngl h k,
  )

split_groups-SplitsAll :
    (sel : Map ℤ ℕ) (v : GraphView) (w : GroupMan)
    → IsSound w
    → All (IsPick w) (picked_groups v.ng2id sel)
    → (f : ℤ) × (w' : GroupMan) × (split_groups sel v w ≡ ok (tt, record v { focus_node = f }) w')
      × SplitsAll w w' (picked_groups v.ng2id sel)
unfolding split_groups picked_groups
split_groups-SplitsAll [] v w i picks = (
  v.focus_node,
  w,
  refl,
  record {
    sound = i;
    nodes = λ a. refl;
    split = tt;
    alone = λ q h. h;
    others = λ q lt out. refl;
    path_same = refl;
  },
)
split_groups-SplitsAll ((n, c) ∷ sel) v w i (inl none_there, picks) =
    let (f, w', run, sp) = split_groups-SplitsAll sel v w i picks in
    let skip : (get_ng_from_ngid v.ng2id n == null) ≡ true = ground (arith, none_there) in
    (
      f,
      w',
      rw skip run,
      record {
        sound = sp.sound;
        nodes = sp.nodes;
        split = (inl none_there, sp.split);
        alone = sp.alone;
        others = λ q lt (_, out). sp.others q lt out;
        path_same = sp.path_same;
      },
    )
split_groups-SplitsAll ((n, c) ∷ sel) v w i (inr (ne, (l, en, ns, once, home)), picks) =
    let ng = get_ng_from_ngid v.ng2id n in
    let ngl = picked_groups v.ng2id sel in
    let (f1, w1, run1, sp1, al1) = split_group-Splits ng l v w i en ns once home in
    let picks1 = picks_kept w w1 ng sp1 ngl picks in
    let v1 : GraphView = record v { focus_node = f1 } in
    let (f, w2, run2, sp2) = split_groups-SplitsAll sel v1 w1 sp1.sound picks1 in
    let mine : All (IsAlone w2) (members w.heap ng) =
      subst (All (IsAlone w2)) (sym (members-eq w.heap ng en))
        (All-mono (IsAlone w1) (IsAlone w2) l sp2.alone al1) in
    let go : (ng == null) ≡ false = ground (arith, ne) in
    (
      f,
      w2,
      rw (go, run1) run2,
      record {
        sound = sp2.sound;
        nodes = λ a. sp2.nodes a ∙ sp1.nodes a;
        split = (inr mine, splits_kept w w1 w2 ng i sp1 mine ngl picks sp2.split);
        alone = λ q h. sp2.alone q (sp1.alone q h);
        others = λ q lt (off, out).
            sp2.others q (omega (arith, lt, sp1.next_up)) out ∙ sp1.others q lt off;
        path_same = sp2.path_same ∙ sp1.path_same;
      },
    )

-- what the command leaves to the refresh of the chooser and of the layout
pub record OwnGroups (w w' : GroupMan) (ngl : List Addr) : Type 0 where
  pub nodes : (a : Addr) → nodes_count w'.heap a w'.path_sgl ≡ nodes_count w.heap a w.path_sgl
  pub split : All (IsSplit w w') ngl
  pub others : (q : Addr) → q < w.next → All (λ ng. q ≢ ng) ngl → w'.ngs q ≡ w.ngs q
  pub path_same : w'.path_sgl ≡ w.path_sgl
  pub lookups : (k : ℤ) → find_nodeid_loc w' k ≡ last_with w'.heap k (locations w'.heap w'.path_sgl)

-- In the combined view mode, where the path super groups are there with all that they refer to, no
-- group of theirs is at an address not yet given out, and each selected id has no group or one that is
-- there with its nodes, stands in the path once, and whose first node the lookups lead to a super group
-- that stands in the path once: `move_nodes_to_own_ng` does not fault before it refreshes. Every node
-- stands in the path as often as before, each node of a selected group is the only one of a group of
-- the path, groups outside the selection have the nodes that they had, the path has the same super
-- groups, and an id leads to its last place in the path.
pub move_nodes_to_own_ng-OwnGroups :
    (refresh_viewer : ViewCmd (Unit {0})) (v : GraphView) (w : GroupMan)
    → v.cur_view_mode ≡ combined
    → is_empty v.selected_nodes ≡ false
    → IsSound w
    → All (IsPick w) (picked_groups v.ng2id v.selected_nodes)
    → (f : ℤ) × (w' : GroupMan) × (move_nodes_to_own_ng refresh_viewer v w
        ≡ show_changes refresh_viewer (record v { focus_node = f }) w')
      × OwnGroups w w' (picked_groups v.ng2id v.selected_nodes)
unfolding move_nodes_to_own_ng
move_nodes_to_own_ng-OwnGroups refresh_viewer v w mode some_picked i picks =
    let (f, w1, run, sp) = split_groups-SplitsAll v.selected_nodes v w i picks in
    let in_mode = ap (λ (m : Mode). split_in m v.selected_nodes v w) mode in
    let look = initialize_lookups-index w1 sp.sound.live in
    (
      f,
      with_index w1 (index w1.heap (locations w1.heap w1.path_sgl) []),
      rw (some_picked, in_mode, run, look) refl,
      record {
        nodes = sp.nodes;
        split = sp.split;
        others = sp.others;
        path_same = sp.path_same;
        lookups = find_nodeid_loc-index w1;
      },
    )
