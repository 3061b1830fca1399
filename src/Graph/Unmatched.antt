-- ===== src/Graph/Unmatched.antt =====
-- The search of the graph view where no super group matches.
use graph_slick.Base.{ℕ, ◌≡◌, refl, Bool, true, false, Option, some, List, [], ◌∷◌, All, Text}
use graph_slick.Heap.{Addr, null, SuperGroup, GroupMan, ok, fault}
use graph_slick.Heap.Laws.{load_sg-ok}
use graph_slick.ColorGen.{Double, ColorGen}
use graph_slick.Graph.{GraphView}
use graph_slick.Graph.Select.{clear_highlighting}
use graph_slick.Graph.Highlight.{
  decl_cg, is_match, highlight_matches, jump_to_match, find_and_highlight_nodes,
}

module _ {W : Type 0} (d : Double W) (fuel : ℕ) (stristr : Text → Text → Bool) where
  -- the super groups are there, and none of them matches
  abbrev pub Unmatched : Text → GroupMan → List Addr → Type 0
  Unmatched pattern w =
      All
        (λ sg. (s : SuperGroup) × (w.sgs sg ≡ some s) × (is_match d fuel stristr pattern s ≡ false))

  highlight_matches-Unmatched :
      (pattern : Text) (sgs : List Addr) (cg : ColorGen) (groups : Addr) (v : GraphView)
      (w : GroupMan)
      → Unmatched pattern w sgs
      → highlight_matches d fuel stristr pattern sgs cg groups v w ≡ ok (groups, v) w
  unfolding highlight_matches
  highlight_matches-Unmatched pattern [] cg groups v w h = refl
  highlight_matches-Unmatched pattern (sg ∷ sgs) cg groups v w ((s, e, no_match), h) =
      rw (load_sg-ok w sg e, no_match) (highlight_matches-Unmatched pattern sgs cg groups v w h)

  -- Where the path super groups are there and none of them matches the pattern that is typed, the
  -- search in manual refresh mode uses a NULL list.
  pub find_and_highlight_nodes_faults :
      (v : GraphView) (w : GroupMan) (pattern : Text) (rest : List (Option Text))
      → v.answers ≡ some pattern ∷ rest
      → Unmatched pattern w w.path_sgl
      → find_and_highlight_nodes d fuel stristr true v w ≡ fault
  unfolding find_and_highlight_nodes clear_highlighting jump_to_match
  find_and_highlight_nodes_faults v w pattern rest typed h =
      rw (typed, highlight_matches-Unmatched pattern w.path_sgl decl_cg null _ w h) refl
