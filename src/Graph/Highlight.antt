-- ===== src/Graph/Highlight.antt =====
-- The handlers of the graph view that highlight lists of groups with the colour generator
-- (plugin.cpp). The fuel bounds each search of `get_color_anyway` for a colour; running out of it
-- and reading a variant that was never set are faults.
use graph_slick.Base.{
  ℕ, ◌-◌, Bool, true, false, not, ◌&&◌, ◌||◌, Option, none, some, List, [], ◌∷◌, ◌==◌, map,
  if◌then◌else◌, ℤ, Text, is_empty,
}
use graph_slick.OrdMap.{same, int_ord}
use graph_slick.Heap.{Addr, null, SuperGroup, load_sg}
use graph_slick.Groups.{free_nodegroup, sg_first_ng}
use graph_slick.ColorGen.{
  Double, u32, ColorVar, ColorGen, default_colorgen, get_colorvar, get_color_anyway,
}
use graph_slick.Graph.{
  soft, single, combined, jumped, no_id, ViewCmd, give, lift, broken, ◌>>=◌, ◌>>◌, view, gm, change,
  emit_event, get_ngid_from_ng,
}
use graph_slick.Graph.Select.{refresh_view, clear_highlighting, highlight_nodes}
use graph_slick.Graph.Similar.{find_similar}
use graph_slick.Graph.Describe.{first_answer}

-- `DECL_CG`
abbrev pub decl_cg : ColorGen
decl_cg = record default_colorgen { l_int = u32 - 15 }

abbrev pub or_before : Option ColorVar → Option ColorVar → Option ColorVar
or_before cv none = cv
or_before cv (some new) = some new

-- the answers behind the next one
abbrev pub later_answers : {A : Type 0} → List A → List A
later_answers [] = []
later_answers (_ ∷ rest) = rest

-- the jump to the graph node of a group
unfoldable pub jump_to_ng : Addr → ViewCmd (Unit {0})
jump_to_ng ng = do
  n ← (if ng == null then give no_id else get_ngid_from_ng ng)
  if same n no_id then give tt else emit_event (jumped n)

module _ {W : Type 0} (d : Double W) (fuel : ℕ) where
  abbrev pub colored : Option (ℕ × ColorGen × ColorVar) → ViewCmd (ℕ × ColorGen × ColorVar)
  colored none = broken
  colored (some c) = give c

  -- `cg.get_color_anyway(cv)`; none is a variant that was never set
  abbrev pub next_color : ColorGen → Option ColorVar → ViewCmd (ℕ × ColorGen × ColorVar)
  next_color cg none = broken
  next_color cg (some cv) = colored (get_color_anyway d fuel cg cv)

  -- the loop over the groups of a list: each gets the next colour
  unfoldable pub highlight_groups :
      List Addr → ColorGen → Option ColorVar → ViewCmd (ColorGen × Option ColorVar)
  highlight_groups [] cg cv = give (cg, cv)
  highlight_groups (ng ∷ ngs) cg cv = do
    (clr, cg', cv') ← next_color cg cv
    highlight_nodes ng clr true
    highlight_groups ngs cg' (some cv')

  -- `highlight_nodes` of a node group list; the generator is passed by reference
  unfoldable pub highlight_list : List Addr → ColorGen → Bool → ViewCmd ColorGen
  unfolding highlight_groups
  highlight_list ngl cg delay_refresh = do
    let (cg', cv) = get_colorvar cg
    (cg'', _) ← highlight_groups ngl cg' cv
    if delay_refresh then give tt else refresh_view
    give cg''

  -- the loop over super groups; synthetic ones only where the options ask for them
  unfoldable pub highlight_sgs :
      List Addr → ColorGen → Option ColorVar → ViewCmd (ColorGen × Option ColorVar)
  highlight_sgs [] cg cv = give (cg, cv)
  highlight_sgs (sg ∷ sgs) cg cv = do
    s ← lift (load_sg sg)
    v ← view
    let (cg1, got) = get_colorvar cg
    (cg2, cv2) ←
        (if s.is_synthetic && not v.highlight_syntethic_nodes
          then give (cg, cv)
          else highlight_groups s.groups cg1 (or_before cv got))
    highlight_sgs sgs cg2 cv2

  -- `highlight_nodes` of a super group list
  unfoldable pub highlight_sg_list : List Addr → ColorGen → Bool → ViewCmd ColorGen
  highlight_sg_list sgs cg delay_refresh = do
    (cg', _) ← highlight_sgs sgs cg none
    if delay_refresh then give tt else refresh_view
    give cg'

  -- what follows `find_similar`: NULL is used without a test
  abbrev pub show_similar : Option (List Addr) → ViewCmd (Unit {0})
  show_similar none = broken
  show_similar (some ngl) = do
    v ← view
    highlight_list ngl decl_cg v.manual_refresh_mode
    lift (free_nodegroup false ngl)

  abbrev pub similar_to : (List ℤ → Option (List (List ℤ))) → List ℤ → ViewCmd (Unit {0})
  similar_to matcher sel_nodes = do ngl ← lift (find_similar matcher sel_nodes); show_similar ngl

  -- outside the single view mode the code only prints a message; the argument is not read
  unfoldable pub highlight_similar_selection :
      (List ℤ → Option (List (List ℤ))) → Bool → ViewCmd (Unit {0})
  highlight_similar_selection matcher delay_refresh = do
    v ← view
    if is_empty v.selected_nodes then give tt else (elim v.cur_view_mode [
      | soft ↦ give tt
      | combined ↦ give tt
      | single ↦ similar_to matcher (map (λ e. e.0) v.selected_nodes)
    ])

  module _ (stristr : Text → Text → Bool) where
    unfoldable pub is_match : Text → SuperGroup → Bool
    is_match pattern s = stristr s.name pattern || stristr s.id pattern

    -- The loop of the search. `groups` is the super group whose list the variable of that name
    -- points to.
    unfoldable pub highlight_matches : Text → List Addr → ColorGen → Addr → ViewCmd Addr
    unfolding is_match
    highlight_matches pattern [] cg groups = give groups
    highlight_matches pattern (sg ∷ sgs) cg groups = do
      s ← lift (load_sg sg)
      (cg', groups') ←
          (if is_match pattern s
            then (do cg'' ← highlight_list s.groups cg true; give (cg'', sg))
            else give (cg, groups))
      highlight_matches pattern sgs cg' groups'

    -- the jump to the first group of the last match: NULL is used without a test
    unfoldable pub jump_to_match : Addr → ViewCmd (Unit {0})
    jump_to_match groups =
        if groups == null then broken else (do ng ← lift (sg_first_ng groups); jump_to_ng ng)

    abbrev pub search : Bool → Option Text → ViewCmd (Unit {0})
    search delay_refresh none = give tt
    search delay_refresh (some pattern) = do
      clear_highlighting true
      w ← gm
      groups ← highlight_matches pattern w.path_sgl decl_cg null
      if delay_refresh
          then jump_to_match groups
          else refresh_view >> (if groups == null then give tt else jump_to_match groups)

    unfoldable pub find_and_highlight_nodes : Bool → ViewCmd (Unit {0})
    find_and_highlight_nodes delay_refresh = do
      v ← view
      change (λ v'. record v' { answers = later_answers v'.answers })
      search delay_refresh (first_answer v.answers)
