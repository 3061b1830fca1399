-- ===== src/Chooser/Analysis.antt =====
-- The chooser's commands that analyse a function or start from the cursor (plugin.cpp).
use graph_slick.Base.{ℕ, true, Option, none, some, if◌then◌else◌, Text, is_empty}
use graph_slick.Heap.{GroupMan, ok}
use graph_slick.Algo.{build_groupman_from_fc, build_groupman_from_3dvec}
use graph_slick.Graph.{GraphView}
use graph_slick.Graph.Regrouping.{redo_current_layout}
use graph_slick.Chooser.{ChooserCmd, give, lift, broken, ◌>>=◌, ◌>>◌, chooser, change}
use graph_slick.Chooser.Files.{
  Host, on_view, refresh, show_graph, get_flowchart, load_file_show_graph,
}

module _ (host : Host) where
  abbrev pub name_if_none : Option Text → GroupMan → GroupMan
  name_if_none none w = w
  name_if_none (some name) w =
      if is_empty w.src_filename then record w { src_filename = name } else w

  -- the graph behind an analysis
  abbrev pub relayout : Option GraphView → ChooserCmd (Unit {0})
  relayout none = do show_graph host; give tt
  relayout (some v) = do
    c ← chooser
    on_view v (redo_current_layout (host.refresh_viewer c.func_fc))

  abbrev pub analyze_at : Option ℕ → Option Text → ChooserCmd (Unit {0})
  analyze_at none def_filename = give tt
  analyze_at (some start_ea) def_filename = do
    let result = host.analyze start_ea
    found ← get_flowchart host start_ea
    c ← chooser
    if found
        then (do
          lift (
              if is_empty result
              then build_groupman_from_fc c.func_fc true
              else (if c.options.no_initial_path_info
                  then build_groupman_from_fc c.func_fc true
                  else build_groupman_from_3dvec c.func_fc result true))
          lift (λ w. ok tt (name_if_none def_filename w))
          refresh true
          relayout c.gsgv)
        else give tt

  unfoldable pub onmenu_analyze : Option Text → ChooserCmd (Unit {0})
  onmenu_analyze def_filename = analyze_at host.screen_func def_filename

  unfoldable pub onmenu_show_graph : ChooserCmd (Unit {0})
  onmenu_show_graph = do
    c ← chooser
    elim c.gsgv [ some v ↦ give tt | none ↦ do show_graph host; give tt ]

  -- the menu item of the path search calls the analysis
  abbrev pub s_onmenu_auto_find_path : ℕ → ChooserCmd ℕ
  s_onmenu_auto_find_path n = do onmenu_analyze none; give n

  -- The name is used without a test for NULL.
  abbrev pub init_with : Option Text → ChooserCmd (Unit {0})
  init_with none = broken
  init_with (some fn) = do
    loaded ← load_file_show_graph host fn
    if loaded then give tt else (do
      onmenu_analyze (some fn)
      lift (λ w. ok tt (record w { src_filename = fn }))
      change (λ c. record c { last_loaded_file = fn }))

  unfoldable pub on_init : ChooserCmd (Unit {0})
  on_init = init_with host.screen_fn
