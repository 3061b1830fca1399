-- ===== src/Chooser/Plugin.antt =====
-- The plugin's entry points and the one instance of the chooser (plugin.cpp). What `choose3` runs of
-- the chooser's callbacks, and whether `add_chooser_command` succeeds, do not come from the plugin.
use graph_slick.Base.{
  Bool, true, false, Option, none, some, List, [], ◌∷◌, ◌++◌, Text, codes, if◌then◌else◌,
}
use graph_slick.Heap.{ok, Cmd, and_then}
use graph_slick.Graph.{default_options}
use graph_slick.Python.Matcher.{Interpreter, PyBbMatcher, new_matcher, init}
use graph_slick.Chooser.{Chooser, ChooserCmd}
use graph_slick.Chooser.Files.{new_man}
use graph_slick.Chooser.Actions.{on_destroy}

-- the items of the chooser's menu
pub data Command : Type 0 where
  save_bbfile show_graph_item analyze_item auto_find_path : Command

-- `add_chooser_command` and `set_dock_pos`
pub data ShowEvent : Type 0 where
  docked : Text → Text → ShowEvent
  command_added : Text → Command → Option Text → ShowEvent

-- `on_show`, less the printing of the title
abbrev pub on_show : List ShowEvent
on_show =
    docked (codes "Graph Slick - Panel") (codes "Output window")
    ∷ docked (codes "Graph Slick - View") (codes "IDA View-A")
    ∷ command_added (codes "Save bbgroup file") save_bbfile (some (codes "Ctrl-S"))
    ∷ command_added (codes "Show graph") show_graph_item none
    ∷ command_added (codes "Analyze") analyze_item none
    ∷ command_added (codes "Automatically find path") auto_find_path none
    ∷ []

-- the constructor; `answers` is what the user will answer to file dialogs
abbrev pub new_chooser : List (Option Text) → Chooser
new_chooser answers = record {
  ch_nodes = [];
  gsgv = none;
  has_viewer = false;
  last_loaded_file = [];
  func_fc = [];
  options = default_options;
  answers = answers;
}

-- The static pointer, with the chooser's matcher; the static flag of the matcher's script; and what
-- the panel was asked.
pub record Plugin (Obj : Type 0) : Type 0 where
  pub singleton : Option (Chooser × PyBbMatcher Obj)
  pub init_file_executed : Bool
  pub shown : List ShowEvent

-- the result of the plugin's `init`
pub data InitResult : Type 0 where
  plugin_ok plugin_skip : InitResult

abbrev pub init_plugin : Bool → InitResult
init_plugin is_ida_gui = if is_ida_gui then plugin_ok else plugin_skip

module _ {Obj : Type 0} where
  -- `delete_singleton`; `modal` is the flag of the panel, which `init_chi` leaves unset
  unfoldable pub delete_singleton : Bool → Plugin Obj → Plugin Obj
  delete_singleton modal p = if modal then p else record p { singleton = none }

  abbrev pub closed : Option (Chooser × PyBbMatcher Obj) → Plugin Obj → Cmd (Plugin Obj)
  closed none p w = ok p w
  closed (some (c, m)) p w = and_then (on_destroy c w) (λ _. ok (delete_singleton false p))

  -- the panel is closed: `on_destroy` with its last call
  unfoldable pub close_panel : Plugin Obj → Cmd (Plugin Obj)
  close_panel p = closed p.singleton p

  module _ (py : Interpreter Obj) (answers : List (Option Text))
      (choose3 : ChooserCmd (Unit {0})) where
    abbrev pub show_with : Chooser × PyBbMatcher Obj → Plugin Obj → Cmd (Bool × Plugin Obj)
    show_with (c, m) p w =
        and_then (choose3 c w)
          (λ (_, c'). ok (true, record p { singleton = some (c', m); shown = p.shown ++ on_show }))

    -- a new chooser, by the answer of its matcher's `init`
    abbrev pub created : Option Text × PyBbMatcher Obj → Plugin Obj → Cmd (Bool × Plugin Obj)
    created (some err, m) p w =
        ok (false, record p { singleton = none; init_file_executed = m.init_file_executed })
          (new_man w)
    created (none, m) p w =
        show_with (new_chooser answers, m) (record p { init_file_executed = m.init_file_executed })
          (new_man w)

    abbrev pub show_at : Option (Chooser × PyBbMatcher Obj) → Plugin Obj → Cmd (Bool × Plugin Obj)
    show_at none p = created (init py (new_matcher p.init_file_executed)) p
    show_at (some x) p = show_with x p

    -- `gschooser_t::show`
    unfoldable pub show : Plugin Obj → Cmd (Bool × Plugin Obj)
    show p = show_at p.singleton p

    -- the plugin's `run`
    abbrev pub run : Plugin Obj → Cmd (Plugin Obj)
    run p w = and_then (show p w) (λ (_, p'). ok p')
