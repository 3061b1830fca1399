-- ===== src/Tests/Lifecycle.antt =====
-- The theorem on runs of the plugin, at a run, a closing of the panel and another run.
use graph_slick.Base.{◌≡◌, refl, Bool, true, false, none, some, [], ◌++◌}
use graph_slick.Heap.{GroupMan, ok}
use graph_slick.Python.Matcher.{init, call_init_file}
use graph_slick.Manager.{clear, clear_sgl, delete_sgs}
use graph_slick.Chooser.{ChooserCmd, give}
use graph_slick.Chooser.Files.{new_man}
use graph_slick.Chooser.Actions.{on_destroy, close_graph}
use graph_slick.Chooser.Plugin.{Plugin, show, on_show, new_chooser, close_panel, delete_singleton}
use graph_slick.Chooser.Lifecycle.{
  Steps, ran, panel_closed, stop, HasMatcher, is_open, Steps-lifecycle,
}
use graph_slick.Tests.Python.{Obj, interpreter, complete}
use graph_slick.Tests.Sample.{sample}

abbrev no_panel : ChooserCmd (Unit {0})
no_panel = give tt

abbrev at_first : Plugin Obj
at_first = record { singleton = none; init_file_executed = false; shown = [] }

abbrev after_run : Plugin Obj
after_run = record {
  singleton = some (new_chooser [], complete);
  init_file_executed = true;
  shown = on_show;
}

abbrev after_close : Plugin Obj
after_close = record { singleton = none; init_file_executed = true; shown = on_show }

abbrev after_second : Plugin Obj
after_second = record after_run { shown = on_show ++ on_show }

abbrev empty_man : GroupMan
empty_man = new_man sample

three-Steps : Steps interpreter [] no_panel sample at_first empty_man after_second
unfolding show init call_init_file close_panel delete_singleton on_destroy close_graph clear
    clear_sgl delete_sgs
three-Steps = ran true refl (panel_closed refl (ran true refl stop))

Steps-lifecycle_example :
    HasMatcher interpreter [] no_panel after_second.singleton
    × ((b : Bool) (q : Plugin Obj) (u : GroupMan)
        → show interpreter [] no_panel after_second empty_man ≡ ok (b, q) u
        → b ≡ is_open interpreter [] no_panel q.singleton)
    × ((q : Plugin Obj) (u : GroupMan)
        → close_panel after_second empty_man ≡ ok q u
        → q.singleton ≡ none)
Steps-lifecycle_example =
    Steps-lifecycle interpreter [] no_panel sample empty_man at_first after_second refl three-Steps
