-- ===== src/Tests/Loading.antt =====
-- The sample, saved and loaded into an empty chooser.
use graph_slick.Base.{◌≡◌, refl, true, none, some, [], ◌∷◌, arith, pos}
use graph_slick.Heap.{GroupMan, ok}
use graph_slick.Graph.{default_options, give}
use graph_slick.Chooser.{Chooser}
use graph_slick.Chooser.Files.{Host, save_file, load_file}
use graph_slick.Chooser.Loaded.{Loaded, load_file-Loaded}
use graph_slick.BbGroup.RoundTrip.{printed}
use graph_slick.Tests.Sample.{sample, node}
use graph_slick.Tests.Scanner.{scanner, scanner-SdkLaws}
use graph_slick.Tests.Drawn.{two_blocks}
use graph_slick.Tests.RoundTrip.{content, empty_manager, file, sample-Shows, content-Printable}

abbrev host : Host
host = record {
  sdk = scanner;
  open_file = file;
  writable = λ name. true;
  get_func = λ ea. some 100;
  create = λ ea. two_blocks;
  screen_func = none;
  screen_fn = none;
  analyze = λ ea. [];
  form = some true;
  prompts = [];
  refresh_viewer = λ fc. give tt;
}

abbrev no_lines : Chooser
no_lines = record {
  ch_nodes = [];
  gsgv = none;
  has_viewer = true;
  last_loaded_file = [];
  func_fc = [];
  options = default_options;
  answers = [];
}

load_file-Loaded_example :
    (save_file host [] no_lines sample
      ≡ ok (some (printed scanner scanner-SdkLaws (content ∷ []) []), no_lines) sample)
    × ((c' : Chooser) × (w' : GroupMan) × (load_file host [] no_lines empty_manager
          ≡ ok (true, c') w')
        × (c'.func_fc ≡ two_blocks)
        × Loaded two_blocks w' (content ∷ []) [])
load_file-Loaded_example =
    load_file-Loaded host scanner-SdkLaws sample empty_manager no_lines [] content [] []
      (node (pos 0) 100) []
      ((node (pos 1) 110 ∷ node (pos 2) 120 ∷ []) ∷ (node (pos 3) 130 ∷ []) ∷ []) 100 100
      sample-Shows tt content-Printable tt refl refl refl refl refl refl refl (omega arith)
