-- ===== src/Chooser/Files.antt =====
-- The chooser's commands on files (plugin.cpp): loading, saving and showing the graph. What
-- the SDK, the disk and the Python matcher answer is a parameter.
use graph_slick.Base.{
  ℕ, Bool, true, false, Option, none, some, List, [], ◌==◌, if◌then◌else◌, ℤ, Text, is_empty,
}
use graph_slick.Heap.{null, GroupMan, ok, Cmd, and_then, load_nd}
use graph_slick.Manager.{clear, get_first_nd, initialize_lookups}
use graph_slick.BbGroup.{Sdk, parse}
use graph_slick.BbGroup.Emit.{emit}
use graph_slick.Algo.{FlowChart, sanitize_groupman}
use graph_slick.Util.{get_func_flowchart}
use graph_slick.Graph.{GraphView, ViewCmd}
use graph_slick.Graph.Callback.{new_view}
use graph_slick.Graph.Menu.{set_sel_mode}
use graph_slick.Graph.Describe.{first_answer}
use graph_slick.Graph.Highlight.{later_answers}
use graph_slick.Chooser.{ChooserCmd, give, lift, ◌>>=◌, ◌>>◌, chooser, gm, change}
use graph_slick.Chooser.Lines.{populate_chooser_lines}

-- `get_func` gives the start of the function at an address, `create` its flowchart, `screen_func`
-- the function at the cursor and `screen_fn` what `get_screen_function_fn` gives for it. `writable`
-- tells whether a file can be written. `form` is none where no form can be made for the view, and
-- else tells whether the graph viewer can be made; `prompts` is what will be typed in the view.
pub record Host : Type 0 where
  pub sdk : Sdk
  pub open_file : Text → Option Text
  pub writable : Text → Bool
  pub get_func : ℕ → Option ℕ
  pub create : ℕ → FlowChart
  pub screen_func : Option ℕ
  pub screen_fn : Option Text
  pub analyze : ℕ → List (List (List ℤ))
  pub form : Option Bool
  pub prompts : List (Option Text)
  pub refresh_viewer : FlowChart → ViewCmd (Unit {0})

-- `new groupman_t()`
abbrev pub new_man : GroupMan → GroupMan
new_man w = record w {
  nid2loc = [];
  path_sgl = [];
  similar_sgl = [];
  all_nodes = [];
  src_filename = [];
}

-- a command of another manager over the same heap: its result and that manager behind
abbrev pub on_man : {A : Type 0} → GroupMan → Cmd A → ChooserCmd (A × GroupMan)
on_man n m c w =
    and_then (m (record n { heap = w.heap }))
      (λ a n'. ok ((a, n'), c) (record w { heap = n'.heap }))

-- A command of the view, which shares the options with the chooser. A refresh of the chooser that it
-- asks for stays an event of the view.
abbrev pub on_view : {A : Type 0} → GraphView → ViewCmd A → ChooserCmd A
on_view v m c w =
    and_then (m (record v { options = c.options }) w)
      (λ (a, v'). ok (a, record c { gsgv = some v'; options = v'.options }))

-- `askfile_c`
unfoldable pub ask_file : ChooserCmd (Option Text)
ask_file = do
  c ← chooser
  change (λ c'. record c' { answers = later_answers c'.answers })
  give (first_answer c.answers)

-- `refresh`, less the repainting
unfoldable pub refresh : Bool → ChooserCmd (Unit {0})
refresh populate_lines =
    if populate_lines
    then (do lines ← lift populate_chooser_lines; change (λ c. record c { ch_nodes = lines }))
    else give tt

abbrev pub notify_refresh : Bool → ChooserCmd (Unit {0})
notify_refresh hard_refresh = refresh hard_refresh

unfoldable pub notify_close : ChooserCmd (Unit {0})
notify_close = change (λ c. record c { gsgv = none })

module _ (host : Host) where
  abbrev pub start_view : Bool → ChooserCmd (Unit {0})
  start_view has_viewer = do
    c ← chooser
    change
        (λ c'. record c' { gsgv = some (new_view c.options host.prompts); has_viewer = has_viewer })
    if has_viewer
        then on_view (new_view c.options host.prompts) (λ v w.
          and_then (host.refresh_viewer c.func_fc v w) (λ (_, v'). set_sel_mode v'.in_sel_mode v'))
        else give tt

  abbrev pub shown_in : Option Bool → ChooserCmd Bool
  shown_in none = do change (λ c. record c { gsgv = none }); give false
  shown_in (some has_viewer) = do start_view has_viewer; give true

  -- `show_graph`, with `gsgraphview_t::show_graph` and `init`; a view that is open is closed first
  unfoldable pub show_graph : ChooserCmd Bool
  show_graph = do w ← gm; if is_empty w.path_sgl then give true else shown_in host.form

  abbrev pub set_chart : Option FlowChart → ChooserCmd Bool
  set_chart none = give false
  set_chart (some fc) = do change (λ c. record c { func_fc = fc }); give true

  unfoldable pub get_flowchart : ℕ → ChooserCmd Bool
  get_flowchart start_ea = set_chart (get_func_flowchart host.get_func host.create start_ea)

  -- `delete ngm`, whose destructor clears it
  abbrev pub give_up : GroupMan → ChooserCmd Bool
  give_up ngm = do on_man ngm clear; give false

  -- the part of `load_file` that is reached with a flowchart
  abbrev pub take_over : GroupMan → Bool → ChooserCmd Bool
  take_over ngm false = give_up ngm
  take_over ngm true = do
    c ← chooser
    (fine, ngm1) ← on_man ngm (sanitize_groupman (λ _. none) 0 (some c.func_fc))
    (_, ngm2) ← (if fine then on_man ngm1 initialize_lookups else give (tt, ngm1))
    lift clear
    lift (λ w. ok tt (record ngm2 { heap = w.heap }))
    lines ← lift populate_chooser_lines
    change (λ c'. record c' { ch_nodes = lines })
    give true

  abbrev pub at_func : GroupMan → Option ℕ → ChooserCmd Bool
  at_func ngm none = give_up ngm
  at_func ngm (some start_ea) = do found ← get_flowchart start_ea; take_over ngm found

  abbrev pub parsed_file : GroupMan → Bool → ChooserCmd Bool
  parsed_file ngm false = give_up ngm
  parsed_file ngm true = do
    (p, ngm1) ← on_man ngm get_first_nd
    if p == null
        then give_up ngm1
        else (do nd ← lift (load_nd p); at_func ngm1 (host.get_func nd.start))

  unfoldable pub load_file : Text → ChooserCmd Bool
  load_file filename = do
    w ← gm
    (parsed, ngm) ← on_man (new_man w) (parse host.sdk host.open_file filename false)
    parsed_file ngm parsed

  -- loading and showing the options have empty bodies
  unfoldable pub load_file_show_graph : Text → ChooserCmd Bool
  load_file_show_graph filename = do
    loaded ← load_file filename
    if loaded
        then (do show_graph; change (λ c. record c { last_loaded_file = filename }); give true)
        else give false

  unfoldable pub reload_input_file : ChooserCmd Bool
  reload_input_file = do
    c ← chooser
    if is_empty c.last_loaded_file then give false else load_file_show_graph c.last_loaded_file

  unfoldable pub on_delete : ℕ → ChooserCmd ℕ
  on_delete n = do reload_input_file; give n

  abbrev pub insert_file : Option Text → ChooserCmd (Unit {0})
  insert_file none = give tt
  insert_file (some filename) = do load_file_show_graph filename; give tt

  unfoldable pub on_insert : ChooserCmd (Unit {0})
  on_insert = do answer ← ask_file; insert_file answer

  -- `save_file`: none where no file is written
  unfoldable pub save_file : Text → ChooserCmd (Option Text)
  save_file filename =
      if host.writable filename
      then (do text ← lift (emit host.sdk none); give (some text))
      else give none

  abbrev pub saved_to : Option Text → ChooserCmd (Option Text)
  saved_to none = give none
  saved_to (some filename) = save_file filename

  unfoldable pub onmenu_save_bbfile : ChooserCmd (Option Text)
  onmenu_save_bbfile = do answer ← ask_file; saved_to answer
