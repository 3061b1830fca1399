-- ===== src/Chooser.antt =====
-- `gschooser_t` of plugin.cpp: its state, its lines and their texts. The chooser, its graph view and
-- the manager share one heap.
pub mod Files
pub mod Analysis
pub mod Actions
pub mod Lines
pub mod Marks
pub mod Shown
pub mod Loaded
pub mod Plugin
pub mod Lifecycle
use graph_slick.Base.{Bool, Option, List, Text}
use graph_slick.Heap.{Addr, GroupMan, ok, fault, Cmd, and_then}
use graph_slick.Algo.{FlowChart}
use graph_slick.Graph.{GraphView, Options}

-- `gschooser_line_t`: a type with the pointers that it uses. The manager of every line is the
-- chooser's; the list of groups of a line is the one of its super group.
pub data Line : Type 0 where
  chlt_gm : Line
  chlt_sg : Addr → Line
  chlt_ng : Addr → Addr → Line

-- The view is none for NULL; `has_viewer` is whether its graph viewer is there. The answers are what
-- the file dialogs will give.
pub record Chooser : Type 0 where
  pub ch_nodes : List Line
  pub gsgv : Option GraphView
  pub has_viewer : Bool
  pub last_loaded_file : Text
  pub func_fc : FlowChart
  pub options : Options
  pub answers : List (Option Text)

abbrev pub ChooserCmd : Type 0 → Type 0
ChooserCmd A = Chooser → Cmd (A × Chooser)

abbrev pub give : {A : Type 0} → A → ChooserCmd A
give a c = ok (a, c)

-- a command of the manager
abbrev pub lift : {A : Type 0} → Cmd A → ChooserCmd A
lift m c w = and_then (m w) (λ a. ok (a, c))

abbrev pub broken : {A : Type 0} → ChooserCmd A
broken c w = fault

module _ {A B : Type 0} where
  infixl 5 ◌>>=◌ ◌>>◌
  abbrev pub ◌>>=◌ : ChooserCmd A → (A → ChooserCmd B) → ChooserCmd B
  m >>= k = λ c w. and_then (m c w) (λ (a, c'). k a c')

  abbrev pub ◌>>◌ : ChooserCmd A → ChooserCmd B → ChooserCmd B
  m >> n = m >>= λ _. n

abbrev pub chooser : ChooserCmd Chooser
chooser c = ok (c, c)

abbrev pub gm : ChooserCmd GroupMan
gm c w = ok (w, c) w

abbrev pub change : (Chooser → Chooser) → ChooserCmd (Unit {0})
change f c = ok (tt, f c)
