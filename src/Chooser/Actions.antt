-- ===== src/Chooser/Actions.antt =====
-- The chooser's commands on its lines (plugin.cpp). `is_sel` is the SDK's test of a line number,
-- `refresh_viewer` what the graph viewer does when it is refreshed.
use graph_slick.Base.{
  ℕ, zero, suc, ◌+◌, ◌-◌, ◌%◌, Bool, false, Option, none, some, List, [], ◌∷◌, ◌==◌, ltb, length,
  get_elem?, if◌then◌else◌,
}
use graph_slick.OrdMap.{int_ord}
use graph_slick.Heap.{Addr, null}
use graph_slick.Groups.{sg_first_ng}
use graph_slick.Manager.{clear}
use graph_slick.ColorGen.{Double, u32}
use graph_slick.Graph.{GraphView}
use graph_slick.Graph.Highlight.{jump_to_ng}
use graph_slick.Chooser.Marks.{mark_line}
use graph_slick.Graph.Describe.{edit_sg_description}
use graph_slick.Chooser.{
  Line, chlt_gm, chlt_sg, chlt_ng, Chooser, ChooserCmd, give, lift, broken, ◌>>=◌, ◌>>◌, chooser,
}
use graph_slick.Chooser.Files.{on_view, notify_close}

-- `ch_nodes[n-1]`, out of range without a test
abbrev pub line_at : ℕ → List Line → Option Line
line_at zero lines = none
line_at (suc n) lines = get_elem? lines n

abbrev pub with_line : {A : Type 0} → Option Line → (Line → ChooserCmd A) → ChooserCmd A
with_line none k = broken
with_line (some line) k = k line

-- a selected line of the chooser, while its view is there
abbrev pub passes : (ℕ → Bool) → ℕ → Chooser → Bool
passes is_sel n c = if ltb (length c.ch_nodes) n then false else is_sel n

module _ (is_sel : ℕ → Bool) where
  abbrev pub edit_line : GraphView → Line → ChooserCmd (Unit {0})
  edit_line v chlt_gm = give tt
  edit_line v (chlt_ng sg ng) = give tt
  edit_line v (chlt_sg sg) = do on_view v (edit_sg_description sg); give tt

  unfoldable pub on_edit_line : ℕ → ChooserCmd (Unit {0})
  on_edit_line n = do
    c ← chooser
    elim c.gsgv [
      | none ↦ give tt
      | some v ↦
          if passes is_sel n c then with_line (line_at n c.ch_nodes) (edit_line v) else give tt
    ]

  -- the group that ENTER on a line leads to
  unfoldable pub group_of_line : Line → ChooserCmd Addr
  group_of_line chlt_gm = give null
  group_of_line (chlt_sg sg) = lift (sg_first_ng sg)
  group_of_line (chlt_ng sg ng) = give ng

  abbrev pub enter_line : GraphView → Line → ChooserCmd (Unit {0})
  enter_line v line = do
    ng ← group_of_line line
    if ng == null then give tt else on_view v (jump_to_ng ng)

  unfoldable pub on_enter : ℕ → ChooserCmd (Unit {0})
  unfolding group_of_line
  on_enter n = do
    c ← chooser
    elim c.gsgv [
      | none ↦ give tt
      | some v ↦
          if c.has_viewer
          then (if passes is_sel n c
              then with_line (line_at n c.ch_nodes) (enter_line v)
              else give tt)
          else give tt
    ]

module _ {W : Type 0} (d : Double W) (fuel : ℕ) where
  -- the line is taken out of range without a test
  unfoldable pub highlight_node : ℕ → ChooserCmd (Unit {0})
  highlight_node n = do
    c ← chooser
    elim c.gsgv [
      | none ↦ give tt
      | some v ↦
          if c.has_viewer
          then with_line (get_elem? c.ch_nodes n) (λ line. on_view v (mark_line d fuel line))
          else give tt
    ]

  -- the line numbers that are selected count from 1; the difference is cast to `uint32`
  unfoldable pub on_select : List ℕ → ChooserCmd (Unit {0})
  on_select [] = broken
  on_select (n ∷ sel) = highlight_node ((n + (u32 - 1)) % u32)

-- `close_graph`: the viewer answers with `grcode_destroyed`, which calls `notify_close`
unfoldable pub close_graph : ChooserCmd (Unit {0})
close_graph = do c ← chooser; if c.has_viewer then notify_close else give tt

-- `on_destroy`, with the destructor of the manager
unfoldable pub on_destroy : ChooserCmd (Unit {0})
on_destroy = close_graph >> lift clear
