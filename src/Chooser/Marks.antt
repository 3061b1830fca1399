-- ===== src/Chooser/Marks.antt =====
-- What the chooser's `highlight_node` (plugin.cpp) does in the graph view for a line.
use graph_slick.Base.{ℕ, true, if◌then◌else◌}
use graph_slick.Heap.{load_sg}
use graph_slick.ColorGen.{Double, get_colorvar}
use graph_slick.Graph.{ViewCmd, give, lift, ◌>>=◌, ◌>>◌, view, gm}
use graph_slick.Graph.Select.{highlight_nodes, clear_highlighting, refresh_view}
use graph_slick.Graph.Highlight.{decl_cg, highlight_list, highlight_sg_list, next_color}
use graph_slick.Chooser.{Line, chlt_gm, chlt_sg, chlt_ng}

module _ {W : Type 0} (d : Double W) (fuel : ℕ) where
  -- all path super groups, the groups of a super group, or one group in the first colour
  unfoldable pub color_line : Line → ViewCmd (Unit {0})
  color_line chlt_gm = do w ← gm; highlight_sg_list d fuel w.path_sgl decl_cg true; give tt
  color_line (chlt_sg sg) = do
    s ← lift (load_sg sg)
    highlight_list d fuel s.groups decl_cg true
    give tt
  color_line (chlt_ng sg ng) = do
    let (cg, cv) = get_colorvar decl_cg
    (clr, cg', cv') ← next_color d fuel cg cv
    highlight_nodes ng clr true
    give tt

  unfoldable pub mark_line : Line → ViewCmd (Unit {0})
  unfolding color_line
  mark_line line = do
    clear_highlighting true
    color_line line
    v ← view
    if v.manual_refresh_mode then give tt else refresh_view
