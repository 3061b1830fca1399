-- ===== src/Chooser/Lines.antt =====
-- The lines of the chooser and their texts (plugin.cpp). How an address is printed, `qbasename` and
-- MAXSTR are parameters.
use graph_slick.Base.{
  ℕ, zero, suc, ◌-◌, Option, none, some, List, [], ◌∷◌, ◌++◌, ◌==◌, length, get_elem?, map,
  if◌then◌else◌, pos, Text, codes, show_int,
}
use graph_slick.Heap.{Addr, null, Cmd, pure, ◌>>=◌, get, load_nd, load_ng, load_sg}
use graph_slick.Groups.{get_first_node, gcount}
use graph_slick.Chooser.{Line, chlt_gm, chlt_sg, chlt_ng}

-- the loops of `populate_chooser_lines`, over the super groups and over the groups of each
unfoldable pub sg_lines : List Addr → Cmd (List Line)
sg_lines [] = pure []
sg_lines (sg ∷ sgs) = do
  s ← load_sg sg
  rest ← sg_lines sgs
  pure (chlt_sg sg ∷ (map (chlt_ng sg) s.groups ++ rest))

-- the lines that `populate_chooser_lines` makes
unfoldable pub populate_chooser_lines : Cmd (List Line)
unfolding sg_lines
populate_chooser_lines = do w ← get; rest ← sg_lines w.path_sgl; pure (chlt_gm ∷ rest)

abbrev pub comma : List Addr → Text
comma [] = []
comma (_ ∷ _) = codes ", "

module _ (show_ea : ℕ → Text) (qbasename : Text → Text) (maxstr : ℕ) where
  -- the loop over the nodes of a group; `sz` reaches 0 at the last one
  unfoldable pub desc_nodes : List Addr → Text → Cmd Text
  desc_nodes [] out = pure out
  desc_nodes (p ∷ nds) out = do
    nd ← load_nd p
    desc_nodes nds (
        out ++ show_int nd.nid ++ b':' ∷ (show_ea nd.start ++ b':' ∷ (show_ea nd.end ++ comma nds)))

  -- `get_node_desc` of the first and of the second column; each starts from an empty text
  unfoldable pub first_column : Line → Cmd Text
  unfolding desc_nodes
  first_column chlt_gm = do w ← get; pure (qbasename w.src_filename)
  first_column (chlt_sg sg) = do
    s ← load_sg sg
    count ← gcount sg
    pure (
        codes "    "
        ++ s.name
        ++ codes " ("
        ++ s.id
        ++ codes ") C("
        ++ show_int (pos count)
        ++ codes ")")
  first_column (chlt_ng sg ng) = do
    nds ← load_ng ng
    out ← desc_nodes nds (codes "        C(" ++ show_int (pos (length nds)) ++ codes "):(")
    pure (out ++ codes ")")

  unfoldable pub second_column : Line → Cmd Text
  second_column chlt_gm = pure []
  second_column (chlt_sg sg) = pure []
  second_column (chlt_ng sg ng) = do
    p ← get_first_node ng
    if p == null then pure [] else (do nd ← load_nd p; pure (show_ea nd.start))

  -- `qstrncpy` with room for `n` bytes and a final 0 behind them
  abbrev pub cut : ℕ → Text → Text
  cut zero s = []
  cut (suc n) [] = []
  cut (suc n) (c ∷ s) = c ∷ cut n s

  abbrev pub line_texts : Option Line → Cmd (Option (Text × Option Text))
  line_texts none = pure none
  line_texts (some line) = do
    a ← first_column line
    b ← second_column line
    pure (some (cut (maxstr - 1) a, some (cut (maxstr - 1) b)))

  -- `on_get_line`: what is written to the columns; none where nothing is
  unfoldable pub on_get_line : List Line → ℕ → Cmd (Option (Text × Option Text))
  on_get_line lines zero = pure (some (cut (maxstr - 1) (codes "Node"), none))
  on_get_line lines (suc n) = line_texts (get_elem? lines n)

-- `on_get_size`
unfoldable pub on_get_size : List Line → ℕ
on_get_size lines = length lines
