-- ===== src/Graph/Describe.antt =====
-- `edit_sg_description` of plugin.cpp: the prompt for a name, and the texts of the graph nodes.
use graph_slick.Base.{
  ℕ, Bool, true, false, ◌||◌, Option, none, some, List, [], ◌∷◌, ◌==◌, if◌then◌else◌, ℤ, Text,
}
use graph_slick.OrdMap.{same, find, insert, int_ord, addr_ord}
use graph_slick.Heap.{Addr, SuperGroup, load_sg, store_sg}
use graph_slick.Groups.{get_display_name}
use graph_slick.Algo.Combined.{GNode}
use graph_slick.Graph.{
  GraphView, no_id, ViewCmd, give, lift, ◌>>=◌, ◌>>◌, view, change, get_ngid_from_ng,
}
use graph_slick.Graph.Select.{refresh_view}

-- `askstr`: the next answer; none where the prompt is cancelled
abbrev pub first_answer : List (Option Text) → Option Text
first_answer [] = none
first_answer (a ∷ _) = a

abbrev pub allowed : ℕ → Bool
allowed c = if c == b')' || c == b'(' || c == b':' || c == b';' then false else true

unfoldable pub is_allowed : Text → Bool
is_allowed [] = true
is_allowed (c ∷ s) = if allowed c then is_allowed s else false

-- The loop that asks until the text is allowed: the text and the answers behind it. It uses up an
-- answer in each round.
unfoldable pub ask_description : List (Option Text) → Option Text × List (Option Text)
ask_description [] = (none, [])
ask_description (none ∷ rest) = (none, rest)
ask_description (some desc ∷ rest) =
    if is_allowed desc then (some desc, rest) else ask_description rest

abbrev pub relabel_at : ℤ → Text → GraphView → Option GNode → GraphView
relabel_at n text v none = v
relabel_at n text v (some gnode) = record v {
  node_map = insert n (record gnode { text = text }) v.node_map;
}

-- the loop over the groups of the super group whose name changed
unfoldable pub relabel : Text → List Addr → ViewCmd (Unit {0})
relabel text [] = give tt
relabel text (ng ∷ ngs) = do
  n ← get_ngid_from_ng ng
  if same n no_id then give tt else change (λ v. relabel_at n text v (find n v.node_map))
  relabel text ngs

abbrev pub renamed : Addr → Option Text → ViewCmd Bool
renamed sg none = give false
renamed sg (some desc) = do
  s ← lift (load_sg sg)
  let s' : SuperGroup = record s { name = desc }
  lift (store_sg sg s')
  relabel (get_display_name s' []) s'.groups
  v ← view
  if v.manual_refresh_mode then give tt else refresh_view
  give true

-- the display name that the prompt shows is read, so the super group must be there
unfoldable pub edit_sg_description : Addr → ViewCmd Bool
edit_sg_description sg = do
  s ← lift (load_sg sg)
  v ← view
  let (desc, rest) = ask_description v.answers
  change (λ v'. record v' { answers = rest })
  renamed sg desc
