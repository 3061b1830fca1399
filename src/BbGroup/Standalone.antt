-- ===== src/BbGroup/Standalone.antt =====
-- `main` of stdalone.cpp: it parses a file, writes another and looks up one address. Whether the
-- second file can be opened is a parameter.
use graph_slick.Base.{Bool, true, Option, none, some, if◌then◌else◌, ℤ, Text, codes}
use graph_slick.Heap.{NodeLoc, Cmd, pure, ◌>>=◌, ◌>>◌, load_nd}
use graph_slick.Manager.{clear, find_node_loc}
use graph_slick.BbGroup.{Sdk, parse}
use graph_slick.BbGroup.Emit.{emit}

-- the number that is printed, none where nothing is
abbrev pub print_nid : Option NodeLoc → Cmd (Option ℤ)
print_nid none = pure none
print_nid (some nl) = do nd ← load_nd nl.nd; pure (some nd.nid)

module _ (sdk : Sdk) (open_file : Text → Option Text) (writable : Bool) where
  abbrev written : Cmd (Option Text)
  written = if writable then (do text ← emit sdk none; pure (some text)) else pure none

  -- the text of "f2.txt", none where it cannot be opened, and the number; the manager is destroyed
  unfoldable pub main : Cmd (Option Text × Option ℤ)
  main = do
    parse sdk open_file (codes "f1.txt") true
    text ← written
    nl ← find_node_loc 4199134
    nid ← print_nid nl
    clear
    pure (text, nid)
