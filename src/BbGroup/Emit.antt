-- ===== src/BbGroup/Emit.antt =====
-- `emit_sgl` and `emit` of groupman.cpp, as the text that is written.
use graph_slick.Base.{Option, none, some, List, [], ◌∷◌, ◌++◌, Text, codes}
use graph_slick.Heap.{Addr, Cmd, pure, ◌>>=◌, get, load_nd, load_ng, load_sg}
use graph_slick.BbGroup.{Sdk}

module _ (sdk : Sdk) where
  abbrev pub comma : List Addr → Text
  comma [] = []
  comma (_ ∷ _) = codes ", "

  -- the nodes of a group; the counter `c` reaches 0 at the last one
  unfoldable pub emit_nodes : List Addr → Cmd Text
  emit_nodes [] = pure []
  emit_nodes (p ∷ nds) = do
    nd ← load_nd p
    rest ← emit_nodes nds
    pure (sdk.show_node nd.nid nd.start nd.end ++ (comma nds ++ rest))

  unfoldable pub emit_groups : List Addr → Cmd Text
  emit_groups [] = pure []
  emit_groups (ng ∷ ngs) = do
    nds ← load_ng ng
    body ← emit_nodes nds
    rest ← emit_groups ngs
    pure (b'(' ∷ (body ++ b')' ∷ (comma ngs ++ rest)))

  abbrev pub emit_field : Text → Text → Text
  emit_field key [] = []
  emit_field key (c ∷ val) = key ++ b':' ∷ ((c ∷ val) ++ b';' ∷ [])

  abbrev pub emit_nodeset : List Addr → Cmd Text
  emit_nodeset [] = pure []
  emit_nodeset (ng ∷ ngs) = do body ← emit_groups (ng ∷ ngs); pure (codes "NODESET" ++ b':' ∷ body)

  unfoldable pub emit_sgl : List Addr → Cmd Text
  unfolding emit_nodes emit_groups
  emit_sgl [] = pure []
  emit_sgl (sg ∷ sgs) = do
    s ← load_sg sg
    groups ← emit_nodeset s.groups
    rest ← emit_sgl sgs
    pure (
        emit_field (codes "ID") s.id
        ++ (emit_field (codes "GROUPNAME") s.name ++ (groups ++ b'\n' ∷ rest)))

  abbrev pub extra : Option Text → Text
  extra none = []
  extra (some t) = t ++ b'\n' ∷ []

  -- the file that `emit` writes
  unfoldable pub emit : Option Text → Cmd Text
  emit additional_sections = do
    w ← get
    paths ← emit_sgl w.path_sgl
    similars ← emit_sgl w.similar_sgl
    pure (
        codes "--PATHINFO\n"
        ++ (paths ++ (codes "--SIMILARINFO\n" ++ (similars ++ extra additional_sections))))
