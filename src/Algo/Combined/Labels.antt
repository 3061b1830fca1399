-- ===== src/Algo/Combined/Labels.antt =====
-- The node that `fc_to_combined_mg::get_groupid` draws for a group.
use graph_slick.Base.{
  ℕ, ◌<◌, ◌≡◌, refl, sym, ◌∙◌, false, Bool-cases, inl, inr, Option, none, some, List, [], ◌∷◌, ◌++◌,
  codes, arith, length, ltb, if◌then◌else◌, ℤ, Text,
}
use graph_slick.OrdMap.{Map, find, insert, same, int_ord, addr_ord}
use graph_slick.OrdMap.Laws.{find-insert, same_iff, same_refl}
use graph_slick.Heap.{Addr, SuperGroup, NodeLoc, Heap, GroupMan}
use graph_slick.View.{members, nid_at}
use graph_slick.Groups.{get_display_name}
use graph_slick.Manager.{find_nodeid_loc}
use graph_slick.Algo.{Block, FlowChart, block_at}
use graph_slick.Algo.Combined.{GNode, Tables}

-- The ids of the groups are below their number, and no two groups share one.
pub record Numbered (m : Map Addr ℕ) : Type 0 where
  pub bounded : (ng : Addr) (n : ℕ) → find ng m ≡ some n → n < length m
  pub distinct : (a b : Addr) (n : ℕ) → find a m ≡ some n → find b m ≡ some n → a ≡ b

abbrev or_empty : Option SuperGroup → Text
or_empty none = []
or_empty (some s) = get_display_name s []

-- the name of the super group, none where there is no such super group
unfoldable pub name_at : Heap → Addr → Text
name_at h sg = or_empty (h.sgs sg)

pub name_at-eq :
    (h : Heap) (sg : Addr) {s : SuperGroup}
    → h.sgs sg ≡ some s
    → name_at h sg ≡ get_display_name s []
unfolding name_at
name_at-eq h sg e = rw (e, or_empty) refl

module _ (disasm : ℕ → ℕ → Text) (fc : FlowChart) where
  abbrev pub block_text : Option Block → Text
  block_text none = []
  block_text (some b) = disasm b.start b.end

  -- the texts of the blocks of the nodes, in order
  unfoldable pub blocks_text : Heap → List Addr → Text
  blocks_text h [] = []
  blocks_text h (p ∷ nds) = block_text (block_at fc (nid_at h p)) ++ blocks_text h nds

  -- the node of a group: the name of its super group between empty lines where it has more than one
  -- node, else the text of its block
  unfoldable pub group_gnode : GroupMan → NodeLoc → ℕ → GNode
  group_gnode w loc i =
      let nds = members w.heap loc.ng in
      let hint = blocks_text w.heap nds in
      record {
        id = i;
        text =
            if ltb 1 (length nds)
            then codes "\n\n\n" ++ name_at w.heap loc.sg ++ codes "\n\n\n"
            else hint;
        hint = hint;
      }

  -- every group with an id has its node at this id
  abbrev pub Labelled : GroupMan → Tables → Type 0
  Labelled w t =
      (q : Addr) (i : ℕ)
      → find q t.group2id ≡ some i
      → (nid : ℤ) × (loc : NodeLoc) × (find_nodeid_loc w nid ≡ some loc)
        × (loc.ng ≡ q)
        × (find i t.node_map ≡ some (group_gnode w loc i))

  pub insert-Labelled :
      (w : GroupMan) (t : Tables) (nid : ℤ) (loc : NodeLoc) (gn : GNode)
      → find_nodeid_loc w nid ≡ some loc
      → Numbered t.group2id
      → gn ≡ group_gnode w loc (length t.group2id)
      → Labelled w t
      → Labelled w (record t {
        group2id = insert loc.ng (length t.group2id) t.group2id;
        node_map = insert (length t.group2id) gn t.node_map;
      })
  insert-Labelled w t nid loc gn located num drawn h q i e =
      let n = length t.group2id in
      let at_q = sym (find-insert q loc.ng n t.group2id) ∙ e in
      elim (Bool-cases (same q loc.ng)) [
        | inl here ↦
            let own : loc.ng ≡ q = sym ((same_iff q loc.ng).0 here) in
            let is_n : n ≡ i = ground (arith, at_q, here) in
            (
              nid,
              loc,
              located,
              own,
              rw (sym is_n, find-insert n n gn t.node_map, same_refl n, drawn) refl,
            )
        | inr away ↦
            let old : find q t.group2id ≡ some i = ground (arith, at_q, away) in
            let (nid', loc', located', own, got) = h q i old in
            let below = num.bounded q i old in
            let apart : same i n ≡ false = ground (arith, below, same_iff i n) in
            (nid', loc', located', own, rw (find-insert i n gn t.node_map, apart) got)
      ]
