-- ===== src/Algo/Single/Drawn.antt =====
-- What `func_to_mgraph` leaves in the graph and in the node map.
use graph_slick.Base.{
  ℕ, zero, suc, ◌+◌, ◌<◌, ◌≤◌, ◌≡◌, refl, sym, ap, ◌∙◌, subst, Bool, false, Option-cases, inl, inr,
  Option, none, some, List, [], ◌∷◌, ◌++◌, arith, length, map, get_elem?, ℤ, pos, Text,
}
use mathlib.Core.Option.{some_inj}
use mathlib.Core.List.{append_assoc, append-nil}
use graph_slick.OrdMap.{same, find, insert, int_ord}
use graph_slick.OrdMap.Laws.{find-insert, same_refl}
use graph_slick.Algo.{Block, FlowChart}
use graph_slick.Algo.Combined.{GNode}
use graph_slick.Algo.Single.{
  SingleGraph, add_gnode, block_text, add_block_node, add_block_nodes, func_to_mgraph,
}

-- the edges from each block, numbered from `n` on, to its successors
abbrev pub chart_edges : ℕ → FlowChart → List (ℤ × ℤ)
chart_edges n [] = []
chart_edges n (b ∷ bs) = map (λ succ. (pos n, succ)) b.succs ++ chart_edges (suc n) bs

module _ (disasm : ℕ → ℕ → Text) (append_node_id : Bool) where
  abbrev pub drawn : ℕ → Block → GNode
  drawn n b = record { id = 0; text = block_text disasm append_node_id (pos n) b []; hint = [] }

  round-find-other :
      (n j : ℕ) (b : Block) (g : SingleGraph)
      → same (pos j) (pos n) ≡ false
      → find (pos j) (add_block_node disasm append_node_id (pos n) b g).node_map
        ≡ find (pos j) g.node_map
  unfolding add_block_node add_gnode
  round-find-other n j b g other = elim (Option-cases (find (pos n) g.node_map)) [
    | inl e ↦
        rw
          (
            e,
            find-insert (pos j) (pos n) (drawn n b)
                (insert (pos n) (record { id = 0; text = []; hint = [] }) g.node_map),
            other,
            find-insert (pos j) (pos n) (record { id = 0; text = []; hint = [] }) g.node_map,
            other,
          )
          refl
    | inr (c, e) ↦
        rw
          (
            e,
            find-insert (pos j) (pos n)
                (record c { text = block_text disasm append_node_id (pos n) b c.text }) g.node_map,
            other,
          )
          refl
  ]

  round-find-new :
      (n : ℕ) (b : Block) (g : SingleGraph)
      → find (pos n) g.node_map ≡ none
      → find (pos n) (add_block_node disasm append_node_id (pos n) b g).node_map ≡ some (drawn n b)
  unfolding add_block_node add_gnode
  round-find-new n b g new =
      rw
        (
          new,
          find-insert (pos n) (pos n) (drawn n b)
              (insert (pos n) (record { id = 0; text = []; hint = [] }) g.node_map),
          same_refl (pos n),
        )
        refl

  round-edges :
      (n : ℕ) (b : Block) (g : SingleGraph)
      → (add_block_node disasm append_node_id (pos n) b g).edges
        ≡ g.edges ++ map (λ succ. (pos n, succ)) b.succs
  unfolding add_block_node
  round-edges n b g = refl

  blocks-edges :
      (n : ℕ) (fc : FlowChart) (g : SingleGraph)
      → (add_block_nodes disasm append_node_id n fc g).edges ≡ g.edges ++ chart_edges n fc
  unfolding add_block_nodes
  blocks-edges n [] g = sym (append-nil g.edges)
  blocks-edges n (b ∷ bs) g =
      blocks-edges (suc n) bs (add_block_node disasm append_node_id (pos n) b g)
      ∙ rw (round-edges n b g)
          (append_assoc g.edges (map (λ succ. (pos n, succ)) b.succs) (chart_edges (suc n) bs))

  round-count :
      (n : ℕ) (b : Block) (g : SingleGraph)
      → (add_block_node disasm append_node_id (pos n) b g).node_count ≡ g.node_count
  unfolding add_block_node
  round-count n b g = refl

  blocks-count :
      (n : ℕ) (fc : FlowChart) (g : SingleGraph)
      → (add_block_nodes disasm append_node_id n fc g).node_count ≡ g.node_count
  unfolding add_block_nodes
  blocks-count n [] g = refl
  blocks-count n (b ∷ bs) g =
      blocks-count (suc n) bs (add_block_node disasm append_node_id (pos n) b g) ∙ round-count n b g

  blocks-find-before :
      (n j : ℕ) (fc : FlowChart) (g : SingleGraph)
      → j < n
      → find (pos j) (add_block_nodes disasm append_node_id n fc g).node_map
        ≡ find (pos j) g.node_map
  unfolding add_block_nodes
  blocks-find-before n j [] g lt = refl
  blocks-find-before n j (b ∷ bs) g lt =
      blocks-find-before (suc n) j bs (add_block_node disasm append_node_id (pos n) b g)
        (omega (arith, lt))
      ∙ round-find-other n j b g (ground arith)

  blocks-find :
      (n i : ℕ) (fc : FlowChart) (b : Block) (g : SingleGraph)
      → ((j : ℕ) → n ≤ j → find (pos j) g.node_map ≡ none)
      → get_elem? fc i ≡ some b
      → find (pos (n + i)) (add_block_nodes disasm append_node_id n fc g).node_map
        ≡ some (drawn (n + i) b)
  unfolding add_block_nodes
  blocks-find n i [] b g new e = ground (arith, e)
  blocks-find n zero (c ∷ fc) b g new e =
      let shift : n + 0 ≡ n = omega arith in
      rw shift (
        blocks-find-before (suc n) n fc (add_block_node disasm append_node_id (pos n) c g)
          (omega arith)
        ∙ round-find-new n c g (new n (omega arith))
        ∙ ap (λ (x : Block). some (drawn n x)) (some_inj.0 e))
  blocks-find n (suc i) (c ∷ fc) b g new e =
      let next : SingleGraph = add_block_node disasm append_node_id (pos n) c g in
      let shift : n + suc i ≡ suc n + i = omega arith in
      rw shift (
        blocks-find (suc n) i fc b next
          (λ j far. round-find-other n j c g (ground (arith, far)) ∙ new j (omega (arith, far))) e)

  -- With a flowchart, `func_to_mgraph` succeeds: the graph has a node for each block, the edges that
  -- it had and then, block by block, one edge to each successor; and from an empty node map each
  -- block gets an entry with its text.
  pub func_to_mgraph-drawn :
      (chart : ℕ → Option FlowChart) (func_ea : ℕ) (fc : FlowChart) (g : SingleGraph)
      → g.node_map ≡ []
      → (g' : SingleGraph) × (func_to_mgraph disasm append_node_id chart func_ea g (some fc)
          ≡ some g')
        × (g'.node_count ≡ length fc)
        × (g'.edges ≡ g.edges ++ chart_edges 0 fc)
        × ((n : ℕ) (b : Block)
            → get_elem? fc n ≡ some b
            → find (pos n) g'.node_map ≡ some (drawn n b))
  unfolding func_to_mgraph find
  func_to_mgraph-drawn chart func_ea fc g empty =
      let g1 : SingleGraph = record g { node_count = length fc } in
      (
        _,
        refl,
        blocks-count 0 fc g1,
        blocks-edges 0 fc g1,
        λ n b e.
            let shift : n ≡ 0 + n = omega arith in
            subst
              (λ x.
                find (pos x) (add_block_nodes disasm append_node_id 0 fc g1).node_map
                ≡ some (drawn x b))
              (sym shift) (blocks-find 0 n fc b g1 (λ j far. rw empty refl) e),
      )
