-- ===== src/Manager/Address.antt =====
-- `find_node_loc`: the search for a node by an address.
use graph_slick.Base.{
  ℕ, ◌≤◌, ◌<◌, ◌≡◌, ◌⊎◌, ap, ◌∙◌, ◌++◌, refl, not, ◌&&◌, true, false, none, some, [], ◌∷◌, arith,
  ltb, All, ℤ,
}
use graph_slick.OrdMap.{Map}
use graph_slick.Heap.{Addr, NodeDef, Heap, GroupMan, ok, load_nd}
use graph_slick.Manager.{find_nodeid_loc, find_node_from, find_node_loc}

-- the node is there, and its range satisfies `P`
abbrev pub NodeAt : Heap → (NodeDef → Type 0) → Addr → Type 0
NodeAt h P p = (d : NodeDef) × (h.nds p ≡ some d) × P d

-- the node ends at or before the address, or it starts before it
abbrev pub Misses : ℕ → NodeDef → Type 0
Misses ea d = (d.end ≤ ea) ⊎ (d.start < ea)

abbrev pub Hits : ℕ → NodeDef → Type 0
Hits ea d = (ea ≤ d.start) × (ea < d.end)

module _ (w : GroupMan) (ea : ℕ) where
  find_node_from-miss :
      (rest : Map ℤ Addr)
      → All (λ (_, p). NodeAt w.heap (Misses ea) p) rest
      → find_node_from ea rest w ≡ ok none w
  unfolding find_node_from load_nd
  find_node_from-miss [] h = refl
  find_node_from-miss ((_, p) ∷ rest) ((d, e, out), h) =
      let miss : (not (ltb d.start ea) && ltb ea d.end) ≡ false = ground arith in
      rw (e, miss) (find_node_from-miss rest h)

  find_node_from-hit :
      (before : Map ℤ Addr) (nid : ℤ) (p : Addr) (d : NodeDef) (rest : Map ℤ Addr)
      → All (λ (_, q). NodeAt w.heap (Misses ea) q) before
      → w.nds p ≡ some d
      → Hits ea d
      → find_node_from ea (before ++ (nid, p) ∷ rest) w ≡ ok (find_nodeid_loc w d.nid) w
  unfolding find_node_from load_nd
  find_node_from-hit [] nid p d rest h e hit =
      let found : (not (ltb d.start ea) && ltb ea d.end) ≡ true = ground arith in rw (e, found)
  find_node_from-hit ((_, q) ∷ before) nid p d rest ((d', e', out), h) e hit =
      let miss : (not (ltb d'.start ea) && ltb ea d'.end) ≡ false = ground arith in
      rw (e', miss) (find_node_from-hit before nid p d rest h e hit)

-- The search passes over every node that starts before the address. So it finds nothing when each
-- node ends at or before the address or starts before it, also where the address lies inside a node.
pub find_node_loc_blind :
    (w : GroupMan) (ea : ℕ)
    → All (λ (_, p). NodeAt w.heap (Misses ea) p) w.all_nodes
    → find_node_loc ea w ≡ ok none w
unfolding find_node_loc
find_node_loc_blind w ea h = find_node_from-miss w ea w.all_nodes h

-- It answers with the place of the first node, in the order of the ids, that starts at or behind
-- the address and ends behind it.
pub find_node_loc_first :
    (w : GroupMan) (ea : ℕ) (before : Map ℤ Addr) (nid : ℤ) (p : Addr) (d : NodeDef)
    (rest : Map ℤ Addr)
    → w.all_nodes ≡ before ++ (nid, p) ∷ rest
    → All (λ (_, q). NodeAt w.heap (Misses ea) q) before
    → w.nds p ≡ some d
    → Hits ea d
    → find_node_loc ea w ≡ ok (find_nodeid_loc w d.nid) w
unfolding find_node_loc
find_node_loc_first w ea before nid p d rest split h e hit =
    ap (λ (m : Map ℤ Addr). find_node_from ea m w) split
    ∙ find_node_from-hit w ea before nid p d rest h e hit
