-- ===== src/Tests/Sample.antt =====
-- A manager with one super group of three groups: two nodes, one node, one node; the lookups are
-- as `initialize_lookups` leaves them.
use graph_slick.Base.{◌+◌, false, none, some, [], ◌∷◌, ◌==◌, if◌then◌else◌, ℤ, pos}
use graph_slick.OrdMap.{Map}
use graph_slick.Heap.{Addr, NodeDef, SuperGroup, NodeLoc, nodeloc, Heap, GroupMan}

abbrev pub node : ℤ → Addr → NodeDef
node nid a = record { nid = nid; start = a; end = a + 10 }

abbrev pub sg_cell : SuperGroup
sg_cell = record { id = []; name = []; is_synthetic = false; groups = 2 ∷ 3 ∷ 4 ∷ [] }

abbrev pub heap : Heap
heap = record {
  nds = λ q.
      if q == 5
      then some (node (pos 0) 100)
      else (if q == 6
          then some (node (pos 1) 110)
          else (if q == 7
              then some (node (pos 2) 120)
              else (if q == 8 then some (node (pos 3) 130) else none)));
  ngs = λ q.
      if q == 2
      then some (5 ∷ [])
      else (if q == 3 then some (6 ∷ 7 ∷ []) else (if q == 4 then some (8 ∷ []) else none));
  sgs = λ q. if q == 1 then some sg_cell else none;
  next = 9;
  ncopy = 1;
}

abbrev pub lookups : Map ℤ NodeLoc
lookups =
    (pos 0, nodeloc 1 2 5)
    ∷ (pos 1, nodeloc 1 3 6)
    ∷ (pos 2, nodeloc 1 3 7)
    ∷ (pos 3, nodeloc 1 4 8)
    ∷ []

abbrev pub sample : GroupMan
sample = record {
  heap = heap;
  nid2loc = lookups;
  path_sgl = 1 ∷ [];
  similar_sgl = [];
  all_nodes = (pos 0, 5) ∷ (pos 1, 6) ∷ (pos 2, 7) ∷ (pos 3, 8) ∷ [];
  src_filename = [];
}
