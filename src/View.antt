-- ===== src/View.antt =====
-- What the objects of the heap stand for: the contents of groups and super groups, the nodes with
-- their places in the order in which the manager walks them, and which objects are present.
use graph_slick.Base.{◌≡◌, ◌≢◌, none, some, List, [], ◌∷◌, ◌++◌, map, ℤ, pos, All}
use graph_slick.Heap.{Addr, null, NodeDef, SuperGroup, NodeLoc, nodeloc, Heap}

-- the nodes of a group, none where there is no such group
unfoldable pub members : Heap → Addr → List Addr
members h ng = elim (h.ngs ng) [ none ↦ [] | some l ↦ l ]

-- the groups of a super group, none where there is no such super group
unfoldable pub groups_of : Heap → Addr → List Addr
groups_of h sg = elim (h.sgs sg) [ none ↦ [] | some s ↦ s.groups ]

unfoldable pub nid_at : Heap → Addr → ℤ
nid_at h p = elim (h.nds p) [ none ↦ pos 0 | some d ↦ d.nid ]

module _ (h : Heap) (p : Addr) where
  pub members-eq : {l : List Addr} → h.ngs p ≡ some l → members h p ≡ l
  unfolding members
  members-eq e = rw (e, members)

  pub groups_of-eq : {s : SuperGroup} → h.sgs p ≡ some s → groups_of h p ≡ s.groups
  unfolding groups_of
  groups_of-eq e = rw (e, groups_of)

  pub nid_at-eq : {d : NodeDef} → h.nds p ≡ some d → nid_at h p ≡ d.nid
  unfolding nid_at
  nid_at-eq e = rw (e, nid_at)

module _ (h h' : Heap) (p : Addr) where
  pub members_congr : h'.ngs p ≡ h.ngs p → members h' p ≡ members h p
  unfolding members
  members_congr e = rw (e, members)

  pub groups_of_congr : h'.sgs p ≡ h.sgs p → groups_of h' p ≡ groups_of h p
  unfolding groups_of
  groups_of_congr e = rw (e, groups_of)

-- the places of the nodes, in walking order
abbrev pub group_locs : Heap → Addr → List Addr → List NodeLoc
group_locs h sg [] = []
group_locs h sg (ng ∷ ngs) = map (nodeloc sg ng) (members h ng) ++ group_locs h sg ngs

abbrev pub locations : Heap → List Addr → List NodeLoc
locations h [] = []
locations h (sg ∷ sgs) = group_locs h sg (groups_of h sg) ++ locations h sgs

-- the group is there, and `N` holds of its nodes
abbrev pub GroupOk : (Addr → Type 0) → Heap → Addr → Type 0
GroupOk N h ng = (l : List Addr) × (h.ngs ng ≡ some l) × All N l

-- the super group is there with its groups, and `N` holds of their nodes
abbrev pub SgOk : (Addr → Type 0) → Heap → Addr → Type 0
SgOk N h sg = (s : SuperGroup) × (h.sgs sg ≡ some s) × All (GroupOk N h) s.groups

abbrev pub IsNode : Heap → Addr → Type 0
IsNode h p = (p ≢ null) × ((d : NodeDef) × (h.nds p ≡ some d))

-- every super group of the list is there, and so is all that it refers to
abbrev pub LiveSgs : Heap → List Addr → Type 0
LiveSgs h = All (SgOk (IsNode h) h)
