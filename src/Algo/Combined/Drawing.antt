-- ===== src/Algo/Combined/Drawing.antt =====
-- The edges of a combined graph, and what it means for a loop of the build to draw them.
use graph_slick.Base.{
  ℕ, suc, ◌+◌, ◌≡◌, ◌≢◌, refl, sym, ap, ◌∙◌, Option, none, some, List, [], ◌∷◌, ◌++◌, ◌==◌,
  if◌then◌else◌, All, All-append, All-split, All-mono, length, ℤ, pos, Text, Bool, false,
}
use mathlib.Core.List.{append_assoc, append-nil}
use graph_slick.OrdMap.{Map, find, addr_ord}
use graph_slick.Heap.{Addr, NodeLoc, Heap, GroupMan}
use graph_slick.View.{groups_of}
use graph_slick.Manager.{find_nodeid_loc}
use graph_slick.Algo.{FlowChart}
use graph_slick.Algo.Combined.{Edge, Tables}
use graph_slick.Algo.Combined.Labels.{Numbered, Labelled}
use graph_slick.Algo.Combined.Numbering.{Drawable}

-- One edge to the group of each successor in another group.
abbrev pub group_edges : (ℤ → ℕ) → ℕ → List ℤ → List Edge
group_edges f g [] = []
group_edges f g (s ∷ succs) =
    if f s == g then group_edges f g succs else (g, f s) ∷ group_edges f g succs

abbrev pub block_edges : (ℤ → ℕ) → ℕ → FlowChart → List Edge
block_edges f n [] = []
block_edges f n (b ∷ bs) = group_edges f (f (pos n)) b.succs ++ block_edges f (suc n) bs

-- the id is located, and its group can be drawn
abbrev pub Ready : FlowChart → GroupMan → ℤ → Type 0
Ready fc w nid = (loc : NodeLoc) × (find_nodeid_loc w nid ≡ some loc) × Drawable fc w loc

-- every block from number `n` on is ready, and so are its successors
abbrev pub AllReady : FlowChart → GroupMan → ℕ → FlowChart → Type 0
AllReady fc w n [] = Unit
AllReady fc w n (b ∷ bs) = Ready fc w (pos n) × All (Ready fc w) b.succs × AllReady fc w (suc n) bs

-- `f` gives each node the id of its group in the map
abbrev pub Agrees : GroupMan → (ℤ → ℕ) → Map Addr ℕ → Type 0
Agrees w f m =
    (nid : ℤ) (loc : NodeLoc) (i : ℕ)
    → find_nodeid_loc w nid ≡ some loc
    → find loc.ng m ≡ some i
    → f nid ≡ i

abbrev or_zero : Option ℕ → ℕ
or_zero none = 0
or_zero (some i) = i

-- the id of a node's group; 0 for a node or a group that has none
abbrev pub id_at : Map Addr ℕ → Option NodeLoc → ℕ
id_at m none = 0
id_at m (some loc) = or_zero (find loc.ng m)

unfoldable pub id_in : GroupMan → Map Addr ℕ → ℤ → ℕ
id_in w m nid = id_at m (find_nodeid_loc w nid)

pub id_in-Agrees : (w : GroupMan) (m : Map Addr ℕ) → Agrees w (id_in w m) m
unfolding id_in
id_in-Agrees w m nid loc i located got = rw (located, id_at, got) refl

-- the ids that the loops ask a group for: each block from number `n` on, then its successors
abbrev pub visited : ℕ → FlowChart → List ℤ
visited n [] = []
visited n (b ∷ bs) = pos n ∷ (b.succs ++ visited (suc n) bs)

-- the id is located, and its group has a number in the map
abbrev pub HasGroupId : GroupMan → Map Addr ℕ → ℤ → Type 0
HasGroupId w m nid =
    (loc : NodeLoc) × (i : ℕ) × (find_nodeid_loc w nid ≡ some loc) × (find loc.ng m ≡ some i)

-- `q` is not the group of the node
abbrev pub LiesOutside : GroupMan → Addr → ℤ → Type 0
LiesOutside w q nid = (loc : NodeLoc) → find_nodeid_loc w nid ≡ some loc → q ≢ loc.ng

abbrev Grows : Map Addr ℕ → Map Addr ℕ → Type 0
Grows m m' = (q : Addr) (i : ℕ) → find q m ≡ some i → find q m' ≡ some i

HasGroupId-Grows :
    (w : GroupMan) (m m' : Map Addr ℕ) (nids : List ℤ)
    → Grows m m'
    → All (HasGroupId w m) nids
    → All (HasGroupId w m') nids
HasGroupId-Grows w m m' nids grows =
    All-mono (HasGroupId w m) (HasGroupId w m') nids
      (λ nid (loc, i, located, got). (loc, i, located, grows loc.ng i got))

-- What a loop that asks for the groups of `nids` does: it draws the edges `es`, and keeps `P`.
pub record Draws (w : GroupMan) (P : Tables → Type 0) (t t' : Tables) (nids : List ℤ)
    (es : (ℤ → ℕ) → List Edge) : Type 0 where
  pub numbered : Numbered t'.group2id
  pub kept : Grows t.group2id t'.group2id
  pub covers : All (HasGroupId w t'.group2id) nids
  pub others : (q : Addr) → All (LiesOutside w q) nids → find q t'.group2id ≡ find q t.group2id
  pub holds : P t → P t'
  pub count : t'.node_count ≡ t.node_count
  pub drawn : (f : ℤ → ℕ) → Agrees w f t'.group2id → t'.edges ≡ t.edges ++ es f

pub Draws-none :
    (w : GroupMan) (P : Tables → Type 0) (t : Tables)
    → Numbered t.group2id
    → Draws w P t t [] (λ f. [])
Draws-none w P t num = record {
  numbered = num;
  kept = λ q i e. e;
  covers = tt;
  others = λ q h. refl;
  holds = λ h. h;
  count = refl;
  drawn = λ f a. sym (append-nil t.edges);
}

pub Draws-append :
    (w : GroupMan) (P : Tables → Type 0) (t u v : Tables) (ms ns : List ℤ)
    (es fs : (ℤ → ℕ) → List Edge)
    → Draws w P t u ms es
    → Draws w P u v ns fs
    → Draws w P t v (ms ++ ns) (λ f. es f ++ fs f)
Draws-append w P t u v ms ns es fs a b = record {
  numbered = b.numbered;
  kept = λ q i e. b.kept q i (a.kept q i e);
  covers =
      All-append (HasGroupId w v.group2id) ms ns
        (HasGroupId-Grows w u.group2id v.group2id ms b.kept a.covers) b.covers;
  others = λ q h.
      let (front, back) = All-split (LiesOutside w q) ms ns h in b.others q back ∙ a.others q front;
  holds = λ h. b.holds (a.holds h);
  count = b.count ∙ a.count;
  drawn = λ f agrees.
      b.drawn f agrees
      ∙ ap (λ (l : List Edge). l ++ fs f)
          (a.drawn f (λ nid loc i e got. agrees nid loc i e (b.kept loc.ng i got)))
      ∙ append_assoc t.edges (es f) (fs f);
}

pub Draws-same :
    (w : GroupMan) (P : Tables → Type 0) (t t' : Tables) (nids : List ℤ)
    (es fs : (ℤ → ℕ) → List Edge)
    → Draws w P t t' nids es
    → ((f : ℤ → ℕ) → Agrees w f t'.group2id → es f ≡ fs f)
    → Draws w P t t' nids fs
Draws-same w P t t' nids es fs d same = record {
  numbered = d.numbered;
  kept = d.kept;
  covers = d.covers;
  others = d.others;
  holds = d.holds;
  count = d.count;
  drawn = λ f agrees. d.drawn f agrees ∙ ap (λ (l : List Edge). t.edges ++ l) (same f agrees);
}

pub Draws-edge :
    (w : GroupMan) (P : Tables → Type 0) (t : Tables) (e : Edge)
    → Numbered t.group2id
    → (P t → P (record t { edges = t.edges ++ e ∷ [] }))
    → Draws w P t (record t { edges = t.edges ++ e ∷ [] }) [] (λ f. e ∷ [])
Draws-edge w P t e num same = record {
  numbered = num;
  kept = λ q i e. e;
  covers = tt;
  others = λ q h. refl;
  holds = same;
  count = refl;
  drawn = λ f a. refl;
}

-- the number of groups of the super groups
abbrev pub group_count : Heap → List Addr → ℕ
group_count h [] = 0
group_count h (sg ∷ sgs) = length (groups_of h sg) + group_count h sgs

-- What `build` leaves, from an empty table of ids on: the groups of the blocks and of their
-- successors have ids, and no others.
pub record IsCombined (disasm : ℕ → ℕ → Text) (fc : FlowChart) (show_nids_only : Bool)
    (w : GroupMan) (t t' : Tables) : Type 0 where
  pub numbered : Numbered t'.group2id
  pub covers : All (HasGroupId w t'.group2id) (visited 0 fc)
  pub others : (q : Addr) → All (LiesOutside w q) (visited 0 fc) → find q t'.group2id ≡ none
  pub labelled : show_nids_only ≡ false → Labelled disasm fc w t'
  pub count : t'.node_count ≡ group_count w.heap w.path_sgl
  pub drawn : t'.edges ≡ t.edges ++ block_edges (id_in w t'.group2id) 0 fc
