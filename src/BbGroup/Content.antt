-- ===== src/BbGroup/Content.antt =====
-- What a list of super groups says, without its addresses, and the text that `emit_sgl` makes of it.
use graph_slick.Base.{
  ℤ, ◌<◌, ◌≤◌, arith, ◌≡◌, ◌≢◌, refl, ◌∙◌, List, [], ◌∷◌, ◌++◌, some, Text, codes,
}
use graph_slick.Heap.{Addr, null, NodeDef, SuperGroup, Heap, GroupMan, ok}
use graph_slick.Heap.Laws.{load_nd-ok, load_ng-ok, load_sg-ok}
use graph_slick.BbGroup.{Sdk}
use graph_slick.BbGroup.Emit.{emit_field, emit_nodes, emit_groups, emit_nodeset, emit_sgl}

-- a super group as a value
pub record Content : Type 0 where
  pub id : Text
  pub name : Text
  pub groups : List (List NodeDef)

-- The addresses hold the values, and lie below the next fresh one.
-- the ids of the nodes
abbrev pub node_ids : List NodeDef → List ℤ
node_ids [] = []
node_ids (d ∷ ds) = d.nid ∷ node_ids ds

abbrev pub group_ids : List (List NodeDef) → List ℤ
group_ids [] = []
group_ids (ds ∷ dss) = node_ids ds ++ group_ids dss

abbrev pub content_ids : List Content → List ℤ
content_ids [] = []
content_ids (c ∷ cs) = group_ids c.groups ++ content_ids cs

abbrev pub ShowsNodes : Heap → List Addr → List NodeDef → Type 0
ShowsNodes h [] [] = Unit
ShowsNodes h [] (_ ∷ _) = ⊥
ShowsNodes h (_ ∷ _) [] = ⊥
ShowsNodes h (p ∷ ps) (d ∷ ds) = (p ≢ null) × (p < h.next) × (h.nds p ≡ some d) × ShowsNodes h ps ds

abbrev pub ShowsGroup : Heap → Addr → List NodeDef → Type 0
ShowsGroup h g ds = (ps : List Addr) × (g < h.next) × (h.ngs g ≡ some ps) × ShowsNodes h ps ds

abbrev pub ShowsGroups : Heap → List Addr → List (List NodeDef) → Type 0
ShowsGroups h [] [] = Unit
ShowsGroups h [] (_ ∷ _) = ⊥
ShowsGroups h (_ ∷ _) [] = ⊥
ShowsGroups h (g ∷ gs) (ds ∷ dss) = ShowsGroup h g ds × ShowsGroups h gs dss

abbrev pub ShowsSg : Heap → Addr → Content → Type 0
ShowsSg h sg c =
    (s : SuperGroup) × (sg < h.next)
    × (h.sgs sg ≡ some s)
    × (s.id ≡ c.id)
    × (s.name ≡ c.name)
    × ShowsGroups h s.groups c.groups

abbrev pub Shows : Heap → List Addr → List Content → Type 0
Shows h [] [] = Unit
Shows h [] (_ ∷ _) = ⊥
Shows h (_ ∷ _) [] = ⊥
Shows h (sg ∷ sgs) (c ∷ cs) = ShowsSg h sg c × Shows h sgs cs

-- the nodes and groups of a heap are all in the other, too
pub record Keeps (h h' : Heap) : Type 0 where
  pub nds_kept : (q : Addr) → q < h.next → h'.nds q ≡ h.nds q
  pub ngs_kept : (q : Addr) → q < h.next → h'.ngs q ≡ h.ngs q
  pub grows : h.next ≤ h'.next

ShowsNodes-Keeps :
    (h h' : Heap) (ps : List Addr) (ds : List NodeDef)
    → Keeps h h'
    → ShowsNodes h ps ds
    → ShowsNodes h' ps ds
ShowsNodes-Keeps h h' [] [] k s = tt
ShowsNodes-Keeps h h' [] (_ ∷ _) k s = absurd s
ShowsNodes-Keeps h h' (_ ∷ _) [] k s = absurd s
ShowsNodes-Keeps h h' (p ∷ ps) (d ∷ ds) k (real, below, e, s) =
    (real, omega (arith, below, k.grows), k.nds_kept p below ∙ e, ShowsNodes-Keeps h h' ps ds k s)

pub ShowsGroup-Keeps :
    (h h' : Heap) (g : Addr) (ds : List NodeDef)
    → Keeps h h'
    → ShowsGroup h g ds
    → ShowsGroup h' g ds
ShowsGroup-Keeps h h' g ds k (ps, below, e, s) =
    (ps, omega (arith, below, k.grows), k.ngs_kept g below ∙ e, ShowsNodes-Keeps h h' ps ds k s)

ShowsGroups-Keeps :
    (h h' : Heap) (gs : List Addr) (dss : List (List NodeDef))
    → Keeps h h'
    → ShowsGroups h gs dss
    → ShowsGroups h' gs dss
ShowsGroups-Keeps h h' [] [] k s = tt
ShowsGroups-Keeps h h' [] (_ ∷ _) k s = absurd s
ShowsGroups-Keeps h h' (_ ∷ _) [] k s = absurd s
ShowsGroups-Keeps h h' (g ∷ gs) (ds ∷ dss) k (s, more) =
    (ShowsGroup-Keeps h h' g ds k s, ShowsGroups-Keeps h h' gs dss k more)

pub ShowsSg-Keeps :
    (h h' : Heap) (sg : Addr) (c : Content)
    → Keeps h h'
    → (sg < h.next → h'.sgs sg ≡ h.sgs sg)
    → ShowsSg h sg c
    → ShowsSg h' sg c
ShowsSg-Keeps h h' sg c k same (s, below, e, at_id, at_name, shows) = (
  s,
  omega (arith, below, k.grows),
  same below ∙ e,
  at_id,
  at_name,
  ShowsGroups-Keeps h h' s.groups c.groups k shows,
)

pub Shows-Keeps :
    (h h' : Heap) (sgs : List Addr) (cs : List Content)
    → Keeps h h'
    → ((q : Addr) → q < h.next → h'.sgs q ≡ h.sgs q)
    → Shows h sgs cs
    → Shows h' sgs cs
Shows-Keeps h h' [] [] k same s = tt
Shows-Keeps h h' [] (_ ∷ _) k same s = absurd s
Shows-Keeps h h' (_ ∷ _) [] k same s = absurd s
Shows-Keeps h h' (sg ∷ sgs) (c ∷ cs) k same (s, more) =
    (ShowsSg-Keeps h h' sg c k (same sg) s, Shows-Keeps h h' sgs cs k same more)

module _ (sdk : Sdk) where
  abbrev pub sep {ℓ} : {A : Type ℓ} → List A → Text
  sep [] = []
  sep (_ ∷ _) = codes ", "

  abbrev pub nodes_text : List NodeDef → Text
  nodes_text [] = []
  nodes_text (d ∷ ds) = sdk.show_node d.nid d.start d.end ++ (sep ds ++ nodes_text ds)

  abbrev pub groups_text : List (List NodeDef) → Text
  groups_text [] = []
  groups_text (ds ∷ dss) = b'(' ∷ (nodes_text ds ++ b')' ∷ (sep dss ++ groups_text dss))

  abbrev pub nodeset_text : List (List NodeDef) → Text
  nodeset_text [] = []
  nodeset_text (ds ∷ dss) = codes "NODESET" ++ b':' ∷ groups_text (ds ∷ dss)

  abbrev pub row_text : Content → Text
  row_text c =
      emit_field sdk (codes "ID") c.id
      ++ (emit_field sdk (codes "GROUPNAME") c.name ++ nodeset_text c.groups)

  abbrev pub rows_text : List Content → Text
  rows_text [] = []
  rows_text (c ∷ cs) =
      emit_field sdk (codes "ID") c.id
      ++ (emit_field sdk (codes "GROUPNAME") c.name
          ++ (nodeset_text c.groups ++ b'\n' ∷ rows_text cs))

  emit_nodes-text :
      (w : GroupMan) (ps : List Addr) (ds : List NodeDef)
      → ShowsNodes w.heap ps ds
      → emit_nodes sdk ps w ≡ ok (nodes_text ds) w
  unfolding emit_nodes
  emit_nodes-text w [] [] h = refl
  emit_nodes-text w [] (_ ∷ _) h = absurd h
  emit_nodes-text w (_ ∷ _) [] h = absurd h
  emit_nodes-text w (p ∷ []) (d ∷ []) (_, _, e, h) = rw (load_nd-ok w p e) refl
  emit_nodes-text w (p ∷ []) (d ∷ _ ∷ _) (_, _, _, h) = absurd h
  emit_nodes-text w (p ∷ _ ∷ _) (d ∷ []) (_, _, _, h) = absurd h
  emit_nodes-text w (p ∷ q ∷ ps) (d ∷ c ∷ ds) (_, _, e, h) =
      rw (load_nd-ok w p e, emit_nodes-text w (q ∷ ps) (c ∷ ds) h) refl

  emit_groups-text :
      (w : GroupMan) (gs : List Addr) (dss : List (List NodeDef))
      → ShowsGroups w.heap gs dss
      → emit_groups sdk gs w ≡ ok (groups_text dss) w
  unfolding emit_groups
  emit_groups-text w [] [] h = refl
  emit_groups-text w [] (_ ∷ _) h = absurd h
  emit_groups-text w (_ ∷ _) [] h = absurd h
  emit_groups-text w (g ∷ []) (ds ∷ []) ((ps, _, e, k), h) =
      rw (load_ng-ok w g e, emit_nodes-text w ps ds k) refl
  emit_groups-text w (g ∷ []) (ds ∷ _ ∷ _) (_, h) = absurd h
  emit_groups-text w (g ∷ _ ∷ _) (ds ∷ []) (_, h) = absurd h
  emit_groups-text w (g ∷ f ∷ gs) (ds ∷ es ∷ dss) ((ps, _, e, k), h) =
      rw (load_ng-ok w g e, emit_nodes-text w ps ds k, emit_groups-text w (f ∷ gs) (es ∷ dss) h)
        refl

  emit_nodeset-text :
      (w : GroupMan) (gs : List Addr) (dss : List (List NodeDef))
      → ShowsGroups w.heap gs dss
      → emit_nodeset sdk gs w ≡ ok (nodeset_text dss) w
  emit_nodeset-text w [] [] h = refl
  emit_nodeset-text w [] (_ ∷ _) h = absurd h
  emit_nodeset-text w (_ ∷ _) [] h = absurd h
  emit_nodeset-text w (g ∷ gs) (ds ∷ dss) h = rw (emit_groups-text w (g ∷ gs) (ds ∷ dss) h) refl

  pub emit_sgl-text :
      (w : GroupMan) (sgs : List Addr) (cs : List Content)
      → Shows w.heap sgs cs
      → emit_sgl sdk sgs w ≡ ok (rows_text cs) w
  unfolding emit_sgl
  emit_sgl-text w [] [] h = refl
  emit_sgl-text w [] (_ ∷ _) h = absurd h
  emit_sgl-text w (_ ∷ _) [] h = absurd h
  emit_sgl-text w (sg ∷ sgs) (c ∷ cs) ((s, _, e, at_id, at_name, k), h) =
      rw
        (
          load_sg-ok w sg e,
          emit_nodeset-text w s.groups c.groups k,
          emit_sgl-text w sgs cs h,
          at_id,
          at_name,
        )
        refl
