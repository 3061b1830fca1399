-- ===== src/Algo/Combined/Numbering.antt =====
-- The group ids that `fc_to_combined_mg::get_groupid` hands out.
use graph_slick.Base.{
  ℕ, suc, ◌-◌, ◌≡◌, ◌≢◌, refl, sym, ap, ◌∙◌, Option-cases, Bool-cases, inl, inr, Bool, false, none,
  some, List, [], ◌∷◌, ◌++◌, codes, arith, length, if◌then◌else◌, ltb, All, ℤ, Text, show_int,
}
use mathlib.Core.List.{append_assoc, append-nil}
use graph_slick.OrdMap.{Map, find, insert, int_ord, addr_ord}
use graph_slick.OrdMap.Laws.{find-insert, same_iff, same_refl}
use graph_slick.Heap.{Addr, NodeDef, SuperGroup, NodeLoc, GroupMan, ok, pure}
use graph_slick.Heap.Laws.{load_nd-ok, load_ng-ok, load_sg-ok}
use graph_slick.View.{members-eq, nid_at-eq}
use graph_slick.Groups.{get_display_name}
use graph_slick.Manager.{find_nodeid_loc}
use graph_slick.Algo.{Block, FlowChart, block_at}
use graph_slick.Algo.Combined.{
  GNode, Tables, node_texts, label, new_groupid, groupid_at, get_groupid,
}
use graph_slick.Algo.Combined.Labels.{
  Numbered, blocks_text, name_at-eq, group_gnode, Labelled, insert-Labelled,
}

-- the id's location, with all that a label reads
abbrev pub Drawable : FlowChart → GroupMan → NodeLoc → Type 0
Drawable fc w loc =
    (nds : List Addr) × (s : SuperGroup) × (w.ngs loc.ng ≡ some nds)
    × (w.sgs loc.sg ≡ some s)
    × All (λ p. (d : NodeDef) × (b : Block) × (w.nds p ≡ some d) × (block_at fc d.nid ≡ some b)) nds

length-insert :
    (k : Addr) (n : ℕ) (m : Map Addr ℕ) → find k m ≡ none → length (insert k n m) ≡ suc (length m)
unfolding find insert
length-insert k n [] e = refl
length-insert k n ((j, w) ∷ m) e = ground (arith, e, length-insert k n m)

insert-Numbered :
    (k : Addr) (m : Map Addr ℕ) → find k m ≡ none → Numbered m → Numbered (insert k (length m) m)
insert-Numbered k m e h = record {
  bounded = λ ng n got.
      let longer = length-insert k (length m) m e in
      let found = sym (find-insert ng k (length m) m) ∙ got in
      ground (arith, longer, found, h.bounded ng n);
  distinct = λ a b n fa fb.
      let at_a = sym (find-insert a k (length m) m) ∙ fa in
      let at_b = sym (find-insert b k (length m) m) ∙ fb in
      ground (
        arith,
        at_a,
        at_b,
        h.distinct a b n,
        h.bounded a n,
        h.bounded b n,
        same_iff a k,
        same_iff b k,
      );
}

module _ (disasm : ℕ → ℕ → Text) (fc : FlowChart) (show_nids_only : Bool) where
  node_texts-returns :
      (nds : List Addr) (t : ℕ) (gn : GNode) (w : GroupMan)
      → All
          (λ p. (d : NodeDef) × (b : Block) × (w.nds p ≡ some d) × (block_at fc d.nid ≡ some b))
          nds
      → (gn' : GNode) × (node_texts disasm fc show_nids_only t nds gn w ≡ ok gn' w)
        × (show_nids_only ≡ false
            → gn' ≡ record gn { hint = gn.hint ++ blocks_text disasm fc w.heap nds })
  unfolding node_texts blocks_text
  node_texts-returns [] t gn w h =
      (gn, refl, λ off. ap (λ (l : Text). record gn { hint = l }) (sym (append-nil gn.hint)))
  node_texts-returns (p ∷ nds) t gn w ((d, b, e, at_block), h) =
      let left = if show_nids_only then t - 1 else t in
      let sep = if ltb 0 (t - 1) then codes ", " else [] in
      let gn1 : GNode = record gn {
        text = if show_nids_only then gn.text ++ show_int d.nid ++ sep else gn.text;
        hint = gn.hint ++ disasm b.start b.end;
      } in
      let (gn', run, full) = node_texts-returns nds left gn1 w h in
      (
        gn',
        rw (load_nd-ok w p e, at_block) run,
        λ off.
            full off
            ∙ rw (off, nid_at-eq w.heap p e, at_block)
                (ap (λ (l : Text). record gn { hint = l })
                  (append_assoc gn.hint (disasm b.start b.end) (blocks_text disasm fc w.heap nds))),
      )

  label-returns :
      (loc : NodeLoc) (nds : List Addr) (s : SuperGroup) (gn : GNode) (w : GroupMan)
      → w.sgs loc.sg ≡ some s
      → (gn' : GNode) × ((if show_nids_only
              then pure gn
              else label disasm fc show_nids_only loc nds gn)
            w
          ≡ ok gn' w)
        × (show_nids_only ≡ false
            → gn' ≡ (record gn {
              text =
                  if ltb 1 (length nds)
                  then gn.text ++ codes "\n\n\n" ++ get_display_name s [] ++ codes "\n\n\n"
                  else gn.hint;
            }))
  unfolding label
  label-returns loc nds s gn w host = elim (Bool-cases show_nids_only) [
    | inl only ↦ (gn, rw only refl, λ off. cc)
    | inr full ↦ elim (Bool-cases (ltb 1 (length nds))) [
      | inl many ↦ (
        record gn { text = gn.text ++ codes "\n\n\n" ++ get_display_name s [] ++ codes "\n\n\n" },
        rw (full, many, load_sg-ok w loc.sg host) refl,
        λ off. rw many refl,
      )
      | inr one ↦ (record gn { text = gn.hint }, rw (full, one) refl, λ off. rw one refl)
    ]
  ]

  -- the id, and the tables behind
  pub record Gives (t t' : Tables) (ng : Addr) (n : ℕ) : Type 0 where
    pub given : find ng t'.group2id ≡ some n
    pub numbered : Numbered t'.group2id
    pub kept : (q : Addr) (i : ℕ) → find q t.group2id ≡ some i → find q t'.group2id ≡ some i
    pub others : (q : Addr) → q ≢ ng → find q t'.group2id ≡ find q t.group2id
    pub same_edges : t'.edges ≡ t.edges
    pub same_count : t'.node_count ≡ t.node_count

  -- For a node that the lookups locate, in a group whose nodes are there and lie in the flowchart and
  -- whose super group is there, get_groupid does not fault and answers with the id of the node's
  -- group. Ids stay distinct and below their number, the ids of other groups, the edges and the
  -- number of nodes do not change. Where more than ids is shown and each group with an id had its
  -- node, with the group's hint and text, so has each behind, the group of the node too.
  pub get_groupid-Gives :
      (t : Tables) (nid : ℤ) (loc : NodeLoc) (w : GroupMan)
      → find_nodeid_loc w nid ≡ some loc
      → Drawable fc w loc
      → Numbered t.group2id
      → (n : ℕ) × (t' : Tables) × (get_groupid disasm fc show_nids_only t nid w ≡ ok (some n, t') w)
        × Gives t t' loc.ng n
        × (show_nids_only ≡ false → Labelled disasm fc w t → Labelled disasm fc w t')
  unfolding get_groupid new_groupid group_gnode
  get_groupid-Gives t nid loc w located (nds, s, group, host, nodes) h =
      elim (Option-cases (find loc.ng t.group2id)) [
        | inr (n, known) ↦ (
          n,
          t,
          rw (located, groupid_at, known) refl,
          record {
            given = known;
            numbered = h;
            kept = λ q i e. e;
            others = λ q ne. refl;
            same_edges = refl;
            same_count = refl;
          },
          λ off l. l,
        )
        | inl new ↦
            let (gn, run, texts) =
              node_texts-returns nds (length nds)
                (record { id = length t.group2id; text = []; hint = [] }) w nodes in
            let (labelled, named, full) = label-returns loc nds s gn w host in
            let t' : Tables = record t {
              group2id = insert loc.ng (length t.group2id) t.group2id;
              node_map = insert (length t.group2id) labelled t.node_map;
            } in
            (
              length t.group2id,
              t',
              rw (located, groupid_at, new, load_ng-ok w loc.ng group, run, named) refl,
              record {
                given =
                    rw (find-insert loc.ng loc.ng (length t.group2id) t.group2id, same_refl loc.ng)
                      refl;
                numbered = insert-Numbered loc.ng t.group2id new h;
                kept = λ q i e. rw (find-insert q loc.ng (length t.group2id) t.group2id) (
                    ground
                      (arith, e, new, same_iff q loc.ng, ap (λ (x : Addr). find x t.group2id)));
                others = λ q ne.
                    rw (find-insert q loc.ng (length t.group2id) t.group2id)
                      (ground (arith, ne, same_iff q loc.ng));
                same_edges = refl;
                same_count = refl;
              },
              λ off. insert-Labelled disasm fc w t nid loc labelled located h (
                  full off
                  ∙ rw
                      (
                        texts off,
                        group_gnode,
                        members-eq w.heap loc.ng group,
                        name_at-eq w.heap loc.sg host,
                      )
                      refl),
            )
      ]
