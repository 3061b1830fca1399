-- ===== src/Algo/Combined/Edges.antt =====
-- The edges of the combined graph that `fc_to_combined_mg::build` draws.
use graph_slick.Base.{
  ℕ, suc, ◌≡◌, refl, sym, subst, ◌∙◌, Bool-cases, inl, inr, Bool, true, false, some, List, [], ◌∷◌,
  ◌++◌, ◌==◌, arith, All, ℤ, pos, Text,
}
use mathlib.Core.List.{append-nil}
use graph_slick.OrdMap.{find, addr_ord}
use graph_slick.Heap.{Addr, SuperGroup, NodeLoc, GroupMan, ok}
use graph_slick.Heap.Laws.{load_sg-ok}
use graph_slick.View.{groups_of-eq}
use graph_slick.Groups.{gcount}
use graph_slick.Manager.{find_nodeid_loc}
use graph_slick.Algo.{FlowChart}
use graph_slick.Algo.Combined.{Tables, add_edges, build_nodes, count_groups, build}
use graph_slick.Algo.Combined.Labels.{Numbered, Labelled}
use graph_slick.Algo.Combined.Numbering.{Gives, get_groupid-Gives}
use graph_slick.Algo.Combined.Drawing.{
  group_edges, block_edges, Ready, AllReady, id_in, id_in-Agrees, visited, Draws, Draws-none,
  Draws-append, Draws-same, Draws-edge, group_count, IsCombined,
}

module _ (disasm : ℕ → ℕ → Text) (fc : FlowChart) (show_nids_only : Bool) where
  -- more than ids is shown, and each group with an id has its node
  abbrev Full : GroupMan → Tables → Type 0
  Full w t = show_nids_only ≡ false → Labelled disasm fc w t

  Draws-given :
      (w : GroupMan) (t t' : Tables) (nid : ℤ) (loc : NodeLoc) (i : ℕ)
      → find_nodeid_loc w nid ≡ some loc
      → Gives disasm fc show_nids_only t t' loc.ng i
      → (show_nids_only ≡ false → Labelled disasm fc w t → Labelled disasm fc w t')
      → Draws w (Full w) t t' (nid ∷ []) (λ f. [])
  Draws-given w t t' nid loc i located gives full = record {
    numbered = gives.numbered;
    kept = gives.kept;
    covers = ((loc, i, located, gives.given), tt);
    others = λ q h. gives.others q (h.0 loc located);
    holds = λ l off. full off (l off);
    count = gives.same_count;
    drawn = λ f a. gives.same_edges ∙ sym (append-nil t.edges);
  }

  add_edges-Draws :
      (g : ℕ) (succs : List ℤ) (t : Tables) (w : GroupMan)
      → All (Ready fc w) succs
      → Numbered t.group2id
      → (t' : Tables) × (add_edges disasm fc show_nids_only g t succs w ≡ ok (true, t') w)
        × Draws w (Full w) t t' succs (λ f. group_edges f g succs)
  unfolding add_edges
  add_edges-Draws g [] t w h num = (t, refl, Draws-none w (Full w) t num)
  add_edges-Draws g (s ∷ succs) t w ((loc, located, can), h) num =
      let (i, t1, run, gives, full) =
        get_groupid-Gives disasm fc show_nids_only t s loc w located can num in
      let first = Draws-given w t t1 s loc i located gives full in
      elim (Bool-cases (i == g)) [
        | inl here ↦
            let (t', run', d) = add_edges-Draws g succs t1 w h gives.numbered in
            let both =
              Draws-append w (Full w) t t1 t' (s ∷ []) succs (λ f. []) (λ f. group_edges f g succs)
                first d in
            (
              t',
              rw (run, here) run',
              Draws-same w (Full w) t t' (s ∷ succs) (λ f. group_edges f g succs)
                  (λ f. group_edges f g (s ∷ succs)) both
                  (λ f agrees.
                    let is_i : f s ≡ i = agrees s loc i located (d.kept loc.ng i gives.given) in
                    rw (is_i, here) refl),
            )
        | inr away ↦
            let t2 : Tables = record t1 { edges = t1.edges ++ (g, i) ∷ [] } in
            let (t', run', d) = add_edges-Draws g succs t2 w h gives.numbered in
            let both =
              Draws-append w (Full w) t t1 t' (s ∷ []) succs (λ f. [])
                (λ f. (g, i) ∷ group_edges f g succs) first
                (Draws-append w (Full w) t1 t2 t' [] succs (λ f. (g, i) ∷ [])
                  (λ f. group_edges f g succs)
                  (Draws-edge w (Full w) t1 (g, i) gives.numbered (λ l. l)) d) in
            (
              t',
              rw (run, away) run',
              Draws-same w (Full w) t t' (s ∷ succs) (λ f. (g, i) ∷ group_edges f g succs)
                  (λ f. group_edges f g (s ∷ succs)) both
                  (λ f agrees.
                    let is_i : f s ≡ i = agrees s loc i located (d.kept loc.ng i gives.given) in
                    rw (is_i, away) refl),
            )
      ]

  build_nodes-Draws :
      (n : ℕ) (bs : FlowChart) (t : Tables) (w : GroupMan)
      → AllReady fc w n bs
      → Numbered t.group2id
      → (t' : Tables) × (build_nodes disasm fc show_nids_only n t bs w ≡ ok (true, t') w)
        × Draws w (Full w) t t' (visited n bs) (λ f. block_edges f n bs)
  unfolding build_nodes
  build_nodes-Draws n [] t w h num = (t, refl, Draws-none w (Full w) t num)
  build_nodes-Draws n (b ∷ bs) t w ((loc, located, can), succs, h) num =
      let (i, t1, run, gives, full) =
        get_groupid-Gives disasm fc show_nids_only t (pos n) loc w located can num in
      let (t2, run2, d2) = add_edges-Draws i b.succs t1 w succs gives.numbered in
      let (t', run', d') = build_nodes-Draws (suc n) bs t2 w h d2.numbered in
      let later =
        Draws-append w (Full w) t1 t2 t' b.succs (visited (suc n) bs) (λ f. group_edges f i b.succs)
          (λ f. block_edges f (suc n) bs) d2 d' in
      let es = λ (f : ℤ → ℕ). group_edges f i b.succs ++ block_edges f (suc n) bs in
      let both =
        Draws-append w (Full w) t t1 t' (pos n ∷ []) (b.succs ++ visited (suc n) bs) (λ f. []) es
          (Draws-given w t t1 (pos n) loc i located gives full) later in
      (
        t',
        rw (run, run2) run',
        Draws-same w (Full w) t t' (visited n (b ∷ bs)) es (λ f. block_edges f n (b ∷ bs)) both
            (λ f agrees.
              let is_i : f (pos n) ≡ i =
                agrees (pos n) loc i located (later.kept loc.ng i gives.given) in
              rw is_i refl),
      )

  count_groups-count :
      (sgs : List Addr) (w : GroupMan)
      → All (λ sg. (s : SuperGroup) × (w.sgs sg ≡ some s)) sgs
      → count_groups disasm fc show_nids_only sgs w ≡ ok (group_count w.heap sgs) w
  unfolding count_groups gcount
  count_groups-count [] w h = refl
  count_groups-count (sg ∷ sgs) w ((s, e), h) =
      rw (load_sg-ok w sg e, count_groups-count sgs w h, groups_of-eq w.heap sg e) refl

  -- Where the lookups locate every block and every successor, in groups that are there and whose
  -- nodes lie in the flowchart, and the path super groups are there, build from an empty table of ids
  -- does not fault and returns true. The groups of the blocks and of the successors then have ids in
  -- the table, and no other group has one; the ids are distinct and below their number. Where more
  -- than ids is shown, each of these groups has a node at its id: the disassembly of its blocks as
  -- hint, and as text the name of its super group between empty lines, or the hint where the group
  -- has at most one node. The graph has got the number of groups of the path as its number of nodes,
  -- and exactly these edges: block by block, in the order of the successors, one from the id of the
  -- block's group to the id of the successor's group where the groups differ.
  pub build-Draws :
      (t : Tables) (w : GroupMan)
      → All (λ sg. (s : SuperGroup) × (w.sgs sg ≡ some s)) w.path_sgl
      → AllReady fc w 0 fc
      → t.group2id ≡ []
      → (t' : Tables) × (build disasm fc show_nids_only t w ≡ ok (true, t') w)
        × IsCombined disasm fc show_nids_only w t t'
  unfolding build find
  build-Draws t w live h fresh =
      let t0 : Tables = record t { node_count = group_count w.heap w.path_sgl } in
      let none_yet : Numbered t.group2id = subst Numbered (sym fresh) (record {
        bounded = λ ng n e. ground (arith, e);
        distinct = λ a b n e e'. ground (arith, e);
      }) in
      let never : (q : Addr) (i : ℕ) → find q t.group2id ≡ some i → ⊥ =
        λ q i e. ground (arith, e, fresh) in
      let (t', run, d) = build_nodes-Draws 0 fc t0 w h none_yet in
      (
        t',
        rw (count_groups-count w.path_sgl w live, run) refl,
        record {
          numbered = d.numbered;
          covers = d.covers;
          others = λ q h. d.others q h ∙ rw fresh refl;
          labelled = d.holds (λ off q i e. absurd (never q i e));
          count = d.count;
          drawn = d.drawn (id_in w t'.group2id) (id_in-Agrees w t'.group2id);
        },
      )
