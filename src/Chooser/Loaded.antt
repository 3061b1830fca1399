-- ===== src/Chooser/Loaded.antt =====
-- Loading a file that was written: parsing, completing by the blocks of the function, and the
-- lookups, as `load_file` composes them.
use graph_slick.Base.{
  ℤ, ℕ, ◌<◌, ◌≡◌, refl, sym, subst, true, false, some, none, List, [], ◌∷◌, ◌++◌, All, arith, Text,
  ◌==◌,
}
use graph_slick.OrdMap.{find, int_ord}
use graph_slick.Manager.Known.{is_some, mem_id}
use graph_slick.Algo.Unmentioned.{unmentioned, missing-unmentioned}
use graph_slick.Heap.{Addr, null, NodeDef, GroupMan, ok}
use graph_slick.Heap.Laws.{load_nd-ok}
use graph_slick.View.{locations}
use graph_slick.Manager.{find_nodeid_loc}
use graph_slick.Manager.Lookups.{
  index, with_index, last_with, find_nodeid_loc-index, initialize_lookups-index,
}
use graph_slick.BbGroup.Content.{Content, Keeps, Shows, Shows-Keeps, content_ids}
use graph_slick.BbGroup.Laws.{SdkLaws, Printable}
use graph_slick.BbGroup.RoundTrip.{printed, parse-emit, clear-empty}
use graph_slick.Algo.{FlowChart}
use graph_slick.Algo.Orphans.{missing}
use graph_slick.Algo.Sanitized.{sanitize_groupman-Sanitized}
use graph_slick.Util.{get_func_flowchart}
use graph_slick.Chooser.{Chooser}
use graph_slick.Chooser.Files.{Host, new_man, get_flowchart, load_file, save_file, take_over}
use graph_slick.Chooser.Shown.{
  Orphans, Shows-LiveSgs, Placed-LiveSgs, populate_chooser_lines-LiveSgs, get_first_nd-LeadsTo,
  Shows-used,
}

-- the manager shows the contents: the path ones at the head of its path, and behind them the blocks
-- of the flowchart that the contents do not mention, in one super group where there are any; an id
-- leads to the last place of the path whose node has it
abbrev pub Loaded : FlowChart → GroupMan → List Content → List Content → Type 0
Loaded fc w cs ds =
    (ps : List Addr) × (more : List Addr) × (w.path_sgl ≡ ps ++ more)
    × Orphans w.heap more (unmentioned (content_ids cs ++ content_ids ds) 0 fc)
    × Shows w.heap ps cs
    × Shows w.heap w.similar_sgl ds
    × ((nid : ℤ) → find_nodeid_loc w nid ≡ last_with w.heap nid (locations w.heap w.path_sgl))

module _ (host : Host) (laws : SdkLaws host.sdk) where
  take_over-Loaded :
      (ngm : GroupMan) (c : Chooser) (w : GroupMan) (cs ds : List Content)
      → w.path_sgl ≡ []
      → w.similar_sgl ≡ []
      → 0 < ngm.next
      → Shows ngm.heap ngm.path_sgl cs
      → Shows ngm.heap ngm.similar_sgl ds
      → ((k : ℤ) → is_some (find k ngm.all_nodes) ≡ mem_id k (content_ids cs ++ content_ids ds))
      → (c' : Chooser) × (w' : GroupMan) × (take_over host ngm true c (record w { heap = ngm.heap })
          ≡ ok (true, c') w')
        × (c'.func_fc ≡ c.func_fc)
        × Loaded c.func_fc w' cs ds
  take_over-Loaded ngm c w cs ds no_path no_similar used s t known =
      let (n1, run1, z) = sanitize_groupman-Sanitized (λ _. none) 0 c.func_fc ngm used in
      let keeps : Keeps ngm.heap n1.heap = record {
        nds_kept = z.old_nds;
        ngs_kept = z.old_ngs;
        grows = z.grows;
      } in
      let s1 = Shows-Keeps ngm.heap n1.heap ngm.path_sgl cs keeps z.old_sgs s in
      let t1 = Shows-Keeps ngm.heap n1.heap ngm.similar_sgl ds keeps z.old_sgs t in
      let (more, path_is, orphans, live) =
        Placed-LiveSgs ngm.next ngm n1 (missing ngm.all_nodes 0 c.func_fc)
          (Shows-LiveSgs n1.heap ngm.path_sgl cs s1) z.placed in
      let n2 : GroupMan = with_index n1 (index n1.heap (locations n1.heap n1.path_sgl) []) in
      let (lines, run2) = populate_chooser_lines-LiveSgs n2 live in
      let cleared = clear-empty host.sdk laws (record w { heap = n1.heap }) no_path no_similar in
      (
        record c { ch_nodes = lines },
        n2,
        rw (run1, initialize_lookups-index n1 live, cleared, run2) refl,
        refl,
        (
          ngm.path_sgl,
          more,
          path_is,
          subst (Orphans n2.heap more)
              (missing-unmentioned ngm.all_nodes (content_ids cs ++ content_ids ds) 0 c.func_fc
                known)
              orphans,
          s1,
          subst (λ l. Shows n1.heap l ds) (sym z.similar_kept) t1,
          find_nodeid_loc-index n1,
        ),
      )

  -- Saving a manager whose super groups can be printed, to a file that can be written, writes a text
  -- and changes nothing. Where the file with that text is loaded while the chooser's manager has no
  -- super groups, the first group of the text has a node, and the SDK knows the function at its
  -- address, load_file returns true. The chooser then has the flowchart of that function, and its
  -- manager shows the same super groups in both lists, in order. The path ones are the last of the
  -- path, or there is exactly one more behind them: a synthetic one of orphan nodes, with a group of
  -- its own for each block of the flowchart whose number is no node's id in the two lists. An id leads to
  -- the last place of the path whose node has it.
  pub load_file-Loaded :
      (author w : GroupMan) (c : Chooser) (name : Text) (k : Content) (cs ds : List Content)
      (d : NodeDef) (ns : List NodeDef) (gs : List (List NodeDef)) (ea start : ℕ)
      → Shows author.heap author.path_sgl (k ∷ cs)
      → Shows author.heap author.similar_sgl ds
      → All Printable (k ∷ cs)
      → All Printable ds
      → host.writable name ≡ true
      → host.open_file name ≡ some (printed host.sdk laws (k ∷ cs) ds)
      → k.groups ≡ (d ∷ ns) ∷ gs
      → host.get_func d.start ≡ some ea
      → host.get_func ea ≡ some start
      → w.path_sgl ≡ []
      → w.similar_sgl ≡ []
      → 0 < w.next
      → (save_file host name c author ≡ ok (some (printed host.sdk laws (k ∷ cs) ds), c) author)
        × ((c' : Chooser) × (w' : GroupMan) × (load_file host name c w ≡ ok (true, c') w')
            × (c'.func_fc ≡ host.create start)
            × Loaded (host.create start) w' (k ∷ cs) ds)
  unfolding save_file load_file get_flowchart get_func_flowchart
  load_file-Loaded author w c name k cs ds d ns gs ea start s t pc pd writable opens first func
        again no_path no_similar used =
      let (saved, (u, run1, s1, t1, known)) =
        parse-emit host.sdk laws author (k ∷ cs) ds (new_man w) host.open_file name s t pc pd used
          refl refl opens in
      let (p, run2, (real, there)) = get_first_nd-LeadsTo u k cs d ns gs first s1 in
      let found : (p == null) ≡ false = ground arith in
      let w1 : GroupMan = record w { heap = u.heap } in
      let c1 : Chooser = record c { func_fc = host.create start } in
      let (c2, w2, run3, chart, shown) =
        take_over-Loaded u c1 w (k ∷ cs) ds no_path no_similar
          (Shows-used u.heap u.path_sgl k cs s1) s1 t1 known in
      (
        rw (writable, saved) refl,
        (c2, w2, rw (run1, run2, found, load_nd-ok w1 p there, func, again) run3, chart, shown),
      )
