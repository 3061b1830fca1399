-- ===== src/BbGroup/Parsed.antt =====
-- What parsing printed groups, fields and rows builds.
use graph_slick.Base.{
  ℕ, zero, suc, ◌<◌, ◌≤◌, ◌≡◌, ◌≢◌, refl, ap, sym, ◌∙◌, true, Option, some, List, [], ◌∷◌, ◌++◌,
  All, arith, length, length-append, Text,
}
use mathlib.Core.List.{append-nil, append_assoc}
use graph_slick.Heap.{Addr, null, NodeDef, SuperGroup, GroupMan, ok, update, with_sgs, new_ng}
use graph_slick.Heap.Laws.{update_self, update_other, load_sg-ok, store_sg-ok}
use graph_slick.Groups.{add_nodegroup}
use graph_slick.Manager.Known.{Learns, Learns-trans}
use graph_slick.BbGroup.{Sdk, parse_nodes, parse_group, parse_groups, parse_nodeset}
use graph_slick.BbGroup.Tokens.{tokens, first_piece, after_first}
use graph_slick.BbGroup.Cuts.{Lacks, first_piece_nil, after_first_nil, tokens_nil}
use graph_slick.BbGroup.Content.{
  ShowsNodes, ShowsGroup, ShowsGroups, sep, nodes_text, groups_text, node_ids, group_ids,
}
use graph_slick.BbGroup.Laws.{Fits, SdkLaws, pieces-Scans}
use graph_slick.BbGroup.Rows.{next_group-shown, next_group-Lacks, skip_sep}
use graph_slick.BbGroup.Effects.{
  Since, Since-refl, Since-trans, ShowsGroup-Since, parse_nodes-Shows,
}

abbrev pub with_groups : SuperGroup → List Addr → SuperGroup
with_groups s gs = record s { groups = s.groups ++ gs }

module _ (sdk : Sdk) (laws : SdkLaws sdk) where
  pieces : List NodeDef → List Text
  pieces ds =
      first_piece b',' (nodes_text sdk ds) ∷ tokens b',' (after_first b',' (nodes_text sdk ds))

  -- the pieces of any group, from an empty group on
  pieces-Shows :
      (ds : List NodeDef) (ng sg : Addr) (w : GroupMan)
      → 0 < w.next
      → w.ngs ng ≡ some []
      → All Fits ds
      → (ps : List Addr) × (w' : GroupMan) × (parse_nodes sdk ng (pieces ds) w ≡ ok tt w')
        × (w'.ngs ng ≡ some ps)
        × ShowsNodes w'.heap ps ds
        × Since w.next ng sg w w'
        × (w'.sgs ≡ w.sgs)
        × Learns w w' (node_ids ds)
  unfolding pieces parse_nodes
  pieces-Shows [] ng sg w real e h = (
    [],
    w,
    rw
        (
          first_piece_nil b',',
          after_first_nil b',',
          tokens_nil b',',
          parse_nodes,
          laws.skip_nil,
          laws.scan_nil,
        )
        refl,
    e,
    tt,
    Since-refl w.next ng sg w,
    refl,
    λ k. refl,
  )
  pieces-Shows (d ∷ ds) ng sg w real e (fit, fits) =
      parse_nodes-Shows sdk laws (pieces (d ∷ ds)) (d ∷ ds) ng sg [] w real e
        (pieces-Scans sdk laws d ds fit fits)

  parse_group-Shows :
      (ds : List NodeDef) (sg : Addr) (s : SuperGroup) (w : GroupMan)
      → 0 < w.next
      → w.sgs sg ≡ some s
      → All Fits ds
      → (g : Addr) × (w' : GroupMan) × (parse_group sdk sg (nodes_text sdk ds) w ≡ ok tt w')
        × (w'.sgs sg ≡ some (with_groups s (g ∷ [])))
        × ShowsGroup w'.heap g ds
        × Since w.next w.next sg w w'
        × Learns w w' (node_ids ds)
  unfolding add_nodegroup new_ng pieces
  parse_group-Shows ds sg s w real e h =
      let wa : GroupMan = record w {
        heap = record w.heap { ngs = update w.ngs w.next (some []); next = suc w.next };
      } in
      let wb : GroupMan = with_sgs wa (update w.sgs sg (some (with_groups s (w.next ∷ [])))) in
      let (ps, w', run, group, shows, since, same, learns) =
        pieces-Shows ds w.next null wb (omega arith) (update_self w.ngs w.next (some [])) h in
      let new_since : Since w.next w.next sg w w' = record {
        nds_kept = λ q lt. since.nds_kept q (omega (arith, lt));
        ngs_kept = λ q lt.
            let ne : q ≢ w.next = omega (arith, lt) in
            since.ngs_kept q lt ∙ update_other w.ngs w.next (some []) q ne;
        sgs_kept = λ q ne.
            ap (λ (f : Addr → Option SuperGroup). f q) same
            ∙ update_other w.sgs sg (some (with_groups s (w.next ∷ []))) q ne;
        grows = omega (arith, since.grows);
        path_kept = since.path_kept;
        similar_kept = since.similar_kept;
      } in
      (
        w.next,
        w',
        rw (load_sg-ok wa sg e, store_sg-ok wa sg (with_groups s (w.next ∷ [])) e) run,
        ap (λ (f : Addr → Option SuperGroup). f sg) same
            ∙ update_self w.sgs sg (some (with_groups s (w.next ∷ []))),
        (ps, omega (arith, since.grows), group, shows),
        new_since,
        learns,
      )

  parse_groups-Shows :
      (dss : List (List NodeDef)) (fuel : ℕ) (pre : Text) (sg : Addr) (s : SuperGroup)
      (w : GroupMan)
      → 0 < w.next
      → w.sgs sg ≡ some s
      → length dss ≤ fuel
      → Lacks b'(' pre
      → All (All Fits) dss
      → (gs : List Addr) × (w' : GroupMan) × (parse_groups sdk fuel sg
            (pre ++ groups_text sdk dss)
            w
          ≡ ok tt w')
        × (w'.sgs sg ≡ some (with_groups s gs))
        × ShowsGroups w'.heap gs dss
        × Since w.next w.next sg w w'
        × Learns w w' (group_ids dss)
  unfolding parse_groups
  parse_groups-Shows [] zero pre sg s w real e enough lacks h = (
    [],
    w,
    refl,
    e ∙ ap (λ (l : List Addr). some (record s { groups = l })) (sym (append-nil s.groups)),
    tt,
    Since-refl w.next w.next sg w,
    λ k. refl,
  )
  parse_groups-Shows [] (suc fuel) pre sg s w real e enough lacks h = (
    [],
    w,
    rw (append-nil pre, parse_groups, next_group-Lacks sdk laws pre lacks) refl,
    e ∙ ap (λ (l : List Addr). some (record s { groups = l })) (sym (append-nil s.groups)),
    tt,
    Since-refl w.next w.next sg w,
    λ k. refl,
  )
  parse_groups-Shows (ds ∷ dss) zero pre sg s w real e enough lacks h =
      absurd (omega (arith, enough))
  parse_groups-Shows (ds ∷ dss) (suc fuel) pre sg s w real e enough lacks (fit, fits) =
      let rest = sep sdk dss ++ groups_text sdk dss in
      let (g, w1, run1, host1, shown, since1, learns1) = parse_group-Shows ds sg s w real e fit in
      let (gs, w', run, host, shows, since, learns) =
        parse_groups-Shows dss fuel (sep sdk dss) sg (with_groups s (g ∷ [])) w1
          (omega (arith, real, since1.grows)) host1 (omega (arith, enough)) (sep-Lacks dss) fits in
      (
        g ∷ gs,
        w',
        rw
            (
              parse_groups,
              next_group-shown sdk laws pre ds rest lacks fit,
              skip_sep sdk laws dss,
              run1,
            )
            run,
        host
            ∙ ap (λ (l : List Addr). some (record s { groups = l }))
                (append_assoc s.groups (g ∷ []) gs),
        (ShowsGroup-Since sg w1 w' g ds since shown, shows),
        Since-trans w.next w.next w1.next w1.next sg w w1 w' since1.grows since1.grows since1 since,
        Learns-trans w w1 w' (node_ids ds) (group_ids dss) learns1 learns,
      )
    where
      sep-Lacks : (dss : List (List NodeDef)) → Lacks b'(' (sep sdk dss)
      sep-Lacks [] = tt
      sep-Lacks (_ ∷ _) = (refl, (refl, tt))

  -- each group has its parenthesis
  groups_fuel : (dss : List (List NodeDef)) → length dss ≤ length (groups_text sdk dss)
  groups_fuel [] = omega arith
  groups_fuel (ds ∷ dss) =
      let inner = length-append (nodes_text sdk ds) (b')' ∷ (sep sdk dss ++ groups_text sdk dss)) in
      let outer = length-append (sep sdk dss) (groups_text sdk dss) in
      omega (arith, groups_fuel dss, inner, outer)

  pub parse_nodeset-Shows :
      (dss : List (List NodeDef)) (sg : Addr) (s : SuperGroup) (w : GroupMan)
      → 0 < w.next
      → w.sgs sg ≡ some s
      → All (All Fits) dss
      → (gs : List Addr) × (w' : GroupMan) × (parse_nodeset sdk sg (groups_text sdk dss) w
          ≡ ok true w')
        × (w'.sgs sg ≡ some (with_groups s gs))
        × ShowsGroups w'.heap gs dss
        × Since w.next w.next sg w w'
        × Learns w w' (group_ids dss)
  unfolding parse_nodeset
  parse_nodeset-Shows dss sg s w real e h =
      let (gs, w', run, host, shows, since, learns) =
        parse_groups-Shows dss (length (groups_text sdk dss)) [] sg s w real e (groups_fuel dss) tt
          h in
      (gs, w', rw run refl, host, shows, since, learns)
