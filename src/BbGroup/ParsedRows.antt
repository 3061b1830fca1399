-- ===== src/BbGroup/ParsedRows.antt =====
-- What parsing a printed row builds: a super group with its texts and groups.
use graph_slick.Base.{
  ◌<◌, ◌≤◌, ◌≡◌, ◌≢◌, refl, ap, ◌∙◌, false, true, ◌&&◌, Bool-cases, inl, inr, some, none, List, [],
  ◌∷◌, ◌++◌, All, arith, length, Text, codes, is_empty,
}
use graph_slick.Heap.{Addr, NodeDef, SuperGroup, GroupMan, ok, update, with_sgs}
use graph_slick.Heap.Laws.{update_self, update_other, load_sg-ok, store_sg-ok}
use graph_slick.Manager.Known.{Learns, Learns-from}
use graph_slick.BbGroup.{Sdk, parse_pairs, parse_pair, parse_line, section_name, is_comment}
use graph_slick.BbGroup.Cuts.{split_at-append}
use graph_slick.BbGroup.Content.{Content, ShowsGroups, ShowsSg, groups_text, row_text, group_ids}
use graph_slick.BbGroup.Laws.{Fits, SdkLaws, Printable, IsClean}
use graph_slick.BbGroup.Rows.{field_token, nodeset_token, tokens-row}
use graph_slick.BbGroup.Effects.{Since, Since-refl, Since-trans}
use graph_slick.BbGroup.Parsed.{parse_nodeset-Shows}

module _ (sdk : Sdk) (laws : SdkLaws sdk) where
  keys_apart : (j k : Text) → length j ≢ length k → sdk.same_key j k ≡ false
  keys_apart j k ne = elim (Bool-cases (sdk.same_key j k)) [
    | inl e ↦ absurd (ne (laws.key_length j k e))
    | inr e ↦ e
  ]

  -- a super group whose cell is written anew
  store-Since :
      (sg : Addr) (s : SuperGroup) (w : GroupMan)
      → Since w.next w.next sg w (with_sgs w (update w.sgs sg (some s)))
  store-Since sg s w = record {
    nds_kept = λ q lt. refl;
    ngs_kept = λ q lt. refl;
    sgs_kept = λ q ne. update_other w.sgs sg (some s) q ne;
    grows = omega arith;
    path_kept = refl;
    similar_kept = refl;
  }

  -- one step over a field that is there or not
  Field : (sg : Addr) (s s' : SuperGroup) (w : GroupMan) (ts more : List Text) → Type 0
  Field sg s s' w ts more =
      (w' : GroupMan) × (parse_pairs sdk sg ts w ≡ parse_pairs sdk sg more w')
      × (w'.sgs sg ≡ some s')
      × (w'.next ≡ w.next)
      × Since w.next w.next sg w w'
      × (w'.all_nodes ≡ w.all_nodes)

  id-Field :
      (val : Text) (more : List Text) (sg : Addr) (s : SuperGroup) (w : GroupMan)
      → w.sgs sg ≡ some s
      → s.id ≡ []
      → IsClean val
      → Field sg s (record s { id = val }) w (field_token (codes "ID") val more) more
  unfolding Field parse_pairs parse_pair
  id-Field [] more sg s w e fresh clean = (
    w,
    refl,
    e ∙ ap (λ (t : Text). some (record s { id = t })) fresh,
    refl,
    Since-refl w.next w.next sg w,
    refl,
  )
  id-Field (c ∷ v) more sg s w e fresh (ink, _, _) =
      let s' : SuperGroup = record s { id = c ∷ v } in
      (
        with_sgs w (update w.sgs sg (some s')),
        rw
            (
              parse_pairs,
              parse_pair,
              split_at-append b':' (codes "ID") (c ∷ v) (refl, (refl, tt)) refl,
              laws.skip_ink 73 (codes "D") refl,
              laws.skip_ink c v ink,
              laws.key_refl (codes "ID"),
              load_sg-ok w sg e,
              store_sg-ok w sg s' e,
            )
            refl,
        update_self w.sgs sg (some s'),
        refl,
        store-Since sg s' w,
        refl,
      )

  name-Field :
      (val : Text) (more : List Text) (sg : Addr) (s : SuperGroup) (w : GroupMan)
      → w.sgs sg ≡ some s
      → s.name ≡ []
      → IsClean val
      → Field sg s (record s { name = val }) w (field_token (codes "GROUPNAME") val more) more
  unfolding Field parse_pairs parse_pair
  name-Field [] more sg s w e fresh clean = (
    w,
    refl,
    e ∙ ap (λ (t : Text). some (record s { name = t })) fresh,
    refl,
    Since-refl w.next w.next sg w,
    refl,
  )
  name-Field (c ∷ v) more sg s w e fresh (ink, _, _) =
      let s' : SuperGroup = record s { name = c ∷ v } in
      let apart : sdk.same_key (codes "GROUPNAME") (codes "ID") ≡ false =
        keys_apart (codes "GROUPNAME") (codes "ID") (omega arith) in
      (
        with_sgs w (update w.sgs sg (some s')),
        rw
            (
              parse_pairs,
              parse_pair,
              split_at-append b':' (codes "GROUPNAME") (c ∷ v)
                  (refl, (refl, (refl, (refl, (refl, (refl, (refl, (refl, (refl, tt))))))))) refl,
              laws.skip_ink 71 (codes "ROUPNAME") refl,
              laws.skip_ink c v ink,
              apart,
              laws.key_refl (codes "GROUPNAME"),
              load_sg-ok w sg e,
              store_sg-ok w sg s' e,
            )
            refl,
        update_self w.sgs sg (some s'),
        refl,
        store-Since sg s' w,
        refl,
      )

  nodeset-Shows :
      (dss : List (List NodeDef)) (sg : Addr) (s : SuperGroup) (w : GroupMan)
      → 0 < w.next
      → w.sgs sg ≡ some s
      → s.groups ≡ []
      → All (All Fits) dss
      → (gs : List Addr) × (w' : GroupMan) × (parse_pairs sdk sg (nodeset_token sdk laws dss) w
          ≡ ok true w')
        × (w'.sgs sg ≡ some (record s { groups = gs }))
        × ShowsGroups w'.heap gs dss
        × Since w.next w.next sg w w'
        × Learns w w' (group_ids dss)
  unfolding parse_pairs parse_pair
  nodeset-Shows [] sg s w real e fresh h = (
    [],
    w,
    refl,
    e ∙ ap (λ (l : List Addr). some (record s { groups = l })) fresh,
    tt,
    Since-refl w.next w.next sg w,
    λ k. refl,
  )
  nodeset-Shows (ds ∷ dss) sg s w real e fresh h =
      let (gs, w', run, host, shows, since, learns) =
        parse_nodeset-Shows sdk laws (ds ∷ dss) sg s w real e h in
      (
        gs,
        w',
        rw
            (
              parse_pairs,
              parse_pair,
              split_at-append b':' (codes "NODESET") (groups_text sdk (ds ∷ dss))
                  (refl, (refl, (refl, (refl, (refl, (refl, (refl, tt))))))) refl,
              laws.skip_ink 78 (codes "ODESET") refl,
              laws.skip_ink b'(' _ refl,
              keys_apart (codes "NODESET") (codes "ID") (omega arith),
              keys_apart (codes "NODESET") (codes "GROUPNAME") (omega arith),
              laws.key_refl (codes "NODESET"),
              run,
            )
            refl,
        host ∙ ap (λ (l : List Addr). some (record s { groups = l ++ gs })) fresh,
        shows,
        since,
        learns,
      )

  unfoldable pub blank : SuperGroup
  blank = record { id = []; name = []; is_synthetic = false; groups = [] }

  pub line-Shows :
      (c : Content) (sg : Addr) (w : GroupMan)
      → sg < w.next
      → w.sgs sg ≡ some blank
      → Printable c
      → (w' : GroupMan) × (parse_line sdk sg (row_text sdk c) w ≡ ok true w')
        × ShowsSg w'.heap sg c
        × Since w.next w.next sg w w'
        × Learns w w' (group_ids c.groups)
  unfolding parse_line blank Field
  line-Shows c sg w below e p =
      let last = nodeset_token sdk laws c.groups in
      let middle = field_token (codes "GROUPNAME") c.name last in
      let (w1, run1, host1, next1, since1, known1) =
        id-Field c.id middle sg blank w e refl p.clean_id in
      let (w2, run2, host2, next2, since2, known2) =
        name-Field c.name last sg (record blank { id = c.id }) w1 host1 refl p.clean_name in
      let (gs, w', run, host, shows, since, learns) =
        nodeset-Shows c.groups sg (record blank { id = c.id; name = c.name }) w2
          (omega (arith, below, next1, next2)) host2 refl p.fitting in
      let low : w.next ≤ w1.next = omega (arith, next1) in
      let mid : w1.next ≤ w2.next = omega (arith, next2) in
      (
        w',
        ap (λ (ts : List Text). parse_pairs sdk sg ts w) (tokens-row sdk laws c p)
            ∙ run1
            ∙ run2
            ∙ run,
        (_, omega (arith, below, low, mid, since.grows), host, refl, refl, shows),
        Since-trans w.next w.next w1.next w1.next sg w w1 w' low low since1
            (Since-trans w1.next w1.next w2.next w2.next sg w1 w2 w' mid mid since2 since),
        Learns-from w w2 w' (group_ids c.groups) (known2 ∙ known1) learns,
      )

  -- a printed row is neither blank nor a comment nor the name of a section
  pub row_ordinary :
      (id name : Text) (dss : List (List NodeDef)) (row : Text)
      → row ≡ row_text sdk (record { id = id; name = name; groups = dss })
      → is_empty id && is_empty name && is_empty dss ≡ false
      → (sdk.skip_spaces row ≡ row) × (is_comment sdk row ≡ false) × (section_name sdk row ≡ none)
  unfolding section_name
  row_ordinary [] [] [] row e seen = ground (arith, seen)
  row_ordinary [] [] (ds ∷ dss) row e seen = rw e (laws.skip_ink 78 _ refl, refl, refl)
  row_ordinary [] (c ∷ v) dss row e seen = rw e (laws.skip_ink 71 _ refl, refl, refl)
  row_ordinary (c ∷ v) name dss row e seen = rw e (laws.skip_ink 73 _ refl, refl, refl)
