-- ===== src/Manager/Kept.antt =====
-- What one round of `combine_ngl` keeps: the objects, the lookups, and how often each node and each
-- group stands in the path super groups.
use graph_slick.Base.{
  subst, ◌≡◌, ◌≢◌, ap, sym, ◌∙◌, some, List, [], ◌∷◌, ◌++◌, arith, ◌==◌, Bool-cases, inl, inr, ◌⊎◌,
  All, All-mono, All-append,
}
use mathlib.Core.Option.{some-injective}
use graph_slick.OrdMap.{find, int_ord}
use graph_slick.Heap.{Addr, null, NodeDef, SuperGroup, NodeLoc, GroupMan}
use graph_slick.View.{members-eq, groups_of-eq, members_congr, groups_of_congr, GroupOk, SgOk}
use graph_slick.Groups.{remove}
use graph_slick.Manager.Counts.{
  Handover, nodes_count, groups_count, nodes_count-kept, groups_count-kept, nodes_count-remove,
  groups_count-remove,
}
use graph_slick.Manager.Joined.{Joined}

-- The node is there, and the lookups lead from its id to a super group that is there.
abbrev pub Located : GroupMan → Addr → Type 0
Located w p =
    (p ≢ null)
    × ((d : NodeDef) × (w.nds p ≡ some d)
        × ((l : NodeLoc) × (find d.nid w.nid2loc ≡ some l)
            × ((s : SuperGroup) × (w.sgs l.sg ≡ some s))))

pub All-remove : (P : Addr → Type 0) (a : Addr) (xs : List Addr) → All P xs → All P (remove a xs)
unfolding remove
All-remove P a [] h = tt
All-remove P a (x ∷ xs) (hx, h) = elim (Bool-cases (x == a)) [
  | inl e ↦ rw e (All-remove P a xs h)
  | inr ne ↦ rw ne (hx, All-remove P a xs h)
]

pub addr_cases : (a b : Addr) → (a ≡ b) ⊎ (a ≢ b)
addr_cases a b = elim (Bool-cases (a == b)) [
  | inl e ↦ inl (ground arith)
  | inr ne ↦ inr (ground arith)
]

-- What a round keeps.
module _ (w w' : GroupMan) (dest ng sg : Addr) (ld l : List Addr) (s : SuperGroup)
    (apart : dest ≢ ng) (j : Joined w w' dest ng sg ld l s) (ed : w.ngs dest ≡ some ld)
    (en : w.ngs ng ≡ some l) (es : w.sgs sg ≡ some s) where
  pub sgs-kept :
      (q : Addr) (t : SuperGroup) → w.sgs q ≡ some t → (u : SuperGroup) × (w'.sgs q ≡ some u)
  sgs-kept q t e = elim (addr_cases q sg) [
    | inl here ↦ (record s { groups = remove ng s.groups }, rw here j.shrunk)
    | inr away ↦ (t, j.sgs_same q away ∙ e)
  ]

  pub Located-kept : (p : Addr) → Located w p → Located w' p
  Located-kept p (ne, (d, e, (loc, found, (t, et)))) =
      (ne, (d, rw j.nds e, (loc, rw j.nid2loc found, sgs-kept loc.sg t et)))

  pub GroupOk-kept :
      All (Located w) ld
      → All (Located w) l
      → (q : Addr) → GroupOk (Located w) w.heap q
      → GroupOk (Located w') w'.heap q
  GroupOk-kept hd hl q (m, e, h) = elim (addr_cases q dest) [
    | inl here ↦ (ld ++ l, rw here j.got, All-append (Located w') ld l (up ld hd) (up l hl))
    | inr away ↦ elim (addr_cases q ng) [
      | inl there ↦ ([], rw there j.cleared, tt)
      | inr off ↦ (m, j.others q away off ∙ e, up m h)
    ]
  ]
    where
      up : (xs : List Addr) → All (Located w) xs → All (Located w') xs
      up xs h = All-mono (Located w) (Located w') xs Located-kept h

  pub SgOk-kept :
      ((q : Addr) → GroupOk (Located w) w.heap q → GroupOk (Located w') w'.heap q)
      → (q : Addr) → SgOk (Located w) w.heap q
      → SgOk (Located w') w'.heap q
  SgOk-kept keep q (t, e, h) =
      let h' =
        All-mono (GroupOk (Located w) w.heap) (GroupOk (Located w') w'.heap) t.groups keep h in
      elim (addr_cases q sg) [
        | inl here ↦
            let e' : some t ≡ some s = sym e ∙ ap w.sgs here ∙ es in
            let h'' =
              subst (λ (x : SuperGroup). All (GroupOk (Located w') w'.heap) x.groups)
                (some-injective t s e') h' in
            (
              record s { groups = remove ng s.groups },
              rw here j.shrunk,
              All-remove (GroupOk (Located w') w'.heap) ng s.groups h'',
            )
        | inr away ↦ (t, j.sgs_same q away ∙ e, h')
      ]

  pub path_kept : (P : Addr → Type 0) → All P w.path_sgl → All P w'.path_sgl
  path_kept P h = elim j.listed [
    | inl e ↦ rw e h
    | inr (e, _) ↦ rw e (All-remove P sg w.path_sgl h)
  ]

  pub Joined-Handover : Handover w.heap w'.heap dest ng ld l
  Joined-Handover = record {
    apart = apart;
    had = members-eq w.heap dest ed;
    gave = members-eq w.heap ng en;
    got = members-eq w'.heap dest j.got;
    cleared = members-eq w'.heap ng j.cleared;
    others = λ q far off. members_congr w.heap w'.heap q (j.others q far off);
    dropped = λ q. elim (addr_cases q sg) [
      | inl here ↦ inr (
          rw here
            (groups_of-eq w'.heap sg j.shrunk ∙ ap (remove ng) (sym (groups_of-eq w.heap sg es))))
      | inr away ↦ inl (groups_of_congr w.heap w'.heap q (j.sgs_same q away))
    ];
  }

  pub nodes_kept :
      (a : Addr)
      → groups_count w.heap ng w.path_sgl ≡ 1
      → groups_count w.heap dest w.path_sgl ≡ 1
      → nodes_count w'.heap a w'.path_sgl ≡ nodes_count w.heap a w.path_sgl
  nodes_kept a e e' =
      let kept = nodes_count-kept w.heap w'.heap dest ng ld l Joined-Handover a w.path_sgl e e' in
      elim j.listed [
        | inl p ↦ rw p kept
        | inr (p, none_left) ↦ rw p (
            nodes_count-remove w'.heap a sg w.path_sgl
              (groups_of-eq w'.heap sg j.shrunk ∙ none_left)
            ∙ kept)
      ]

  pub groups_kept :
      (x : Addr) → x ≢ ng → groups_count w'.heap x w'.path_sgl ≡ groups_count w.heap x w.path_sgl
  groups_kept x ne =
      let kept = groups_count-kept w.heap w'.heap dest ng ld l Joined-Handover x w.path_sgl ne in
      elim j.listed [
        | inl p ↦ rw p kept
        | inr (p, none_left) ↦ rw p (
            groups_count-remove w'.heap x sg w.path_sgl
              (groups_of-eq w'.heap sg j.shrunk ∙ none_left)
            ∙ kept)
      ]
