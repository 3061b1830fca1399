-- ===== src/Manager/Rounds.antt =====
-- The loop of `combine_ngl`, round by round.
use graph_slick.Base.{
  ◌≡◌, ◌≢◌, sym, ◌∙◌, refl, true, false, some, List, [], ◌∷◌, arith, ◌==◌, inl, inr, ◌⊎◌, All,
  All-mono,
}
use mathlib.Core.List.{Memᴰ, cons≢nil}
use mathlib.Core.List.Memᴰ
use graph_slick.Heap.{Addr, null, SuperGroup, GroupMan, ok}
use graph_slick.Heap.Laws.{load_ng-ok}
use graph_slick.View.{members, members-eq, members_congr, GroupOk, SgOk}
use graph_slick.Groups.{get_first_node}
use graph_slick.Manager.Counts.{nodes_count, groups_count}
use graph_slick.Manager.Joined.{Joined, combine_group-Joined}
use graph_slick.Manager.Kept.{
  Located, addr_cases, GroupOk-kept, SgOk-kept, path_kept, nodes_kept, groups_kept,
}
use graph_slick.Manager.Regroup.{combine_step, combine_loop}

-- A group to be combined: it is there with its nodes, and unless it is empty it stands in the path
-- super groups once.
abbrev pub Target : GroupMan → Addr → Type 0
Target w ng =
    GroupOk (Located w) w.heap ng
    × ((members w.heap ng ≡ []) ⊎ (groups_count w.heap ng w.path_sgl ≡ 1))

pub record Ready (w : GroupMan) (dest : Addr) (ngl : List Addr) : Type 0 where
  pub live : All (SgOk (Located w) w.heap) w.path_sgl
  pub dest_ok : GroupOk (Located w) w.heap dest
  pub dest_once : groups_count w.heap dest w.path_sgl ≡ 1
  pub targets : All (Target w) ngl

-- from `w` to `w'` no node is lost or doubled, empty groups stay empty, and no other group changes
pub record Keeps (w w' : GroupMan) (dest : Addr) (ngl : List Addr) : Type 0 where
  pub nodes : (a : Addr) → nodes_count w'.heap a w'.path_sgl ≡ nodes_count w.heap a w.path_sgl
  pub empties : (q : Addr) → q ≢ dest → members w.heap q ≡ [] → members w'.heap q ≡ []
  pub others : (q : Addr) → q ≢ dest → ¬ Memᴰ q ngl → members w'.heap q ≡ members w.heap q

module _ (w w' : GroupMan) (dest ng sg : Addr) (ld l : List Addr) (s : SuperGroup)
    (apart : dest ≢ ng) (j : Joined w w' dest ng sg ld l s) (ed : w.ngs dest ≡ some ld)
    (en : w.ngs ng ≡ some l) (es : w.sgs sg ≡ some s) (hd : All (Located w) ld)
    (hl : All (Located w) l) (once : groups_count w.heap ng w.path_sgl ≡ 1) (ngl : List Addr)
    (r : Ready w dest ngl) where
  group_kept : (q : Addr) → GroupOk (Located w) w.heap q → GroupOk (Located w') w'.heap q
  group_kept = GroupOk-kept w w' dest ng sg ld l s apart j ed en es hd hl

  empties_kept : (q : Addr) → q ≢ dest → members w.heap q ≡ [] → members w'.heap q ≡ []
  empties_kept q far e = elim (addr_cases q ng) [
    | inl here ↦ rw here (members-eq w'.heap ng j.cleared)
    | inr off ↦ members_congr w.heap w'.heap q (j.others q far off) ∙ e
  ]

  Ready-kept : Ready w' dest ngl
  Ready-kept = record {
    live = path_kept w w' dest ng sg ld l s apart j ed en es (SgOk (Located w') w'.heap) (
        All-mono (SgOk (Located w) w.heap) (SgOk (Located w') w'.heap) w.path_sgl
          (SgOk-kept w w' dest ng sg ld l s apart j ed en es group_kept) r.live);
    dest_ok = group_kept dest r.dest_ok;
    dest_once = groups_kept w w' dest ng sg ld l s apart j ed en es dest apart ∙ r.dest_once;
    targets = All-mono (Target w) (Target w') ngl target r.targets;
  }
    where
      target : (q : Addr) → Target w q → Target w' q
      target q (g, c) = (
        group_kept q g,
        elim (addr_cases q ng) [
          | inl here ↦ inl (rw here (members-eq w'.heap ng j.cleared))
          | inr off ↦ elim c [
            | inl e ↦ elim (addr_cases q dest) [
              | inl there ↦ inr (
                  rw there
                    (groups_kept w w' dest ng sg ld l s apart j ed en es dest apart ∙ r.dest_once))
              | inr far ↦ inl (empties_kept q far e)
            ]
            | inr c' ↦ inr (groups_kept w w' dest ng sg ld l s apart j ed en es q off ∙ c')
          ]
        ],
      )

  joined-Keeps : Keeps w w' dest (ng ∷ [])
  joined-Keeps = record {
    nodes = λ a. nodes_kept w w' dest ng sg ld l s apart j ed en es a once r.dest_once;
    empties = empties_kept;
    others = λ q far out. members_congr w.heap w'.heap q (j.others q far (λ e. out (Memᴰ.head e)));
  }

-- the outcome of rounds over the groups `done`
pub record Outcome (w w' : GroupMan) (dest : Addr) (done ngl : List Addr) : Type 0 where
  pub ready : Ready w' dest ngl
  pub keeps : Keeps w w' dest done
  pub emptied : All (λ q. (q ≡ dest) ⊎ (members w'.heap q ≡ [])) done

-- A round over a group other than the destination.
combine_step-Outcome :
    (w : GroupMan) (dest ng : Addr) (l ngl : List Addr)
    → dest ≢ ng
    → w.ngs ng ≡ some l
    → All (Located w) l
    → ((members w.heap ng ≡ []) ⊎ (groups_count w.heap ng w.path_sgl ≡ 1))
    → Ready w dest ngl
    → (w' : GroupMan) × (combine_step dest ng w ≡ ok tt w') × Outcome w w' dest (ng ∷ []) ngl
unfolding combine_step get_first_node
combine_step-Outcome w dest ng [] ngl apart en hl c r = (
  w,
  rw (load_ng-ok w ng en) refl,
  record {
    ready = r;
    keeps = record { nodes = λ a. refl; empties = λ q far e. e; others = λ q far out. refl };
    emptied = (inr (members-eq w.heap ng en), tt);
  },
)
combine_step-Outcome w dest ng (p ∷ l) ngl apart en ((ne, (d, ep, (loc, found, (s, es)))), hl) c r =
    let all : Located w p = (ne, (d, ep, (loc, found, (s, es)))) in
    let (ld, ed, hd) = r.dest_ok in
    let real = All-mono (Located w) (λ q. q ≢ null) (p ∷ l) (λ q h. h.0) (all, hl) in
    let p_real : (p == null) ≡ false = ground (arith, ne) in
    let full = members-eq w.heap ng en in
    let once : groups_count w.heap ng w.path_sgl ≡ 1 = elim c [
      | inl e ↦ absurd (cons≢nil (sym full ∙ e))
      | inr one ↦ one
    ] in
    let (w', run, j) =
      combine_group-Joined w dest ng apart p ld (p ∷ l) d loc s ed en real ep found es in
    (
      w',
      rw (load_ng-ok w ng en, p_real) run,
      record {
        ready =
            Ready-kept w w' dest ng loc.sg ld (p ∷ l) s apart j ed en es hd (all, hl) once ngl r;
        keeps =
            joined-Keeps w w' dest ng loc.sg ld (p ∷ l) s apart j ed en es hd (all, hl) once ngl r;
        emptied = (inr (members-eq w'.heap ng j.cleared), tt);
      },
    )

module _ {w w1 w2 : GroupMan} {dest ng : Addr} {ngl : List Addr} where
  Keeps-trans : Keeps w w1 dest (ng ∷ []) → Keeps w1 w2 dest ngl → Keeps w w2 dest (ng ∷ ngl)
  Keeps-trans k k' = record {
    nodes = λ a. k'.nodes a ∙ k.nodes a;
    empties = λ q far e. k'.empties q far (k.empties q far e);
    others = λ q far out.
        k'.others q far (λ m. out (Memᴰ.tail m))
        ∙ k.others q far (λ m. out (Memᴰ.head (Memᴰ.eq_of_singleton m)));
  }

pub combine_loop-Outcome :
    (dest : Addr) (ngl : List Addr) (w : GroupMan)
    → Ready w dest ngl
    → (w' : GroupMan) × (combine_loop dest ngl w ≡ ok tt w') × Outcome w w' dest ngl []
unfolding combine_loop
combine_loop-Outcome dest [] w r = (
  w,
  refl,
  record {
    ready = r;
    keeps = record { nodes = λ a. refl; empties = λ q far e. e; others = λ q far out. refl };
    emptied = tt;
  },
)
combine_loop-Outcome dest (ng ∷ ngl) w r =
    let ((l, en, hl), c) = r.targets.0 in
    let r' : Ready w dest ngl = record {
      live = r.live;
      dest_ok = r.dest_ok;
      dest_once = r.dest_once;
      targets = r.targets.1;
    } in
    elim (addr_cases ng dest) [
      | inl here ↦
          let (w', run, o) = combine_loop-Outcome dest ngl w r' in
          let skip : (ng == dest) ≡ true = ground arith in
          (
            w',
            rw skip run,
            record {
              ready = o.ready;
              keeps = record {
                nodes = o.keeps.nodes;
                empties = o.keeps.empties;
                others = λ q far out. o.keeps.others q far (λ m. out (Memᴰ.tail m));
              };
              emptied = (inl here, o.emptied);
            },
          )
      | inr away ↦
          let (w1, run1, o1) =
            combine_step-Outcome w dest ng l ngl (λ e. away (sym e)) en hl c r' in
          let (w2, run2, o2) = combine_loop-Outcome dest ngl w1 o1.ready in
          let go : (ng == dest) ≡ false = ground arith in
          (
            w2,
            rw (go, run1) run2,
            record {
              ready = o2.ready;
              keeps = Keeps-trans o1.keeps o2.keeps;
              emptied = (
                elim o1.emptied.0 [ inl e ↦ inl e | inr e ↦ inr (o2.keeps.empties ng away e) ],
                o2.emptied,
              );
            },
          )
    ]
