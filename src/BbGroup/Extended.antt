-- ===== src/BbGroup/Extended.antt =====
-- What parsing the printed rows of one section does: its list gets their super groups.
use graph_slick.Base.{
  ℕ, suc, ◌<◌, ◌≡◌, ◌≢◌, refl, ap, sym, ◌∙◌, some, List, [], ◌∷◌, ◌++◌, All, arith, Text,
}
use mathlib.Core.List.{append-nil, append_assoc}
use graph_slick.Heap.{Addr, null, GroupMan, Heap, ok, update, new_sg}
use graph_slick.Heap.Laws.{update_self, update_other}
use graph_slick.Manager.{Sgl, path, similar, get_sgl, add_supergroup}
use graph_slick.Manager.Known.{Learns, Learns-trans, Learns-from}
use graph_slick.BbGroup.{Sdk, parse_row, parse_rows}
use graph_slick.BbGroup.Tokens.{lines}
use graph_slick.BbGroup.Content.{
  Content, Keeps, ShowsSg, ShowsSg-Keeps, Shows, row_text, rows_text, group_ids, content_ids,
}
use graph_slick.BbGroup.Laws.{SdkLaws, Printable}
use graph_slick.BbGroup.Rows.{lines-rows}
use graph_slick.BbGroup.Effects.{Since}
use graph_slick.BbGroup.ParsedRows.{blank, line-Shows, row_ordinary}

abbrev other : Sgl → Sgl
other path = similar
other similar = path

-- the list gets `sgs` at its end, and all objects that were there stay
pub record Extends (sgl : Sgl) (w w' : GroupMan) (sgs : List Addr) : Type 0 where
  pub keeps : Keeps w.heap w'.heap
  pub sgs_kept : (q : Addr) → q < w.next → w'.sgs q ≡ w.sgs q
  pub mine : get_sgl sgl w' ≡ get_sgl sgl w ++ sgs
  pub theirs : get_sgl (other sgl) w' ≡ get_sgl (other sgl) w

Extends-refl : (sgl : Sgl) (w : GroupMan) → Extends sgl w w []
Extends-refl sgl w = record {
  keeps = record { nds_kept = λ q lt. refl; ngs_kept = λ q lt. refl; grows = omega arith };
  sgs_kept = λ q lt. refl;
  mine = sym (append-nil (get_sgl sgl w));
  theirs = refl;
}

Extends-trans :
    (sgl : Sgl) (u v w : GroupMan) (ps qs : List Addr)
    → Extends sgl u v ps
    → Extends sgl v w qs
    → Extends sgl u w (ps ++ qs)
Extends-trans sgl u v w ps qs f g = record {
  keeps = record {
    nds_kept =
        λ q lt. g.keeps.nds_kept q (omega (arith, lt, f.keeps.grows)) ∙ f.keeps.nds_kept q lt;
    ngs_kept =
        λ q lt. g.keeps.ngs_kept q (omega (arith, lt, f.keeps.grows)) ∙ f.keeps.ngs_kept q lt;
    grows = omega (arith, f.keeps.grows, g.keeps.grows);
  };
  sgs_kept = λ q lt. g.sgs_kept q (omega (arith, lt, f.keeps.grows)) ∙ f.sgs_kept q lt;
  mine = g.mine ∙ ap (λ (l : List Addr). l ++ qs) f.mine ∙ append_assoc (get_sgl sgl u) ps qs;
  theirs = g.theirs ∙ f.theirs;
}

module _ (sdk : Sdk) (laws : SdkLaws sdk) where
  -- the heap after `new supergroup_t()`
  abbrev opened : GroupMan → Heap
  opened w = record w.heap { sgs = update w.sgs w.next (some (blank sdk laws)); next = suc w.next }

  add_supergroup-opened :
      (sgl : Sgl) (w : GroupMan)
      → (w1 : GroupMan) × (add_supergroup sgl null w ≡ ok w.next w1)
        × (w1.heap ≡ opened w)
        × (get_sgl sgl w1 ≡ get_sgl sgl w ++ w.next ∷ [])
        × (get_sgl (other sgl) w1 ≡ get_sgl (other sgl) w)
        × (w1.all_nodes ≡ w.all_nodes)
  unfolding add_supergroup new_sg blank
  add_supergroup-opened path w = (_, refl, refl, refl, refl, refl)
  add_supergroup-opened similar w = (_, refl, refl, refl, refl, refl)

  lists_kept :
      (x : Sgl) (m n sg : ℕ) (w w' : GroupMan) → Since m n sg w w' → get_sgl x w' ≡ get_sgl x w
  lists_kept path m n sg w w' k = k.path_kept
  lists_kept similar m n sg w w' k = k.similar_kept

  row-Extends :
      (sgl : Sgl) (c : Content) (w : GroupMan)
      → 0 < w.next
      → Printable c
      → (w' : GroupMan) × (parse_row sdk (some sgl) (row_text sdk c) w ≡ ok (some sgl) w')
        × ShowsSg w'.heap w.next c
        × Extends sgl w w' (w.next ∷ [])
        × Learns w w' (group_ids c.groups)
  unfolding parse_row
  row-Extends sgl c w real p =
      let (w1, run1, at_heap, mine, theirs, known) = add_supergroup-opened sgl w in
      let fresh =
        ap (λ (h : Heap). h.sgs w.next) at_heap
        ∙ update_self w.sgs w.next (some (blank sdk laws)) in
      let next1 = ap (λ (h : Heap). h.next) at_heap in
      let (w', run, shows, since, learns) =
        line-Shows sdk laws c w.next w1 (omega (arith, next1)) fresh p in
      let (skipped, plain, row) =
        row_ordinary sdk laws c.id c.name c.groups (row_text sdk c) refl p.visible in
      (
        w',
        rw (parse_row, skipped, plain, row, run1, skipped, run) refl,
        shows,
        record {
          keeps = record {
            nds_kept = λ q lt.
                since.nds_kept q (omega (arith, lt, next1)) ∙ ap (λ (h : Heap). h.nds q) at_heap;
            ngs_kept = λ q lt.
                since.ngs_kept q (omega (arith, lt, next1)) ∙ ap (λ (h : Heap). h.ngs q) at_heap;
            grows = omega (arith, next1, since.grows);
          };
          sgs_kept = λ q lt.
              let ne : q ≢ w.next = omega (arith, lt) in
              since.sgs_kept q ne
              ∙ ap (λ (h : Heap). h.sgs q) at_heap
              ∙ update_other w.sgs w.next (some (blank sdk laws)) q ne;
          mine = lists_kept sgl w1.next w1.next w.next w1 w' since ∙ mine;
          theirs = lists_kept (other sgl) w1.next w1.next w.next w1 w' since ∙ theirs;
        },
        Learns-from w w1 w' (group_ids c.groups) known learns,
      )

  pub rows-Extends :
      (sgl : Sgl) (cs : List Content) (rest : Text) (w : GroupMan)
      → 0 < w.next
      → All Printable cs
      → (sgs : List Addr) × (w' : GroupMan) × (parse_rows sdk
            (some sgl)
            (lines (rows_text sdk cs ++ rest))
            w
          ≡ parse_rows sdk (some sgl) (lines rest) w')
        × Shows w'.heap sgs cs
        × Extends sgl w w' sgs
        × Learns w w' (content_ids cs)
  unfolding parse_rows
  rows-Extends sgl [] rest w real p = ([], w, refl, tt, Extends-refl sgl w, λ k. refl)
  rows-Extends sgl (c ∷ cs) rest w real (p, ps) =
      let (w1, run1, first, ext1, learns1) = row-Extends sgl c w real p in
      let (sgs, w', run, more, ext, learns) =
        rows-Extends sgl cs rest w1 (omega (arith, real, ext1.keeps.grows)) ps in
      (
        w.next ∷ sgs,
        w',
        rw (lines-rows sdk laws c cs rest p, parse_rows, run1) run,
        (ShowsSg-Keeps w1.heap w'.heap w.next c ext.keeps (ext.sgs_kept w.next) first, more),
        Extends-trans sgl w w1 w' (w.next ∷ []) sgs ext1 ext,
        Learns-trans w w1 w' (group_ids c.groups) (content_ids cs) learns1 learns,
      )
