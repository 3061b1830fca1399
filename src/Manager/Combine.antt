-- ===== src/Manager/Combine.antt =====
-- `combine_ngl` as a whole: it does not fault, and it keeps every node.
use graph_slick.Base.{
  ◌≡◌, ◌≢◌, subst, sym, refl, false, List, [], ◌∷◌, arith, ◌==◌, inr, ◌⊎◌, All, All-mono,
  All-lookup,
}
use mathlib.Core.List.{Memᴰ}
use graph_slick.Heap.{Addr, null, GroupMan, ok}
use graph_slick.View.{members, IsNode, GroupOk, SgOk, LiveSgs, locations}
use graph_slick.Groups.Biggest.{IsGroup, find_biggest_lem}
use graph_slick.Manager.Counts.{nodes_count, groups_count}
use graph_slick.Manager.Kept.{Located}
use graph_slick.Manager.Lookups.{index, initialize_lookups-index}
use graph_slick.Manager.Regroup.{combine_ngl}
use graph_slick.Manager.Rounds.{Target, Ready, combine_loop-Outcome}

LiveSgs-Located :
    (w : GroupMan) (sgs : List Addr) → All (SgOk (Located w) w.heap) sgs → LiveSgs w.heap sgs
LiveSgs-Located w sgs h =
    All-mono (SgOk (Located w) w.heap) (SgOk (IsNode w.heap) w.heap) sgs
      (λ sg (s, e, gs). (
        s,
        e,
        All-mono (GroupOk (Located w) w.heap) (GroupOk (IsNode w.heap) w.heap) s.groups
            (λ ng (l, e', ns). (
              l,
              e',
              All-mono (Located w) (IsNode w.heap) l (λ p (ne, (d, e'', _)). (ne, (d, e''))) ns,
            ))
            gs,
      ))
      h

-- What a caller gives: the path super groups are there with all that they refer to, every node's id
-- is in the lookups, and each group of the list stands in the path super groups once.
pub record Combinable (w : GroupMan) (ngl : List Addr) : Type 0 where
  pub live : All (SgOk (Located w) w.heap) w.path_sgl
  pub targets :
      All
        (λ ng.
          (ng ≢ null) × GroupOk (Located w) w.heap ng × (groups_count w.heap ng w.path_sgl ≡ 1))
        ngl

-- What it gets back.
pub record Combines (w w' : GroupMan) (dest : Addr) (ngl : List Addr) : Type 0 where
  pub chosen : Memᴰ dest ngl
  pub nodes : (a : Addr) → nodes_count w'.heap a w'.path_sgl ≡ nodes_count w.heap a w.path_sgl
  pub emptied : All (λ q. (q ≡ dest) ⊎ (members w'.heap q ≡ [])) ngl
  pub others : (q : Addr) → ¬ Memᴰ q ngl → members w'.heap q ≡ members w.heap q
  pub live : LiveSgs w'.heap w'.path_sgl

-- Combining groups of the path does not fault and returns one of them. Every node stands in the
-- path super groups as often as before, the other groups of the list are empty, and the groups
-- outside the list have the nodes that they had.
pub combine_ngl-Combines :
    (w : GroupMan) (ng : Addr) (ngl : List Addr)
    → Combinable w (ng ∷ ngl)
    → (dest : Addr) × (w' : GroupMan) × (combine_ngl (ng ∷ ngl) w ≡ ok dest w')
      × Combines w w' dest (ng ∷ ngl)
unfolding combine_ngl
combine_ngl-Combines w ng ngl given =
    let all = ng ∷ ngl in
    let Given = λ (q : Addr).
      (q ≢ null) × GroupOk (Located w) w.heap q × (groups_count w.heap q w.path_sgl ≡ 1) in
    let groups =
      All-mono Given (IsGroup w.heap) all (λ q (ne, (l, e, _), _). (ne, (l, e))) given.targets in
    let (dest, chosen_run, chosen, _) = find_biggest_lem w ng ngl groups in
    let (dest_real, dest_ok, dest_once) = All-lookup Given all dest given.targets chosen in
    let ready : Ready w dest all = record {
      live = given.live;
      dest_ok = dest_ok;
      dest_once = dest_once;
      targets = All-mono Given (Target w) all (λ q (_, g, one). (g, inr one)) given.targets;
    } in
    let (w1, run, o) = combine_loop-Outcome dest all w ready in
    let live = LiveSgs-Located w1 w1.path_sgl o.ready.live in
    let real : (dest == null) ≡ false = ground (arith, dest_real) in
    (
      dest,
      record w1 { nid2loc = index w1.heap (locations w1.heap w1.path_sgl) [] },
      rw (chosen_run, real, run, initialize_lookups-index w1 live) refl,
      record {
        chosen = chosen;
        nodes = o.keeps.nodes;
        emptied = o.emptied;
        others = λ q out.
            o.keeps.others q (λ e. out (subst (λ (x : Addr). Memᴰ x all) (sym e) chosen)) out;
        live = live;
      },
    )
