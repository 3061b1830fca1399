-- ===== src/Graph/Regrouping/Counts.antt =====
-- How the counts of nodes and groups change when a node gets a group of its own.
use graph_slick.Base.{
  ℕ, ◌+◌, ◌*◌, ◌≡◌, ◌≢◌, refl, sym, ap, ◌∙◌, true, false, inl, inr, Bool-cases, some, List, [], ◌∷◌,
  ◌++◌, arith, ◌==◌,
}
use graph_slick.Heap.{Addr, SuperGroup, GroupMan}
use graph_slick.View.{members, groups_of, members-eq, groups_of-eq, members_congr, groups_of_congr}
use graph_slick.Manager.Counts.{count, count-append, sum_of, in_groups, nodes_count, groups_count}
use graph_slick.Graph.Regrouping.Popped.{Popped, sum_of-loss}

sum_of-append : (f : Addr → ℕ) (xs ys : List Addr) → sum_of f (xs ++ ys) ≡ sum_of f xs + sum_of f ys
sum_of-append f [] ys = omega arith
sum_of-append f (x ∷ xs) ys = omega (arith, sum_of-append f xs ys)

module _ (w w' : GroupMan) (ng sg p : Addr) (kept : List Addr) (s : SuperGroup)
    (j : Popped w w' ng sg p kept s) (en : w.ngs ng ≡ some (kept ++ p ∷ []))
    (es : w.sgs sg ≡ some s) where
  groups_grown : groups_of w'.heap sg ≡ groups_of w.heap sg ++ w.next ∷ []
  groups_grown =
      groups_of-eq w'.heap sg j.grown
      ∙ ap (λ (l : List Addr). l ++ w.next ∷ []) (sym (groups_of-eq w.heap sg es))

  groups_same : (q : Addr) → q ≢ sg → groups_of w'.heap q ≡ groups_of w.heap q
  groups_same q away = groups_of_congr w.heap w'.heap q (j.sgs_same q away)

  in_groups-loss :
      (a : Addr) (gs : List Addr)
      → count w.next gs ≡ 0
      → in_groups w'.heap a gs + count a (p ∷ []) * count ng gs ≡ in_groups w.heap a gs
  in_groups-loss a gs out =
      sum_of-loss (λ q. count a (members w.heap q)) (λ q. count a (members w'.heap q)) ng w.next
        (count a (p ∷ [])) gs
        (rw (members-eq w'.heap ng j.left, members-eq w.heap ng en)
          (sym (count-append a kept (p ∷ []))))
        (λ q off out'. ap (count a) (members_congr w.heap w'.heap q (j.others q off out'))) out

  own_count : (a : Addr) → in_groups w'.heap a (w.next ∷ []) ≡ count a (p ∷ [])
  own_count a = rw (members-eq w'.heap w.next j.own) (omega arith)

  nodes_count-popped :
      (a : Addr) (sgs : List Addr)
      → groups_count w.heap w.next sgs ≡ 0
      → nodes_count w'.heap a sgs + count a (p ∷ []) * groups_count w.heap ng sgs
        ≡ nodes_count w.heap a sgs + count a (p ∷ []) * count sg sgs
  nodes_count-popped a [] out = omega arith
  nodes_count-popped a (x ∷ sgs) out =
      let rest = nodes_count-popped a sgs (omega (arith, out)) in
      let loss = in_groups-loss a (groups_of w.heap x) (omega (arith, out)) in
      elim (Bool-cases (x == sg)) [
        | inl here ↦
            let e : x ≡ sg = ground arith in
            let gs = groups_of w.heap x in
            let grown : groups_of w'.heap x ≡ gs ++ w.next ∷ [] =
              ap (groups_of w'.heap) e
              ∙ groups_grown
              ∙ ap (λ (q : Addr). groups_of w.heap q ++ w.next ∷ []) (sym e) in
            let more = sum_of-append (λ q. count a (members w'.heap q)) gs (w.next ∷ []) in
            rw (here, grown) (omega (arith, rest, loss, more, own_count a))
        | inr away ↦ rw (away, groups_same x (ground arith)) (omega (arith, rest, loss))
      ]

  -- where both stand in the path once, no node is lost or doubled
  pub nodes_kept :
      (a : Addr)
      → groups_count w.heap w.next w.path_sgl ≡ 0
      → groups_count w.heap ng w.path_sgl ≡ 1
      → count sg w.path_sgl ≡ 1
      → nodes_count w'.heap a w'.path_sgl ≡ nodes_count w.heap a w.path_sgl
  nodes_kept a out once home = rw j.path_sgl (
      omega (
        arith,
        nodes_count-popped a w.path_sgl out,
        ap (λ (t : ℕ). count a (p ∷ []) * t) once,
        ap (λ (t : ℕ). count a (p ∷ []) * t) home,
      ))

  groups_count-popped :
      (x : Addr) (sgs : List Addr)
      → groups_count w'.heap x sgs
        ≡ groups_count w.heap x sgs + count x (w.next ∷ []) * count sg sgs
  groups_count-popped x [] = omega arith
  groups_count-popped x (y ∷ sgs) =
      let rest = groups_count-popped x sgs in
      elim (Bool-cases (y == sg)) [
        | inl here ↦
            let e : y ≡ sg = ground arith in
            let gs = groups_of w.heap y in
            let grown : groups_of w'.heap y ≡ gs ++ w.next ∷ [] =
              ap (groups_of w'.heap) e
              ∙ groups_grown
              ∙ ap (λ (q : Addr). groups_of w.heap q ++ w.next ∷ []) (sym e) in
            rw (here, grown) (omega (arith, rest, count-append x gs (w.next ∷ [])))
        | inr away ↦ rw (away, groups_same y (ground arith)) (omega (arith, rest))
      ]

  pub groups_kept :
      (x : Addr)
      → x ≢ w.next
      → groups_count w'.heap x w'.path_sgl ≡ groups_count w.heap x w.path_sgl
  groups_kept x other =
      let z : (w.next == x) ≡ false = ground (arith, other) in
      let e : count x (w.next ∷ []) ≡ 0 = rw z refl in
      rw j.path_sgl
        (omega (arith, groups_count-popped x w.path_sgl, ap (λ (t : ℕ). t * count sg w.path_sgl) e))

  pub own_once :
      groups_count w.heap w.next w.path_sgl ≡ 0
      → count sg w.path_sgl ≡ 1
      → groups_count w'.heap w.next w'.path_sgl ≡ 1
  own_once out home =
      let z : (w.next == w.next) ≡ true = ground arith in
      let e : count w.next (w.next ∷ []) ≡ 1 = rw z refl in
      rw j.path_sgl (
        omega (
          arith,
          groups_count-popped w.next w.path_sgl,
          out,
          home,
          ap (λ (t : ℕ). t * count sg w.path_sgl) e,
        ))
