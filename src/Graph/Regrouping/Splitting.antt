-- ===== src/Graph/Regrouping/Splitting.antt =====
-- `move_nodes_to_own_ng` of plugin.cpp in the combined view mode.
use mathlib.Core.List.{reverse}
use mathlib.Core.List.{reverse-cons, reverse-reverse}
use graph_slick.Base.{
  ℕ, ◌≤◌, ◌<◌, ◌≡◌, ◌≢◌, refl, sym, ap, subst, ◌∙◌, true, false, inl, inr, Bool-cases, some, List,
  [], ◌∷◌, ◌++◌, arith, ◌==◌, All, All-append, ℤ, length,
}
use graph_slick.OrdMap.{int_ord}
use graph_slick.Heap.{Addr, null, SuperGroup, GroupMan, ok}
use graph_slick.Heap.Laws.{load_nd-ok, load_ng-ok, store_ng-ok}
use graph_slick.View.{IsNode, SgOk}
use graph_slick.Groups.{get_first_node}
use graph_slick.Manager.{find_nodeid_loc}
use graph_slick.Manager.Counts.{count, nodes_count, groups_count}
use graph_slick.Graph.{GraphView}
use graph_slick.Graph.Regrouping.{pop_nodes, split_group}
use graph_slick.Graph.Regrouping.Popped.{Popped, pop-Popped}
use graph_slick.Graph.Regrouping.Alone.{
  IsSound, HasHome, IsSplittable, IsAlone, All-append_left, below, kept_nodes, group_once,
  IsSound-kept, IsSplittable-kept, IsAlone-kept, own_IsAlone, popped_nodes,
}

-- from `w` to `w'` no node of the path is lost or doubled, and of the groups that there were only
-- `ng` changes
pub record Splits (w w' : GroupMan) (ng : Addr) : Type 0 where
  pub sound : IsSound w'
  pub nodes : (a : Addr) → nodes_count w'.heap a w'.path_sgl ≡ nodes_count w.heap a w.path_sgl
  pub splittable : (q : Addr) → IsSplittable w q → IsSplittable w' q
  pub alone : (q : Addr) → IsAlone w q → IsAlone w' q
  pub others : (q : Addr) → q < w.next → q ≢ ng → w'.ngs q ≡ w.ngs q
  pub next_up : w.next ≤ w'.next
  pub path_same : w'.path_sgl ≡ w.path_sgl

Splits-refl : (w : GroupMan) (ng : Addr) → IsSound w → Splits w w ng
Splits-refl w ng i = record {
  sound = i;
  nodes = λ a. refl;
  splittable = λ q h. h;
  alone = λ q h. h;
  others = λ q lt ne. refl;
  next_up = omega arith;
  path_same = refl;
}

Splits-trans : (w w1 w2 : GroupMan) (ng : Addr) → Splits w w1 ng → Splits w1 w2 ng → Splits w w2 ng
Splits-trans w w1 w2 ng a b = record {
  sound = b.sound;
  nodes = λ x. b.nodes x ∙ a.nodes x;
  splittable = λ q h. b.splittable q (a.splittable q h);
  alone = λ q h. b.alone q (a.alone q h);
  others = λ q lt ne. b.others q (omega (arith, lt, a.next_up)) ne ∙ a.others q lt ne;
  next_up = omega (arith, a.next_up, b.next_up);
  path_same = b.path_same ∙ a.path_same;
}

-- the list that ends with `q` has a first element
first_of : (l : List Addr) (q : Addr) → (x : Addr) × (xs : List Addr) × (l ++ q ∷ [] ≡ x ∷ xs)
first_of [] q = (q, [], refl)
first_of (y ∷ l) q = (y, l ++ q ∷ [], refl)

pop_nodes-Splits :
    (ng sg : Addr) (m : List Addr) (v : GraphView) (w : GroupMan) (s : SuperGroup)
    → IsSound w
    → w.ngs ng ≡ some (reverse m)
    → All (IsNode w.heap) (reverse m)
    → groups_count w.heap ng w.path_sgl ≡ 1
    → count sg w.path_sgl ≡ 1
    → w.sgs sg ≡ some s
    → (f : ℤ) × (w' : GroupMan) × (pop_nodes ng sg m v w ≡ ok (tt, record v { focus_node = f }) w')
      × Splits w w' ng
      × All (IsAlone w') (reverse m)
unfolding pop_nodes
pop_nodes-Splits ng sg [] v w s i en nodes once home es =
    (v.focus_node, w, refl, Splits-refl w ng i, tt)
pop_nodes-Splits ng sg (p ∷ []) v w s i en nodes once home es =
    (v.focus_node, w, refl, Splits-refl w ng i, ((ng, once, en), tt))
pop_nodes-Splits ng sg (p ∷ q ∷ front) v w s i en nodes once home es =
    let (x, xs, shape0) = first_of (reverse front) q in
    let shape : reverse (q ∷ front) ≡ x ∷ xs = reverse-cons q front ∙ shape0 in
    let full : reverse (p ∷ q ∷ front) ≡ x ∷ xs ++ p ∷ [] =
      reverse-cons p (q ∷ front) ∙ ap (λ (l : List Addr). l ++ p ∷ []) shape in
    let en1 = en ∙ ap some full in
    let nodes1 = subst (All (IsNode w.heap)) full nodes in
    let ((ne, (d, ep)), _) = (All-append_left (IsNode w.heap) (x ∷ xs) (p ∷ []) nodes1).1 in
    let old : ng < w.next = below w ng i once in
    let (w1, run1, j0) =
      pop-Popped v w ng sg p (reverse (q ∷ front)) s d (ground (arith, old)) ne es ep in
    let j : Popped w w1 ng sg p (x ∷ xs) s =
      subst (λ (k : List Addr). Popped w w1 ng sg p k s) shape j0 in
    let i1 = IsSound-kept w w1 ng sg p x xs s j en1 es nodes1 i once home in
    let v1 : GraphView = record v { focus_node = d.nid } in
    let (f, w2, run2, sp, al) =
      pop_nodes-Splits ng sg (q ∷ front) v1 w1 (record s { groups = s.groups ++ w.next ∷ [] }) i1
        j0.left
        (subst (All (IsNode w1.heap)) (sym shape)
          (kept_nodes w w1 ng sg p x xs s j en1 es nodes1 i once home))
        (group_once w w1 ng sg p x xs s j en1 es nodes1 i once home ng once) (rw j.path_sgl home)
        j.grown in
    let sp1 : Splits w w1 ng = record {
      sound = i1;
      nodes = popped_nodes w w1 ng sg p x xs s j en1 es nodes1 i once home;
      splittable = IsSplittable-kept w w1 ng sg p x xs s j en1 es nodes1 i once home;
      alone = IsAlone-kept w w1 ng sg p x xs s j en1 es nodes1 i once home;
      others = λ a lt off. j.others a off (ground (arith, lt));
      next_up = rw j.next (omega arith);
      path_same = j.path_sgl;
    } in
    (
      f,
      w2,
      rw (store_ng-ok w ng (reverse (q ∷ front)) en, run1) run2,
      Splits-trans w w1 w2 ng sp1 sp,
      subst (All (IsAlone w2)) (sym (reverse-cons p (q ∷ front))) (
          All-append (IsAlone w2) (reverse (q ∷ front)) (p ∷ []) al
            (sp.alone p (own_IsAlone w w1 ng sg p x xs s j en1 es nodes1 i once home), tt)),
    )

-- a super group that stands in a list
count-All : (P : Addr → Type 0) (a : Addr) (xs : List Addr) → All P xs → count a xs ≡ 1 → P a
count-All P a [] h one = absurd (omega (arith, one))
count-All P a (x ∷ xs) (hx, h) one = elim (Bool-cases (x == a)) [
  | inl e ↦ subst P (eq_of x a e) hx
  | inr ne ↦ count-All P a xs h (ground (arith, ne, one))
]
  where
    eq_of : (x a : ℕ) → (x == a) ≡ true → x ≡ a
    eq_of x a e = ground arith

pub split_group-Splits :
    (ng : Addr) (l : List Addr) (v : GraphView) (w : GroupMan)
    → IsSound w
    → w.ngs ng ≡ some l
    → All (IsNode w.heap) l
    → groups_count w.heap ng w.path_sgl ≡ 1
    → HasHome w l
    → (f : ℤ) × (w' : GroupMan) × (split_group ng v w ≡ ok (tt, record v { focus_node = f }) w')
      × Splits w w' ng
      × All (IsAlone w') l
unfolding get_first_node find_nodeid_loc
split_group-Splits ng [] v w i en nodes once home =
    (v.focus_node, w, rw (load_ng-ok w ng en, load_ng-ok w ng en) refl, Splits-refl w ng i, tt)
split_group-Splits ng (p ∷ []) v w i en nodes once home = (
  v.focus_node,
  w,
  rw (load_ng-ok w ng en, load_ng-ok w ng en) refl,
  Splits-refl w ng i,
  ((ng, once, en), tt),
)
split_group-Splits ng (p ∷ q ∷ l) v w i en ((ne, _), nodes) once (d, ep, (loc, found, real, home)) =
    let all = p ∷ q ∷ l in
    let back = sym (reverse-reverse all) in
    let (s, es, _) = count-All (SgOk (IsNode w.heap) w.heap) loc.sg w.path_sgl i.live home in
    let (f, w', run, sp, al) =
      pop_nodes-Splits ng loc.sg (reverse all) v w s i (en ∙ ap some back)
        (subst (All (IsNode w.heap)) back ((ne, (d, ep)), nodes)) once home es in
    let first : (p == null) ≡ false = ground (arith, ne) in
    let many : (length all == 1) ≡ false = ground arith in
    let there : (loc.sg == null) ≡ false = ground (arith, real) in
    (
      f,
      w',
      rw (load_ng-ok w ng en, load_ng-ok w ng en, many, first, load_nd-ok w p ep, found, there) run,
      sp,
      subst (All (IsAlone w')) (reverse-reverse all) al,
    )
