-- ===== src/Graph/Regrouping/Alone.antt =====
-- What a pop of `move_nodes_to_own_ng` keeps: the path with all that it refers to, the groups that
-- are still to be split, and the nodes that have a group of their own.
use graph_slick.Base.{
  ltb, length, length-append, ℕ, suc, ◌≤◌, ◌<◌, ◌≡◌, ◌≢◌, sym, ap, subst, ◌∙◌, inl, inr, Bool-cases,
  some, List, [], ◌∷◌, ◌++◌, arith, All, All-mono, All-append,
}
use mathlib.Core.Option.{some-injective}
use graph_slick.OrdMap.{find, int_ord}
use graph_slick.Heap.{Addr, null, NodeDef, SuperGroup, NodeLoc, GroupMan}
use graph_slick.View.{IsNode, GroupOk, SgOk, LiveSgs}
use graph_slick.Manager.Counts.{count, nodes_count, groups_count}
use graph_slick.Manager.Kept.{addr_cases}
use graph_slick.Graph.Regrouping.Popped.{Popped}
use graph_slick.Graph.Regrouping.Counts.{nodes_kept, groups_kept, own_once}

-- The path super groups are there with all that they refer to, and no group of theirs is at an
-- address that is not yet given out.
pub record IsSound (w : GroupMan) : Type 0 where
  pub live : LiveSgs w.heap w.path_sgl
  pub fresh : (q : Addr) → w.next ≤ q → groups_count w.heap q w.path_sgl ≡ 0

-- the lookups lead from the first node to a super group that stands in the path once
abbrev pub HasHome : GroupMan → List Addr → Type 0
HasHome w [] = Unit
HasHome w (p ∷ _) =
    (d : NodeDef) × (w.nds p ≡ some d)
    × ((loc : NodeLoc) × (find d.nid w.nid2loc ≡ some loc)
        × (loc.sg ≢ null)
        × (count loc.sg w.path_sgl ≡ 1))

-- a group that can be split
abbrev pub IsSplittable : GroupMan → Addr → Type 0
IsSplittable w ng =
    (l : List Addr) × (w.ngs ng ≡ some l)
    × All (IsNode w.heap) l
    × (groups_count w.heap ng w.path_sgl ≡ 1)
    × HasHome w l

-- the node is the only one of a group of the path
abbrev pub IsAlone : GroupMan → Addr → Type 0
IsAlone w p = (g : Addr) × (groups_count w.heap g w.path_sgl ≡ 1) × (w.ngs g ≡ some (p ∷ []))

pub All-append_left :
    {A : Type 0} (P : A → Type 0) (xs ys : List A) → All P (xs ++ ys) → All P xs × All P ys
All-append_left P [] ys h = (tt, h)
All-append_left P (x ∷ xs) ys (hx, h) = let (a, b) = All-append_left P xs ys h in ((hx, a), b)

pub below :
    (w : GroupMan) (ng : Addr) → IsSound w → groups_count w.heap ng w.path_sgl ≡ 1 → ng < w.next
below w ng i once = elim (Bool-cases (ltb ng w.next)) [
  | inl yes_ ↦ ground (arith, yes_)
  | inr no_ ↦
      absurd (zero_one (groups_count w.heap ng w.path_sgl) (i.fresh ng (ground (arith, no_))) once)
]
  where
    zero_one : (n : ℕ) → n ≡ 0 → ¬ (n ≡ 1)
    zero_one n e e' = omega (arith, e, e')

cons_append : (x p : Addr) (xs : List Addr) (q : Addr) → ¬ ((x ∷ xs) ++ p ∷ [] ≡ q ∷ [])
cons_append x p xs q e = omega (arith, ap length e, length-append xs (p ∷ []))

-- A pop from a group with a first node `x` in front of the popped one.
module _ (w w' : GroupMan) (ng sg p x : Addr) (xs : List Addr) (s : SuperGroup)
    (j : Popped w w' ng sg p (x ∷ xs) s) (en : w.ngs ng ≡ some (x ∷ xs ++ p ∷ []))
    (es : w.sgs sg ≡ some s) (nodes : All (IsNode w.heap) (x ∷ xs ++ p ∷ [])) (i : IsSound w)
    (once : groups_count w.heap ng w.path_sgl ≡ 1) (home : count sg w.path_sgl ≡ 1) where
  out : groups_count w.heap w.next w.path_sgl ≡ 0
  out = i.fresh w.next (omega arith)

  IsNode-kept : (q : Addr) → IsNode w.heap q → IsNode w'.heap q
  IsNode-kept q h = (h.0, rw j.nds h.1)

  IsNodes-kept : (l : List Addr) → All (IsNode w.heap) l → All (IsNode w'.heap) l
  IsNodes-kept l h = All-mono (IsNode w.heap) (IsNode w'.heap) l IsNode-kept h

  GroupOk-kept : (q : Addr) → GroupOk (IsNode w.heap) w.heap q → GroupOk (IsNode w'.heap) w'.heap q
  GroupOk-kept q (l, e, h) = elim (addr_cases q ng) [
    | inl here ↦ (
      x ∷ xs,
      rw here j.left,
      IsNodes-kept (x ∷ xs) (All-append_left (IsNode w.heap) (x ∷ xs) (p ∷ []) nodes).0,
    )
    | inr off ↦ elim (addr_cases q w.next) [
      | inl new ↦ (
        p ∷ [],
        rw new j.own,
        IsNodes-kept (p ∷ []) (All-append_left (IsNode w.heap) (x ∷ xs) (p ∷ []) nodes).1,
      )
      | inr old ↦ (l, j.others q off old ∙ e, IsNodes-kept l h)
    ]
  ]

  own_ok : GroupOk (IsNode w'.heap) w'.heap w.next
  own_ok = (
    p ∷ [],
    j.own,
    IsNodes-kept (p ∷ []) (All-append_left (IsNode w.heap) (x ∷ xs) (p ∷ []) nodes).1,
  )

  SgOk-kept : (q : Addr) → SgOk (IsNode w.heap) w.heap q → SgOk (IsNode w'.heap) w'.heap q
  SgOk-kept q (t, e, h) =
      let Ok = GroupOk (IsNode w'.heap) w'.heap in
      let h' = All-mono (GroupOk (IsNode w.heap) w.heap) Ok t.groups GroupOk-kept h in
      elim (addr_cases q sg) [
        | inl here ↦
            let same_cell : t ≡ s = some-injective t s (sym e ∙ ap w.sgs here ∙ es) in
            let h'' = subst (λ (u : SuperGroup). All Ok u.groups) same_cell h' in
            (
              record s { groups = s.groups ++ w.next ∷ [] },
              rw here j.grown,
              All-append Ok s.groups (w.next ∷ []) h'' (own_ok, tt),
            )
        | inr away ↦ (t, j.sgs_same q away ∙ e, h')
      ]

  pub IsSound-kept : IsSound w'
  IsSound-kept = record {
    live = rw j.path_sgl (
        All-mono (SgOk (IsNode w.heap) w.heap) (SgOk (IsNode w'.heap) w'.heap) w.path_sgl SgOk-kept
          i.live);
    fresh = λ q le.
        let far : suc w.next ≤ q = subst (λ (n : ℕ). n ≤ q) j.next le in
        groups_kept w w' ng sg p (x ∷ xs) s j en es q (ground (arith, far))
        ∙ i.fresh q (omega (arith, far));
  }

  pub kept_nodes : All (IsNode w'.heap) (x ∷ xs)
  kept_nodes = IsNodes-kept (x ∷ xs) (All-append_left (IsNode w.heap) (x ∷ xs) (p ∷ []) nodes).0

  HasHome-kept : (l : List Addr) → HasHome w l → HasHome w' l
  HasHome-kept [] h = tt
  HasHome-kept (q ∷ l) (d, e, (loc, found, real, here)) =
      (d, rw j.nds e, (loc, rw j.nid2loc found, real, rw j.path_sgl here))

  pub group_once :
      (q : Addr) → groups_count w.heap q w.path_sgl ≡ 1 → groups_count w'.heap q w'.path_sgl ≡ 1
  group_once q e =
      let old : q < w.next = below w q i e in
      groups_kept w w' ng sg p (x ∷ xs) s j en es q (ground (arith, old)) ∙ e

  pub IsSplittable-kept : (q : Addr) → IsSplittable w q → IsSplittable w' q
  IsSplittable-kept q (l, e, h, one, at_home) =
      let old : q < w.next = below w q i one in
      elim (addr_cases q ng) [
        | inl here ↦
            let same_list = some-injective l (x ∷ xs ++ p ∷ []) (sym e ∙ ap w.ngs here ∙ en) in
            (
              x ∷ xs,
              rw here j.left,
              IsNodes-kept (x ∷ xs) (All-append_left (IsNode w.heap) (x ∷ xs) (p ∷ []) nodes).0,
              group_once q one,
              HasHome-kept (x ∷ []) (subst (HasHome w) same_list at_home),
            )
        | inr off ↦ (
          l,
          j.others q off (ground (arith, old)) ∙ e,
          IsNodes-kept l h,
          group_once q one,
          HasHome-kept l at_home,
        )
      ]

  pub IsAlone-kept : (q : Addr) → IsAlone w q → IsAlone w' q
  IsAlone-kept q (g, one, e) =
      let old : g < w.next = below w g i one in
      elim (addr_cases g ng) [
        | inl here ↦ absurd (
            cons_append x p xs q
              (some-injective (x ∷ xs ++ p ∷ []) (q ∷ []) (sym en ∙ ap w.ngs (sym here) ∙ e)))
        | inr off ↦ (g, group_once g one, j.others g off (ground (arith, old)) ∙ e)
      ]

  pub own_IsAlone : IsAlone w' p
  own_IsAlone = (w.next, own_once w w' ng sg p (x ∷ xs) s j en es out home, j.own)

  pub popped_nodes :
      (a : Addr) → nodes_count w'.heap a w'.path_sgl ≡ nodes_count w.heap a w.path_sgl
  popped_nodes a = nodes_kept w w' ng sg p (x ∷ xs) s j en es a out once home
