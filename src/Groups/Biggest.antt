-- ===== src/Groups/Biggest.antt =====
-- `find_biggest` finds the group with the most nodes.
use graph_slick.Base.{
  ℕ, ◌≤◌, ◌≡◌, ◌≢◌, ap, refl, inl, inr, false, some, List, [], ◌∷◌, arith, ◌==◌, ltb, length, All,
  Bool-cases,
}
use mathlib.Core.List.{Memᴰ}
use mathlib.Core.List.Memᴰ
use graph_slick.Heap.{Addr, null, Heap, GroupMan, ok, load_ng}
use graph_slick.View.{members, members-eq}
use graph_slick.Groups.{biggest_from, find_biggest}

abbrev pub size : Heap → Addr → ℕ
size h ng = length (members h ng)

-- a group that is there: not NULL, not deleted
abbrev pub IsGroup : Heap → Addr → Type 0
IsGroup h ng = (ng ≢ null) × ((l : List Addr) × (h.ngs ng ≡ some l))

abbrev AtMost : Heap → Addr → List Addr → Type 0
AtMost h b = All λ ng. size h ng ≤ size h b

module _ (w : GroupMan) where
  biggest_from-lem :
      (best : Addr) (ngl : List Addr)
      → IsGroup w.heap best
      → All (IsGroup w.heap) ngl
      → (b : Addr) × (biggest_from best ngl w ≡ ok b w)
        × Memᴰ b (best ∷ ngl)
        × AtMost w.heap b (best ∷ ngl)
  unfolding biggest_from load_ng
  biggest_from-lem best [] g gs = (best, refl, Memᴰ.head refl, (omega arith, tt))
  biggest_from-lem best (ng ∷ ngl) (ne, (l, e)) ((ne', (l', e')), gs) =
      let real : (best == null) ≡ false = ground arith in
      let old = members-eq w.heap best e in
      let new = members-eq w.heap ng e' in
      elim (Bool-cases (ltb (length l) (length l'))) [
        | inl bigger ↦
            let (b, r, m, (at, rest)) = biggest_from-lem ng ngl (ne', (l', e')) gs in
            (
              b,
              rw (real, e, e', bigger) r,
              Memᴰ.tail m,
              (
                ground (arith, old, new, ap (length {A = Addr}) old, ap (length {A = Addr}) new),
                (at, rest),
              ),
            )
        | inr not_bigger ↦
            let (b, r, m, (at, rest)) = biggest_from-lem best ngl (ne, (l, e)) gs in
            (
              b,
              rw (real, e, e', not_bigger) r,
              elim (Memᴰ.cases_cons m) [
                | inl here ↦ Memᴰ.head here
                | inr later ↦ Memᴰ.tail (Memᴰ.tail later)
              ],
              (at, (ground (arith, ap (length {A = Addr}) old, ap (length {A = Addr}) new), rest)),
            )
      ]

  -- Of a list of groups that are there, `find_biggest` returns a member that no other exceeds in
  -- nodes; nothing changes.
  pub find_biggest_lem :
      (ng : Addr) (ngl : List Addr)
      → All (IsGroup w.heap) (ng ∷ ngl)
      → (b : Addr) × (find_biggest (ng ∷ ngl) w ≡ ok b w)
        × Memᴰ b (ng ∷ ngl)
        × All (λ g. size w.heap g ≤ size w.heap b) (ng ∷ ngl)
  unfolding find_biggest
  find_biggest_lem ng ngl (g, gs) = biggest_from-lem ng ngl g gs
