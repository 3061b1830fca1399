-- ===== src/Graph/Usable.antt =====
-- Iterators of a colour map that are at the end or at an entry: a jump leaves them so.
use graph_slick.Base.{
  ℕ, ◌≡◌, refl, sym, ap, subst, ◌∙◌, false, Bool-cases, inl, inr, some, [], ◌∷◌, ◌++◌, arith, ℤ,
  is_empty,
}
use mathlib.Core.List.{append_assoc}
use mathlib.Core.Option.{some_inj}
use graph_slick.OrdMap.{Map, same, find, int_ord}
use graph_slick.OrdMap.Laws.{same_iff, same_refl}
use graph_slick.OrdMap.Sorted.{IsSorted, Above-append}
use graph_slick.Graph.{Cursor, at, at_end, dangling}
use graph_slick.Graph.Select.{begin_of, step_cursor}
use graph_slick.Graph.Jumps.{step-middle}

-- the iterator is at the end or at an entry of the map
abbrev pub IsUsable : Cursor → Map ℤ ℕ → Type 0
IsUsable at_end m = Unit
IsUsable dangling m = ⊥
IsUsable (at k) m = (c : ℕ) × (find k m ≡ some c)

find-middle :
    (before : Map ℤ ℕ) (k : ℤ) (c : ℕ) (after : Map ℤ ℕ)
    → IsSorted (before ++ (k, c) ∷ after)
    → find k (before ++ (k, c) ∷ after) ≡ some c
unfolding find
find-middle [] k c after h = rw (same_refl k) refl
find-middle ((j, d) ∷ before) k c after (up, h) =
    let apart : same k j ≡ false = ground (arith, Above-append j k c before after up) in
    rw apart (find-middle before k c after h)

begin_of-IsUsable :
    (before after : Map ℤ ℕ)
    → IsSorted (before ++ after)
    → IsUsable (begin_of after) (before ++ after)
begin_of-IsUsable before [] h = tt
begin_of-IsUsable before ((k, c) ∷ after) h = (c, find-middle before k c after h)

split_of :
    (m : Map ℤ ℕ) (k : ℤ) (c : ℕ)
    → find k m ≡ some c
    → (before : Map ℤ ℕ) × (after : Map ℤ ℕ) × (m ≡ before ++ (k, c) ∷ after)
unfolding find
split_of [] k c e = ground (arith, e)
split_of ((j, d) ∷ m) k c e = elim (Bool-cases (same k j)) [
  | inl here ↦
      let there : some d ≡ some c = rw here at e in
      ([], m, rw ((same_iff k j).0 here, some_inj.0 there) refl)
  | inr apart ↦
      let there : find k m ≡ some c = rw apart at e in
      let (before, after, cut) = split_of m k c there in
      ((j, d) ∷ before, after, ap (λ (l : Map ℤ ℕ). (j, d) ∷ l) cut)
]

-- a jump from a usable iterator
pub step_cursor-IsUsable :
    (c : Cursor) (m : Map ℤ ℕ)
    → IsSorted m
    → is_empty m ≡ false
    → IsUsable c m
    → (k : ℤ) × (c' : Cursor) × (step_cursor c m ≡ some (k, c')) × IsUsable c' m
unfolding step_cursor
step_cursor-IsUsable at_end [] h some_node u = ground (arith, some_node)
step_cursor-IsUsable at_end ((k, c) ∷ m) h some_node u =
    (k, begin_of m, refl, begin_of-IsUsable ((k, c) ∷ []) m h)
step_cursor-IsUsable dangling m h some_node u = absurd u
step_cursor-IsUsable (at k) m h some_node (c, here) =
    let (before, after, cut) = split_of m k c here in
    let sorted = subst IsSorted cut h in
    let split = sym (append_assoc before ((k, c) ∷ []) after) in
    (
      k,
      begin_of after,
      subst (λ (l : Map ℤ ℕ). step_cursor (at k) l ≡ some (k, begin_of after)) (sym cut)
          (step-middle before k c after sorted),
      subst (IsUsable (begin_of after)) (sym (cut ∙ split))
          (begin_of-IsUsable (before ++ (k, c) ∷ []) after (subst IsSorted split sorted)),
    )
