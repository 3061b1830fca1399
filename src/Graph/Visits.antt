-- ===== src/Graph/Visits.antt =====
-- The jumps through the selection reach every selected node, wherever the iterator stands.
use graph_slick.Base.{
  ℕ, zero, suc, ◌+◌, ◌*◌, ◌≤◌, ◌≡◌, refl, subst, List, [], ◌∷◌, ◌++◌, arith, ℤ, length,
  length-append,
}
use mathlib.Core.List.{append_assoc}
use graph_slick.OrdMap.{Map, int_ord}
use graph_slick.OrdMap.Sorted.{IsSorted}
use graph_slick.Heap.{GroupMan, Run, ok, fault, and_then}
use graph_slick.Graph.{Cursor, at_end, Event, jumped, GraphView}
use graph_slick.Graph.Select.{begin_of, jump_to_next_selected}
use graph_slick.Graph.Jumps.{jumps, jumps_to, jumps_lem, walk, walked}

-- the iterator is at the end or at an entry of the map
abbrev pub IsValid : Cursor → Map ℤ ℕ → Type 0
IsValid c m = (before : Map ℤ ℕ) × (after : Map ℤ ℕ) × (m ≡ before ++ after) × (c ≡ begin_of after)

abbrev more : ℕ → Run (Unit {0} × GraphView) → Run (Unit {0} × GraphView)
more m r = and_then r (λ (_, v). jumps m v)

more-jumps :
    (n m : ℕ) (r : Run (Unit {0} × GraphView))
    → ((v : GraphView) (w : GroupMan) → jumps (n + m) v w ≡ more m (jumps n v w))
    → more (n + m) r ≡ more m (more n r)
more-jumps n m (ok (_, v) w) h = h v w
more-jumps n m fault h = refl

jumps_add : (n m : ℕ) (v : GraphView) (w : GroupMan) → jumps (n + m) v w ≡ more m (jumps n v w)
jumps_add zero m v w = let e : 0 + m ≡ m = omega arith in rw e refl
jumps_add (suc n) m v w =
    let e : suc n + m ≡ suc (n + m) = omega arith in
    rw e (more-jumps n m (jump_to_next_selected v w) (jumps_add n m))

-- the event of an entry is among the jumps
jumps_to-append :
    (before : Map ℤ ℕ) (k : ℤ) (c : ℕ) (after : Map ℤ ℕ)
    → jumps_to (before ++ (k, c) ∷ after) ≡ jumps_to before ++ jumped k ∷ jumps_to after
jumps_to-append [] k c after = refl
jumps_to-append (_ ∷ before) k c after = rw (jumps_to-append before k c after) refl

-- From an iterator at the end or at an entry, each selected node is jumped to after at most as many
-- jumps as twice the number of selected nodes; none of them faults.
pub jumps_visit :
    (v : GraphView) (w : GroupMan) (before : Map ℤ ℕ) (k : ℤ) (c : ℕ) (after : Map ℤ ℕ)
    → IsSorted v.selected_nodes
    → IsValid v.it_selected_node v.selected_nodes
    → v.selected_nodes ≡ before ++ (k, c) ∷ after
    → (n : ℕ) × (n ≤ 2 * length v.selected_nodes)
      × ((v' : GraphView) × (jumps n v w ≡ ok (tt, v') w)
          × ((es : List Event) × (es' : List Event) × (v'.events
                ≡ v.events ++ es ++ jumped k ∷ es')))
jumps_visit v w before k c after h (front, back, cut, it) split =
    let v1 : GraphView = walked v at_end (jumps_to back) in
    let first = walk front back v w (subst IsSorted cut h) cut it in
    let second = jumps_lem v1 w h refl in
    let all = length v.selected_nodes in
    let total : length v.selected_nodes ≡ length front + length back =
      rw cut (length-append front back) in
    (
      length back + all,
      omega (arith, total),
      (
        walked v1 at_end (jumps_to v.selected_nodes),
        rw (jumps_add (length back) all v w, first, second) refl,
        (
          jumps_to back ++ jumps_to before,
          jumps_to after,
          rw (split, jumps_to-append before k c after) (simp (append_assoc)),
        ),
      ),
    )
