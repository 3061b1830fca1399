-- ===== src/Manager/Known.antt =====
-- Which ids the map of all nodes (`all_nodes` of groupman.h) has.
use graph_slick.Base.{
  ◌≡◌, refl, ap, ◌∙◌, Bool, true, false, ◌||◌, Option, none, some, List, [], ◌∷◌, ◌++◌, arith, ℤ,
}
use graph_slick.OrdMap.{Map, find, insert, same, int_ord}
use graph_slick.OrdMap.Laws.{find-insert}
use graph_slick.Heap.{Addr, GroupMan}

abbrev pub mem_id : ℤ → List ℤ → Bool
mem_id k [] = false
mem_id k (n ∷ ns) = same k n || mem_id k ns

abbrev pub is_some : {A : Type 0} → Option A → Bool
is_some none = false
is_some (some _) = true

-- the map of nodes got these ids and no others
abbrev pub Learns : GroupMan → GroupMan → List ℤ → Type 0
Learns w w' ids =
    (k : ℤ) → is_some (find k w'.all_nodes) ≡ (mem_id k ids || is_some (find k w.all_nodes))

pub mem_id-append : (k : ℤ) (xs ys : List ℤ) → mem_id k (xs ++ ys) ≡ (mem_id k xs || mem_id k ys)
mem_id-append k [] ys = refl
mem_id-append k (x ∷ xs) ys = ground (arith, mem_id-append k xs ys)

pub Learns-trans :
    (u v w : GroupMan) (xs ys : List ℤ) → Learns u v xs → Learns v w ys → Learns u w (xs ++ ys)
Learns-trans u v w xs ys f g k =
    rw (mem_id-append k xs ys, g k, f k)
      (swap (mem_id k xs) (mem_id k ys) (is_some (find k u.all_nodes)))
  where
    swap : (a b c : Bool) → (b || (a || c)) ≡ ((a || b) || c)
    swap true true c = refl
    swap true false c = refl
    swap false true c = refl
    swap false false c = refl

pub insert-Learns :
    (w w' : GroupMan) (nid : ℤ) (p : Addr)
    → w'.all_nodes ≡ insert nid p w.all_nodes
    → Learns w w' (nid ∷ [])
insert-Learns w w' nid p e k = rw (e, find-insert k nid p w.all_nodes) (ground arith)

-- a run from a manager with the same map
pub Learns-from :
    (u v w : GroupMan) (ids : List ℤ) → v.all_nodes ≡ u.all_nodes → Learns v w ids → Learns u w ids
Learns-from u v w ids same_map f k =
    f k ∙ ap (λ (m : Map ℤ Addr). mem_id k ids || is_some (find k m)) same_map

pub or_false : (b : Bool) → (b || false) ≡ b
or_false true = refl
or_false false = refl
