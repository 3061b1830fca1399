-- ===== src/Algo/Unmentioned.antt =====
-- The blocks that a nested vector of ids does not mention, as `sanitize_groupman` of algo.cpp sees them.
use graph_slick.Base.{
  ℕ, suc, ◌≡◌, refl, sym, ap, ◌∙◌, inl, inr, Option-cases, true, false, List, [], ◌∷◌, ◌++◌, ℤ, pos,
  if◌then◌else◌,
}
use graph_slick.OrdMap.{Map, find, int_ord}
use graph_slick.Heap.{Addr, GroupMan, NodeDef, NodeLoc}
use graph_slick.Manager.Lookups.{with_index}
use graph_slick.Algo.{FlowChart}
use graph_slick.Algo.Orphans.{node_of, missing}
use graph_slick.Algo.Sanitized.{Placed}
use graph_slick.Manager.Known.{is_some, mem_id}

-- the blocks, from number `n` on, whose numbers are not among the ids
abbrev pub unmentioned : List ℤ → ℕ → FlowChart → List NodeDef
unmentioned ids n [] = []
unmentioned ids n (b ∷ bs) =
    if mem_id (pos n) ids
    then unmentioned ids (suc n) bs
    else node_of n b ∷ unmentioned ids (suc n) bs

pub missing-unmentioned :
    (m : Map ℤ Addr) (ids : List ℤ) (n : ℕ) (fc : FlowChart)
    → ((k : ℤ) → is_some (find k m) ≡ mem_id k ids)
    → missing m n fc ≡ unmentioned ids n fc
unfolding missing
missing-unmentioned m ids n [] same_ids = refl
missing-unmentioned m ids n (b ∷ bs) same_ids =
    let rest = missing-unmentioned m ids (suc n) bs same_ids in
    elim (Option-cases (find (pos n) m)) [
      | inl absent ↦
          let out : mem_id (pos n) ids ≡ false = sym (same_ids (pos n)) ∙ ap is_some absent in
          rw (absent, out, missing, rest) refl
      | inr (p, found) ↦
          let there : mem_id (pos n) ids ≡ true = sym (same_ids (pos n)) ∙ ap is_some found in
          rw (found, there, missing, rest) refl
    ]

-- the path is described from another start, and the lookups do not matter
pub Placed-index :
    (sg : Addr) (w u w' : GroupMan) (m : Map ℤ NodeLoc) (ms : List NodeDef)
    → u.path_sgl ≡ w.path_sgl
    → Placed sg u w' ms
    → Placed sg w (with_index w' m) ms
Placed-index sg w u w' m [] e p = p ∙ e
Placed-index sg w u w' m (d ∷ ds) e (gs, on_path, host, h) =
    (gs, on_path ∙ ap (λ (l : List Addr). l ++ sg ∷ []) e, host, h)
