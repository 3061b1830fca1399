-- ===== src/Tests/Groups.antt =====
-- The theorems on the manager at the sample.
use graph_slick.Base.{◌≡◌, ◌↔◌, refl, inr, none, some, [], ◌∷◌, arith, All, ℤ, pos, ◌≤◌}
use mathlib.Core.List.{Memᴰ}
use graph_slick.OrdMap.{find, int_ord}
use graph_slick.Heap.{Addr, NodeLoc, nodeloc, GroupMan, ok}
use graph_slick.Heap.Returns.{Returns}
use graph_slick.View.{members, groups_of, nid_at, LiveSgs, locations}
use graph_slick.Groups.{find_biggest}
use graph_slick.Groups.Biggest.{size, find_biggest_lem}
use graph_slick.Manager.{find_nodeid_loc, find_node_loc, initialize_lookups}
use graph_slick.Manager.Address.{find_node_loc_blind, find_node_loc_first}
use graph_slick.Manager.Kept.{Located}
use graph_slick.Manager.Combine.{Combinable, Combines, combine_ngl-Combines}
use graph_slick.Manager.Lookups.{
  last_with, initialize_lookups-last_with, initialize_lookups_exact, Distinct,
}
use graph_slick.Manager.Regroup.{combine_ngl}
use graph_slick.Tests.Sample.{sample, node, sg_cell}

Located-5 : Located sample 5
unfolding find
Located-5 = (omega arith, (node (pos 0) 100, refl, (nodeloc 1 2 5, refl, (sg_cell, refl))))

Located-6 : Located sample 6
unfolding find
Located-6 = (omega arith, (node (pos 1) 110, refl, (nodeloc 1 3 6, refl, (sg_cell, refl))))

Located-7 : Located sample 7
unfolding find
Located-7 = (omega arith, (node (pos 2) 120, refl, (nodeloc 1 3 7, refl, (sg_cell, refl))))

Located-8 : Located sample 8
unfolding find
Located-8 = (omega arith, (node (pos 3) 130, refl, (nodeloc 1 4 8, refl, (sg_cell, refl))))

sample-Combinable : Combinable sample (2 ∷ 3 ∷ [])
unfolding groups_of
sample-Combinable = record {
  live = (
    (
      sg_cell,
      refl,
      (
        (5 ∷ [], refl, (Located-5, tt)),
        ((6 ∷ 7 ∷ [], refl, (Located-6, (Located-7, tt))), ((8 ∷ [], refl, (Located-8, tt)), tt)),
      ),
    ),
    tt,
  );
  targets = (
    (omega arith, (5 ∷ [], refl, (Located-5, tt)), refl),
    ((omega arith, (6 ∷ 7 ∷ [], refl, (Located-6, (Located-7, tt))), refl), tt),
  );
}

combine_ngl-Combines_example :
    (dest : Addr) × (w' : GroupMan) × (combine_ngl (2 ∷ 3 ∷ []) sample ≡ ok dest w')
    × Combines sample w' dest (2 ∷ 3 ∷ [])
combine_ngl-Combines_example = combine_ngl-Combines sample 2 (3 ∷ []) sample-Combinable

find_biggest_lem_example :
    (b : Addr) × (find_biggest (2 ∷ 3 ∷ []) sample ≡ ok b sample)
    × Memᴰ b (2 ∷ 3 ∷ [])
    × All (λ g. size sample.heap g ≤ size sample.heap b) (2 ∷ 3 ∷ [])
find_biggest_lem_example =
    find_biggest_lem sample 2 (3 ∷ [])
      ((omega arith, (5 ∷ [], refl)), ((omega arith, (6 ∷ 7 ∷ [], refl)), tt))

pub sample-LiveSgs : LiveSgs sample.heap sample.path_sgl
sample-LiveSgs = (
  (
    sg_cell,
    refl,
    (
      (5 ∷ [], refl, ((omega arith, (node (pos 0) 100, refl)), tt)),
      (
        (
          6 ∷ 7 ∷ [],
          refl,
          ((omega arith, (node (pos 1) 110, refl)), ((omega arith, (node (pos 2) 120, refl)), tt)),
        ),
        ((8 ∷ [], refl, ((omega arith, (node (pos 3) 130, refl)), tt)), tt),
      ),
    ),
  ),
  tt,
)

initialize_lookups-last_with_example :
    Returns
      (λ _ v.
        (v ≡ record sample { nid2loc = v.nid2loc })
        × ((k : ℤ)
            → find_nodeid_loc v k
              ≡ last_with sample.heap k (locations sample.heap sample.path_sgl)))
      (initialize_lookups sample)
initialize_lookups-last_with_example = initialize_lookups-last_with sample sample-LiveSgs

sample-Distinct : Distinct sample.heap (locations sample.heap sample.path_sgl)
unfolding members groups_of nid_at
sample-Distinct = ground arith

initialize_lookups_exact_example :
    Returns
      (λ _ v.
        (k : ℤ) (l : NodeLoc)
        → (find_nodeid_loc v k ≡ some l)
          ↔ (Memᴰ l (locations sample.heap sample.path_sgl) × (nid_at sample.heap l.nd ≡ k)))
      (initialize_lookups sample)
initialize_lookups_exact_example = initialize_lookups_exact sample sample-LiveSgs sample-Distinct

-- 135 lies inside the last node, from 130 to 140
find_node_loc_blind_example : find_node_loc 135 sample ≡ ok none sample
find_node_loc_blind_example = find_node_loc_blind sample 135 (
  (node (pos 0) 100, refl, inr (omega arith)),
  (
    (node (pos 1) 110, refl, inr (omega arith)),
    (
      (node (pos 2) 120, refl, inr (omega arith)),
      ((node (pos 3) 130, refl, inr (omega arith)), tt),
    ),
  ),
)

-- 115 lies inside the second node, and the answer is the third
find_node_loc_first_example : find_node_loc 115 sample ≡ ok (find_nodeid_loc sample (pos 2)) sample
find_node_loc_first_example =
    find_node_loc_first sample 115 ((pos 0, 5) ∷ (pos 1, 6) ∷ []) (pos 2) 7 (node (pos 2) 120)
      ((pos 3, 8) ∷ []) refl
      (
        (node (pos 0) 100, refl, inr (omega arith)),
        ((node (pos 1) 110, refl, inr (omega arith)), tt),
      )
      refl (omega arith, omega arith)
