-- ===== src/OrdMap/Laws.antt =====
-- Lookup laws of the maps.
use graph_slick.Base.{◌≡◌, refl, true, some, [], ◌∷◌, arith, if◌then◌else◌, ◌↔◌}
use graph_slick.OrdMap.{Ord, Map, same, find, insert}

module _ {K : Type 0} ⦃o : Ord K⦄ where
  pub same_iff : (a b : K) → (same a b ≡ true) ↔ (a ≡ b)
  same_iff a b = ground (arith, o.lt_total a b, o.lt_irrefl a)

  pub same_refl : (a : K) → same a a ≡ true
  same_refl a = ground (arith, o.lt_irrefl a)

module _ {K V : Type 0} ⦃o : Ord K⦄ where
  pub find-insert :
      (q k : K) (v : V) (m : Map K V)
      → find q (insert k v m) ≡ (if same q k then some v else find q m)
  unfolding find insert
  find-insert q k v [] = refl
  find-insert q k v ((j, w) ∷ m) =
      ground
        (arith, find-insert q k v m, o.lt_total k j, o.lt_irrefl k, o.lt_total q k, o.lt_total q j)
