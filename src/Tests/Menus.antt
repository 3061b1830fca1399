-- ===== src/Tests/Menus.antt =====
-- The theorem on the context menu, at a view whose menu comes after one item of another view.
use graph_slick.Base.{
  ◌≡◌, ◌≢◌, refl, Bool, true, false, none, some, [], ◌∷◌, ◌==◌, if◌then◌else◌, ℤ, pos, codes, arith,
  inl, inr, Bool-cases,
}
use graph_slick.OrdMap.{same, find, int_ord}
use graph_slick.OrdMap.Laws.{same_iff}
use graph_slick.Graph.Menu.Ids.{Idm, no_ids, MenuContext, ViewerCall, Menus}
use graph_slick.Graph.Menu.Items.{branch, s_menu_item_callback, init_and_exchange}
use graph_slick.Graph.Menu.Public.{is_public}
use graph_slick.Graph.Menu.Run.{IsFresh, init_and_exchange-Offers}

abbrev accepts_all : ViewerCall → Bool
accepts_all c = true

abbrev other_item : MenuContext
other_item = record { gsgv = 40; name = codes "Select all" }

abbrev before : Menus
before = record {
  menu_ids = (pos 2, other_item) ∷ [];
  last_id = 2;
  views = λ v. if v == 50 then some no_ids else none;
  calls = [];
}

before-IsFresh : IsFresh 50 before
unfolding find
before-IsFresh = record {
  view = refl;
  sorted = (tt, tt);
  range = λ k c e. elim (Bool-cases (same k (pos 2))) [
    | inl hit ↦ (2, (same_iff k (pos 2)).0 hit, omega arith)
    | inr miss ↦ absurd (none≢some c (rw miss at e))
  ];
}
  where
    none≢some : (c : MenuContext) → ¬ (none ≡ some c)
    none≢some c e = cc

init_and_exchange-Offers_example :
    (m' : Menus) × (init_and_exchange accepts_all 50 false (true ∷ false ∷ []) before
      ≡ some (tt, m'))
    × ((i : Idm)
        → is_public i ≡ true
        → (k : ℤ) × (s_menu_item_callback k m' ≡ some (branch 50 (some i))))
    × ((k : ℤ) (i : Idm)
        → is_public i ≡ false
        → s_menu_item_callback k m' ≢ some (branch 50 (some i)))
init_and_exchange-Offers_example =
    init_and_exchange-Offers accepts_all 50 false (true ∷ false ∷ []) before (λ c. refl)
      before-IsFresh
