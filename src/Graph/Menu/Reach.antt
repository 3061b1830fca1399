-- ===== src/Graph/Menu/Reach.antt =====
-- Which commands the context menu of a view reaches (plugin.cpp, built with PUBLIC).
use mathlib.Core.Bool.{false≢true}
use graph_slick.Base.{
  ℕ, suc, ◌≡◌, ◌≢◌, refl, sym, subst, ap, ◌∙◌, inl, inr, Bool, Bool-cases, true, false, none, some,
  [], ◌∷◌, ◌++◌, ℤ, pos, codes,
}
use graph_slick.OrdMap.{same, erase, int_ord}
use graph_slick.OrdMap.Laws.{same_iff}
use graph_slick.OrdMap.Sorted.{erase-IsSorted, find-erase}
use graph_slick.Heap.{Addr}
use graph_slick.Graph.{no_id}
use graph_slick.Graph.Menu.Ids.{
  Idm, idm_set_sel_mode, Ids, set_id, ViewerCall, Menus, is_sep, del_menu, exchange_label,
  sel_label,
}
use graph_slick.Graph.Menu.Kept.{IsServedOn, Any, But, IsServed-But, assign-IsServed}

same_false : (x y : ℤ) → x ≢ y → same x y ≡ false
same_false x y ne = elim (Bool-cases (same x y)) [
  | inl e ↦ absurd (ne ((same_iff x y).0 e))
  | inr e ↦ e
]

-- An item is removed.
del_menu-IsServed :
    (this : Addr) (i : Idm) (ids : Ids) (m : Menus)
    → IsServedOn Any this ids m
    → ids i ≢ no_id
    → (m' : Menus) × (del_menu (ids i) m ≡ some (tt, m'))
      × IsServedOn (But i) this ids m'
      × (m'.last_id ≡ m.last_id)
unfolding del_menu
del_menu-IsServed this i ids m s real =
    let (n, at_n, le, (c, found, to_view)) = s.mine i tt real in
    let m' : Menus = record m {
      calls = m.calls ++ ViewerCall.removed c.gsgv c.name ∷ [];
      menu_ids = erase (ids i) m.menu_ids;
    } in
    let there : m.views c.gsgv ≡ some ids = ap m.views to_view ∙ s.view in
    (
      m',
      rw (same_false (ids i) no_id real, found, there) refl,
      record {
        view = s.view;
        sorted = erase-IsSorted (ids i) m.menu_ids s.sorted;
        range = λ k d e. elim (Bool-cases (same k (ids i))) [
          | inl hit ↦
              let gone = find-erase k (ids i) m.menu_ids s.sorted ∙ rw hit refl in
              absurd (some≢none d (sym e ∙ gone))
          | inr miss ↦
              s.range k d (sym (find-erase k (ids i) m.menu_ids s.sorted ∙ rw miss refl) ∙ e)
        ];
        mine = λ j away used.
            let (p, at_p, le_p, (d, d_found, d_view)) = s.mine j tt used in
            let off : ids j ≢ ids i = λ e. away (s.apart j i tt tt e used) in
            (
              p,
              at_p,
              le_p,
              (
                d,
                find-erase (ids j) (ids i) m.menu_ids s.sorted
                    ∙ rw (same_false (ids j) (ids i) off) d_found,
                d_view,
              ),
            );
        apart = λ j k p q. s.apart j k tt tt;
      },
      refl,
    )
  where
    some≢none : {A : Type 0} (a : A) → ¬ (some a ≡ none)
    some≢none a e = cc

module _ (accepts : ViewerCall → Bool) (accepted : (c : ViewerCall) → accepts c ≡ true) where
  plain_label : (sel_mode : Bool) → is_sep (sel_label sel_mode) ≡ false
  plain_label true = refl
  plain_label false = refl

  -- The label of the selection mode is exchanged, and nothing else.
  pub exchange_label-IsServed :
      (this : Addr) (sel_mode : Bool) (ids : Ids) (m : Menus)
      → IsServedOn Any this ids m
      → (m' : Menus) × (exchange_label accepts this sel_mode m ≡ some (tt, m'))
        × IsServedOn Any this (set_id ids idm_set_sel_mode (pos (suc m.last_id))) m'
  unfolding exchange_label
  exchange_label-IsServed this sel_mode ids m s =
      elim (Bool-cases (same (ids idm_set_sel_mode) no_id)) [
        | inl unset ↦
            let (m', run, s', _) =
              assign-IsServed accepts accepted this idm_set_sel_mode (sel_label sel_mode)
                (some (codes "S")) ids m (plain_label sel_mode)
                (IsServed-But idm_set_sel_mode this ids m s) in
            (m', rw (s.view, unset) run, s')
        | inr set ↦
            let real : ids idm_set_sel_mode ≢ no_id =
              λ e. false≢true (sym set ∙ (same_iff (ids idm_set_sel_mode) no_id).1 e) in
            let (m1, run1, s1, last1) = del_menu-IsServed this idm_set_sel_mode ids m s real in
            let (m', run, s', _) =
              assign-IsServed accepts accepted this idm_set_sel_mode (sel_label sel_mode)
                (some (codes "S")) ids m1 (plain_label sel_mode) s1 in
            (
              m',
              rw (s.view, set, run1) run,
              subst (λ (n : ℕ). IsServedOn Any this (set_id ids idm_set_sel_mode (pos (suc n))) m')
                  last1 s',
            )
      ]
