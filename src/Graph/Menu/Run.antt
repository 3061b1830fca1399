-- ===== src/Graph/Menu/Run.antt =====
-- The commands that the context menu reaches after `init` and any number of changes of the selection
-- mode (plugin.cpp, built with PUBLIC).
use mathlib.Core.Bool.{true≢false}
use graph_slick.Base.{
  ℕ, suc, ◌≤◌, ◌≡◌, ◌≢◌, refl, sym, subst, ap, ◌∙◌, inl, inr, Bool, true, false, none, some, List,
  [], ◌∷◌, ◌++◌, ℤ, pos, All, codes,
}
use graph_slick.OrdMap.{find, int_ord}
use graph_slick.OrdMap.Sorted.{IsSorted}
use graph_slick.Heap.{Addr}
use graph_slick.Graph.Menu.Ids.{
  Idm, idm_set_sel_mode, Ids, set_id, no_ids, MenuContext, ViewerCall, Menus, is_sep, add_menu,
  exchange_label,
}
use graph_slick.Graph.Menu.Items.{
  Entry, separator, entry, add_entries, init_entries, init_menus, branch, exchange_labels,
  init_and_exchange, s_menu_item_callback,
}
use graph_slick.Graph.Menu.Served.{idm_cases, set_id_other, set_id_self}
use graph_slick.Graph.Menu.Kept.{IsServedOn, Any, IsServed-But, no_pos, assign-IsServed}
use graph_slick.Graph.Menu.Reach.{exchange_label-IsServed}
use graph_slick.Graph.Menu.Offered.{IsOffered, IsOffered-shown, IsOffered-hidden}
use graph_slick.Graph.Menu.Public.{is_public, after_entries, init_ids, init_public, init_hidden}

abbrev IsPlain : Entry → Type 0
IsPlain separator = Unit
IsPlain (entry _ name _) = is_sep name ≡ false

module _ (accepts : ViewerCall → Bool) (accepted : (c : ViewerCall) → accepts c ≡ true)
    (this : Addr) where
  add_entries-IsServed :
      (es : List Entry) (ids : Ids) (m : Menus)
      → All IsPlain es
      → IsServedOn Any this ids m
      → (m' : Menus) × (add_entries accepts this es m ≡ some (tt, m'))
        × IsServedOn Any this (after_entries ids m.last_id es) m'
  unfolding add_entries add_menu
  add_entries-IsServed [] ids m plain s = (m, refl, s)
  add_entries-IsServed (separator ∷ es) ids m (_, plain) s =
      let m1 : Menus = record m {
        calls = m.calls ++ ViewerCall.added this (codes "-") none none ∷ [];
      } in
      let s1 : IsServedOn Any this ids m1 = record {
        view = s.view;
        sorted = s.sorted;
        range = s.range;
        mine = s.mine;
        apart = s.apart;
      } in
      add_entries-IsServed es ids m1 plain s1
  add_entries-IsServed (entry i name hotkey ∷ es) ids m (p, plain) s =
      let (m1, run1, s1, last1) =
        assign-IsServed accepts accepted this i name hotkey ids m p (IsServed-But i this ids m s) in
      let ids1 = set_id ids i (pos (suc m.last_id)) in
      let (m', run, s') = add_entries-IsServed es ids1 m1 plain s1 in
      (
        m',
        rw run1 run,
        subst (λ (n : ℕ). IsServedOn Any this (after_entries ids1 n es) m') last1 s',
      )

  init_entries-IsPlain : All IsPlain init_entries
  init_entries-IsPlain = (
    tt,
    (
      refl,
      (
        tt,
        (
          refl,
          (
            refl,
            (
              refl,
              (
                refl,
                (
                  refl,
                  (
                    refl,
                    (tt, (refl, (refl, (refl, (tt, (refl, (refl, (refl, (refl, (tt, tt)))))))))),
                  ),
                ),
              ),
            ),
          ),
        ),
      ),
    ),
  )

  init_menus-IsOffered :
      (sel_mode : Bool) (m : Menus)
      → IsServedOn Any this no_ids m
      → (ids : Ids) × (m' : Menus) × (init_menus accepts this sel_mode m ≡ some (tt, m'))
        × IsOffered this ids m'
  unfolding init_menus
  init_menus-IsOffered sel_mode m s =
      let (m1, run1, s1) = add_entries-IsServed init_entries no_ids m init_entries-IsPlain s in
      let (m', run, s') =
        exchange_label-IsServed accepts accepted this sel_mode
          (after_entries no_ids m.last_id init_entries) m1 s1 in
      (
        init_ids m.last_id m1.last_id,
        m',
        rw run1 run,
        record {
          served = s';
          shown = init_public m.last_id m1.last_id;
          hidden = init_hidden m.last_id m1.last_id;
        },
      )

  exchange_label-IsOffered :
      (sel_mode : Bool) (ids : Ids) (m : Menus)
      → IsOffered this ids m
      → (ids' : Ids) × (m' : Menus) × (exchange_label accepts this sel_mode m ≡ some (tt, m'))
        × IsOffered this ids' m'
  exchange_label-IsOffered sel_mode ids m o =
      let (m', run, s') = exchange_label-IsServed accepts accepted this sel_mode ids m o.served in
      let id = pos (suc m.last_id) in
      (
        set_id ids idm_set_sel_mode id,
        m',
        run,
        record {
          served = s';
          shown = λ i p e. elim (idm_cases i idm_set_sel_mode) [
            | inl here ↦ no_pos (suc m.last_id) (
                sym (set_id_self ids idm_set_sel_mode id)
                ∙ ap (set_id ids idm_set_sel_mode id) (sym here)
                ∙ e)
            | inr away ↦ o.shown i p (sym (set_id_other ids idm_set_sel_mode id i away) ∙ e)
          ];
          hidden = λ i p. elim (idm_cases i idm_set_sel_mode) [
            | inl here ↦ absurd (true≢false (sym (ap is_public here) ∙ p))
            | inr away ↦ set_id_other ids idm_set_sel_mode id i away ∙ o.hidden i p
          ];
        },
      )

  exchange_labels-IsOffered :
      (bs : List Bool) (ids : Ids) (m : Menus)
      → IsOffered this ids m
      → (ids' : Ids) × (m' : Menus) × (exchange_labels accepts this bs m ≡ some (tt, m'))
        × IsOffered this ids' m'
  exchange_labels-IsOffered [] ids m o = (ids, m, refl, o)
  exchange_labels-IsOffered (b ∷ bs) ids m o =
      let (ids1, m1, run1, o1) = exchange_label-IsOffered b ids m o in
      let (ids', m', run, o') = exchange_labels-IsOffered bs ids1 m1 o1 in
      (ids', m', rw run1 run, o')

-- A view that has no items yet, where the entries of the other views are in key order with ids that
-- were given out.
pub record IsFresh (this : Addr) (m : Menus) : Type 0 where
  pub view : m.views this ≡ some no_ids
  pub sorted : IsSorted m.menu_ids
  pub range :
      (k : ℤ) (c : MenuContext)
      → find k m.menu_ids ≡ some c
      → (n : ℕ) × (k ≡ pos n) × (n ≤ m.last_id)

-- Where the viewer accepts every item, the `init` of a fresh view and any number of changes of the
-- selection mode run. After them each command that a build with PUBLIC offers has an id with which
-- the callback runs its branch of the view's `on_menu`, and no id runs the branches of the others:
-- moving nodes to their own group, promoting groups, resetting the grouping, and the test.
pub init_and_exchange-Offers :
    (accepts : ViewerCall → Bool) (this : Addr) (sel_mode : Bool) (changes : List Bool) (m : Menus)
    → ((c : ViewerCall) → accepts c ≡ true)
    → IsFresh this m
    → (m' : Menus) × (init_and_exchange accepts this sel_mode changes m ≡ some (tt, m'))
      × ((i : Idm)
          → is_public i ≡ true
          → (k : ℤ) × (s_menu_item_callback k m' ≡ some (branch this (some i))))
      × ((k : ℤ) (i : Idm)
          → is_public i ≡ false
          → s_menu_item_callback k m' ≢ some (branch this (some i)))
init_and_exchange-Offers accepts this sel_mode changes m accepted fresh =
    let none_yet : IsServedOn Any this no_ids m = record {
      view = fresh.view;
      sorted = fresh.sorted;
      range = fresh.range;
      mine = λ j p used. absurd (used refl);
      apart = λ j k p q e used. absurd (used refl);
    } in
    let (ids1, m1, run1, o1) = init_menus-IsOffered accepts accepted this sel_mode m none_yet in
    let (ids, m', run, o) = exchange_labels-IsOffered accepts accepted this changes ids1 m1 o1 in
    (
      m',
      rw run1 run,
      (λ i p. (ids i, IsOffered-shown this ids m' i o p)),
      λ k i p. IsOffered-hidden this ids m' k i o p,
    )
