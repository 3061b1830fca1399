-- ===== src/Graph/Menu/Kept.antt =====
-- What adding and exchanging items of the context menu keeps (plugin.cpp).
use mathlib.Core.Bool.{false≢true}
use graph_slick.Base.{
  ℕ, suc, ◌≤◌, ◌≡◌, ◌≢◌, refl, sym, ap, ◌∙◌, inl, inr, Bool, Bool-cases, true, false, Option, some,
  [], ◌∷◌, ◌++◌, arith, ℤ, pos, Text,
}
use graph_slick.OrdMap.{same, find, insert, int_ord}
use graph_slick.OrdMap.Laws.{find-insert, same_iff, same_refl}
use graph_slick.OrdMap.Sorted.{IsSorted, insert-IsSorted}
use graph_slick.Heap.{Addr}
use graph_slick.Graph.{no_id}
use graph_slick.Graph.Menu.Ids.{
  Idm, Ids, set_id, MenuContext, ViewerCall, Menus, is_sep, add_menu, assign, set_view,
}
use graph_slick.Graph.Menu.Served.{idm_cases, set_id_other, set_id_self}

-- The fields of the view for which `P` holds have different ids of their own, with entries that lead
-- to the view; no entry has an id beyond the last one.
pub record IsServedOn (P : Idm → Type 0) (this : Addr) (ids : Ids) (m : Menus) : Type 0 where
  pub view : m.views this ≡ some ids
  pub sorted : IsSorted m.menu_ids
  pub range :
      (k : ℤ) (c : MenuContext)
      → find k m.menu_ids ≡ some c
      → (n : ℕ) × (k ≡ pos n) × (n ≤ m.last_id)
  pub mine :
      (j : Idm)
      → P j
      → ids j ≢ no_id
      → (n : ℕ) × (ids j ≡ pos n)
        × (n ≤ m.last_id)
        × ((c : MenuContext) × (find (ids j) m.menu_ids ≡ some c) × (c.gsgv ≡ this))
  pub apart : (j k : Idm) → P j → P k → ids j ≡ ids k → ids j ≢ no_id → j ≡ k

abbrev pub Any : Idm → Type 0
Any j = Unit

abbrev pub But : Idm → Idm → Type 0
But i j = j ≢ i

pub IsServed-But :
    (i : Idm) (this : Addr) (ids : Ids) (m : Menus)
    → IsServedOn Any this ids m
    → IsServedOn (But i) this ids m
IsServed-But i this ids m s = record {
  view = s.view;
  sorted = s.sorted;
  range = s.range;
  mine = λ j p. s.mine j tt;
  apart = λ j k p q. s.apart j k tt tt;
}

old_same : (x : ℤ) (n last : ℕ) → x ≡ pos n → n ≤ last → same x (pos (suc last)) ≡ false
old_same x n last e le = ground (arith, e, le)

pub no_pos : (n : ℕ) → pos n ≢ no_id
no_pos n e = ground (arith, e)

-- the fields and the map, with one more item
module _ (i : Idm) (this : Addr) (ids : Ids) (m : Menus) (ctx : MenuContext)
    (to_view : ctx.gsgv ≡ this) (s : IsServedOn (But i) this ids m) where
  new_id : ℤ
  new_id = pos (suc m.last_id)

  range_kept :
      (k : ℤ) (c : MenuContext)
      → find k (insert new_id ctx m.menu_ids) ≡ some c
      → (n : ℕ) × (k ≡ pos n) × (n ≤ suc m.last_id)
  unfolding new_id
  range_kept k c e = elim (Bool-cases (same k new_id)) [
    | inl hit ↦ (suc m.last_id, (same_iff k new_id).0 hit, omega arith)
    | inr miss ↦
        let e' : find k m.menu_ids ≡ some c =
          sym (find-insert k new_id ctx m.menu_ids ∙ rw miss refl) ∙ e in
        let (n, at_n, le) = s.range k c e' in (n, at_n, omega (arith, le))
  ]

  mine_kept :
      (j : Idm)
      → set_id ids i new_id j ≢ no_id
      → (n : ℕ) × (set_id ids i new_id j ≡ pos n)
        × (n ≤ suc m.last_id)
        × ((c : MenuContext) × (find (set_id ids i new_id j) (insert new_id ctx m.menu_ids)
              ≡ some c)
            × (c.gsgv ≡ this))
  unfolding new_id
  mine_kept j real = elim (idm_cases j i) [
    | inl here ↦
        let e = ap (set_id ids i new_id) here ∙ set_id_self ids i new_id in
        (
          suc m.last_id,
          e,
          omega arith,
          (
            ctx,
            ap (λ (x : ℤ). find x (insert new_id ctx m.menu_ids)) e
                ∙ find-insert new_id new_id ctx m.menu_ids
                ∙ rw (same_refl new_id) refl,
            to_view,
          ),
        )
    | inr away ↦
        let e = set_id_other ids i new_id j away in
        let (n, at_n, le, (c, found, c_view)) = s.mine j away (λ z. real (e ∙ z)) in
        (
          n,
          e ∙ at_n,
          omega (arith, le),
          (
            c,
            ap (λ (x : ℤ). find x (insert new_id ctx m.menu_ids)) e
                ∙ find-insert (ids j) new_id ctx m.menu_ids
                ∙ rw (old_same (ids j) n m.last_id at_n le) found,
            c_view,
          ),
        )
  ]

  not_new : (j : Idm) → j ≢ i → ids j ≢ new_id
  unfolding new_id
  not_new j away e =
      let (n, at_n, le, _) = s.mine j away (λ z. no_pos (suc m.last_id) (sym e ∙ z)) in
      false≢true (
        sym (old_same (ids j) n m.last_id at_n le)
        ∙ ap (λ (x : ℤ). same x new_id) e
        ∙ same_refl new_id)

  apart_kept :
      (j k : Idm)
      → set_id ids i new_id j ≡ set_id ids i new_id k
      → set_id ids i new_id j ≢ no_id
      → j ≡ k
  apart_kept j k e real = elim (idm_cases j i) [
    | inl here ↦ elim (idm_cases k i) [
      | inl there ↦ here ∙ sym there
      | inr off ↦ absurd (
          not_new k off (
            sym (set_id_other ids i new_id k off)
            ∙ sym e
            ∙ ap (set_id ids i new_id) here
            ∙ set_id_self ids i new_id))
    ]
    | inr away ↦ elim (idm_cases k i) [
      | inl there ↦ absurd (
          not_new j away (
            sym (set_id_other ids i new_id j away)
            ∙ e
            ∙ ap (set_id ids i new_id) there
            ∙ set_id_self ids i new_id))
      | inr off ↦
          let ej = set_id_other ids i new_id j away in
          s.apart j k away off (sym ej ∙ e ∙ set_id_other ids i new_id k off) (λ z. real (ej ∙ z))
    ]
  ]

module _ (accepts : ViewerCall → Bool) (accepted : (c : ViewerCall) → accepts c ≡ true) where
  -- An item whose field is free is added.
  pub assign-IsServed :
      (this : Addr) (i : Idm) (name : Text) (hotkey : Option Text) (ids : Ids) (m : Menus)
      → is_sep name ≡ false
      → IsServedOn (But i) this ids m
      → (m' : Menus) × (assign accepts this i name hotkey m ≡ some (tt, m'))
        × IsServedOn Any this (set_id ids i (pos (suc m.last_id))) m'
        × (m'.last_id ≡ suc m.last_id)
  unfolding add_menu new_id
  assign-IsServed this i name hotkey ids m plain s =
      let id : ℤ = pos (suc m.last_id) in
      let ctx : MenuContext = record { gsgv = this; name = name } in
      let call = ViewerCall.added this name (some id) hotkey in
      let m1 : Menus = record m {
        calls = m.calls ++ call ∷ [];
        menu_ids = insert id ctx m.menu_ids;
        last_id = suc m.last_id;
      } in
      let m2 = set_view this (set_id ids i id) m1 in
      (
        m2,
        rw (plain, accepted call, s.view) refl,
        record {
          view = ground arith;
          sorted = insert-IsSorted id ctx m.menu_ids s.sorted;
          range = range_kept i this ids m ctx refl s;
          mine = λ j p. mine_kept i this ids m ctx refl s j;
          apart = λ j k p q. apart_kept i this ids m ctx refl s j k;
        },
        refl,
      )
