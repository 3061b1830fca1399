-- ===== src/Graph/Menu/Offered.antt =====
-- The commands that the ids of a context menu run, and those that none of them runs (plugin.cpp,
-- built with PUBLIC).

use mathlib.Core.Option.{some-injective}
use graph_slick.Base.{
  ◌≡◌, ◌≢◌, sym, ap, ◌∙◌, inl, inr, true, false, Option-cases, Option, none, some, ℤ,
}
use graph_slick.OrdMap.{find, int_ord}
use graph_slick.Heap.{Addr}
use graph_slick.Graph.{no_id}
use graph_slick.Graph.Menu.Ids.{Idm, idms, Ids, Menus}
use graph_slick.Graph.Menu.Items.{Chosen, nothing, branch, s_menu_item_callback, first_with}
use graph_slick.Graph.Menu.Served.{first_with_found, first_with_sound, all_listed}
use graph_slick.Graph.Menu.Kept.{IsServedOn, Any, no_pos}
use graph_slick.Graph.Menu.Public.{is_public}

-- The fields that hold an id are those of the public commands, and they are served.
pub record IsOffered (this : Addr) (ids : Ids) (m : Menus) : Type 0 where
  pub served : IsServedOn Any this ids m
  pub shown : (i : Idm) → is_public i ≡ true → ids i ≢ no_id
  pub hidden : (i : Idm) → is_public i ≡ false → ids i ≡ no_id

pub IsOffered-shown :
    (this : Addr) (ids : Ids) (m : Menus) (i : Idm)
    → IsOffered this ids m
    → is_public i ≡ true
    → s_menu_item_callback (ids i) m ≡ some (branch this (some i))
unfolding s_menu_item_callback
IsOffered-shown this ids m i o p =
    let real = o.shown i p in
    let (n, at_n, le, (c, found, to_view)) = o.served.mine i tt real in
    let there : m.views c.gsgv ≡ some ids = ap m.views to_view ∙ o.served.view in
    let first = first_with_found ids i idms (λ j k. o.served.apart j k tt tt) real (all_listed i) in
    rw (found, there, first) (ap (λ (a : Addr). some (branch a (some i))) to_view)

abbrev owner : Option Chosen → Addr
owner none = 0
owner (some nothing) = 0
owner (some (branch gsgv _)) = gsgv

abbrev picked : Option Chosen → Option Idm
picked none = none
picked (some nothing) = none
picked (some (branch _ i)) = i

-- A branch that is run belongs to a field of the view that has the id.
pub IsOffered-hidden :
    (this : Addr) (ids : Ids) (m : Menus) (k : ℤ) (i : Idm)
    → IsOffered this ids m
    → is_public i ≡ false
    → s_menu_item_callback k m ≢ some (branch this (some i))
unfolding s_menu_item_callback
IsOffered-hidden this ids m k i o p e = elim (Option-cases (find k m.menu_ids)) [
  | inl absent ↦
      let e' : some nothing ≡ some (branch this (some i)) = rw absent at e in
      none≢some (ap picked e')
  | inr (c, found) ↦ elim (Option-cases (m.views c.gsgv)) [
    | inl gone ↦
        let e' : none ≡ some (branch this (some i)) = rw (found, gone) at e in
        none≢some (ap picked e')
    | inr (ids', there) ↦
        let e' : some (branch c.gsgv (first_with ids' k idms)) ≡ some (branch this (some i)) =
          rw (found, there) at e in
        let same_view : some ids' ≡ some ids =
          sym there ∙ ap m.views (ap owner e') ∙ o.served.view in
        let at_i : ids' i ≡ k = first_with_sound ids' k i idms (ap picked e') in
        let free : k ≡ no_id =
          sym at_i ∙ ap (λ (f : Ids). f i) (some-injective ids' ids same_view) ∙ o.hidden i p in
        let (n, at_n, _) = o.served.range k c found in no_pos n (sym at_n ∙ free)
  ]
]
  where
    none≢some : ¬ (none ≡ some i)
    none≢some z = cc
