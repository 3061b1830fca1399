-- ===== src/Graph/Menu/Served.antt =====
-- The ids of a view's menu items lead to their commands, and adding and exchanging items keeps that.
use mathlib.Core.Bool.{false≢true}
use mathlib.Core.Option.{some-injective}
use graph_slick.Base.{
  ℕ, ◌≡◌, ◌≢◌, refl, sym, ap, ◌∙◌, ◌⊎◌, inl, inr, Bool, Bool-cases, true, false, Option, none, some,
  List, [], ◌∷◌, ◌||◌, ◌==◌, arith, get_elem?, ℤ,
}
use graph_slick.OrdMap.{same, int_ord}
use graph_slick.OrdMap.Laws.{same_iff, same_refl}
use graph_slick.Graph.{no_id}
use graph_slick.Graph.Menu.Ids.{
  Idm, idm_clear_sel, idm_clear_highlight, idm_select_all, idm_set_sel_mode, idm_single_view_mode,
  idm_combined_view_mode, idm_show_options, idm_highlight_similar, idm_find_highlight,
  idm_change_graph_layout, idm_edit_sg_desc, idm_combine_ngs, idm_jump_next_selected_node,
  idm_jump_next_highlighted_node, idm_remove_nodes_from_group, idm_merge_highlight_with_selection,
  idm_promote_node_groups, idm_reset_groupping, idm_test, idms, idm_no, Ids, set_id,
}
use graph_slick.Graph.Menu.Items.{first_with}

-- the field of a number
abbrev or_test : Option Idm → Idm
or_test none = idm_test
or_test (some i) = i

abbrev idm_at : ℕ → Idm
idm_at n = or_test (get_elem? idms n)

at_no : (i : Idm) → idm_at (idm_no i) ≡ i
at_no idm_clear_sel = refl
at_no idm_clear_highlight = refl
at_no idm_select_all = refl
at_no idm_set_sel_mode = refl
at_no idm_single_view_mode = refl
at_no idm_combined_view_mode = refl
at_no idm_show_options = refl
at_no idm_highlight_similar = refl
at_no idm_find_highlight = refl
at_no idm_change_graph_layout = refl
at_no idm_edit_sg_desc = refl
at_no idm_combine_ngs = refl
at_no idm_jump_next_selected_node = refl
at_no idm_jump_next_highlighted_node = refl
at_no idm_remove_nodes_from_group = refl
at_no idm_merge_highlight_with_selection = refl
at_no idm_promote_node_groups = refl
at_no idm_reset_groupping = refl
at_no idm_test = refl

pub no_injective : (i j : Idm) → idm_no i ≡ idm_no j → i ≡ j
no_injective i j e = sym (at_no i) ∙ ap idm_at e ∙ at_no j

abbrev pub listed : Idm → List Idm → Bool
listed i [] = false
listed i (j ∷ l) = (idm_no j == idm_no i) || listed i l

pub all_listed : (i : Idm) → listed i idms ≡ true
all_listed idm_clear_sel = refl
all_listed idm_clear_highlight = refl
all_listed idm_select_all = refl
all_listed idm_set_sel_mode = refl
all_listed idm_single_view_mode = refl
all_listed idm_combined_view_mode = refl
all_listed idm_show_options = refl
all_listed idm_highlight_similar = refl
all_listed idm_find_highlight = refl
all_listed idm_change_graph_layout = refl
all_listed idm_edit_sg_desc = refl
all_listed idm_combine_ngs = refl
all_listed idm_jump_next_selected_node = refl
all_listed idm_jump_next_highlighted_node = refl
all_listed idm_remove_nodes_from_group = refl
all_listed idm_merge_highlight_with_selection = refl
all_listed idm_promote_node_groups = refl
all_listed idm_reset_groupping = refl
all_listed idm_test = refl

-- two fields with one id are the same, unless the id is none
abbrev pub Apart : Ids → Type 0
Apart ids = (i j : Idm) → ids i ≡ ids j → ids i ≢ no_id → i ≡ j

pub first_with_found :
    (ids : Ids) (i : Idm) (l : List Idm)
    → Apart ids
    → ids i ≢ no_id
    → listed i l ≡ true
    → first_with ids (ids i) l ≡ some i
unfolding first_with
first_with_found ids i [] apart real there = absurd (false≢true there)
first_with_found ids i (j ∷ l) apart real there = elim (Bool-cases (same (ids i) (ids j))) [
  | inl hit ↦
      let e : i ≡ j = apart i j ((same_iff (ids i) (ids j)).0 hit) real in rw hit (ap some (sym e))
  | inr miss ↦ elim (Bool-cases (idm_no j == idm_no i)) [
    | inl here ↦
        let e : j ≡ i = no_injective j i (eq_of (idm_no j) (idm_no i) here) in
        absurd
          (false≢true (sym miss ∙ ap (λ (x : Idm). same (ids i) (ids x)) e ∙ same_refl (ids i)))
    | inr away ↦ rw miss (first_with_found ids i l apart real (rw away at there))
  ]
]
  where
    eq_of : (x y : ℕ) → (x == y) ≡ true → x ≡ y
    eq_of x y e = ground arith

pub first_with_sound :
    (ids : Ids) (k : ℤ) (i : Idm) (l : List Idm) → first_with ids k l ≡ some i → ids i ≡ k
unfolding first_with
first_with_sound ids k i [] e = cc
first_with_sound ids k i (j ∷ l) e = elim (Bool-cases (same k (ids j))) [
  | inl hit ↦
      let e' : some j ≡ some i = rw hit at e in
      ap ids (sym (some-injective j i e')) ∙ sym ((same_iff k (ids j)).0 hit)
  | inr miss ↦ first_with_sound ids k i l (rw miss at e)
]

pub idm_cases : (i j : Idm) → (i ≡ j) ⊎ (i ≢ j)
idm_cases i j = elim (Bool-cases (idm_no i == idm_no j)) [
  | inl e ↦ inl (no_injective i j (eq_of (idm_no i) (idm_no j) e))
  | inr ne ↦
      inr
        λ e. false≢true (sym ne ∙ ap (λ (x : Idm). idm_no i == idm_no x) (sym e) ∙ self (idm_no i))
]
  where
    eq_of : (x y : ℕ) → (x == y) ≡ true → x ≡ y
    eq_of x y e = ground arith

    self : (x : ℕ) → (x == x) ≡ true
    self x = ground arith

pub set_id_other : (ids : Ids) (i : Idm) (n : ℤ) (j : Idm) → j ≢ i → set_id ids i n j ≡ ids j
set_id_other ids i n j ne = elim (Bool-cases (idm_no j == idm_no i)) [
  | inl e ↦ absurd (ne (no_injective j i (eq_of (idm_no j) (idm_no i) e)))
  | inr off ↦ rw off refl
]
  where
    eq_of : (x y : ℕ) → (x == y) ≡ true → x ≡ y
    eq_of x y e = ground arith

pub set_id_self : (ids : Ids) (i : Idm) (n : ℤ) → set_id ids i n i ≡ n
set_id_self ids i n = rw (self (idm_no i)) refl
  where
    self : (x : ℕ) → (x == x) ≡ true
    self x = ground arith
