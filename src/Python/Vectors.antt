-- ===== src/Python/Vectors.antt =====
-- The conversions of vectors: a vector that is made a Python list is converted back to itself, and
-- nested lists of numbers become nested vectors.
use graph_slick.Base.{
  ℕ, suc, ◌+◌, ◌^◌, ◌<◌, ◌≡◌, refl, sym, ap, subst, ◌∙◌, true, some, List, [], ◌∷◌, ◌++◌, map,
  length, length-append, get_elem?, All, arith, ℤ, pos, negsuc,
}
use mathlib.Core.List.{append_assoc, append-nil}
use graph_slick.Python.{
  PyApi, to_u64, to_int, cip_ok, get_number, walk_from, walk_list, int_vec_to_py_list,
  py_list_to_int_vec, py_list_to_intvec_cb, vec_vec_cb, py_list_list_to_int_vec_vec, vec_vec_vec_cb,
  py_list_list_to_int_vec_vec_vec, number_of,
}

-- the values of the type `int`
abbrev pub IsInt32 : ℤ → Type 0
IsInt32 (pos n) = n < 2 ^ 31
IsInt32 (negsuc n) = n < 2 ^ 31

to_int-to_u64 : (z : ℤ) → IsInt32 z → to_int (to_u64 z) ≡ z
unfolding to_int to_u64
to_int-to_u64 (pos n) h = ground (arith, h)
to_int-to_u64 (negsuc n) h = ground (arith, h)

elem-append :
    {A : Type 0} (xs : List A) (x : A) (ys : List A) → get_elem? (xs ++ x ∷ ys) (length xs) ≡ some x
elem-append [] x ys = refl
elem-append (y ∷ xs) x ys = elem-append xs x ys

plus_zero : (n : ℕ) → n ≡ n + 0
plus_zero n = omega arith

plus_before : (n : ℕ) → 0 + n ≡ n
plus_before n = omega arith

plus_one : (n m : ℕ) → n + 1 + m ≡ n + suc m
plus_one n m = omega arith

module _ {Obj : Type 0} (py : PyApi Obj) where
  -- the object is a Python list of these items
  pub record IsListOf (obj : Obj) (xs : List Obj) : Type 0 where
    pub is_one : py.is_list obj ≡ true
    pub size : py.list_size obj ≡ length xs
    pub items : (i : ℕ) → py.list_item obj i ≡ get_elem? xs i

  -- what the C interface documents on lists and on numbers
  pub record PyLaws : Type 0 where
    pub new_lists : (xs : List Obj) → IsListOf (py.new_list xs) xs
    pub ints : (z : ℤ) → py.is_int (py.from_long z) ≡ true
    pub longs : (z : ℤ) → py.as_long (py.from_long z) ≡ some z

  module _ {A : Type 0} (cb : Obj → ℕ → List A → ℤ × List A) (g : Obj → A)
      (adds : (x : Obj) (i : ℕ) (s : List A) → cb x i s ≡ (cip_ok, s ++ g x ∷ [])) where
    walk_from-append :
        (obj : Obj) (before after : List Obj) (s : List A)
        → IsListOf obj (before ++ after)
        → walk_from py cb obj (length after) (length before) s
          ≡ (length before + length after, s ++ map g after)
    unfolding walk_from
    walk_from-append obj before [] s h =
        rw (append-nil s) (ap (λ (n : ℕ). (n, s)) (plus_zero (length before)))
    walk_from-append obj before (x ∷ after) s h =
        let here : py.list_item obj (length before) ≡ some x =
          h.items (length before) ∙ elem-append before x after in
        let split = append_assoc before (x ∷ []) after in
        let rest =
          walk_from-append obj (before ++ x ∷ []) after (s ++ g x ∷ [])
            (subst (IsListOf obj) (sym split) h) in
        let step =
          subst
            (λ (n : ℕ).
              walk_from py cb obj (length after) n (s ++ g x ∷ [])
              ≡ (n + length after, (s ++ g x ∷ []) ++ map g after))
            (length-append before (x ∷ [])) rest in
        rw (walk_from, h.is_one, here, adds x (length before) s)
          (step
            ∙ rw (append_assoc s (g x ∷ []) (map g after)) (
                ap (λ (n : ℕ). (n, s ++ g x ∷ map g after))
                  (plus_one (length before) (length after))))

    walk_list-map :
        (obj : Obj) (xs : List Obj) (s : List A)
        → IsListOf obj xs
        → walk_list py cb obj s ≡ (some (length xs), s ++ map g xs)
    unfolding walk_list
    walk_list-map obj xs s h =
        rw (h.is_one, h.size, walk_from-append obj [] xs s h)
          (ap (λ (n : ℕ). (some n, s ++ map g xs)) (plus_before (length xs)))

    walk_list-map_nil :
        (xs : List Obj) (obj : Obj)
        → IsListOf obj xs
        → walk_list py cb obj [] ≡ (some (length xs), map g xs)
    walk_list-map_nil xs obj h = walk_list-map obj xs [] h

  -- nested Python lists
  abbrev pub nested_2 : List (List ℤ) → Obj
  nested_2 v = py.new_list (map (int_vec_to_py_list py) v)

  abbrev pub nested_3 : List (List (List ℤ)) → Obj
  nested_3 v = py.new_list (map nested_2 v)

  module _ (laws : PyLaws) where
    number_of-from_long : (z : ℤ) → IsInt32 z → number_of py (get_number py (py.from_long z)) ≡ z
    unfolding get_number number_of
    number_of-from_long z h = rw (laws.ints z, laws.longs z) (to_int-to_u64 z h)

    numbers_of :
        (zs : List ℤ)
        → All IsInt32 zs
        → map (λ x. number_of py (get_number py x)) (map py.from_long zs) ≡ zs
    numbers_of [] h = refl
    numbers_of (z ∷ zs) (hz, h) = rw (number_of-from_long z hz, numbers_of zs h) refl

    -- A vector of `int`s that is made a Python list is converted back to itself.
    pub py_list_to_int_vec-int_vec_to_py_list :
        (zs : List ℤ)
        → All IsInt32 zs
        → py_list_to_int_vec py (int_vec_to_py_list py zs) ≡ (true, zs)
    unfolding py_list_to_int_vec int_vec_to_py_list py_list_to_intvec_cb
    py_list_to_int_vec-int_vec_to_py_list zs h =
        rw
          (
            walk_list-map_nil (py_list_to_intvec_cb py) (λ x. number_of py (get_number py x))
                (λ x i s. refl) (map py.from_long zs) (py.new_list (map py.from_long zs))
                (laws.new_lists (map py.from_long zs)),
            numbers_of zs h,
          )
          refl

    inner_2 :
        (v : List (List ℤ))
        → All (All IsInt32) v
        → map (λ x. (py_list_to_int_vec py x).1) (map (int_vec_to_py_list py) v) ≡ v
    inner_2 [] h = refl
    inner_2 (zs ∷ v) (hz, h) = rw (py_list_to_int_vec-int_vec_to_py_list zs hz, inner_2 v h) refl

    pub py_list_list_to_int_vec_vec-nested_2 :
        (v : List (List ℤ))
        → All (All IsInt32) v
        → py_list_list_to_int_vec_vec py (nested_2 v) [] ≡ (true, v)
    unfolding py_list_list_to_int_vec_vec vec_vec_cb
    py_list_list_to_int_vec_vec-nested_2 v h =
        let xs = map (int_vec_to_py_list py) v in
        rw
          (
            walk_list-map_nil (vec_vec_cb py) (λ x. (py_list_to_int_vec py x).1) (λ x i s. refl) xs
                (py.new_list xs) (laws.new_lists xs),
            inner_2 v h,
          )
          refl

    inner_3 :
        (v : List (List (List ℤ)))
        → All (All (All IsInt32)) v
        → map (λ x. (py_list_list_to_int_vec_vec py x []).1) (map nested_2 v) ≡ v
    inner_3 [] h = refl
    inner_3 (zss ∷ v) (hz, h) = rw (py_list_list_to_int_vec_vec-nested_2 zss hz, inner_3 v h) refl

    pub py_list_list_to_int_vec_vec_vec-nested_3 :
        (v : List (List (List ℤ)))
        → All (All (All IsInt32)) v
        → py_list_list_to_int_vec_vec_vec py (nested_3 v) [] ≡ (true, v)
    unfolding py_list_list_to_int_vec_vec_vec vec_vec_vec_cb
    py_list_list_to_int_vec_vec_vec-nested_3 v h =
        let xs = map nested_2 v in
        rw
          (
            walk_list-map_nil (vec_vec_vec_cb py) (λ x. (py_list_list_to_int_vec_vec py x []).1)
                (λ x i s. refl) xs (py.new_list xs) (laws.new_lists xs),
            inner_3 v h,
          )
          refl
