-- ===== src/Python.antt =====
-- pywraps.hpp: conversions between Python objects and vectors of `int`. Python's C interface is a
-- parameter; reference counts and the interpreter's lock are left out.
pub mod Matcher
pub mod Vectors
pub mod Calls
use graph_slick.Base.{
  ℕ, zero, suc, ◌+◌, ◌-◌, ◌%◌, ◌^◌, Bool, true, false, ◌||◌, Option, none, some, List, [], ◌∷◌,
  ◌++◌, map, ltb, if◌then◌else◌, ℤ, pos, negsuc, ltb_ℤ,
}

-- what `PyLong_AsUnsignedLongLong` gives: a number, a TypeError or another error
pub data Parsed : Type 0 where
  parsed : ℕ → Parsed
  type_error other_error : Parsed

-- `as_long`, `as_unsigned_long` and `as_long_long` are none where an error occurs. `mask` is the
-- conjunction with 2 ^ 64 - 1.
pub record PyApi (Obj : Type 0) : Type 0 where
  pub is_int : Obj → Bool
  pub is_long : Obj → Bool
  pub as_long : Obj → Option ℤ
  pub as_unsigned_long : Obj → Option ℕ
  pub as_long_long : Obj → Option ℤ
  pub as_unsigned_long_long : Obj → Parsed
  pub mask : Obj → Option Obj
  pub is_list : Obj → Bool
  pub list_size : Obj → ℕ
  pub list_item : Obj → ℕ → Option Obj
  pub is_sequence : Obj → Bool
  pub sequence_size : Obj → Option ℕ
  pub sequence_item : Obj → ℕ → Option Obj
  pub new_list : List Obj → Obj
  pub from_long : ℤ → Obj

-- the cast to `uint64`
unfoldable pub to_u64 : ℤ → ℕ
to_u64 (pos n) = n % 2 ^ 64
to_u64 (negsuc n) = 2 ^ 64 - 1 - n % 2 ^ 64

-- the cast of a `uint64` to `int`
unfoldable pub to_int : ℕ → ℤ
to_int num =
    let low = num % 2 ^ 32 in if ltb low (2 ^ 31) then pos low else negsuc (2 ^ 32 - 1 - low)

-- CIP_FAILED and CIP_OK
abbrev pub cip_failed : ℤ
cip_failed = negsuc 0

abbrev pub cip_ok : ℤ
cip_ok = pos 1

abbrev pub num_or : Option ℕ → ℕ → ℕ
num_or none n = n
num_or (some m) n = m

module _ {Obj : Type 0} (py : PyApi Obj) where
  abbrev pub masked : Option Obj → Option (ℕ × Bool)
  masked none = none
  masked (some obj) = elim (py.as_unsigned_long_long obj) [
    | parsed n ↦ some (n % 2 ^ 64, true)
    | type_error ↦ none
    | other_error ↦ none
  ]

  abbrev pub last_try : Obj → Parsed → Option (ℕ × Bool)
  last_try obj (parsed n) = some (n % 2 ^ 64, true)
  last_try obj type_error = masked (py.mask obj)
  last_try obj other_error = none

  -- `PyW_GetNumber`: the number and `is_64`; none where it returns false
  unfoldable pub get_number : Obj → Option (ℕ × Bool)
  get_number obj =
      if py.is_int obj || py.is_long obj
      then elim (py.as_long obj) [
        | some l ↦ some (to_u64 l, false)
        | none ↦ elim (py.as_unsigned_long obj) [
          | some ul ↦ some (ul % 2 ^ 64, false)
          | none ↦ elim (py.as_long_long obj) [
            | some ll ↦ some (to_u64 ll, true)
            | none ↦ last_try obj (py.as_unsigned_long_long obj)
          ]
        ]
      ]
      else none

  -- `PyW_IsSequenceType`
  unfoldable pub is_sequence_type : Obj → Bool
  is_sequence_type obj =
      if py.is_sequence obj
      then (elim (py.sequence_size obj) [ none ↦ false | some sz ↦ true ])
      else false

  abbrev pub item_of : Obj → ℕ → Option Obj
  item_of obj i = if py.is_list obj then py.list_item obj i else py.sequence_item obj i

  module _ {S : Type 0} (cb : Obj → ℕ → S → ℤ × S) where
    -- the loop, with `n` items left from index `i` on: the index behind and what the callback made
    unfoldable pub walk_from : Obj → ℕ → ℕ → S → ℕ × S
    walk_from obj zero i s = (i, s)
    walk_from obj (suc n) i s = elim (item_of obj i) [
      | none ↦ (i, s)
      | some item ↦
          let (r, s') = cb item i s in
          let rest = walk_from obj n (i + 1) s' in if ltb_ℤ r cip_ok then (i, s') else rest
    ]

    -- `pyvar_walk_list`; none stands for CIP_FAILED
    unfoldable pub walk_list : Obj → S → Option ℕ × S
    unfolding walk_from
    walk_list obj s =
        if py.is_list obj || is_sequence_type obj
        then (let size =
              if py.is_list obj then py.list_size obj else num_or (py.sequence_size obj) 0 in
            let (i, s') = walk_from obj size 0 s in (some i, s'))
        else (none, s)

  abbrev pub walked : {S : Type 0} → Option ℕ × S → Bool × S
  walked (none, s) = (false, s)
  walked (some n, s) = (true, s)

  -- `PyW_IntVecToPyList`
  unfoldable pub int_vec_to_py_list : List ℤ → Obj
  int_vec_to_py_list intvec = py.new_list (map py.from_long intvec)

  -- the callback: an item that is no number counts as 0
  unfoldable pub number_of : Option (ℕ × Bool) → ℤ
  number_of none = to_int 0
  number_of (some (num, _)) = to_int num

  unfoldable pub py_list_to_intvec_cb : Obj → ℕ → List ℤ → ℤ × List ℤ
  unfolding number_of
  py_list_to_intvec_cb item index intvec = (cip_ok, intvec ++ number_of (get_number item) ∷ [])

  -- `PyW_PyListToIntVec`, which clears the vector first: whether it succeeds, and the vector
  unfoldable pub py_list_to_int_vec : Obj → Bool × List ℤ
  unfolding walk_list
  py_list_to_int_vec obj = walked (walk_list py_list_to_intvec_cb obj [])

  unfoldable pub vec_vec_cb : Obj → ℕ → List (List ℤ) → ℤ × List (List ℤ)
  vec_vec_cb item index vec =
      let (_, inner) = py_list_to_int_vec item in (cip_ok, vec ++ inner ∷ [])

  -- `PyW_PyListListToIntVecVec`, which appends to the vector
  unfoldable pub py_list_list_to_int_vec_vec : Obj → List (List ℤ) → Bool × List (List ℤ)
  unfolding walk_list
  py_list_list_to_int_vec_vec obj result = walked (walk_list vec_vec_cb obj result)

  unfoldable pub vec_vec_vec_cb : Obj → ℕ → List (List (List ℤ)) → ℤ × List (List (List ℤ))
  vec_vec_vec_cb item index vec =
      let (_, inner) = py_list_list_to_int_vec_vec item [] in (cip_ok, vec ++ inner ∷ [])

  -- `PyW_PyListListToIntVecVecVec`
  unfoldable pub py_list_list_to_int_vec_vec_vec :
      Obj → List (List (List ℤ)) → Bool × List (List (List ℤ))
  unfolding walk_list
  py_list_list_to_int_vec_vec_vec obj result = walked (walk_list vec_vec_vec_cb obj result)
