-- ===== src/Tests/Python.antt =====
-- The conversions of Python lists at objects that are lists and numbers, with the laws of the C
-- interface.
use graph_slick.Base.{
  ◌≡◌, refl, Bool, true, false, Option, none, some, List, [], ◌∷◌, All, arith, length, get_elem?, ℤ,
  pos, negsuc,
}
use graph_slick.Python.{PyApi, other_error, py_list_to_int_vec, int_vec_to_py_list}
use graph_slick.Python.Matcher.{
  Interpreter, PyBbMatcher, new_matcher, analyze, init_python, init, call_init_file,
}
use graph_slick.Python.Vectors.{IsInt32, PyLaws, nested_3, py_list_to_int_vec-int_vec_to_py_list}
use graph_slick.Python.Calls.{IsComplete, analyze_lem, init_python-IsComplete}

-- a number or a list
mutual
  pub data Obj : Type 0 where
    number : ℤ → Obj
    list : Objs → Obj

  pub data Objs : Type 0 where
    nil : Objs
    cons : Obj → Objs → Objs

abbrev of_list : List Obj → Objs
of_list [] = nil
of_list (x ∷ xs) = cons x (of_list xs)

abbrev to_list : Objs → List Obj
to_list nil = []
to_list (cons x xs) = x ∷ to_list xs

to_list-of_list : (xs : List Obj) → to_list (of_list xs) ≡ xs
to_list-of_list [] = refl
to_list-of_list (x ∷ xs) = rw (to_list-of_list xs) refl

abbrev is_number : Obj → Bool
is_number (number z) = true
is_number (list xs) = false

abbrev value : Obj → Option ℤ
value (number z) = some z
value (list xs) = none

abbrev is_a_list : Obj → Bool
is_a_list (number z) = false
is_a_list (list xs) = true

abbrev elements : Obj → List Obj
elements (number z) = []
elements (list xs) = to_list xs

abbrev objects : PyApi Obj
objects = record {
  is_int = is_number;
  is_long = λ x. false;
  as_long = value;
  as_unsigned_long = λ x. none;
  as_long_long = λ x. none;
  as_unsigned_long_long = λ x. other_error;
  mask = λ x. none;
  is_list = is_a_list;
  list_size = λ x. length (elements x);
  list_item = λ x i. get_elem? (elements x) i;
  is_sequence = λ x. false;
  sequence_size = λ x. none;
  sequence_item = λ x i. none;
  new_list = λ xs. list (of_list xs);
  from_long = number;
}

objects-PyLaws : PyLaws objects
objects-PyLaws = record {
  new_lists = λ xs. record {
    is_one = refl;
    size = rw (to_list-of_list xs) refl;
    items = λ i. rw (to_list-of_list xs) refl;
  };
  ints = λ z. refl;
  longs = λ z. refl;
}

abbrev small : List ℤ
small = pos 3 ∷ negsuc 0 ∷ []

small-IsInt32 : All IsInt32 small
small-IsInt32 = (omega arith, (omega arith, tt))

py_list_to_int_vec-int_vec_to_py_list_example :
    py_list_to_int_vec objects (int_vec_to_py_list objects small) ≡ (true, small)
py_list_to_int_vec-int_vec_to_py_list_example =
    py_list_to_int_vec-int_vec_to_py_list objects objects-PyLaws small small-IsInt32

-- an interpreter whose calls give one nested list
abbrev result : List (List (List ℤ))
result = (small ∷ [] ∷ []) ∷ []

abbrev pub interpreter : Interpreter Obj
interpreter = record {
  api = objects;
  is_initialized = true;
  script_runs = true;
  import_module = λ name. some (number (pos 0));
  get_attr = λ x name. some (number (pos 1));
  call = λ f x. some (nested_3 objects result);
  from_address = λ a. number (pos a);
  from_string = λ s. number (pos 2);
  as_string = λ x. none;
  is_true = λ x. true;
}

analyze_lem_example : analyze interpreter (new_matcher false) 4096 [] ≡ result
analyze_lem_example =
    analyze_lem interpreter (new_matcher false) 4096 result objects-PyLaws
      ((small-IsInt32, (tt, tt)), tt) refl

abbrev pub complete : PyBbMatcher Obj
complete = record {
  py_matcher_module = some (number (pos 0));
  py_instref = some (number (pos 1));
  py_meth_find_similar = some (number (pos 1));
  py_meth_save_state = some (number (pos 1));
  py_meth_load_state = some (number (pos 1));
  py_meth_analyze = some (number (pos 1));
  init_file_executed = true;
}

init_python-IsComplete_example : IsComplete complete
unfolding init_python init call_init_file
init_python-IsComplete_example = init_python-IsComplete interpreter false complete refl
