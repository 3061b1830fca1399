-- ===== src/Python/Calls.antt =====
-- What the calls of the matcher give where Python answers with nested lists, and what `init_python`
-- makes sure of.
use mathlib.Core.Option.{some_inj}
use graph_slick.Base.{
  ℕ, ◌≡◌, refl, ap, subst, ◌||◌, Bool, true, false, Bool-cases, inl, inr, Option, none, some, List,
  [], All, arith, ℤ, codes, Text,
}
use graph_slick.Python.Matcher.{
  PyBbMatcher, Interpreter, new_matcher, init_python, init, init_from, call_init_file, analyze,
  get_instance, get_methods, is_null, matcher_of,
}
use graph_slick.Python.Vectors.{IsInt32, PyLaws, nested_3, py_list_list_to_int_vec_vec_vec-nested_3}

-- Where the method that is called answers with lists of lists of lists of `int`s, Analyze fills an
-- empty vector with the same numbers in the same nesting.
pub analyze_lem :
    {Obj : Type 0} (py : Interpreter Obj) (m : PyBbMatcher Obj) (func_addr : ℕ)
    (v : List (List (List ℤ)))
    → PyLaws py.api
    → All (All (All IsInt32)) v
    → py.call m.py_meth_analyze (some (py.from_address func_addr)) ≡ some (nested_3 py.api v)
    → analyze py m func_addr [] ≡ v
unfolding analyze
analyze_lem py m func_addr v laws h e = rw e (
    ap (λ (r : Bool × List (List (List ℤ))). r.1)
      (py_list_list_to_int_vec_vec_vec-nested_3 py.api laws v h))

-- every reference of the matcher is there
pub record IsComplete {Obj : Type 0} (m : PyBbMatcher Obj) : Type 0 where
  pub has_module : is_null m.py_matcher_module ≡ false
  pub has_instance : is_null m.py_instref ≡ false
  pub has_find_similar : is_null m.py_meth_find_similar ≡ false
  pub has_save_state : is_null m.py_meth_save_state ≡ false
  pub has_load_state : is_null m.py_meth_load_state ≡ false
  pub has_analyze : is_null m.py_meth_analyze ≡ false
  pub has_run : m.init_file_executed ≡ true

module _ {Obj : Type 0} (py : Interpreter Obj) where
  parts :
      (a b c d : Bool)
      → (a || b || c || d) ≡ false
      → (a ≡ false) × (b ≡ false) × (c ≡ false) × (d ≡ false)
  parts true b c d h = ground (arith, h)
  parts false true c d h = ground (arith, h)
  parts false false true d h = ground (arith, h)
  parts false false false d h = (refl, refl, refl, h)

  -- where there is no error, the instance was found and the references are there
  get_methods-IsComplete :
      (m : PyBbMatcher Obj) (inst : Option Obj)
      → is_null m.py_matcher_module ≡ false
      → m.init_file_executed ≡ true
      → (get_methods py m inst).0 ≡ none
      → IsComplete (get_methods py m inst).1
  get_methods-IsComplete m none mod_there run e = ground (arith, e)
  get_methods-IsComplete m (some inst) mod_there run e =
      elim (Bool-cases (
        is_null (py.get_attr inst (codes "FindSimilar"))
        || is_null (py.get_attr inst (codes "SaveState"))
        || is_null (py.get_attr inst (codes "LoadState"))
        || is_null (py.get_attr inst (codes "Analyze")))) [
          | inl bad ↦ ground (arith, e, bad)
          | inr fine ↦
              let (a, b, c, d) = parts _ _ _ _ fine in
              rw fine (record {
                has_module = mod_there;
                has_instance = refl;
                has_find_similar = a;
                has_save_state = b;
                has_load_state = c;
                has_analyze = d;
                has_run = run;
              })
        ]

  get_instance-IsComplete :
      (m : PyBbMatcher Obj) (mod_ : Option Obj)
      → m.init_file_executed ≡ true
      → (get_instance py m mod_).0 ≡ none
      → IsComplete (get_instance py m mod_).1
  get_instance-IsComplete m none run e = ground (arith, e)
  get_instance-IsComplete m (some mod_) run e = get_methods-IsComplete _ _ refl run e

  call_init_file-runs :
      (m : PyBbMatcher Obj)
      → (call_init_file py m).0 ≡ none
      → (call_init_file py m).1.init_file_executed ≡ true
  unfolding call_init_file
  call_init_file-runs m e = ground (arith, e)

  init_from-IsComplete :
      (r : Option Text × PyBbMatcher Obj)
      → (r.0 ≡ none → r.1.init_file_executed ≡ true)
      → (init_from py r).0 ≡ none
      → IsComplete (init_from py r).1
  init_from-IsComplete (some err, m) run e = ground (arith, e)
  init_from-IsComplete (none, m) run e = get_instance-IsComplete m _ (run refl) e

  matcher_of-IsComplete :
      (r : Option Text × PyBbMatcher Obj) (m : PyBbMatcher Obj)
      → (r.0 ≡ none → IsComplete r.1)
      → matcher_of py r ≡ some m
      → IsComplete m
  matcher_of-IsComplete (some err, m') m h e = ground (arith, e)
  matcher_of-IsComplete (none, m') m h e = subst IsComplete (some_inj.0 e) (h refl)

  -- A matcher that init_python gives has a module, an instance and all four methods, and the init
  -- script has run.
  pub init_python-IsComplete :
      (executed : Bool) (m : PyBbMatcher Obj) → init_python py executed ≡ some m → IsComplete m
  unfolding init_python init
  init_python-IsComplete executed m e =
      let start : PyBbMatcher Obj = new_matcher executed in
      matcher_of-IsComplete (init py start) m
        (init_from-IsComplete (call_init_file py start) (call_init_file-runs start)) e
