-- ===== src/Python/Matcher.antt =====
-- `PyBBMatcher` of pybbmatcher.h and pybbmatcher.cpp: the references that it holds and its calls.
use graph_slick.Base.{
  ℕ, Bool, true, false, ◌||◌, Option, none, some, List, if◌then◌else◌, ℤ, Text, codes,
}
use graph_slick.Python.{
  PyApi, int_vec_to_py_list, py_list_list_to_int_vec_vec, py_list_list_to_int_vec_vec_vec,
}

-- the references, none for NULL, and the static flag of `call_init_file`
pub record PyBbMatcher (Obj : Type 0) : Type 0 where
  pub py_matcher_module : Option Obj
  pub py_instref : Option Obj
  pub py_meth_find_similar : Option Obj
  pub py_meth_save_state : Option Obj
  pub py_meth_load_state : Option Obj
  pub py_meth_analyze : Option Obj
  pub init_file_executed : Bool

-- The interpreter: whether it runs, whether the init script raises no error, its modules and
-- attributes, and calls of an object with at most one argument, which give NULL also where the
-- callee is NULL. `as_string` is none where the object is no string.
pub record Interpreter (Obj : Type 0) : Type 0 where
  pub api : PyApi Obj
  pub is_initialized : Bool
  pub script_runs : Bool
  pub import_module : Text → Option Obj
  pub get_attr : Obj → Text → Option Obj
  pub call : Option Obj → Option Obj → Option Obj
  pub from_address : ℕ → Obj
  pub from_string : Text → Obj
  pub as_string : Obj → Option Text
  pub is_true : Obj → Bool

-- the constructor
abbrev pub new_matcher : {Obj : Type 0} → Bool → PyBbMatcher Obj
new_matcher executed = record {
  py_matcher_module = none;
  py_instref = none;
  py_meth_find_similar = none;
  py_meth_save_state = none;
  py_meth_load_state = none;
  py_meth_analyze = none;
  init_file_executed = executed;
}

-- `deinit`
unfoldable pub deinit : {Obj : Type 0} → PyBbMatcher Obj → PyBbMatcher Obj
deinit m = record m {
  py_matcher_module = none;
  py_instref = none;
  py_meth_find_similar = none;
  py_meth_save_state = none;
  py_meth_load_state = none;
  py_meth_analyze = none;
}

abbrev pub is_null : {A : Type 0} → Option A → Bool
is_null none = true
is_null (some _) = false

module _ {Obj : Type 0} (py : Interpreter Obj) where
  -- `call_init_file`: the error, none for NULL
  unfoldable pub call_init_file : PyBbMatcher Obj → Option Text × PyBbMatcher Obj
  call_init_file m =
      if py.is_initialized
      then (if m.init_file_executed
          then (none, m)
          else (if py.script_runs
              then (none, record m { init_file_executed = true })
              else (some (codes "Could not run the init script!"), m)))
      else (some (codes "Python is required to run this plugin"), m)

  abbrev pub get_methods : PyBbMatcher Obj → Option Obj → Option Text × PyBbMatcher Obj
  get_methods m none = (some (codes "BBMatcher instance not present"), m)
  get_methods m (some inst) =
      let m' : PyBbMatcher Obj = record m {
        py_instref = some inst;
        py_meth_find_similar = py.get_attr inst (codes "FindSimilar");
        py_meth_save_state = py.get_attr inst (codes "SaveState");
        py_meth_load_state = py.get_attr inst (codes "LoadState");
        py_meth_analyze = py.get_attr inst (codes "Analyze");
      } in
      if is_null m'.py_meth_find_similar
        || is_null m'.py_meth_save_state
        || is_null m'.py_meth_load_state
        || is_null m'.py_meth_analyze
      then (some (codes "Failed to find one or more needed methods"), m')
      else (none, m')

  abbrev pub get_instance : PyBbMatcher Obj → Option Obj → Option Text × PyBbMatcher Obj
  get_instance m none = (some (codes "BBMatch module is not present"), m)
  get_instance m (some mod_) =
      get_methods (record m { py_matcher_module = some mod_ })
        (py.get_attr mod_ (codes "bbMatcher"))

  abbrev pub init_from : Option Text × PyBbMatcher Obj → Option Text × PyBbMatcher Obj
  init_from (some err, m) = (some err, m)
  init_from (none, m) = get_instance m (py.import_module (codes "bb_match"))

  -- `init`
  unfoldable pub init : PyBbMatcher Obj → Option Text × PyBbMatcher Obj
  unfolding call_init_file
  init m = init_from (call_init_file m)

  abbrev pub matcher_of : Option Text × PyBbMatcher Obj → Option (PyBbMatcher Obj)
  matcher_of (some err, m) = none
  matcher_of (none, m) = some m

  -- `init_python` of the chooser: the matcher, none where it fails
  unfoldable pub init_python : Bool → Option (PyBbMatcher Obj)
  unfolding init
  init_python executed = matcher_of (init (new_matcher executed))

  abbrev pub analyzed : Option Obj → List (List (List ℤ)) → List (List (List ℤ))
  analyzed none result = result
  analyzed (some ret) result = (py_list_list_to_int_vec_vec_vec py.api ret result).1

  -- `Analyze`: the vector behind
  unfoldable pub analyze : PyBbMatcher Obj → ℕ → List (List (List ℤ)) → List (List (List ℤ))
  analyze m func_addr result =
      analyzed (py.call m.py_meth_analyze (some (py.from_address func_addr))) result

  abbrev pub found_similar : Option Obj → List (List ℤ) → Bool × List (List ℤ)
  found_similar none similar = (false, similar)
  found_similar (some ret) similar = py_list_list_to_int_vec_vec py.api ret similar

  -- `FindSimilar`
  unfoldable pub find_similar : PyBbMatcher Obj → List ℤ → List (List ℤ) → Bool × List (List ℤ)
  find_similar m node_list similar =
      found_similar (py.call m.py_meth_find_similar (some (int_vec_to_py_list py.api node_list)))
        similar

  abbrev pub saved : Option Obj → Option Text
  saved none = none
  saved (some ret) = py.as_string ret

  -- `SaveState`: none where it returns false
  unfoldable pub save_state : PyBbMatcher Obj → Option Text
  save_state m = saved (py.call m.py_meth_save_state none)

  abbrev pub loaded : Option Obj → Option Bool
  loaded none = none
  loaded (some ret) = some (py.is_true ret)

  -- `LoadState`; none where the call gives NULL, whose reference is then released without a test
  unfoldable pub load_state : PyBbMatcher Obj → Text → Option Bool
  load_state m filename = loaded (py.call m.py_meth_load_state (some (py.from_string filename)))
