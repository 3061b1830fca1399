-- ===== src/Util.antt =====
-- util.cpp: wrappers over the SDK's routines on functions, flowcharts and text. `get_func` gives the
-- start of the function at an address, `create` stands for the flowchart of a function and
-- `gen_disasm_text` for the lines of a range of addresses.
use graph_slick.Base.{ℕ, Option, none, some, List, [], ◌∷◌, ◌++◌, ◌==◌, if◌then◌else◌, Text}
use graph_slick.Algo.{FlowChart}

-- the loop of `get_disasm_text`
unfoldable pub append_lines : Text → List Text → Text
append_lines out [] = out
append_lines out (line ∷ txt) = append_lines (out ++ line ++ b'\n' ∷ []) txt

-- `get_disasm_text`, what it appends to its argument included
unfoldable pub get_disasm_text : (ℕ → ℕ → List Text) → ℕ → ℕ → Text → Text
get_disasm_text gen_disasm_text start end out = append_lines out (gen_disasm_text start end)

abbrev pub chart_of : (ℕ → FlowChart) → Option ℕ → Option FlowChart
chart_of create none = none
chart_of create (some ea) = some (create ea)

-- none where it returns false
unfoldable pub get_func_flowchart : (ℕ → Option ℕ) → (ℕ → FlowChart) → ℕ → Option FlowChart
get_func_flowchart get_func create ea = chart_of create (get_func ea)

-- a last '.' of the buffer is cut off
unfoldable pub drop_dot : Text → Text
drop_dot [] = []
drop_dot (c ∷ []) = if c == b'.' then [] else c ∷ []
drop_dot (c ∷ d ∷ s) = c ∷ drop_dot (d ∷ s)

abbrev pub function_fn : Text → (ℕ → Text) → Text → Option ℕ → Option Text
function_fn database show_ea ext none = none
function_fn database show_ea ext (some ea) =
    some (drop_dot database ++ b'-' ∷ (show_ea ea ++ b'.' ∷ ext))

-- `get_screen_function_fn`: `database` is the path with its extension removed, `show_ea` prints with
-- "%08a", `screen_func` is the function at the cursor; none stands for NULL
unfoldable pub get_screen_function_fn : Text → (ℕ → Text) → Option ℕ → Text → Option Text
get_screen_function_fn database show_ea screen_func ext =
    function_fn database show_ea ext screen_func
