-- ===== src/Lib.antt =====
-- GraphSlick's core: the manager of groups of basic blocks, the bbgroup file format, the graph
-- builders, the colour generator, the graph view, the chooser and the bridge to Python.
--
-- A program run starts from a bbgroup file (`groupman_t::parse`) or from a flowchart
-- (`build_groupman_from_fc`, `build_groupman_from_3dvec`); `sanitize_groupman` completes it by the
-- blocks that no group has. The manager owns super groups, each a list of node groups, each a list
-- of nodes, and finds a node by its id through a lookup map. `fc_to_combined_mg` draws one graph
-- node per node group. The view combines, splits and promotes the groups that the user selects,
-- and colours highlighted groups with the colour generator. The chooser loads, saves and analyses, and
-- asks a Python matcher for groups.
--
-- The files:
-- - OrdMap: `std::map`, as a list in key order.
-- - Heap: the objects of groupman.h at addresses, and commands over them. `new` gives an address
--   that was never used. Reading, writing or deleting an object that is not there is a fault, so
--   that a theorem on a result also says that no dead object is touched. Heap/Returns and
--   Heap/Laws hold the laws of runs and of cells, Heap/Freed those of sets of cells.
-- - Groups: `nodegroup_t`, `nodegroup_list_t` and `supergroup_t` of groupman.cpp;
--   Groups/Owned: trees of super groups, groups and nodes as they lie in the heap.
-- - View: what the heap shows through the lists of a manager: members, locations, liveness.
-- - Manager: `groupman_t` of groupman.cpp, lookups and lists; Manager/Regroup: `combine_ngl`,
--   `move_nodes_to_ng`, `reset_groupping`. The other files of Manager hold proofs.
-- - BbGroup: `parse` and its helpers; BbGroup/Tokens: the C string routines they loop over;
--   BbGroup/Emit: `emit` and `emit_sgl`; BbGroup/Standalone: `main` of stdalone.cpp. The other files of BbGroup hold the proof that what is
--   written parses back; the laws of the SDK's scanning and printing are in BbGroup/Laws.
-- - Algo: the builders of algo.cpp, with the proofs on `sanitize_groupman` in Orphans and
--   Sanitized, and on `build_groupman_from_3dvec` in Vectors, Groupings, Unmentioned and Built; Algo/Combined: `fc_to_combined_mg` of algo.hpp, with the proofs in Labels, Numbering, Drawing and Edges.
-- - ColorGen: colorgen.cpp and colorgen.h.
-- - Algo/Single: `func_to_mgraph` of algo.cpp and `gnodemap_t` of util.h.
-- - Graph: the state of the graph view of plugin.cpp and its lookups; Graph/Select: selection,
--   highlighting and jumps; Graph/Highlight: highlighting of lists and the search; Graph/Similar: the
--   chooser's `find_similar`; Graph/Describe: editing of a name; Graph/Regrouping: combining,
--   promoting and splitting; Graph/Callback: `gr_callback` and the switches of the view mode;
--   Graph/Menu: `on_menu`, with the menu's ids in Ids, its items and their dispatch in Items. The other files of Graph, and those of
--   Graph/Regrouping, hold proofs.
-- - Chooser: the state of `gschooser_t` of plugin.cpp; Chooser/Lines: its lines and their texts;
--   Chooser/Files: loading and saving, with the proofs on loading in Shown and Loaded;
--   Chooser/Analysis: analysing and the start; Chooser/Plugin: the one instance, `run` and `init`, with
--   the proof on them in Lifecycle;
--   Chooser/Actions and Chooser/Marks: its commands on a line.
-- - Python: the conversions of pywraps.hpp; Python/Matcher: pybbmatcher.cpp. Python/Vectors and
--   Python/Calls hold proofs.
-- - Util: util.cpp.
-- - Base: shared names, lists, integers, bytes and bits. Tests: examples at concrete inputs.
--
-- Types: `int` is an integer without a bound (ids count the blocks of one function), `unsigned` is
-- a natural number modulo 2^32, `ea_t` is a natural number, a string is a list of bytes, a pointer
-- is its address with 0 for NULL, a double is an interface that the definitions take as an
-- argument.
--
-- In the view, what the user types is a list of answers, jumps and refreshes are recorded as
-- events, and an iterator of a map is the key of its entry, or dangles once the entry is erased.
--
-- Fuel: `parse_groups` takes the length of the text, of which each round uses up a parenthesis;
-- `get_color_anyway` loops until a colour is not 0, and two rounds are enough where the next
-- variant starts with a colour; in the handlers that use it, running out of fuel is a fault. All
-- other loops are recursion on the list they walk.
--
-- In the chooser, a second manager shares the heap with the one that is shown, and is deleted or takes
-- its place. A refresh of the chooser that the view asks for is recorded as an event.
--
-- Not modelled: the registration of the chooser's callbacks in plugin.cpp (it only fills a structure of the
-- SDK), reference counts and the interpreter's lock of the Python bridge, and the
-- Python matcher under bbgroup. Routines of the SDK and of Python (flowcharts, disassembly,
-- `qsscanf`, `stricmp`, files, prompts, the C interface of Python) are parameters.
mod Base
pub mod OrdMap
pub mod Heap
pub mod Groups
pub mod View
pub mod ColorGen
pub mod Algo
pub mod BbGroup
pub mod Graph
pub mod Util
pub mod Python
pub mod Chooser
mod Tests
pub mod Manager
