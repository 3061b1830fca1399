-- ===== src/Groups.antt =====
-- `nodegroup_t`, `nodegroup_list_t`, `supergroup_t` and `supergroup_listp_t` of groupman.h and
-- groupman.cpp. A list object that lives outside the heap (a local `nodegroup_list_t`, an SG list
-- of the manager) is passed as its value.
pub mod Biggest
pub mod Owned
pub mod Freeing
use graph_slick.Base.{
  ℕ, ◌+◌, Bool, true, false, List, [], ◌∷◌, ◌++◌, ◌==◌, ltb, length, if◌then◌else◌, Text, codes,
  show_int, pos, is_empty,
}
use graph_slick.Heap.{
  Addr, null, SuperGroup, Cmd, pure, ◌>>=◌, ◌>>◌, get, modify, load_ng, load_sg, store_ng, store_sg,
  delete_nd, delete_ng, free_sg, new_nd, new_ng,
}

-- `std::list::remove`: every element equal to the given pointer
unfoldable pub remove : Addr → List Addr → List Addr
remove p [] = []
remove p (q ∷ l) = if q == p then remove p l else q ∷ remove p l

-- the first element, NULL if there is none
abbrev pub front_or_null : List Addr → Addr
front_or_null [] = null
front_or_null (p ∷ _) = p

-- `delete` of each node of a list
unfoldable pub delete_nds : List Addr → Cmd (Unit {0})
delete_nds [] = pure tt
delete_nds (nd ∷ l) = delete_nd nd >> delete_nds l

-- `nodegroup_t::free_nodes`
unfoldable pub free_nodes : Addr → Cmd (Unit {0})
unfolding delete_nds
free_nodes ng = do l ← load_ng ng; delete_nds l

-- `nodegroup_t::add_node`
unfoldable pub add_node : Addr → Addr → Cmd Addr
add_node ng nd = do
  p ← if nd == null then new_nd else pure nd
  l ← load_ng ng
  store_ng ng (l ++ p ∷ [])
  pure p

-- `nodegroup_t::get_first_node`
unfoldable pub get_first_node : Addr → Cmd Addr
get_first_node ng = do l ← load_ng ng; pure (front_or_null l)

-- `nodegroup_list_t::free_nodegroup`
unfoldable pub free_nodegroup : Bool → List Addr → Cmd (Unit {0})
free_nodegroup with_nodes [] = pure tt
free_nodegroup with_nodes (ng ∷ ngl) = do
  if with_nodes then free_nodes ng else pure tt
  delete_ng ng
  free_nodegroup with_nodes ngl

-- `nodegroup_list_t::get_first_node`
unfoldable pub first_node_of_list : List Addr → Cmd Addr
first_node_of_list [] = pure null
first_node_of_list (ng ∷ _) = get_first_node ng

-- `nodegroup_list_t::get_first_ng`
unfoldable pub first_ng_of_list : List Addr → Addr
first_ng_of_list ngl = front_or_null ngl

-- the loop of `find_biggest`; `best` is its variable `ng`
unfoldable pub biggest_from : Addr → List Addr → Cmd Addr
biggest_from best [] = pure best
biggest_from best (ng ∷ ngl) = if best == null then biggest_from ng ngl else do
  old ← load_ng best
  new ← load_ng ng
  biggest_from (if ltb (length old) (length new) then ng else best) ngl

-- `nodegroup_list_t::find_biggest`
unfoldable pub find_biggest : List Addr → Cmd Addr
unfolding biggest_from
find_biggest ngl = biggest_from null ngl

-- `nodegroup_list_t::add_nodegroup`: the list behind, and the group
unfoldable pub list_add_nodegroup : List Addr → Addr → Cmd (List Addr × Addr)
list_add_nodegroup ngl ng = do p ← if ng == null then new_ng else pure ng; pure (ngl ++ p ∷ [], p)

-- `supergroup_t::add_nodegroup`
unfoldable pub add_nodegroup : Addr → Addr → Cmd Addr
add_nodegroup sg ng = do
  p ← if ng == null then new_ng else pure ng
  s ← load_sg sg
  store_sg sg (record s { groups = s.groups ++ p ∷ [] })
  pure p

-- `supergroup_t::clear`
unfoldable pub clear_sg : Addr → Cmd (Unit {0})
clear_sg sg = do
  s ← load_sg sg
  free_nodegroup true s.groups
  t ← load_sg sg
  store_sg sg (record t { groups = [] })

-- `delete sg`, with the destructor `~supergroup_t`
unfoldable pub delete_sg : Addr → Cmd (Unit {0})
delete_sg sg = if sg == null then pure tt else clear_sg sg >> free_sg sg

-- `supergroup_t::remove_nodegroup`
unfoldable pub remove_nodegroup : Addr → Addr → Bool → Cmd (Unit {0})
remove_nodegroup sg ng free_ng = do
  s ← load_sg sg
  store_sg sg (record s { groups = remove ng s.groups })
  if free_ng then delete_ng ng else pure tt

-- `supergroup_t::empty` and `gcount`
unfoldable pub sg_empty : Addr → Cmd Bool
sg_empty sg = do s ← load_sg sg; pure (is_empty s.groups)

unfoldable pub gcount : Addr → Cmd ℕ
gcount sg = do s ← load_sg sg; pure (length s.groups)

-- `supergroup_t::get_first_ng` and `get_first_node`; the latter does not test for NULL
unfoldable pub sg_first_ng : Addr → Cmd Addr
sg_first_ng sg = do s ← load_sg sg; pure (first_ng_of_list s.groups)

unfoldable pub sg_first_node : Addr → Cmd Addr
sg_first_node sg = do ng ← sg_first_ng sg; get_first_node ng

-- `supergroup_t::get_display_name`
unfoldable pub get_display_name : SuperGroup → Text → Text
get_display_name s defval =
    if is_empty s.name then (if is_empty s.id then defval else s.id) else s.name

-- `supergroup_t::copy_attr_from`, with its static counter
unfoldable pub copy_attr_from : Addr → Addr → Cmd (Unit {0})
copy_attr_from this sg = do
  w ← get
  let suffix = codes " - copy_" ++ show_int (pos w.ncopy)
  s ← load_sg sg
  t ← load_sg this
  store_sg this (record t { id = s.id ++ suffix })
  s ← load_sg sg
  t ← load_sg this
  store_sg this (record t { name = s.name ++ suffix })
  s ← load_sg sg
  store_sg sg (record s { is_synthetic = false })
  t ← load_sg this
  store_sg this (record t { is_synthetic = false })
  modify (λ v. record v { heap = record v.heap { ncopy = v.ncopy + 1 } })
