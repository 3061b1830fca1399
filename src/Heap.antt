-- ===== src/Heap.antt =====
-- The objects of groupman.h at their addresses, and commands over them. A pointer is its address
-- and NULL is 0. `new` takes an address that was never used; reading, writing or deleting an
-- object that is not there (NULL, or one that was deleted) is a fault. A command also carries the
-- one `groupman_t` of the plugin.
pub mod Returns
pub mod Laws
pub mod Freed
use graph_slick.Base.{
  ℕ, suc, ◌+◌, Bool, Option, none, some, List, [], ◌∷◌, ◌++◌, ◌==◌, if◌then◌else◌, ℤ, pos, Text,
}
use graph_slick.OrdMap.{Map}

abbrev pub Addr : Type 0
Addr = ℕ

abbrev pub null : Addr
null = 0

-- `nodedef_t`
pub record NodeDef : Type 0 where
  pub nid : ℤ
  pub start : ℕ
  pub end : ℕ

-- `supergroup_t`; `groups` is its `nodegroup_list_t`
pub record SuperGroup : Type 0 where
  pub id : Text
  pub name : Text
  pub is_synthetic : Bool
  pub groups : List Addr

-- `nodeloc_t`
pub record NodeLoc : Type 0 where
  pub sg : Addr
  pub ng : Addr
  pub nd : Addr

abbrev pub nodeloc : Addr → Addr → Addr → NodeLoc
nodeloc sg ng nd = record { sg = sg; ng = ng; nd = nd }

-- The live objects of each class; a `nodegroup_t` is its list of node pointers. `ncopy` is the
-- static counter of `copy_attr_from`.
pub record Heap : Type 0 where
  pub nds : Addr → Option NodeDef
  pub ngs : Addr → Option (List Addr)
  pub sgs : Addr → Option SuperGroup
  pub next : Addr
  pub ncopy : ℕ

-- `groupman_t`, with the heap that it points into
pub record GroupMan : Type 0 where
  pub heap : Heap
  pub open heap use *
  pub nid2loc : Map ℤ NodeLoc
  pub path_sgl : List Addr
  pub similar_sgl : List Addr
  pub all_nodes : Map ℤ Addr
  pub src_filename : Text

pub data Run (A : Type 0) : Type 0 where
  ok : A → GroupMan → Run A
  fault : Run A

abbrev pub Cmd : Type 0 → Type 0
Cmd A = GroupMan → Run A

abbrev pub pure : {A : Type 0} → A → Cmd A
pure = ok

module _ {A B : Type 0} where
  abbrev pub and_then : Run A → (A → Cmd B) → Run B
  and_then (ok a w) k = k a w
  and_then fault k = fault

  infixl 5 ◌>>=◌ ◌>>◌
  abbrev pub ◌>>=◌ : Cmd A → (A → Cmd B) → Cmd B
  m >>= k = λ w. and_then (m w) k

  abbrev pub ◌>>◌ : Cmd A → Cmd B → Cmd B
  m >> n = m >>= λ _. n

abbrev pub get : Cmd GroupMan
get w = ok w w

abbrev pub modify : (GroupMan → GroupMan) → Cmd (Unit {0})
modify f w = ok tt (f w)

unfoldable pub update : {A : Type 0} → (Addr → Option A) → Addr → Option A → Addr → Option A
update f p c q = if q == p then c else f q

abbrev pub with_nds : GroupMan → (Addr → Option NodeDef) → GroupMan
with_nds w f = record w { heap = record w.heap { nds = f } }

abbrev pub with_ngs : GroupMan → (Addr → Option (List Addr)) → GroupMan
with_ngs w f = record w { heap = record w.heap { ngs = f } }

abbrev pub with_sgs : GroupMan → (Addr → Option SuperGroup) → GroupMan
with_sgs w f = record w { heap = record w.heap { sgs = f } }

abbrev pub deref : {A : Type 0} → Option A → Cmd A
deref none = λ w. fault
deref (some a) = ok a

unfoldable pub load_nd : Addr → Cmd NodeDef
load_nd p w = deref (w.nds p) w

unfoldable pub load_ng : Addr → Cmd (List Addr)
load_ng p w = deref (w.ngs p) w

unfoldable pub load_sg : Addr → Cmd SuperGroup
load_sg p w = deref (w.sgs p) w

unfoldable pub store_nd : Addr → NodeDef → Cmd (Unit {0})
unfolding load_nd
store_nd p d = load_nd p >> modify (λ w. with_nds w (update w.nds p (some d)))

unfoldable pub store_ng : Addr → List Addr → Cmd (Unit {0})
unfolding load_ng
store_ng p l = load_ng p >> modify (λ w. with_ngs w (update w.ngs p (some l)))

unfoldable pub store_sg : Addr → SuperGroup → Cmd (Unit {0})
unfolding load_sg
store_sg p s = load_sg p >> modify (λ w. with_sgs w (update w.sgs p (some s)))

-- `delete p`
unfoldable pub delete_nd : Addr → Cmd (Unit {0})
unfolding load_nd
delete_nd p =
    if p == null then pure tt else load_nd p >> modify (λ w. with_nds w (update w.nds p none))

unfoldable pub delete_ng : Addr → Cmd (Unit {0})
unfolding load_ng
delete_ng p =
    if p == null then pure tt else load_ng p >> modify (λ w. with_ngs w (update w.ngs p none))

-- the memory of a super group; its destructor is `delete_sg` of Groups
unfoldable pub free_sg : Addr → Cmd (Unit {0})
unfolding load_sg
free_sg p = load_sg p >> modify (λ w. with_sgs w (update w.sgs p none))

-- `new nodedef_t()`
unfoldable pub new_nd : Cmd Addr
new_nd w = ok w.next (record w {
  heap = record w.heap {
    nds = update w.nds w.next (some (record { nid = pos 0; start = 0; end = 0 }));
    next = suc w.next;
  };
})

-- `new nodegroup_t()`
unfoldable pub new_ng : Cmd Addr
new_ng w =
    ok w.next
      (record w { heap = record w.heap { ngs = update w.ngs w.next (some []); next = suc w.next } })

-- `new supergroup_t()`
unfoldable pub new_sg : Cmd Addr
new_sg w = ok w.next (record w {
  heap = record w.heap {
    sgs =
        update w.sgs w.next
          (some (record { id = []; name = []; is_synthetic = Bool.false; groups = [] }));
    next = suc w.next;
  };
})
