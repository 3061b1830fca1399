-- ===== src/Groups/Owned.antt =====
-- Trees of super groups, groups and nodes at their addresses, as they lie in a heap.
use graph_slick.Base.{
  ◌≡◌, ◌≢◌, refl, ◌∙◌, true, false, Bool, ◌||◌, some, List, [], ◌∷◌, ◌++◌, All, arith,
}
use graph_slick.Heap.{Addr, null, SuperGroup, Heap}
use graph_slick.View.{IsNode}
use graph_slick.Heap.Freed.{has, ◌∈◌, has-append}

-- a group with its nodes, and a super group with its groups
abbrev pub Branch : Type 0
Branch = Addr × List Addr

abbrev pub Tree : Type 0
Tree = Addr × List Branch

abbrev pub groups_in : List Branch → List Addr
groups_in [] = []
groups_in ((ng, _) ∷ bs) = ng ∷ groups_in bs

abbrev pub nodes_in : List Branch → List Addr
nodes_in [] = []
nodes_in ((_, l) ∷ bs) = l ++ nodes_in bs

abbrev pub sgs_of : List Tree → List Addr
sgs_of [] = []
sgs_of ((sg, _) ∷ ts) = sg ∷ sgs_of ts

abbrev pub groups_of_trees : List Tree → List Addr
groups_of_trees [] = []
groups_of_trees ((_, bs) ∷ ts) = groups_in bs ++ groups_of_trees ts

abbrev pub nodes_of_trees : List Tree → List Addr
nodes_of_trees [] = []
nodes_of_trees ((_, bs) ∷ ts) = nodes_in bs ++ nodes_of_trees ts

abbrev pub IsBranch : Heap → Branch → Type 0
IsBranch h (ng, l) = (ng ≢ null) × (h.ngs ng ≡ some l) × All (IsNode h) l

abbrev pub IsTree : Heap → Tree → Type 0
IsTree h (sg, bs) =
    (sg ≢ null)
    × ((s : SuperGroup) × (h.sgs sg ≡ some s) × (s.groups ≡ groups_in bs) × All (IsBranch h) bs)

-- cells that stay as they are
abbrev pub Spares : {A : Type 0} → List Addr → (f g : Addr → A) → Type 0
Spares xs f g = (a : Addr) → a ∈ xs → g a ≡ f a

pub Spares-left :
    {A : Type 0} (xs ys : List Addr) (f g : Addr → A) → Spares (xs ++ ys) f g → Spares xs f g
Spares-left xs ys f g s a i = s a (rw (has-append a xs ys, i) refl)

pub Spares-right :
    {A : Type 0} (xs ys : List Addr) (f g : Addr → A) → Spares (xs ++ ys) f g → Spares ys f g
Spares-right xs ys f g s a i = s a (rw (has-append a xs ys, i) (or_true (has a xs)))
  where
    or_true : (b : Bool) → (b || true) ≡ true
    or_true true = refl
    or_true false = refl

here_in : (p : Addr) (xs : List Addr) → p ∈ p ∷ xs
here_in p xs = ground arith

Spares-head :
    {A : Type 0} (p : Addr) (xs : List Addr) (f g : Addr → A) → Spares (p ∷ xs) f g → g p ≡ f p
Spares-head p xs f g s = s p (here_in p xs)

Spares-tail :
    {A : Type 0} (p : Addr) (xs : List Addr) (f g : Addr → A) → Spares (p ∷ xs) f g → Spares xs f g
Spares-tail p xs f g s a i = s a (ground (arith, i))

pub nodes_frame :
    (h h' : Heap) (l : List Addr) → Spares l h.nds h'.nds → All (IsNode h) l → All (IsNode h') l
nodes_frame h h' [] s all = tt
nodes_frame h h' (p ∷ l) s ((real, (d, e)), all) = (
  (real, (d, Spares-head p l h.nds h'.nds s ∙ e)),
  nodes_frame h h' l (Spares-tail p l h.nds h'.nds s) all,
)

pub branches_frame :
    (h h' : Heap) (bs : List Branch)
    → Spares (groups_in bs) h.ngs h'.ngs
    → Spares (nodes_in bs) h.nds h'.nds
    → All (IsBranch h) bs
    → All (IsBranch h') bs
branches_frame h h' [] sg sn all = tt
branches_frame h h' ((ng, l) ∷ bs) sg sn ((real, e, ns), all) = (
  (
    real,
    Spares-head ng (groups_in bs) h.ngs h'.ngs sg ∙ e,
    nodes_frame h h' l (Spares-left l (nodes_in bs) h.nds h'.nds sn) ns,
  ),
  branches_frame h h' bs (Spares-tail ng (groups_in bs) h.ngs h'.ngs sg)
      (Spares-right l (nodes_in bs) h.nds h'.nds sn) all,
)

pub trees_frame :
    (h h' : Heap) (ts : List Tree)
    → Spares (sgs_of ts) h.sgs h'.sgs
    → Spares (groups_of_trees ts) h.ngs h'.ngs
    → Spares (nodes_of_trees ts) h.nds h'.nds
    → All (IsTree h) ts
    → All (IsTree h') ts
trees_frame h h' [] ss sg sn all = tt
trees_frame h h' ((sg_, bs) ∷ ts) ss sg sn ((real, (s, e, shape, b)), all) = (
  (
    real,
    (
      s,
      Spares-head sg_ (sgs_of ts) h.sgs h'.sgs ss ∙ e,
      shape,
      branches_frame h h' bs (Spares-left (groups_in bs) (groups_of_trees ts) h.ngs h'.ngs sg)
          (Spares-left (nodes_in bs) (nodes_of_trees ts) h.nds h'.nds sn) b,
    ),
  ),
  trees_frame h h' ts (Spares-tail sg_ (sgs_of ts) h.sgs h'.sgs ss)
      (Spares-right (groups_in bs) (groups_of_trees ts) h.ngs h'.ngs sg)
      (Spares-right (nodes_in bs) (nodes_of_trees ts) h.nds h'.nds sn) all,
)
