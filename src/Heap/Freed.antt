-- ===== src/Heap/Freed.antt =====
-- Sets of cells: what is left of the objects of a class when some addresses are given one content.
use graph_slick.Base.{
  ◌≡◌, refl, ◌∙◌, Bool, true, false, ◌||◌, Option, none, List, [], ◌∷◌, ◌++◌, arith, ◌==◌,
  if◌then◌else◌,
}
use mathlib.Core.Bool.{or_assoc}
use graph_slick.Heap.{Addr, update}

abbrev pub has : Addr → List Addr → Bool
has a [] = false
has a (p ∷ xs) = (a == p) || has a xs

infix 40 ◌∈◌ ◌∉◌
abbrev pub ◌∈◌ : Addr → List Addr → Type 0
a ∈ xs = has a xs ≡ true

abbrev pub ◌∉◌ : Addr → List Addr → Type 0
a ∉ xs = has a xs ≡ false

abbrev pub Disjoint : List Addr → List Addr → Type 0
Disjoint xs ys = (a : Addr) → a ∈ xs → a ∉ ys

abbrev pub Distinct : List Addr → Type 0
Distinct [] = Unit
Distinct (p ∷ xs) = (p ∉ xs) × Distinct xs

-- every address of `xs` has the cell `c` in `g`, all others have the cells of `f`
abbrev pub Filled : {A : Type 0} → Option A → List Addr → (f g : Addr → Option A) → Type 0
Filled c xs f g = (a : Addr) → g a ≡ (if has a xs then c else f a)

abbrev pub Freed : {A : Type 0} → List Addr → (f g : Addr → Option A) → Type 0
Freed xs f g = Filled none xs f g

pub has-append : (a : Addr) (xs ys : List Addr) → has a (xs ++ ys) ≡ (has a xs || has a ys)
has-append a [] ys = refl
has-append a (x ∷ xs) ys = rw (has-append a xs ys, or_assoc)

pub Distinct-append :
    (xs ys : List Addr) → Distinct (xs ++ ys) → Distinct xs × Distinct ys × Disjoint xs ys
Distinct-append [] ys d = (tt, d, λ a i. ground (arith, i))
Distinct-append (x ∷ xs) ys (out, d) =
    let (dx, dy, apart) = Distinct-append xs ys d in
    let out' : (has x xs || has x ys) ≡ false = rw (has-append x xs ys) at out in
    ((ground (arith, out'), dx), dy, λ a i. ground (arith, i, out', apart a))

pub Filled-update :
    {A : Type 0} (f : Addr → Option A) (p : Addr) (c : Option A)
    → Filled c (p ∷ []) f (update f p c)
unfolding update
Filled-update f p c a = ground arith

pub Filled-trans :
    {A : Type 0} (c : Option A) (xs ys : List Addr) (f g h : Addr → Option A)
    → Filled c xs f g
    → Filled c ys g h
    → Filled c (xs ++ ys) f h
Filled-trans c xs ys f g h s t a = rw (has-append a xs ys, t a, s a) (both (has a xs) (has a ys))
  where
    both : (p q : Bool) → (if q then c else (if p then c else f a)) ≡ (if p || q then c else f a)
    both true true = refl
    both true false = refl
    both false true = refl
    both false false = refl

pub Filled-out :
    {A : Type 0} (c : Option A) (xs : List Addr) (f g : Addr → Option A)
    → Filled c xs f g
    → (a : Addr) → a ∉ xs
    → g a ≡ f a
Filled-out c xs f g s a out = s a ∙ rw out refl

pub Filled-in :
    {A : Type 0} (c : Option A) (xs : List Addr) (f g : Addr → Option A)
    → Filled c xs f g
    → (a : Addr) → a ∈ xs
    → g a ≡ c
Filled-in c xs f g s a here = s a ∙ rw here refl
