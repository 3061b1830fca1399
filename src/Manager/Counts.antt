-- ===== src/Manager/Counts.antt =====
-- How often a node stands in the groups of a list of super groups, and how that changes when the
-- nodes of one group go to another.
use graph_slick.Base.{
  ℕ, ◌+◌, ◌*◌, ◌≡◌, ◌≢◌, ap, refl, true, false, List, [], ◌∷◌, ◌++◌, arith, ◌==◌, if◌then◌else◌,
  Bool-cases, inl, inr, ◌⊎◌,
}
use graph_slick.Heap.{Addr, Heap}
use graph_slick.View.{members, groups_of}
use graph_slick.Groups.{remove}

-- how often an address stands in a list
abbrev pub count : Addr → List Addr → ℕ
count a [] = 0
count a (x ∷ xs) = (if x == a then 1 else 0) + count a xs

pub count-append : (a : Addr) (xs ys : List Addr) → count a (xs ++ ys) ≡ count a xs + count a ys
count-append a [] ys = omega arith
count-append a (x ∷ xs) ys = omega (arith, count-append a xs ys)

-- a sum over a list
abbrev pub sum_of : (Addr → ℕ) → List Addr → ℕ
sum_of f [] = 0
sum_of f (x ∷ xs) = f x + sum_of f xs

-- how often a node stands in groups, and in the groups of super groups
abbrev pub in_groups : Heap → Addr → List Addr → ℕ
in_groups h a = sum_of λ ng. count a (members h ng)

abbrev pub nodes_count : Heap → Addr → List Addr → ℕ
nodes_count h a = sum_of λ sg. in_groups h a (groups_of h sg)

-- how often a group stands in super groups
abbrev pub groups_count : Heap → Addr → List Addr → ℕ
groups_count h ng = sum_of λ sg. count ng (groups_of h sg)

pub sum_of-remove_zero :
    (f : Addr → ℕ) (a : Addr) (xs : List Addr) → f a ≡ 0 → sum_of f (remove a xs) ≡ sum_of f xs
unfolding remove
sum_of-remove_zero f a [] z = refl
sum_of-remove_zero f a (x ∷ xs) z = elim (Bool-cases (x == a)) [
  | inl e ↦ rw e (omega (arith, sum_of-remove_zero f a xs z, ap f (eq_of x a e)))
  | inr ne ↦ rw ne (omega (arith, sum_of-remove_zero f a xs z))
]
  where
    eq_of : (x a : ℕ) → (x == a) ≡ true → x ≡ a
    eq_of x a e = ground arith

pub count-remove_self : (a : Addr) (xs : List Addr) → count a (remove a xs) ≡ 0
unfolding remove
count-remove_self a [] = refl
count-remove_self a (x ∷ xs) = ground (arith, count-remove_self a xs)

pub count-remove_ne : (a b : Addr) (xs : List Addr) → b ≢ a → count b (remove a xs) ≡ count b xs
unfolding remove
count-remove_ne a b [] ne = refl
count-remove_ne a b (x ∷ xs) ne = ground (arith, count-remove_ne a b xs ne)

-- a value that moves from `src` to `dest`
pub record Shifts (f g : Addr → ℕ) (dest src : Addr) (amount : ℕ) : Type 0 where
  pub apart : dest ≢ src
  pub gained : g dest ≡ f dest + amount
  pub had : f src ≡ amount
  pub lost : g src ≡ 0
  pub same : (q : Addr) → q ≢ dest → q ≢ src → g q ≡ f q

module _ (f g : Addr → ℕ) (dest src : Addr) (amount : ℕ) (sh : Shifts f g dest src amount) where
  shift_one :
      (x : Addr)
      → g x + amount * (if x == src then 1 else 0) ≡ f x + amount * (if x == dest then 1 else 0)
  shift_one x = elim (Bool-cases (x == src)) [
    | inl here ↦
        let e : x ≡ src = ground arith in
        let other : (x == dest) ≡ false = ground (arith, sh.apart) in
        rw (here, other) (omega (arith, ap g e, ap f e, sh.had, sh.lost))
    | inr away ↦ elim (Bool-cases (x == dest)) [
      | inl there ↦
          let e : x ≡ dest = ground arith in
          rw (away, there) (omega (arith, ap g e, ap f e, sh.gained))
      | inr far ↦ rw (away, far) (omega (arith, sh.same x (ground arith) (ground arith)))
    ]
  ]

  pub sum_of-shift :
      (xs : List Addr) → sum_of g xs + amount * count src xs ≡ sum_of f xs + amount * count dest xs
  sum_of-shift [] = omega arith
  sum_of-shift (x ∷ xs) = omega (arith, shift_one x, sum_of-shift xs)

-- One group gives all its nodes to another, and some super groups drop the emptied one.
pub record Handover (h h' : Heap) (dest ng : Addr) (ld l : List Addr) : Type 0 where
  pub apart : dest ≢ ng
  pub had : members h dest ≡ ld
  pub gave : members h ng ≡ l
  pub got : members h' dest ≡ ld ++ l
  pub cleared : members h' ng ≡ []
  pub others : (q : Addr) → q ≢ dest → q ≢ ng → members h' q ≡ members h q
  pub dropped :
      (s : Addr) → (groups_of h' s ≡ groups_of h s) ⊎ (groups_of h' s ≡ remove ng (groups_of h s))

module _ (h h' : Heap) (dest ng : Addr) (ld l : List Addr) (v : Handover h h' dest ng ld l) where
  count-Shifts :
      (a : Addr)
      → Shifts (λ q. count a (members h q)) (λ q. count a (members h' q)) dest ng (count a l)
  count-Shifts a = record {
    apart = v.apart;
    gained = rw (v.got, v.had) (count-append a ld l);
    had = rw v.gave;
    lost = rw v.cleared;
    same = λ q d n. rw (v.others q d n);
  }

  groups-shift :
      (a s : Addr)
      → in_groups h' a (groups_of h' s) + count a l * count ng (groups_of h s)
        ≡ in_groups h a (groups_of h s) + count a l * count dest (groups_of h s)
  groups-shift a s =
      let sh = count-Shifts a in
      let f : Addr → ℕ = λ q. count a (members h q) in
      let g : Addr → ℕ = λ q. count a (members h' q) in
      let shift = sum_of-shift f g dest ng (count a l) sh (groups_of h s) in
      elim (v.dropped s) [
        | inl e ↦ rw e shift
        | inr e ↦ rw (e, sum_of-remove_zero g ng (groups_of h s) sh.lost) shift
      ]

  nodes_count-shift :
      (a : Addr) (sgs : List Addr)
      → nodes_count h' a sgs + count a l * groups_count h ng sgs
        ≡ nodes_count h a sgs + count a l * groups_count h dest sgs
  nodes_count-shift a [] = omega arith
  nodes_count-shift a (s ∷ sgs) = omega (arith, groups-shift a s, nodes_count-shift a sgs)

  -- Where both groups stand in the super groups once, no node is lost or doubled.
  pub nodes_count-kept :
      (a : Addr) (sgs : List Addr)
      → groups_count h ng sgs ≡ 1
      → groups_count h dest sgs ≡ 1
      → nodes_count h' a sgs ≡ nodes_count h a sgs
  nodes_count-kept a sgs e e' = omega (
    arith,
    nodes_count-shift a sgs,
    ap (λ (t : ℕ). count a l * t) e,
    ap (λ (t : ℕ). count a l * t) e',
  )

  pub groups_count-kept :
      (x : Addr) (sgs : List Addr) → x ≢ ng → groups_count h' x sgs ≡ groups_count h x sgs
  groups_count-kept x [] ne = refl
  groups_count-kept x (s ∷ sgs) ne = elim (v.dropped s) [
    | inl e ↦ rw e (omega (arith, groups_count-kept x sgs ne))
    | inr e ↦
        rw e (omega (arith, groups_count-kept x sgs ne, count-remove_ne ng x (groups_of h s) ne))
  ]

-- A super group without groups can be left out.
pub nodes_count-remove :
    (h : Heap) (a sg : Addr) (sgs : List Addr)
    → groups_of h sg ≡ []
    → nodes_count h a (remove sg sgs) ≡ nodes_count h a sgs
nodes_count-remove h a sg sgs e =
    sum_of-remove_zero (λ s. in_groups h a (groups_of h s)) sg sgs (rw e)

pub groups_count-remove :
    (h : Heap) (x sg : Addr) (sgs : List Addr)
    → groups_of h sg ≡ []
    → groups_count h x (remove sg sgs) ≡ groups_count h x sgs
groups_count-remove h x sg sgs e = sum_of-remove_zero (λ s. count x (groups_of h s)) sg sgs (rw e)
