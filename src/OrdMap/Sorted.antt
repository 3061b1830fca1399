-- ===== src/OrdMap/Sorted.antt =====
-- Maps in key order, which every `std::map` is: insertion and erasure keep the order, and erasure
-- takes out the entry of its key and no other.
use graph_slick.Base.{
  ◌≡◌, refl, subst, sym, inl, inr, Bool-cases, true, false, none, [], ◌∷◌, ◌++◌, arith,
  if◌then◌else◌, All,
}
use graph_slick.OrdMap.{Ord, Map, same, find, insert, erase}

module _ {K V : Type 0} ⦃o : Ord K⦄ where
  abbrev pub Above : K → Map K V → Type 0
  Above k = All (λ (j, _). o.lt k j ≡ true)

  abbrev pub IsSorted : Map K V → Type 0
  IsSorted [] = Unit
  IsSorted ((k, _) ∷ m) = Above k m × IsSorted m

  pub Above-find : (k : K) (m : Map K V) → Above k m → find k m ≡ none
  unfolding find
  Above-find k [] h = refl
  Above-find k ((j, w) ∷ m) (lt, h) =
      let other : same k j ≡ false = ground (arith, lt) in rw other (Above-find k m h)

  Above-mono : (i k : K) (m : Map K V) → o.lt i k ≡ true → Above k m → Above i m
  Above-mono i k [] ik h = tt
  Above-mono i k ((j, w) ∷ m) ik (kj, h) = (o.lt_trans i k j ik kj, Above-mono i k m ik h)

  Above-insert :
      (i k : K) (v : V) (m : Map K V) → o.lt i k ≡ true → Above i m → Above i (insert k v m)
  unfolding insert
  Above-insert i k v [] ik h = (ik, tt)
  Above-insert i k v ((j, w) ∷ m) ik (ij, h) = elim (Bool-cases (o.lt k j)) [
    | inl a ↦ rw a (ik, (ij, h))
    | inr a ↦ elim (Bool-cases (o.lt j k)) [
      | inl b ↦ rw (a, b) (ij, Above-insert i k v m ik h)
      | inr b ↦ rw (a, b) (ik, h)
    ]
  ]

  pub insert-IsSorted : (k : K) (v : V) (m : Map K V) → IsSorted m → IsSorted (insert k v m)
  unfolding insert
  insert-IsSorted k v [] h = (tt, tt)
  insert-IsSorted k v ((j, w) ∷ m) (up, h) = elim (Bool-cases (o.lt k j)) [
    | inl a ↦ rw a ((a, Above-mono k j m a up), (up, h))
    | inr a ↦ elim (Bool-cases (o.lt j k)) [
      | inl b ↦ rw (a, b) (Above-insert j k v m b up, insert-IsSorted k v m h)
      | inr b ↦ rw (a, b) (subst (λ x. Above x m) (sym (o.lt_total k j a b)) up, h)
    ]
  ]

  Above-erase : (i k : K) (m : Map K V) → Above i m → Above i (erase k m)
  unfolding erase
  Above-erase i k [] h = tt
  Above-erase i k ((j, w) ∷ m) (ij, h) = elim (Bool-cases (same k j)) [
    | inl a ↦ rw a h
    | inr a ↦ rw a (ij, Above-erase i k m h)
  ]

  pub erase-IsSorted : (k : K) (m : Map K V) → IsSorted m → IsSorted (erase k m)
  unfolding erase
  erase-IsSorted k [] h = tt
  erase-IsSorted k ((j, w) ∷ m) (up, h) = elim (Bool-cases (same k j)) [
    | inl a ↦ rw a h
    | inr a ↦ rw a (Above-erase j k m up, erase-IsSorted k m h)
  ]

  pub find-erase :
      (q k : K) (m : Map K V)
      → IsSorted m
      → find q (erase k m) ≡ (if same q k then none else find q m)
  unfolding find erase
  find-erase q k [] h = ground arith
  find-erase q k ((j, w) ∷ m) (up, h) = elim (Bool-cases (same k j)) [
    | inl a ↦ ground (
      arith,
      a,
      find-erase q k m h,
      Above-find j m up,
      o.lt_total k j,
      o.lt_total q k,
      o.lt_total q j,
    )
    | inr a ↦ ground (arith, a, find-erase q k m h, o.lt_total q k, o.lt_total k j, o.lt_irrefl q)
  ]

  pub Above-append :
      (i k : K) (v : V) (before after : Map K V)
      → Above i (before ++ (k, v) ∷ after)
      → o.lt i k ≡ true
  Above-append i k v [] after h = h.0
  Above-append i k v (_ ∷ before) after h = Above-append i k v before after h.1
