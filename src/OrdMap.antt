-- ===== src/OrdMap.antt =====
-- `std::map` as the source uses it: entries in ascending order of the keys. Keys are compared only
-- by `<`; two keys are the same entry if neither is less.
pub mod Laws
pub mod Sorted
use graph_slick.Base.{
  ◌≡◌, Bool, true, false, not, ◌&&◌, Option, none, some, List, [], ◌∷◌, arith, ℕ, ltb, ℤ, ltb_ℤ,
  if◌then◌else◌,
}

pub record Ord (K : Type 0) : Type 0 where
  pub lt : K → K → Bool
  pub lt_irrefl : (a : K) → lt a a ≡ false
  pub lt_trans : (a b c : K) → lt a b ≡ true → lt b c ≡ true → lt a c ≡ true
  pub lt_total : (a b : K) → lt a b ≡ false → lt b a ≡ false → a ≡ b

pub ℤ_lt_total : (a b : ℤ) → ltb_ℤ a b ≡ false → ltb_ℤ b a ≡ false → a ≡ b
ℤ_lt_total a b h k = ground arith

pub ℤ_lt_trans : (a b c : ℤ) → ltb_ℤ a b ≡ true → ltb_ℤ b c ≡ true → ltb_ℤ a c ≡ true
ℤ_lt_trans a b c h k = ground arith

pub ℤ_lt_irrefl : (a : ℤ) → ltb_ℤ a a ≡ false
ℤ_lt_irrefl a = ground arith

instance abbrev pub int_ord : Ord ℤ
int_ord = record {
  lt = ltb_ℤ;
  lt_irrefl = ℤ_lt_irrefl;
  lt_trans = ℤ_lt_trans;
  lt_total = ℤ_lt_total;
}

pub ℕ_lt_total : (a b : ℕ) → ltb a b ≡ false → ltb b a ≡ false → a ≡ b
ℕ_lt_total a b h k = ground arith

pub ℕ_lt_trans : (a b c : ℕ) → ltb a b ≡ true → ltb b c ≡ true → ltb a c ≡ true
ℕ_lt_trans a b c h k = ground arith

pub ℕ_lt_irrefl : (a : ℕ) → ltb a a ≡ false
ℕ_lt_irrefl a = ground arith

-- pointers are ordered by their addresses
instance abbrev pub addr_ord : Ord ℕ
addr_ord = record {
  lt = ltb;
  lt_irrefl = ℕ_lt_irrefl;
  lt_trans = ℕ_lt_trans;
  lt_total = ℕ_lt_total;
}

abbrev pub Map : Type 0 → Type 0 → Type 0
Map K V = List (K × V)

abbrev pub same : {K : Type 0} ⦃o : Ord K⦄ → K → K → Bool
same ⦃o⦄ a b = not (o.lt a b) && not (o.lt b a)

module _ {K V : Type 0} ⦃o : Ord K⦄ where
  unfoldable pub find : K → Map K V → Option V
  find k [] = none
  find k ((j, v) ∷ m) = if same k j then some v else find k m

  -- `m[k] = v`
  unfoldable pub insert : K → V → Map K V → Map K V
  insert k v [] = (k, v) ∷ []
  insert k v ((j, w) ∷ m) =
      if o.lt k j
      then (k, v) ∷ (j, w) ∷ m
      else (if o.lt j k then (j, w) ∷ insert k v m else (k, v) ∷ m)

  -- `m.erase(m.find(k))`
  unfoldable pub erase : K → Map K V → Map K V
  erase k [] = []
  erase k ((j, w) ∷ m) = if same k j then m else (j, w) ∷ erase k m
