-- ===== src/Heap/Returns.antt =====
-- Total correctness of a command: it does not fault, and its result and final state satisfy `P`.
use graph_slick.Heap.{GroupMan, Run, ok, Cmd, and_then}

pub data Returns {A : Type 0} (P : A → GroupMan → Type 0) : Run A → Type 0 where
  returns : {a : A} {w : GroupMan} → P a w → Returns P (ok a w)

module _ {A : Type 0} {P : A → GroupMan → Type 0} where
  pub bind :
      {B : Type 0} {Q : B → GroupMan → Type 0} {r : Run A} {k : A → Cmd B}
      → Returns P r
      → ((a : A) (w : GroupMan) → P a w → Returns Q (k a w))
      → Returns Q (and_then r k)
  bind (returns p) next = next _ _ p

  pub mono :
      {Q : A → GroupMan → Type 0} {r : Run A}
      → Returns P r
      → ((a : A) (w : GroupMan) → P a w → Q a w)
      → Returns Q r
  mono (returns p) weaken = returns (weaken _ _ p)
