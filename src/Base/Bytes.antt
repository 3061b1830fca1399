-- ===== src/Base/Bytes.antt =====
-- Text as its bytes, and what the source uses of C's text functions.
use Prim.Native.Nat.{ℕ, zero, suc, ◌+◌, ◌/◌, ◌%◌}
use Prim.Native.Char.{code}
use Prim.Native.String.{String}
use mathlib.Core.Bool.{Bool, true, false}
use mathlib.Core.List.{List, [], ◌∷◌}
use graph_slick.Base.Tests.{ltb, if◌then◌else◌}
use graph_slick.Base.Int.{ℤ, pos, negsuc}

abbrev pub Text : Type 0
Text = List ℕ

abbrev pub codes : String → Text
codes String.[] = []
codes (String.◌∷◌ c s) = code c ∷ codes s

-- the decimal digits of a number, in front of a text; `fuel` is a bound on their count
abbrev pub decimal : ℕ → ℕ → Text → Text
decimal zero n rest = rest
decimal (suc fuel) n rest =
    let more = decimal fuel (n / 10) ((n % 10 + 48) ∷ rest) in
    if ltb n 10 then (n + 48) ∷ rest else more

-- `%d`; a 64-bit number has at most twenty digits
unfoldable pub show_int : ℤ → Text
show_int (pos n) = decimal 20 n []
show_int (negsuc n) = b'-' ∷ decimal 20 (n + 1) []

abbrev pub is_empty {ℓ} : {A : Type ℓ} → List A → Bool
is_empty [] = true
is_empty (_ ∷ _) = false
