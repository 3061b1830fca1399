-- ===== src/ColorGen/Channels.antt =====
-- The three channels of a colour.
use graph_slick.Base.{
  ℕ, ◌+◌, ◌*◌, ◌/◌, ◌%◌, ◌^◌, ◌<◌, ◌≡◌, ◌∙◌, Bool, true, false, arith, if◌then◌else◌,
}
use Prim.Native.Nat.{bit_or}
use graph_slick.Base.Bits.{bit_or-shift}
use graph_slick.ColorGen.{make_rgb}

pack :
    (x y z : ℕ)
    → y < 256
    → z < 256
    → bit_or (bit_or (x * 2 ^ 16) (y * 2 ^ 8)) z ≡ x * 65536 + y * 256 + z
pack x y z hy hz =
    rw (bit_or-shift 16 x (y * 2 ^ 8) (omega arith), regroup)
      (bit_or-shift 8 (x * 256 + y) z hz ∙ omega arith)
  where
    regroup : x * 2 ^ 16 + y * 2 ^ 8 ≡ (x * 256 + y) * 2 ^ 8
    regroup = omega arith

-- Of three bytes `make_rgb` makes a number below 2 ^ 24 from which each byte can be read back: the
-- middle channel is green, and `real` says whether the high or the low one is red.
pub make_rgb_channels :
    (real : Bool) (r g b : ℕ)
    → r < 256
    → g < 256
    → b < 256
    → (make_rgb real r g b < 2 ^ 24)
      × (make_rgb real r g b / 2 ^ 16 ≡ (if real then r else b))
      × (make_rgb real r g b / 2 ^ 8 % 256 ≡ g)
      × (make_rgb real r g b % 256 ≡ (if real then b else r))
unfolding make_rgb
make_rgb_channels true r g b hr hg hb = rw (pack r g b hg hb) (omega arith)
make_rgb_channels false r g b hr hg hb = rw (pack b g r hg hr) (omega arith)
