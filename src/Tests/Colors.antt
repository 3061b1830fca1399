-- ===== src/Tests/Colors.antt =====
-- The theorems on colours at the default generator. The doubles of these tests count thousandths.
use Prim.Native.Nat.{min}
use graph_slick.Base.{
  ℕ, ◌+◌, ◌-◌, ◌*◌, ◌/◌, ◌%◌, ◌^◌, ◌≤◌, ◌<◌, ◌≡◌, ◌≢◌, false, none, some, arith, ltb, leb,
}
use graph_slick.ColorGen.{
  Double, ColorVar, ColorGen, make_rgb, new_colorgen, default_colorgen, variant, get_color,
  get_colorvar, get_color_anyway, next_variant, hsl_to_rgb, to_rgb, wrap_hue, rewind,
}
use graph_slick.ColorGen.Channels.{make_rgb_channels}
use graph_slick.ColorGen.Variants.{
  IsSteady, left, after_calls, get_colorvar_ends, get_colorvar_repeats, get_color_anyway_returns,
}

abbrev pub thousandths : Double ℕ
thousandths = record {
  of_ℕ = λ n. n * 1000;
  half = 500;
  add = λ a b. a + b;
  sub = λ a b. a - b;
  mul = λ a b. a * b / 1000;
  div = λ a b. a * 1000 / b;
  lt = ltb;
  le = leb;
  to_byte = λ a. min 255 (a / 1000);
}

abbrev first : ColorVar
first = variant default_colorgen 0 255

make_rgb_channels_example :
    (make_rgb false 1 2 3 < 2 ^ 24)
    × (make_rgb false 1 2 3 / 2 ^ 16 ≡ 3)
    × (make_rgb false 1 2 3 / 2 ^ 8 % 256 ≡ 2)
    × (make_rgb false 1 2 3 % 256 ≡ 1)
make_rgb_channels_example = make_rgb_channels false 1 2 3 (omega arith) (omega arith) (omega arith)

default-IsSteady : IsSteady default_colorgen 8
unfolding new_colorgen
default-IsSteady = omega arith

get_colorvar_ends_example :
    (n : ℕ) × (n ≤ left default_colorgen)
    × ((get_colorvar (after_calls n default_colorgen)).1 ≡ none)
get_colorvar_ends_example = get_colorvar_ends default_colorgen 8 default-IsSteady

-- the default generator after its first ring of hues
abbrev ring_done : ColorGen
unfolding new_colorgen
ring_done = record default_colorgen { h = 266 }

ring_done-IsSteady : IsSteady ring_done 8
unfolding new_colorgen
ring_done-IsSteady = omega arith

get_colorvar_repeats_example :
    (cv : ColorVar) × ((get_colorvar ring_done).1 ≡ some cv)
    × ((get_colorvar (get_colorvar ring_done).0).1 ≡ some cv)
get_colorvar_repeats_example =
    get_colorvar_repeats ring_done 8 ring_done-IsSteady (unfold new_colorgen in omega arith)
      (unfold new_colorgen in omega arith)

program : Unit {0}
unfolding new_colorgen get_color get_colorvar get_color_anyway next_variant rewind hsl_to_rgb to_rgb
    wrap_hue make_rgb
program = tt

abbrev bright_after : ColorVar
bright_after = (next_variant default_colorgen (get_color thousandths first).1).1

bright :
    hsl_to_rgb thousandths default_colorgen.real_rgb bright_after.h bright_after.s
      default_colorgen.l_start
    ≢ 0
unfolding program
bright = omega arith

get_color_anyway_returns_example :
    (clr : ℕ) × (cg' : ColorGen) × (cv' : ColorVar) × (get_color_anyway thousandths 2
        default_colorgen first
      ≡ some (clr, cg', cv'))
    × (clr ≢ 0)
get_color_anyway_returns_example =
    get_color_anyway_returns thousandths default_colorgen first (unfold new_colorgen in omega arith)
      (unfold new_colorgen in omega arith) bright
