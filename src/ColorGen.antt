-- ===== src/ColorGen.antt =====
-- The colour generator of colorgen.h and colorgen.cpp. An `unsigned int` is a number below
-- 2 ^ 32, so a negative step is its complement. A `double` is a parameter with the operations that
-- the code uses, nothing being assumed of them.
pub mod Channels
pub mod Variants
use Prim.Native.Nat.{bit_or}
use graph_slick.Base.{
  ℕ, zero, suc, ◌+◌, ◌-◌, ◌*◌, ◌%◌, ◌^◌, Bool, true, false, Option, none, some, ◌==◌, ltb, leb,
  if◌then◌else◌,
}

pub record Double (W : Type 0) : Type 0 where
  pub of_ℕ : ℕ → W
  pub half : W
  pub add : W → W → W
  pub sub : W → W → W
  pub mul : W → W → W
  pub div : W → W → W
  pub lt : W → W → Bool
  pub le : W → W → Bool
  -- the cast to `unsigned char`
  pub to_byte : W → ℕ

abbrev pub u32 : ℕ
u32 = 2 ^ 32

-- `(r << 16) | (g << 8) | b`, or with red and blue exchanged; the arguments are bytes
unfoldable pub make_rgb : Bool → ℕ → ℕ → ℕ → ℕ
make_rgb real r g b =
    if real
    then bit_or (bit_or (r * 2 ^ 16) (g * 2 ^ 8)) b
    else bit_or (bit_or (b * 2 ^ 16) (g * 2 ^ 8)) r

module _ {W : Type 0} (d : Double W) where
  abbrev num : ℕ → W
  num n = d.of_ℕ n

  -- the hue brought back between 0 and 360
  unfoldable pub wrap_hue : W → W
  wrap_hue rh =
      if d.lt (num 360) rh
      then d.sub rh (num 360)
      else (if d.lt rh (num 0) then d.add rh (num 360) else rh)

  unfoldable pub to_rgb : W → W → W → ℕ
  unfolding wrap_hue
  to_rgb rm1 rm2 hue =
      let rh = wrap_hue hue in
      let rm =
        if d.lt rh (num 60)
        then d.add rm1 (d.div (d.mul (d.sub rm2 rm1) rh) (num 60))
        else (if d.lt rh (num 180)
            then rm2
            else (if d.lt rh (num 240)
                then d.add rm1 (d.div (d.mul (d.sub rm2 rm1) (d.sub (num 240) rh)) (num 60))
                else rm1)) in
      d.to_byte (d.mul rm (num 255)) % 256

  -- `HSLtoRGB`; in the first branch the luminosity is cut to a byte
  unfoldable pub hsl_to_rgb : Bool → ℕ → ℕ → ℕ → ℕ
  hsl_to_rgb real hue sat lum =
      if sat == 0
      then make_rgb real (lum % 256) (lum % 256) (lum % 256)
      else let h = d.div (d.mul (num hue) (num 360)) (num 255) in
        let s = d.div (num sat) (num 255) in
        let l = d.div (num lum) (num 255) in
        let rm2 = if d.le l d.half then d.add l (d.mul l s) else d.sub (d.add l s) (d.mul l s) in
        let rm1 = d.sub (d.mul (num 2) l) rm2 in
        make_rgb real (to_rgb rm1 rm2 (d.add h (num 120))) (to_rgb rm1 rm2 h)
          (to_rgb rm1 rm2 (d.sub h (num 120)))

-- `colorvargen_t`
pub record ColorVar : Type 0 where
  pub l : ℕ
  pub l_end : ℕ
  pub l_int : ℕ
  pub h : ℕ
  pub s : ℕ
  pub real_rgb : Bool

-- `colorgen_t`
pub record ColorGen : Type 0 where
  pub h : ℕ
  pub s : ℕ
  pub real_rgb : Bool
  pub s_start : ℕ
  pub s_end : ℕ
  pub s_int : ℕ
  pub h_start : ℕ
  pub h_end : ℕ
  pub h_int : ℕ
  pub l_start : ℕ
  pub l_end : ℕ
  pub l_int : ℕ

-- the constructor
unfoldable pub new_colorgen : Bool → ℕ → ℕ → ℕ → ℕ → ℕ → ℕ → ℕ → ℕ → ℕ → ColorGen
new_colorgen real h_start h_end h_int s_start s_end s_int l_start l_end l_int = record {
  h = h_start;
  s = s_start;
  real_rgb = real;
  s_start = s_start;
  s_end = s_end;
  s_int = s_int;
  h_start = h_start;
  h_end = h_end;
  h_int = h_int;
  l_start = l_start;
  l_end = l_end;
  l_int = l_int;
}

-- its default arguments: -8 and -3 are converted to `unsigned int`
abbrev pub default_colorgen : ColorGen
unfolding new_colorgen
default_colorgen = new_colorgen false 0 255 14 255 60 (u32 - 8) 190 100 (u32 - 3)

-- `colorvargen_t::get_color`: the colour, 0 when the luminosities are used up, and the new state
unfoldable pub get_color : {W : Type 0} → Double W → ColorVar → ℕ × ColorVar
get_color d cv =
    if leb cv.l cv.l_end
    then (0, cv)
    else (hsl_to_rgb d cv.real_rgb cv.h cv.s cv.l, record cv { l = (cv.l + cv.l_int) % u32 })

-- the assignments to `cv` at the end of `get_colorvar`
abbrev pub variant : ColorGen → ℕ → ℕ → ColorVar
variant cg hue sat = record {
  l = cg.l_start;
  l_end = cg.l_end;
  l_int = cg.l_int;
  h = hue;
  s = sat;
  real_rgb = cg.real_rgb;
}

-- `colorgen_t::get_colorvar`: the new state and the variant, none where it returns false
unfoldable pub get_colorvar : ColorGen → ColorGen × Option ColorVar
get_colorvar cg =
    if ltb cg.h_end cg.h
    then (if ltb cg.s cg.s_end
        then (cg, none)
        else (let sat = (cg.s + cg.s_int) % u32 in
            (record cg { h = cg.h_start; s = sat }, some (variant cg cg.h_start sat))))
    else (record cg { h = (cg.h + cg.h_int) % u32 }, some (variant cg cg.h cg.s))

unfoldable pub rewind : ColorGen → ColorGen
rewind cg = record cg { h = cg.h_start; s = cg.s_start }

abbrev pub or_keep : ColorVar → Option ColorVar → ColorVar
or_keep cv none = cv
or_keep cv (some new) = new

-- the part of the loop of `get_color_anyway` behind the test of the colour
unfoldable pub next_variant : ColorGen → ColorVar → ColorGen × ColorVar
next_variant cg cv =
    let (after, got) = get_colorvar cg in
    elim got [
      | some new ↦ (after, new)
      | none ↦ let (fresh, new) = get_colorvar (rewind after) in (fresh, or_keep cv new)
    ]

-- `colorgen_t::get_color_anyway`: the colour and both new states; none when the fuel runs out
unfoldable pub get_color_anyway :
    {W : Type 0} → Double W → ℕ → ColorGen → ColorVar → Option (ℕ × ColorGen × ColorVar)
get_color_anyway d zero cg cv = none
get_color_anyway d (suc fuel) cg cv =
    let (clr, used) = get_color d cv in
    let (cg', cv') = next_variant cg used in
    let rest = get_color_anyway d fuel cg' cv' in if clr == 0 then rest else some (clr, cg, used)
