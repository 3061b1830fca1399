-- ===== src/ColorGen/Variants.antt =====
-- The order in which `get_colorvar` hands out hues and saturations, and `get_color_anyway`.
use graph_slick.Base.{
  ℕ, zero, suc, ◌+◌, ◌-◌, ◌*◌, ◌%◌, ◌≤◌, ◌<◌, ◌≡◌, ◌≢◌, ap, ◌∙◌, refl, Option, none, some, ◌==◌,
  ltb, arith, Bool-cases, inl, inr,
}
use graph_slick.ColorGen.{
  Double, ColorVar, ColorGen, u32, variant, get_colorvar, rewind, get_color, next_variant,
  get_color_anyway, hsl_to_rgb,
}

-- A generator whose steps go forward through the hues and back through the saturations, with no
-- wrap past the ends of their ranges; `d` is the size of the step back.
pub record IsSteady (cg : ColorGen) (d : ℕ) : Type 0 where
  pub forward : 0 < cg.h_int
  pub ordered : cg.h_start ≤ cg.h_end
  pub hue_fits : cg.h_end + cg.h_int < u32
  pub back : 0 < d
  pub step : cg.s_int + d ≡ u32
  pub floor : d ≤ cg.s_end
  pub small : cg.s < u32

-- how many variants are left at most
unfoldable pub left : ColorGen → ℕ
left cg = cg.s * (cg.h_end + 2) + (cg.h_end + 1 - cg.h)

sat_back : (s i d : ℕ) → i + d ≡ u32 → 0 < d → d ≤ s → s < u32 → (s + i) % u32 ≡ s - d
sat_back s i d e pos fits small = omega arith

left_ring : (s d n a : ℕ) → 0 < d → d ≤ s → (s - d) * (n + 2) + (n + 1 - a) < s * (n + 2)
left_ring s d n a pos fits =
    let e : s ≡ (s - d) + d = omega arith in
    let far : n + 2 ≤ d * (n + 2) = grind arith in omega (arith, ap (λ (t : ℕ). t * (n + 2)) e)

-- What one call does: it ends the walk and changes nothing, or it hands out a variant whose hue is
-- in range and comes nearer to the end.
abbrev pub Advances : ColorGen → ℕ → ColorGen × Option ColorVar → Type 0
Advances cg d (next, none) = next ≡ cg
Advances cg d (next, some cv) =
    IsSteady next d × (next.h_end ≡ cg.h_end) × (left next < left cg) × (cv.h ≤ cg.h_end)

get_colorvar-Advances : (cg : ColorGen) (d : ℕ) → IsSteady cg d → Advances cg d (get_colorvar cg)
unfolding get_colorvar left
get_colorvar-Advances cg d v = elim (Bool-cases (ltb cg.h_end cg.h)) [
  | inl over ↦ elim (Bool-cases (ltb cg.s cg.s_end)) [
    | inl done ↦ rw (over, done) refl
    | inr more ↦
        let above : d ≤ cg.s = ground arith in
        let e = sat_back cg.s cg.s_int d v.step v.back above v.small in
        rw (over, more)
          (omega (
            arith,
            e,
            ap (λ (t : ℕ). t * (cg.h_end + 2)) e,
            left_ring cg.s d cg.h_end cg.h_start v.back above,
            v.forward,
            v.ordered,
            v.hue_fits,
          ))
  ]
  | inr within ↦
      let inside : cg.h ≤ cg.h_end = ground arith in
      rw within (omega (arith, v.forward, v.hue_fits))
]

-- the generator after a number of calls of `get_colorvar`
abbrev pub after_calls : ℕ → ColorGen → ColorGen
after_calls zero cg = cg
after_calls (suc n) cg = after_calls n (get_colorvar cg).0

run_out :
    (fuel : ℕ) (cg : ColorGen) (d : ℕ)
    → IsSteady cg d
    → left cg < fuel
    → (n : ℕ) × (n < fuel) × ((get_colorvar (after_calls n cg)).1 ≡ none)
run_out zero cg d v h = absurd (omega arith)
run_out (suc fuel) cg d v h =
    go (get_colorvar cg) refl (get_colorvar-Advances cg d v) (run_out fuel)
  where
    go :
        (r : ColorGen × Option ColorVar)
        → get_colorvar cg ≡ r
        → Advances cg d r
        → ((c : ColorGen) (k : ℕ)
            → IsSteady c k
            → left c < fuel
            → (n : ℕ) × (n < fuel) × ((get_colorvar (after_calls n c)).1 ≡ none))
        → (n : ℕ) × (n < suc fuel) × ((get_colorvar (after_calls n cg)).1 ≡ none)
    go (next, none) e a ih = (zero, omega arith, rw e)
    go (next, some cv) e (steady, _, less, _) ih =
        let (n, few, done) = ih next d steady (omega arith) in (suc n, omega arith, rw e done)

-- A steady generator runs out: after at most `left cg` calls that give a variant, `get_colorvar`
-- returns false.
pub get_colorvar_ends :
    (cg : ColorGen) (d : ℕ)
    → IsSteady cg d
    → (n : ℕ) × (n ≤ left cg) × ((get_colorvar (after_calls n cg)).1 ≡ none)
get_colorvar_ends cg d v =
    let (n, few, e) = run_out (left cg + 1) cg d v (omega arith) in (n, omega arith, e)

-- The walk through the hues starts again at each new saturation, and does not step on from there:
-- where the hues are used up and a saturation is left, the next two calls hand out one and the same
-- variant.
pub get_colorvar_repeats :
    (cg : ColorGen) (d : ℕ)
    → IsSteady cg d
    → cg.h_end < cg.h
    → cg.s_end ≤ cg.s
    → (cv : ColorVar) × ((get_colorvar cg).1 ≡ some cv)
      × ((get_colorvar (get_colorvar cg).0).1 ≡ some cv)
unfolding get_colorvar
get_colorvar_repeats cg d v over more =
    (variant cg cg.h_start ((cg.s + cg.s_int) % u32), ground arith, ground (arith, v.ordered))

-- The variant that the loop turns to starts at the first luminosity.
next_variant-l :
    (cg : ColorGen) (cv : ColorVar)
    → cg.h_start ≤ cg.h_end
    → let new = (next_variant cg cv).1 in
      (new.l ≡ cg.l_start) × (new.l_end ≡ cg.l_end) × (new.real_rgb ≡ cg.real_rgb)
unfolding next_variant get_colorvar rewind
next_variant-l cg cv ordered = ground arith

get_color-fresh :
    {W : Type 0} (dbl : Double W) (cv : ColorVar)
    → cv.l_end < cv.l
    → (get_color dbl cv).0 ≡ hsl_to_rgb dbl cv.real_rgb cv.h cv.s cv.l
unfolding get_color
get_color-fresh dbl cv room = ground arith

-- Whatever the variant at hand, and also when all variants were handed out: if the first colour of
-- the variant that comes next is not black, the loop ends within two rounds, with a colour that is
-- not 0.
pub get_color_anyway_returns :
    {W : Type 0} (dbl : Double W) (cg : ColorGen) (cv : ColorVar)
    → cg.h_start ≤ cg.h_end
    → cg.l_end < cg.l_start
    → let new = (next_variant cg (get_color dbl cv).1).1 in
      hsl_to_rgb dbl cg.real_rgb new.h new.s cg.l_start ≢ 0
      → (clr : ℕ) × (cg' : ColorGen) × (cv' : ColorVar) × (get_color_anyway dbl 2 cg cv
          ≡ some (clr, cg', cv'))
        × (clr ≢ 0)
unfolding get_color_anyway
get_color_anyway_returns dbl cg cv ordered room bright =
    let (now, used) = get_color dbl cv in
    let (next, new) = next_variant cg used in
    let (later, rest) = get_color dbl new in
    let facts = next_variant-l cg used ordered in
    let e : later ≡ hsl_to_rgb dbl cg.real_rgb new.h new.s cg.l_start =
      get_color-fresh dbl new (omega (arith, facts)) ∙ rw (facts.0, facts.2) refl in
    elim (Bool-cases (now == 0)) [
      | inl black ↦ (later, next, rest, ground arith, ground arith)
      | inr drawn ↦ (now, cg, used, rw drawn, ground arith)
    ]
