-- ===== src/Tests/Scanner.antt =====
-- A concrete text library: white space as in C, keys without regard to case, and numbers written
-- as tally marks.
use graph_slick.Base.{
  ℕ, zero, suc, ◌+◌, ◌≡◌, refl, Bool, false, true, ◌==◌, ◌&&◌, leb, Option, some, none, [], ◌∷◌,
  arith, length, ℤ, pos, negsuc, Text, if◌then◌else◌,
}
use graph_slick.BbGroup.{Sdk}
use graph_slick.BbGroup.Cuts.{Lacks}
use graph_slick.BbGroup.Laws.{IsPlain, SdkLaws, is_space}

abbrev skip : Text → Text
skip [] = []
skip (c ∷ s) = let rest = skip s in if is_space c then rest else c ∷ s

abbrev lower : ℕ → ℕ
lower c = if leb 65 c && leb c 90 then c + 32 else c

abbrev same_text : Text → Text → Bool
same_text [] [] = true
same_text [] (_ ∷ _) = false
same_text (_ ∷ _) [] = false
same_text (a ∷ s) (b ∷ t) = lower a == lower b && same_text s t

same_text_refl : (s : Text) → same_text s s ≡ true
same_text_refl [] = refl
same_text_refl (a ∷ s) = ground (arith, same_text_refl s)

same_text-length : (s t : Text) → same_text s t ≡ true → length s ≡ length t
same_text-length [] [] h = refl
same_text-length [] (_ ∷ _) h = ground (arith, h)
same_text-length (_ ∷ _) [] h = ground (arith, h)
same_text-length (a ∷ s) (b ∷ t) h = ground (arith, h, same_text-length s t)

-- `n` marks and a colon, in front of a text
abbrev tally : ℕ → Text → Text
tally zero rest = b':' ∷ rest
tally (suc n) rest = b'i' ∷ tally n rest

abbrev untally : Text → ℕ × Text
untally [] = (0, [])
untally (c ∷ s) = let (n, rest) = untally s in if c == b'i' then (suc n, rest) else (0, s)

untally-tally : (n : ℕ) (rest : Text) → untally (tally n rest) ≡ (n, rest)
untally-tally zero rest = refl
untally-tally (suc n) rest = rw (untally-tally n rest) refl

abbrev show_id : ℤ → Text → Text
show_id (pos n) rest = b'+' ∷ tally n rest
show_id (negsuc n) rest = b'-' ∷ tally n rest

abbrev show : ℤ → ℕ → ℕ → Text
show nid start end = show_id nid (tally start (tally end []))

abbrev scan : Text → Option (ℤ × ℕ × ℕ)
scan [] = none
scan (c ∷ s) =
    let (n, s1) = untally s in
    let (start, s2) = untally s1 in
    let (end, _) = untally s2 in some (if c == b'-' then negsuc n else pos n, start, end)

scan-show : (nid : ℤ) (start end : ℕ) → scan (show nid start end) ≡ some (nid, start, end)
scan-show (pos n) start end =
    rw
      (
        untally-tally n (tally start (tally end [])),
        untally-tally start (tally end []),
        untally-tally end [],
      )
      refl
scan-show (negsuc n) start end =
    rw
      (
        untally-tally n (tally start (tally end [])),
        untally-tally start (tally end []),
        untally-tally end [],
      )
      refl

tally-Lacks :
    (x n : ℕ) (rest : Text)
    → (b'i' == x) ≡ false
    → (b':' == x) ≡ false
    → Lacks x rest
    → Lacks x (tally n rest)
tally-Lacks x zero rest i colon h = (colon, h)
tally-Lacks x (suc n) rest i colon h = (i, tally-Lacks x n rest i colon h)

tallies-Lacks :
    (x a b c : ℕ)
    → (b'i' == x) ≡ false
    → (b':' == x) ≡ false
    → Lacks x (tally a (tally b (tally c [])))
tallies-Lacks x a b c i colon =
    tally-Lacks x a (tally b (tally c [])) i colon
      (tally-Lacks x b (tally c []) i colon (tally-Lacks x c [] i colon tt))

signed-IsPlain :
    (sign a b c : ℕ) → IsPlain (sign ∷ []) → IsPlain (sign ∷ tally a (tally b (tally c [])))
signed-IsPlain sign a b c ((c1, _), (c2, _), (c3, _), (c4, _), (c5, _)) = (
  (c1, tallies-Lacks b',' a b c refl refl),
  (c2, tallies-Lacks b';' a b c refl refl),
  (c3, tallies-Lacks b'(' a b c refl refl),
  (c4, tallies-Lacks b')' a b c refl refl),
  (c5, tallies-Lacks b'\n' a b c refl refl),
)

IsPlain-show :
    (nid : ℤ) (start end : ℕ)
    → (c : ℕ) × (t : Text) × (show nid start end ≡ c ∷ t) × (is_space c ≡ false) × IsPlain (c ∷ t)
IsPlain-show (pos n) start end = (
  _,
  _,
  refl,
  refl,
  signed-IsPlain b'+' n start end ((refl, tt), (refl, tt), (refl, tt), (refl, tt), (refl, tt)),
)
IsPlain-show (negsuc n) start end = (
  _,
  _,
  refl,
  refl,
  signed-IsPlain b'-' n start end ((refl, tt), (refl, tt), (refl, tt), (refl, tt), (refl, tt)),
)

abbrev pub scanner : Sdk
scanner = record { skip_spaces = skip; same_key = same_text; scan_node = scan; show_node = show }

pub scanner-SdkLaws : SdkLaws scanner
scanner-SdkLaws = record {
  skip_ink = λ c s ink. rw ink refl;
  skip_blank = λ s. refl;
  skip_nil = refl;
  key_refl = same_text_refl;
  key_length = same_text-length;
  scan_nil = refl;
  scan_show = λ d fits. scan-show d.nid d.start d.end;
  show_plain = λ d fits. IsPlain-show d.nid d.start d.end;
}
