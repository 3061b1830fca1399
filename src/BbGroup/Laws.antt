-- ===== src/BbGroup/Laws.antt =====
-- What the parser and the printer rely on in the SDK's text routines, and the texts that come back.
use graph_slick.Base.{
  ℕ, ◌<◌, ◌^◌, ◌≡◌, refl, ap, sym, subst, ◌∙◌, Bool, false, true, ◌||◌, ◌&&◌, ◌==◌, leb, some, none,
  List, [], ◌∷◌, ◌++◌, All, length, ℤ, pos, negsuc, Text, is_empty,
}
use mathlib.Core.List.{append-nil}
use graph_slick.Heap.{NodeDef}
use graph_slick.BbGroup.{Sdk}
use graph_slick.BbGroup.Tokens.{tokens, first_piece, after_first}
use graph_slick.BbGroup.Cuts.{
  Lacks, tokens-append, tokens-Lacks, first_piece-append, first_piece-Lacks, after_first-append,
  after_first-Lacks, tokens_nil,
}
use graph_slick.BbGroup.Content.{Content, nodes_text}

-- the white space of C
abbrev pub is_space : ℕ → Bool
is_space c = c == 32 || (leb 9 c && leb c 13)

-- an `int` of 32 bits
abbrev pub IsInt : ℤ → Type 0
IsInt (pos n) = n < 2 ^ 31
IsInt (negsuc n) = n < 2 ^ 31

-- a node whose fields the machine types hold
abbrev pub Fits : NodeDef → Type 0
Fits d = IsInt d.nid × (d.start < 2 ^ 64) × (d.end < 2 ^ 64)

-- a printed node has none of the characters that the format gives a meaning
abbrev pub IsPlain : Text → Type 0
IsPlain s = Lacks b',' s × Lacks b';' s × Lacks b'(' s × Lacks b')' s × Lacks b'\n' s

-- `skipSpaces` goes to the first character that is no white space; `stricmp` finds a text equal to
-- itself and to no text of another length; `qsscanf` reads back what the same format printed, and
-- converts nothing in the empty text.
pub record SdkLaws (sdk : Sdk) : Type 0 where
  pub skip_ink : (c : ℕ) (s : Text) → is_space c ≡ false → sdk.skip_spaces (c ∷ s) ≡ c ∷ s
  pub skip_blank : (s : Text) → sdk.skip_spaces (32 ∷ s) ≡ sdk.skip_spaces s
  pub skip_nil : sdk.skip_spaces [] ≡ []
  pub key_refl : (k : Text) → sdk.same_key k k ≡ true
  pub key_length : (j k : Text) → sdk.same_key j k ≡ true → length j ≡ length k
  pub scan_nil : sdk.scan_node [] ≡ none
  pub scan_show :
      (d : NodeDef)
      → Fits d
      → sdk.scan_node (sdk.show_node d.nid d.start d.end) ≡ some (d.nid, d.start, d.end)
  pub show_plain :
      (d : NodeDef)
      → Fits d
      → (c : ℕ) × (t : Text) × (sdk.show_node d.nid d.start d.end ≡ c ∷ t)
        × (is_space c ≡ false)
        × IsPlain (c ∷ t)

-- a value of a field: no white space in front, no semicolon and no end of line
abbrev pub IsClean : Text → Type 0
IsClean [] = Unit
IsClean (c ∷ s) = (is_space c ≡ false) × Lacks b';' (c ∷ s) × Lacks b'\n' (c ∷ s)

-- a super group that its row gives back: not blank, its texts clean, its nodes in range
pub record Printable (c : Content) : Type 0 where
  pub clean_id : IsClean c.id
  pub clean_name : IsClean c.name
  pub fitting : All (All Fits) c.groups
  pub visible : is_empty c.id && is_empty c.name && is_empty c.groups ≡ false

module _ (sdk : Sdk) (laws : SdkLaws sdk) where
  -- the pieces scan, one after another, to the nodes
  abbrev pub Scans : List Text → List NodeDef → Type 0
  Scans [] [] = Unit
  Scans [] (_ ∷ _) = ⊥
  Scans (_ ∷ _) [] = ⊥
  Scans (t ∷ ts) (d ∷ ds) =
      (sdk.scan_node (sdk.skip_spaces t) ≡ some (d.nid, d.start, d.end)) × Scans ts ds

  scan_shown :
      (d : NodeDef)
      → Fits d
      → sdk.scan_node (sdk.skip_spaces (sdk.show_node d.nid d.start d.end))
        ≡ some (d.nid, d.start, d.end)
  scan_shown d fits =
      let (c, t, shape, ink, _) = laws.show_plain d fits in
      ap (λ s. sdk.scan_node (sdk.skip_spaces s)) shape
      ∙ ap sdk.scan_node (laws.skip_ink c t ink ∙ sym shape)
      ∙ laws.scan_show d fits

  pub show-Lacks :
      (x : ℕ) (d : NodeDef)
      → Fits d
      → ((s : Text) → IsPlain s → Lacks x s)
      → Lacks x (sdk.show_node d.nid d.start d.end)
  show-Lacks x d fits pick =
      let (c, t, shape, _, plain) = laws.show_plain d fits in
      subst (Lacks x) (sym shape) (pick (c ∷ t) plain)

  -- the pieces behind the first comma
  tokens-Scans :
      (d : NodeDef) (ds : List NodeDef)
      → Fits d
      → All Fits ds
      → Scans (tokens b',' (32 ∷ nodes_text sdk (d ∷ ds))) (d ∷ ds)
  tokens-Scans d [] fits h =
      let one : nodes_text sdk (d ∷ []) ≡ sdk.show_node d.nid d.start d.end = append-nil _ in
      let lacks = show-Lacks b',' d fits (λ s p. p.0) in
      subst (λ s. Scans (tokens b',' (32 ∷ s)) (d ∷ [])) (sym one)
        (subst (λ ts. Scans ts (d ∷ []))
          (sym (tokens-Lacks b',' (32 ∷ sdk.show_node d.nid d.start d.end) (refl, lacks)))
          (
            ap sdk.scan_node (laws.skip_blank (sdk.show_node d.nid d.start d.end))
                ∙ scan_shown d fits,
            tt,
          ))
  tokens-Scans d (e ∷ ds) fits (fit, h) =
      let lacks = show-Lacks b',' d fits (λ s p. p.0) in
      subst (λ ts. Scans ts (d ∷ e ∷ ds))
        (sym (
          tokens-append b',' (32 ∷ sdk.show_node d.nid d.start d.end) (32 ∷ nodes_text sdk (e ∷ ds))
            (refl, lacks) refl))
        (
          ap sdk.scan_node (laws.skip_blank (sdk.show_node d.nid d.start d.end))
              ∙ scan_shown d fits,
          tokens-Scans e ds fit h,
        )

  -- the pieces of a group that is not empty
  pub pieces-Scans :
      (d : NodeDef) (ds : List NodeDef)
      → Fits d
      → All Fits ds
      → Scans
          (first_piece b',' (nodes_text sdk (d ∷ ds))
            ∷ tokens b',' (after_first b',' (nodes_text sdk (d ∷ ds))))
          (d ∷ ds)
  pieces-Scans d [] fits h =
      let (c, t, shape, _, plain) = laws.show_plain d fits in
      let one : nodes_text sdk (d ∷ []) ≡ c ∷ t = append-nil _ ∙ shape in
      subst (λ s. Scans (first_piece b',' s ∷ tokens b',' (after_first b',' s)) (d ∷ [])) (sym one)
        (rw
          (
            first_piece-Lacks b',' c t plain.0,
            after_first-Lacks b',' c t plain.0,
            tokens_nil b',',
            ← shape,
          )
          (scan_shown d fits, tt))
  pieces-Scans d (e ∷ ds) fits (fit, h) =
      let (c, t, shape, _, plain) = laws.show_plain d fits in
      let many : nodes_text sdk (d ∷ e ∷ ds) ≡ (c ∷ t) ++ b',' ∷ 32 ∷ nodes_text sdk (e ∷ ds) =
        ap (λ (s : Text). s ++ b',' ∷ 32 ∷ nodes_text sdk (e ∷ ds)) shape in
      let tail = 32 ∷ nodes_text sdk (e ∷ ds) in
      subst (λ s. Scans (first_piece b',' s ∷ tokens b',' (after_first b',' s)) (d ∷ e ∷ ds))
        (sym many)
        (rw
          (
            first_piece-append b',' c t plain.0 tail refl,
            after_first-append b',' c t plain.0 tail refl,
            ← shape,
          )
          (scan_shown d fits, tokens-Scans e ds fit h))
