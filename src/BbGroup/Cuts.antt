-- ===== src/BbGroup/Cuts.antt =====
-- How the cutters of Tokens take a text apart that was put together with separators.
use graph_slick.Base.{
  ℕ, ◌≡◌, refl, false, true, some, none, [], ◌∷◌, ◌++◌, ◌==◌, All, All-append, Text,
}
use graph_slick.BbGroup.Tokens.{
  split_at, skip_delims, delims, word, after_word, push_word, cut, tokens, first_piece, after_first,
  lines,
}

-- the character does not occur
abbrev pub Lacks : ℕ → Text → Type 0
Lacks d = All (λ x. (x == d) ≡ false)

pub Lacks-append : (d : ℕ) (s t : Text) → Lacks d s → Lacks d t → Lacks d (s ++ t)
Lacks-append d = All-append (λ x. (x == d) ≡ false)

pub split_at-append :
    (c : ℕ) (s t : Text) → Lacks c s → (c == c) ≡ true → split_at c (s ++ c ∷ t) ≡ some (s, t)
unfolding split_at
split_at-append c [] t h e = rw e refl
split_at-append c (x ∷ s) t (ne, h) e = rw (ne, split_at-append c s t h e) refl

pub split_at-Lacks : (c : ℕ) (s : Text) → Lacks c s → split_at c s ≡ none
unfolding split_at
split_at-Lacks c [] h = refl
split_at-Lacks c (x ∷ s) (ne, h) = rw (ne, split_at-Lacks c s h) refl

cut-append :
    (d : ℕ) (s t : Text)
    → Lacks d s
    → (d == d) ≡ true
    → cut d (s ++ d ∷ t) ≡ (s, (cut d t).0 ∷ (cut d t).1)
unfolding cut
cut-append d [] t h e = rw e refl
cut-append d (x ∷ s) t (ne, h) e = rw (ne, cut-append d s t h e) refl

cut-Lacks : (d : ℕ) (s : Text) → Lacks d s → cut d s ≡ (s, [])
unfolding cut
cut-Lacks d [] h = refl
cut-Lacks d (x ∷ s) (ne, h) = rw (ne, cut-Lacks d s h) refl

pub tokens-append :
    (d : ℕ) (s t : Text)
    → Lacks d s
    → (d == d) ≡ true
    → tokens d (s ++ d ∷ t) ≡ push_word s (tokens d t)
unfolding tokens
tokens-append d s t h e = rw (cut-append d s t h e) refl

pub tokens-Lacks : (d : ℕ) (s : Text) → Lacks d s → tokens d s ≡ push_word s []
unfolding tokens
tokens-Lacks d s h = rw (cut-Lacks d s h) refl

pub lines-append : (s t : Text) → Lacks b'\n' s → lines (s ++ b'\n' ∷ t) ≡ s ∷ lines t
unfolding lines
lines-append s t h = rw (cut-append b'\n' s t h refl) refl

pub lines_nil : lines [] ≡ [] ∷ []
unfolding lines cut
lines_nil = refl

word-append : (d : ℕ) (s t : Text) → Lacks d s → (d == d) ≡ true → word d (s ++ d ∷ t) ≡ s
unfolding word
word-append d [] t h e = rw e refl
word-append d (x ∷ s) t (ne, h) e = rw (ne, word-append d s t h e) refl

word-Lacks : (d : ℕ) (s : Text) → Lacks d s → word d s ≡ s
unfolding word
word-Lacks d [] h = refl
word-Lacks d (x ∷ s) (ne, h) = rw (ne, word-Lacks d s h) refl

after_word-append :
    (d : ℕ) (s t : Text) → Lacks d s → (d == d) ≡ true → after_word d (s ++ d ∷ t) ≡ t
unfolding after_word
after_word-append d [] t h e = rw e refl
after_word-append d (x ∷ s) t (ne, h) e = rw (ne, after_word-append d s t h e) refl

after_word-Lacks : (d : ℕ) (s : Text) → Lacks d s → after_word d s ≡ []
unfolding after_word
after_word-Lacks d [] h = refl
after_word-Lacks d (x ∷ s) (ne, h) = rw (ne, after_word-Lacks d s h) refl

-- The first token of a text that starts with one, and what follows.
module _ (d x : ℕ) (s : Text) (h : Lacks d (x ∷ s)) where
  pub first_piece-append : (t : Text) → (d == d) ≡ true → first_piece d ((x ∷ s) ++ d ∷ t) ≡ x ∷ s
  unfolding first_piece delims skip_delims
  first_piece-append t e = rw (h.0, word-append d (x ∷ s) t h e) refl

  pub first_piece-Lacks : first_piece d (x ∷ s) ≡ x ∷ s
  unfolding first_piece delims skip_delims
  first_piece-Lacks = rw (h.0, word-Lacks d (x ∷ s) h) refl

  pub after_first-append : (t : Text) → (d == d) ≡ true → after_first d ((x ∷ s) ++ d ∷ t) ≡ t
  unfolding after_first skip_delims
  after_first-append t e = rw (h.0, after_word-append d (x ∷ s) t h e) refl

  pub after_first-Lacks : after_first d (x ∷ s) ≡ []
  unfolding after_first skip_delims
  after_first-Lacks = rw (h.0, after_word-Lacks d (x ∷ s) h) refl

pub first_piece_nil : (d : ℕ) → first_piece d [] ≡ []
unfolding first_piece delims skip_delims word
first_piece_nil d = refl

pub after_first_nil : (d : ℕ) → after_first d [] ≡ []
unfolding after_first skip_delims after_word
after_first_nil d = refl

pub tokens_nil : (d : ℕ) → tokens d [] ≡ []
unfolding tokens cut
tokens_nil d = refl
