-- ===== src/BbGroup/Tokens.antt =====
-- Cutting text: `strchr` with the cut that the code makes there, `strtok_r`, and `getline`.
use graph_slick.Base.{ℕ, Option, none, some, List, [], ◌∷◌, ◌++◌, ◌==◌, if◌then◌else◌, Text}

-- the text before and behind the first `c`
unfoldable pub split_at : ℕ → Text → Option (Text × Text)
split_at c [] = none
split_at c (x ∷ s) =
    let rest = split_at c s in
    if x == c then some ([], s) else elim rest [ none ↦ none | some (a, b) ↦ some (x ∷ a, b) ]

-- the delimiters in front of a text, and what they stand in front of
unfoldable pub skip_delims : ℕ → Text → Text
skip_delims d [] = []
skip_delims d (x ∷ s) = if x == d then skip_delims d s else x ∷ s

unfoldable pub delims : ℕ → Text → Text
delims d [] = []
delims d (x ∷ s) = if x == d then x ∷ delims d s else []

-- the characters up to the next delimiter
unfoldable pub word : ℕ → Text → Text
word d [] = []
word d (x ∷ s) = if x == d then [] else x ∷ word d s

-- the text behind the next delimiter
unfoldable pub after_word : ℕ → Text → Text
after_word d [] = []
after_word d (x ∷ s) = if x == d then s else after_word d s

abbrev pub push_word : Text → List Text → List Text
push_word [] ws = ws
push_word (x ∷ w) ws = (x ∷ w) ∷ ws

-- `cut d s` is the word at the front of the text and the pieces behind it, empty ones too
unfoldable pub cut : ℕ → Text → Text × List Text
cut d [] = ([], [])
cut d (x ∷ s) = let (w, ws) = cut d s in if x == d then ([], w ∷ ws) else (x ∷ w, ws)

abbrev pub drop_empty : List Text → List Text
drop_empty [] = []
drop_empty (w ∷ ws) = push_word w (drop_empty ws)

-- the tokens that calls of `strtok_r` give one after another
unfoldable pub tokens : ℕ → Text → List Text
unfolding cut
tokens d s = let (w, ws) = cut d s in drop_empty (w ∷ ws)

-- After the first call of `strtok_r` the text ends behind the first token: the delimiters in front
-- of it are still there.
unfoldable pub first_piece : ℕ → Text → Text
unfolding skip_delims delims word
first_piece d s = delims d s ++ word d (skip_delims d s)

-- where the next call of `strtok_r` goes on
unfoldable pub after_first : ℕ → Text → Text
unfolding skip_delims after_word
after_first d s = after_word d (skip_delims d s)

-- the lines that `getline` reads until the file ends
unfoldable pub lines : Text → List Text
unfolding cut
lines s = let (w, ws) = cut b'\n' s in w ∷ ws
