-- ===== src/BbGroup.antt =====
-- The text format of a bbgroup file: the parser and the printer of groupman.cpp. `strchr`, the
-- tokenizer (C's `strtok_r`) and `getline` are written out; what IDA's library does with one piece
-- of text is a parameter.
pub mod Tokens
pub mod Emit
pub mod Cuts
pub mod Content
pub mod Laws
pub mod Rows
pub mod Effects
pub mod Parsed
pub mod ParsedRows
pub mod Extended
pub mod RoundTrip
pub mod Standalone
use graph_slick.Base.{
  ℕ, zero, suc, ◌+◌, Bool, true, false, Option, none, some, List, [], ◌∷◌, ◌++◌, ◌==◌, ◌&&◌, ◌||◌,
  not, length, if◌then◌else◌, ℤ, Text, codes, is_empty,
}
use graph_slick.Heap.{Addr, null, Cmd, pure, ◌>>=◌, ◌>>◌, modify, load_sg, store_sg, store_nd}
use graph_slick.Groups.{add_node, add_nodegroup}
use graph_slick.Manager.{Sgl, path, similar, clear, map_nodedef, initialize_lookups, add_supergroup}
use Tokens.{split_at, tokens, first_piece, lines}

-- `skipSpaces`, `stricmp(a, b) == 0`, `qsscanf` with "%d : %a : %a" (none where it converts
-- nothing; an address that it does not reach is 0) and the printing of the same format
pub record Sdk : Type 0 where
  pub skip_spaces : Text → Text
  pub same_key : Text → Text → Bool
  pub scan_node : Text → Option (ℤ × ℕ × ℕ)
  pub show_node : ℤ → ℕ → ℕ → Text

module _ (sdk : Sdk) where
  open sdk use {skip_spaces, same_key, scan_node}

  abbrev pub parsed_node : Addr → Option (ℤ × ℕ × ℕ) → Cmd (Unit {0})
  parsed_node ng none = pure tt
  parsed_node ng (some (nid, start, end)) = do
    nd ← add_node ng null
    store_nd nd (record { nid = nid; start = start; end = end })
    map_nodedef nid nd

  -- the inner loop of `parse_nodeset`, over the pieces that `p` points to
  unfoldable pub parse_nodes : Addr → List Text → Cmd (Unit {0})
  parse_nodes ng [] = pure tt
  parse_nodes ng (p ∷ ps) = parsed_node ng (scan_node (skip_spaces p)) >> parse_nodes ng ps

  -- the text between a '(' and the next ')', and what follows
  unfoldable pub next_group : Text → Option (Text × Text)
  next_group s = elim (split_at b'(' s) [
    | none ↦ none
    | some (_, open_) ↦ elim (split_at b')' (skip_spaces open_)) [
      | none ↦ none
      | some (body, close) ↦ some (body, skip_spaces close)
    ]
  ]

  abbrev pub parse_group : Addr → Text → Cmd (Unit {0})
  parse_group sg body = do
    ng ← add_nodegroup sg null
    parse_nodes ng (first_piece b',' body ∷ tokens b',' (first_rest body))
    where
      first_rest : Text → Text
      first_rest s = Tokens.after_first b',' s

  -- the outer loop of `parse_nodeset`; a round consumes a parenthesis, so the length of the text
  -- is enough fuel
  unfoldable pub parse_groups : ℕ → Addr → Text → Cmd (Unit {0})
  parse_groups zero sg s = pure tt
  parse_groups (suc fuel) sg s = elim (next_group s) [
    | none ↦ pure tt
    | some (body, rest) ↦ parse_group sg body >> parse_groups fuel sg rest
  ]

  unfoldable pub parse_nodeset : Addr → Text → Cmd Bool
  unfolding parse_groups
  parse_nodeset sg s = parse_groups (length s) sg s >> pure true

  abbrev pub set_id : Addr → Text → Cmd Bool
  set_id sg val = do s ← load_sg sg; store_sg sg (record s { id = val }); pure true

  abbrev pub set_name : Addr → Text → Cmd Bool
  set_name sg val = do s ← load_sg sg; store_sg sg (record s { name = val }); pure true

  -- one `key:value` of a line
  unfoldable pub parse_pair : Addr → Text → Cmd Bool
  parse_pair sg token = elim (split_at b':' token) [
    | none ↦ pure true
    | some (before, after) ↦
        let key = skip_spaces before in
        let val = skip_spaces after in
        if same_key key (codes "ID")
        then set_id sg val
        else (if same_key key (codes "GROUPNAME")
            then set_name sg val
            else (if same_key key (codes "NODESET") then parse_nodeset sg val else pure true))
  ]

  unfoldable pub parse_pairs : Addr → List Text → Cmd Bool
  parse_pairs sg [] = pure true
  parse_pairs sg (token ∷ more) = do
    fine ← parse_pair sg token
    if fine then parse_pairs sg more else pure false

  unfoldable pub parse_line : Addr → Text → Cmd Bool
  unfolding parse_pairs
  parse_line sg line = parse_pairs sg (tokens b';' line)

  -- a line that switches the section: the text behind the two dashes
  unfoldable pub section_name : Text → Option Text
  section_name (a ∷ b ∷ c ∷ s) = if (a == b'-') && (b == b'-') then some (c ∷ s) else none
  section_name _ = none

  abbrev pub text_eq : Text → Text → Bool
  text_eq [] [] = true
  text_eq (a ∷ s) (b ∷ t) = (a == b) && text_eq s t
  text_eq _ _ = false

  unfoldable pub section_of : Text → Option Sgl
  section_of s =
      if text_eq s (codes "PATHINFO")
      then some path
      else (if text_eq s (codes "SIMILARINFO") then some similar else none)

  abbrev pub is_comment : Text → Bool
  is_comment [] = true
  is_comment (c ∷ _) = c == b'#'

  abbrev pub parse_content : Option Sgl → Text → Cmd (Option Sgl)
  parse_content none s = pure none
  parse_content (some sgl) s = do sg ← add_supergroup sgl null; parse_line sg s; pure (some sgl)

  -- one line of the file; `cur` is the section, none where it is unknown
  unfoldable pub parse_row : Option Sgl → Text → Cmd (Option Sgl)
  parse_row cur line =
      let s = skip_spaces line in
      if is_comment s
      then pure cur
      else elim (section_name s) [ some name ↦ pure (section_of name) | none ↦ parse_content cur s ]

  unfoldable pub parse_rows : Option Sgl → List Text → Cmd (Unit {0})
  parse_rows cur [] = pure tt
  parse_rows cur (line ∷ more) = do next ← parse_row cur line; parse_rows next more

  -- `groupman_t::parse`; the file is its contents, none where it cannot be opened
  abbrev pub parse_file : Text → Bool → Option Text → Cmd Bool
  parse_file filename init_cache none = pure false
  parse_file filename init_cache (some contents) = do
    modify (λ w. record w { src_filename = filename })
    clear
    parse_rows (some path) (lines contents)
    if init_cache then initialize_lookups else pure tt
    pure true

  unfoldable pub parse : (open_file : Text → Option Text) → Text → Bool → Cmd Bool
  parse open_file filename init_cache = parse_file filename init_cache (open_file filename)
