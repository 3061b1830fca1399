-- ===== src/BbGroup/Rows.antt =====
-- How the parser's cutters take a printed row apart: into fields, groups and lines.
use graph_slick.Base.{
  ℕ, ◌≡◌, refl, ap, sym, subst, ◌∙◌, some, none, List, [], ◌∷◌, ◌++◌, All, All-append, Text, codes,
}
use mathlib.Core.List.{append-nil, append_assoc}
use graph_slick.Heap.{NodeDef}
use graph_slick.BbGroup.{Sdk, next_group}
use graph_slick.BbGroup.Tokens.{tokens, lines}
use graph_slick.BbGroup.Cuts.{
  Lacks, Lacks-append, split_at-append, split_at-Lacks, tokens-append, tokens-Lacks, lines-append,
  tokens_nil,
}
use graph_slick.BbGroup.Emit.{emit_field}
use graph_slick.BbGroup.Content.{
  Content, sep, nodes_text, groups_text, nodeset_text, row_text, rows_text,
}
use graph_slick.BbGroup.Laws.{Fits, IsPlain, IsClean, Printable, SdkLaws, show-Lacks}

-- the token of a field, where it is there
abbrev pub field_token : Text → Text → List Text → List Text
field_token key [] ts = ts
field_token key (c ∷ val) ts = (key ++ b':' ∷ c ∷ val) ∷ ts

module _ (sdk : Sdk) (laws : SdkLaws sdk) where
  abbrev pub nodeset_token : List (List NodeDef) → List Text
  nodeset_token [] = []
  nodeset_token (ds ∷ dss) = nodeset_text sdk (ds ∷ dss) ∷ []

  nodes-Lacks :
      (x : ℕ) (ds : List NodeDef)
      → All Fits ds
      → ((s : Text) → IsPlain s → Lacks x s)
      → Lacks x (codes ", ")
      → Lacks x (nodes_text sdk ds)
  nodes-Lacks x [] fits pick h = tt
  nodes-Lacks x (d ∷ []) (fit, fits) pick h =
      subst (Lacks x) (sym (append-nil _)) (show-Lacks sdk laws x d fit pick)
  nodes-Lacks x (d ∷ e ∷ ds) (fit, fits) pick h =
      All-append _ (sdk.show_node d.nid d.start d.end) _ (show-Lacks sdk laws x d fit pick)
        (All-append _ (codes ", ") _ h (nodes-Lacks x (e ∷ ds) fits pick h))

  groups-Lacks :
      (x : ℕ) (dss : List (List NodeDef))
      → All (All Fits) dss
      → ((s : Text) → IsPlain s → Lacks x s)
      → Lacks x (codes ", ")
      → Lacks x (codes "()")
      → Lacks x (groups_text sdk dss)
  groups-Lacks x [] fits pick h k = tt
  groups-Lacks x (ds ∷ []) (fit, fits) pick h (open_, (close, _)) =
      (open_, All-append _ (nodes_text sdk ds) _ (nodes-Lacks x ds fit pick h) (close, tt))
  groups-Lacks x (ds ∷ es ∷ dss) (fit, fits) pick h (open_, (close, _)) = (
    open_,
    All-append _ (nodes_text sdk ds) _ (nodes-Lacks x ds fit pick h) (
      close,
      Lacks-append x (codes ", ") (groups_text sdk (es ∷ dss)) h
          (groups-Lacks x (es ∷ dss) fits pick h (open_, (close, tt))),
    ),
  )

  skip_nodes :
      (ds : List NodeDef) (t : Text)
      → All Fits ds
      → sdk.skip_spaces (nodes_text sdk ds ++ b')' ∷ t) ≡ nodes_text sdk ds ++ b')' ∷ t
  skip_nodes [] t h = laws.skip_ink b')' t refl
  skip_nodes (d ∷ ds) t (fit, h) =
      let (c, s, shape, ink, _) = laws.show_plain d fit in
      let rest = (s ++ (sep sdk ds ++ nodes_text sdk ds)) ++ b')' ∷ t in
      subst
        (λ u.
          sdk.skip_spaces ((u ++ (sep sdk ds ++ nodes_text sdk ds)) ++ b')' ∷ t)
          ≡ (u ++ (sep sdk ds ++ nodes_text sdk ds)) ++ b')' ∷ t)
        (sym shape) (laws.skip_ink c rest ink)

  -- A group in parentheses, behind the comma of the one before: its text, and what follows it.
  pub next_group-shown :
      (pre : Text) (ds : List NodeDef) (t : Text)
      → Lacks b'(' pre
      → All Fits ds
      → next_group sdk (pre ++ b'(' ∷ (nodes_text sdk ds ++ b')' ∷ t))
        ≡ some (nodes_text sdk ds, sdk.skip_spaces t)
  unfolding next_group
  next_group-shown pre ds t lacks fits =
      rw
        (
          next_group,
          split_at-append b'(' pre (nodes_text sdk ds ++ b')' ∷ t) lacks refl,
          skip_nodes ds t fits,
          split_at-append b')' (nodes_text sdk ds) t
              (nodes-Lacks b')' ds fits (λ s (_, _, _, close, _). close) (refl, (refl, tt))) refl,
        )
        refl

  pub next_group-Lacks : (s : Text) → Lacks b'(' s → next_group sdk s ≡ none
  unfolding next_group
  next_group-Lacks s h = rw (next_group, split_at-Lacks b'(' s h) refl

  pub skip_sep :
      (dss : List (List NodeDef))
      → sdk.skip_spaces (sep sdk dss ++ groups_text sdk dss) ≡ sep sdk dss ++ groups_text sdk dss
  skip_sep [] = laws.skip_nil
  skip_sep (ds ∷ dss) = laws.skip_ink b',' _ refl

  tokens-field :
      (k : ℕ) (ks val rest : Text)
      → Lacks b';' (k ∷ ks)
      → IsClean val
      → tokens b';' (emit_field sdk (k ∷ ks) val ++ rest)
        ≡ field_token (k ∷ ks) val (tokens b';' rest)
  tokens-field k ks [] rest h clean = refl
  tokens-field k ks (c ∷ v) rest h (_, semi, _) =
      let shape : emit_field sdk (k ∷ ks) (c ∷ v) ++ rest
          ≡ ((k ∷ ks) ++ b':' ∷ c ∷ v) ++ b';' ∷ rest =
        simp (append_assoc) in
      ap (tokens b';') shape
      ∙ tokens-append b';' ((k ∷ ks) ++ b':' ∷ c ∷ v) rest
          (All-append _ (k ∷ ks) (b':' ∷ c ∷ v) h (refl, semi)) refl

  tokens-nodeset :
      (dss : List (List NodeDef))
      → All (All Fits) dss
      → tokens b';' (nodeset_text sdk dss) ≡ nodeset_token dss
  tokens-nodeset [] fits = tokens_nil b';'
  tokens-nodeset (ds ∷ dss) fits = tokens-Lacks b';' (nodeset_text sdk (ds ∷ dss)) (
      All-append _ (codes "NODESET") (b':' ∷ groups_text sdk (ds ∷ dss))
        (refl, (refl, (refl, (refl, (refl, (refl, (refl, tt)))))))
        (
          refl,
          groups-Lacks b';' (ds ∷ dss) fits (λ s p. p.1) (refl, (refl, tt)) (refl, (refl, tt)),
        ))

  -- The fields of a row.
  pub tokens-row :
      (c : Content)
      → Printable c
      → tokens b';' (row_text sdk c)
        ≡ field_token
            (codes "ID")
            c.id
            (field_token (codes "GROUPNAME") c.name (nodeset_token c.groups))
  tokens-row c p =
      tokens-field 73 (codes "D") c.id _ (refl, (refl, tt)) p.clean_id
      ∙ ap (field_token (codes "ID") c.id) (
          tokens-field 71 (codes "ROUPNAME") c.name _
            (refl, (refl, (refl, (refl, (refl, (refl, (refl, (refl, (refl, tt))))))))) p.clean_name
          ∙ ap (field_token (codes "GROUPNAME") c.name) (tokens-nodeset c.groups p.fitting))

  field-Lacks_newline :
      (key val : Text) → Lacks b'\n' key → IsClean val → Lacks b'\n' (emit_field sdk key val)
  field-Lacks_newline key [] h clean = tt
  field-Lacks_newline key (c ∷ v) h (_, _, line) =
      All-append _ key _ h (refl, All-append _ (c ∷ v) (b';' ∷ []) line (refl, tt))

  row-Lacks_newline : (c : Content) → Printable c → Lacks b'\n' (row_text sdk c)
  row-Lacks_newline c p =
      All-append _ (emit_field sdk (codes "ID") c.id) _
        (field-Lacks_newline (codes "ID") c.id (refl, (refl, tt)) p.clean_id)
        (All-append _ (emit_field sdk (codes "GROUPNAME") c.name) _
          (field-Lacks_newline (codes "GROUPNAME") c.name
            (refl, (refl, (refl, (refl, (refl, (refl, (refl, (refl, (refl, tt))))))))) p.clean_name)
          (nodeset-Lacks c.groups p.fitting))
    where
      nodeset-Lacks :
          (dss : List (List NodeDef)) → All (All Fits) dss → Lacks b'\n' (nodeset_text sdk dss)
      nodeset-Lacks [] fits = tt
      nodeset-Lacks (ds ∷ dss) fits =
          All-append _ (codes "NODESET") (b':' ∷ groups_text sdk (ds ∷ dss))
            (refl, (refl, (refl, (refl, (refl, (refl, (refl, tt)))))))
            (
              refl,
              groups-Lacks b'\n' (ds ∷ dss) fits (λ s (_, _, _, _, line). line) (refl, (refl, tt))
                  (refl, (refl, tt)),
            )

  -- The first line of the printed rows is the first row.
  pub lines-rows :
      (c : Content) (cs : List Content) (rest : Text)
      → Printable c
      → lines (rows_text sdk (c ∷ cs) ++ rest) ≡ row_text sdk c ∷ lines (rows_text sdk cs ++ rest)
  lines-rows c cs rest p =
      let shape : rows_text sdk (c ∷ cs) ++ rest
          ≡ row_text sdk c ++ b'\n' ∷ (rows_text sdk cs ++ rest) =
        simp (append_assoc) in
      ap lines shape
      ∙ lines-append (row_text sdk c) (rows_text sdk cs ++ rest) (row-Lacks_newline c p)
