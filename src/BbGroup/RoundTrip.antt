-- ===== src/BbGroup/RoundTrip.antt =====
-- A file that `emit` wrote parses back to what it was written from.
use graph_slick.Base.{
  ◌<◌, ◌≡◌, refl, ap, sym, subst, ◌∙◌, false, true, Option, some, none, List, [], ◌∷◌, ◌++◌, All,
  arith, Text, codes, ℤ,
}
use graph_slick.Heap.{Addr, GroupMan, ok}
use graph_slick.Manager.{Sgl, path, similar, clear, clear_sgl, delete_sgs}
use graph_slick.Manager.Known.{is_some, mem_id, Learns-trans, or_false}
use graph_slick.OrdMap.{find, int_ord}
use graph_slick.BbGroup.{Sdk, parse_row, parse_rows, section_of, section_name, parse}
use graph_slick.BbGroup.Tokens.{lines}
use graph_slick.BbGroup.Cuts.{Lacks, lines-append, lines_nil}
use graph_slick.BbGroup.Emit.{emit}
use graph_slick.BbGroup.Content.{Content, Shows, Shows-Keeps, rows_text, emit_sgl-text, content_ids}
use graph_slick.BbGroup.Laws.{SdkLaws, Printable}
use graph_slick.BbGroup.Extended.{rows-Extends}

module _ (sdk : Sdk) (laws : SdkLaws sdk) where
  -- the line that starts a section
  section_row :
      (sgl cur : Sgl) (name : Text) (rest : Text) (w : GroupMan)
      → Lacks b'\n' name
      → section_name sdk (b'-' ∷ b'-' ∷ name) ≡ some name
      → section_of sdk name ≡ some sgl
      → parse_rows sdk (some cur) (lines ((b'-' ∷ b'-' ∷ name) ++ b'\n' ∷ rest)) w
        ≡ parse_rows sdk (some sgl) (lines rest) w
  unfolding parse_rows parse_row
  section_row sgl cur name rest w lacks named known =
      rw
        (
          lines-append (b'-' ∷ b'-' ∷ name) rest (refl, (refl, lacks)),
          parse_rows,
          parse_row,
          laws.skip_ink b'-' (b'-' ∷ name) refl,
          named,
          known,
        )
        refl

  end_rows : (cur : Sgl) (w : GroupMan) → parse_rows sdk (some cur) (lines []) w ≡ ok tt w
  unfolding parse_rows parse_row
  end_rows cur w = rw (lines_nil, parse_rows, parse_row, laws.skip_nil) refl

  pub clear-empty :
      (w : GroupMan)
      → w.path_sgl ≡ []
      → w.similar_sgl ≡ []
      → clear w ≡ ok tt (record w { path_sgl = []; similar_sgl = []; all_nodes = [] })
  unfolding clear clear_sgl delete_sgs
  clear-empty w p s = rw (p, s) refl

  -- the lines of a printed file
  unfoldable pub printed : List Content → List Content → Text
  printed cs ds =
      codes "--PATHINFO\n"
      ++ (rows_text sdk cs ++ (codes "--SIMILARINFO\n" ++ (rows_text sdk ds ++ [])))

  emit-printed :
      (w : GroupMan) (cs ds : List Content)
      → Shows w.heap w.path_sgl cs
      → Shows w.heap w.similar_sgl ds
      → emit sdk none w ≡ ok (printed cs ds) w
  unfolding emit printed
  emit-printed w cs ds p s =
      rw (emit_sgl-text sdk w w.path_sgl cs p, emit_sgl-text sdk w w.similar_sgl ds s) refl

  -- Writing a manager whose super groups can be printed does not fault. Parsing what was written,
  -- into a manager without super groups over any heap, returns true and gives a manager that shows the
  -- same super groups in both lists: ids, names, groups and nodes, in order. Its map of the nodes has
  -- exactly the ids of these nodes.
  pub parse-emit :
      (w : GroupMan) (cs ds : List Content) (u : GroupMan) (open_file : Text → Option Text)
      (name : Text)
      → Shows w.heap w.path_sgl cs
      → Shows w.heap w.similar_sgl ds
      → All Printable cs
      → All Printable ds
      → 0 < u.next
      → u.path_sgl ≡ []
      → u.similar_sgl ≡ []
      → open_file name ≡ some (printed cs ds)
      → (emit sdk none w ≡ ok (printed cs ds) w)
        × ((u' : GroupMan) × (parse sdk open_file name false u ≡ ok true u')
            × Shows u'.heap u'.path_sgl cs
            × Shows u'.heap u'.similar_sgl ds
            × ((k : ℤ)
                → is_some (find k u'.all_nodes) ≡ mem_id k (content_ids cs ++ content_ids ds)))
  unfolding parse section_name section_of printed find
  parse-emit w cs ds u open_file name p s pc pd real no_path no_similar opens =
      let u1 : GroupMan = record u {
        path_sgl = [];
        similar_sgl = [];
        all_nodes = [];
        src_filename = name;
      } in
      let tail = rows_text sdk ds ++ [] in
      let (ps, v1, run1, shows1, ext1, learns1) =
        rows-Extends sdk laws path cs (codes "--SIMILARINFO\n" ++ tail) u1 real pc in
      let (ss, v2, run2, shows2, ext2, learns2) =
        rows-Extends sdk laws similar ds [] v1 (omega (arith, real, ext1.keeps.grows)) pd in
      let cleared = clear-empty (record u { src_filename = name }) no_path no_similar in
      let run : parse_rows sdk (some path) (lines (printed cs ds)) u1 ≡ ok tt v2 =
        section_row path path (codes "PATHINFO")
          (rows_text sdk cs ++ (codes "--SIMILARINFO\n" ++ tail)) u1
          (refl, (refl, (refl, (refl, (refl, (refl, (refl, (refl, tt)))))))) refl refl
        ∙ run1
        ∙ section_row similar path (codes "SIMILARINFO") tail v1
            (
              refl,
              (refl, (refl, (refl, (refl, (refl, (refl, (refl, (refl, (refl, (refl, tt)))))))))),
            )
            refl refl
        ∙ run2
        ∙ end_rows similar v2 in
      (
        emit-printed w cs ds p s,
        (
          v2,
          rw (opens, cleared, run) refl,
          subst (λ l. Shows v2.heap l cs) (sym (ext2.theirs ∙ ext1.mine))
              (Shows-Keeps v1.heap v2.heap ps cs ext2.keeps ext2.sgs_kept shows1),
          subst (λ l. Shows v2.heap l ds)
              (sym (ext2.mine ∙ ap (λ (l : List Addr). l ++ ss) ext1.theirs)) shows2,
          λ k.
              Learns-trans u1 v1 v2 (content_ids cs) (content_ids ds) learns1 learns2 k
              ∙ or_false (mem_id k (content_ids cs ++ content_ids ds)),
        ),
      )
