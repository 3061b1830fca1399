-- ===== src/Tests/RoundTrip.antt =====
-- The sample, written and parsed with the text library of Scanner.
use graph_slick.Base.{
  ◌≡◌, refl, true, false, none, some, Option, [], ◌∷◌, ◌++◌, ℤ, arith, All, pos, Text,
}
use graph_slick.Heap.{GroupMan, ok}
use graph_slick.OrdMap.{find, int_ord}
use graph_slick.Manager.Known.{is_some, mem_id}
use graph_slick.BbGroup.{parse}
use graph_slick.BbGroup.Emit.{emit}
use graph_slick.BbGroup.Content.{Content, Shows, content_ids}
use graph_slick.BbGroup.Laws.{Printable}
use graph_slick.BbGroup.RoundTrip.{printed, parse-emit}
use graph_slick.Tests.Sample.{sample, node, sg_cell}
use graph_slick.Tests.Scanner.{scanner, scanner-SdkLaws}

abbrev pub content : Content
content = record {
  id = [];
  name = [];
  groups =
      (node (pos 0) 100 ∷ [])
      ∷ (node (pos 1) 110 ∷ node (pos 2) 120 ∷ [])
      ∷ (node (pos 3) 130 ∷ [])
      ∷ [];
}

abbrev pub empty_manager : GroupMan
empty_manager = record sample { path_sgl = []; similar_sgl = [] }

abbrev pub file : Text → Option Text
file name = some (printed scanner scanner-SdkLaws (content ∷ []) [])

pub sample-Shows : Shows sample.heap sample.path_sgl (content ∷ [])
sample-Shows = (
  (
    sg_cell,
    omega arith,
    refl,
    refl,
    refl,
    (
      (_, omega arith, refl, (omega arith, omega arith, refl, tt)),
      (
        (
          _,
          omega arith,
          refl,
          (omega arith, omega arith, refl, (omega arith, omega arith, refl, tt)),
        ),
        ((_, omega arith, refl, (omega arith, omega arith, refl, tt)), tt),
      ),
    ),
  ),
  tt,
)

pub content-Printable : All Printable (content ∷ [])
content-Printable = (
  record {
    clean_id = tt;
    clean_name = tt;
    fitting = (
      ((omega arith, omega arith, omega arith), tt),
      (
        ((omega arith, omega arith, omega arith), ((omega arith, omega arith, omega arith), tt)),
        (((omega arith, omega arith, omega arith), tt), tt),
      ),
    );
    visible = refl;
  },
  tt,
)

parse-emit_example :
    (emit scanner none sample ≡ ok (printed scanner scanner-SdkLaws (content ∷ []) []) sample)
    × ((u' : GroupMan) × (parse scanner file [] false empty_manager ≡ ok true u')
        × Shows u'.heap u'.path_sgl (content ∷ [])
        × Shows u'.heap u'.similar_sgl []
        × ((k : ℤ) → is_some (find k u'.all_nodes) ≡ mem_id k (content_ids (content ∷ []) ++ [])))
parse-emit_example =
    parse-emit scanner scanner-SdkLaws sample (content ∷ []) [] empty_manager file [] sample-Shows
      tt content-Printable tt (omega arith) refl refl refl
