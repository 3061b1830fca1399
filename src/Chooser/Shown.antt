-- ===== src/Chooser/Shown.antt =====
-- What is there where a list of super groups shows contents: every object of it, the lines of the
-- chooser, and the first node.
use graph_slick.Base.{
  ◌<◌, ◌≡◌, ◌≢◌, refl, sym, subst, ◌∙◌, some, List, [], ◌∷◌, ◌++◌, All, All-append, arith, map,
}
use mathlib.Core.List.{append-nil}
use graph_slick.Heap.{Addr, null, NodeDef, Heap, GroupMan, ok}
use graph_slick.Heap.Laws.{load_ng-ok, load_sg-ok}
use graph_slick.View.{IsNode, GroupOk, SgOk, LiveSgs}
use graph_slick.Groups.{front_or_null}
use graph_slick.Manager.{get_first_nd, first_in_path, first_in_sg}
use graph_slick.BbGroup.Content.{Content, ShowsNodes, ShowsGroups, Shows}
use graph_slick.Algo.Orphans.{Singles}
use graph_slick.Algo.Sanitized.{Placed, orphan_sg}
use graph_slick.Chooser.{Line, chlt_gm, chlt_sg, chlt_ng}
use graph_slick.Chooser.Lines.{sg_lines, populate_chooser_lines}

nodes_live :
    (h : Heap) (ps : List Addr) (ds : List NodeDef) → ShowsNodes h ps ds → All (IsNode h) ps
nodes_live h [] [] s = tt
nodes_live h [] (_ ∷ _) s = absurd s
nodes_live h (_ ∷ _) [] s = absurd s
nodes_live h (p ∷ ps) (d ∷ ds) (real, below, e, s) = ((real, (d, e)), nodes_live h ps ds s)

groups_live :
    (h : Heap) (gs : List Addr) (dss : List (List NodeDef))
    → ShowsGroups h gs dss
    → All (GroupOk (IsNode h) h) gs
groups_live h [] [] s = tt
groups_live h [] (_ ∷ _) s = absurd s
groups_live h (_ ∷ _) [] s = absurd s
groups_live h (g ∷ gs) (ds ∷ dss) ((ps, below, e, nodes), s) =
    ((ps, e, nodes_live h ps ds nodes), groups_live h gs dss s)

pub Shows-LiveSgs :
    (h : Heap) (sgs : List Addr) (cs : List Content) → Shows h sgs cs → LiveSgs h sgs
Shows-LiveSgs h [] [] s = tt
Shows-LiveSgs h [] (_ ∷ _) s = absurd s
Shows-LiveSgs h (_ ∷ _) [] s = absurd s
Shows-LiveSgs h (sg ∷ sgs) (c ∷ cs) ((cell, below, e, id, name, groups), s) =
    ((cell, e, groups_live h cell.groups c.groups groups), Shows-LiveSgs h sgs cs s)

Singles-live :
    (h : Heap) (gs : List Addr) (ds : List NodeDef)
    → Singles h gs ds
    → All (GroupOk (IsNode h) h) gs
Singles-live h [] [] s = tt
Singles-live h [] (_ ∷ _) s = absurd s
Singles-live h (_ ∷ _) [] s = absurd s
Singles-live h (g ∷ gs) (d ∷ ds) (p, real, there, e, s) =
    ((p ∷ [], there, ((real, (d, e)), tt)), Singles-live h gs ds s)

-- no list where no block is missing; else one synthetic super group, with a group of its own for
-- each missing block
abbrev pub Orphans : Heap → List Addr → List NodeDef → Type 0
Orphans h more [] = more ≡ []
Orphans h more (d ∷ ds) =
    (sg : Addr) × (gs : List Addr) × (more ≡ sg ∷ [])
    × (h.sgs sg ≡ some (orphan_sg gs))
    × Singles h gs (d ∷ ds)

-- the path of a sanitized manager
pub Placed-LiveSgs :
    (sg : Addr) (w w' : GroupMan) (ms : List NodeDef)
    → LiveSgs w'.heap w.path_sgl
    → Placed sg w w' ms
    → (more : List Addr) × (w'.path_sgl ≡ w.path_sgl ++ more)
      × Orphans w'.heap more ms
      × LiveSgs w'.heap w'.path_sgl
Placed-LiveSgs sg w w' [] live e = ([], e ∙ sym (append-nil w.path_sgl), refl, rw e live)
Placed-LiveSgs sg w w' (d ∷ ds) live (gs, e, there, s) = (
  sg ∷ [],
  e,
  (sg, gs, refl, there, s),
  rw e (
      All-append (SgOk (IsNode w'.heap) w'.heap) w.path_sgl (sg ∷ []) live
        ((orphan_sg gs, there, Singles-live w'.heap gs (d ∷ ds) s), tt)),
)

sg_lines-LiveSgs :
    (sgs : List Addr) (w : GroupMan)
    → LiveSgs w.heap sgs
    → (lines : List Line) × (sg_lines sgs w ≡ ok lines w)
unfolding sg_lines
sg_lines-LiveSgs [] w live = ([], refl)
sg_lines-LiveSgs (sg ∷ sgs) w ((s, e, groups), live) =
    let (lines, run) = sg_lines-LiveSgs sgs w live in
    (chlt_sg sg ∷ (map (chlt_ng sg) s.groups ++ lines), rw (load_sg-ok w sg e, run) refl)

pub populate_chooser_lines-LiveSgs :
    (w : GroupMan)
    → LiveSgs w.heap w.path_sgl
    → (lines : List Line) × (populate_chooser_lines w ≡ ok lines w)
unfolding populate_chooser_lines
populate_chooser_lines-LiveSgs w live =
    let (lines, run) = sg_lines-LiveSgs w.path_sgl w live in (chlt_gm ∷ lines, rw run refl)

-- the pointer leads to the node
abbrev pub LeadsTo : GroupMan → Addr → NodeDef → Type 0
LeadsTo w p d = (p ≢ null) × (w.nds p ≡ some d)

first_of_group :
    (w : GroupMan) (ps : List Addr) (d : NodeDef) (ds : List NodeDef)
    → ShowsNodes w.heap ps (d ∷ ds)
    → (p : Addr) × (front_or_null ps ≡ p) × LeadsTo w p d
first_of_group w [] d ds s = absurd s
first_of_group w (p ∷ ps) d ds (real, below, e, s) = (p, refl, (real, e))

first_in_sg_lem :
    (w : GroupMan) (gs : List Addr) (d : NodeDef) (ds : List NodeDef) (dss : List (List NodeDef))
    → ShowsGroups w.heap gs ((d ∷ ds) ∷ dss)
    → (p : Addr) × (first_in_sg gs w ≡ ok p w) × LeadsTo w p d
first_in_sg_lem w [] d ds dss s = absurd s
first_in_sg_lem w (g ∷ gs) d ds dss ((ps, below, e, nodes), s) =
    let (p, front, leads) = first_of_group w ps d ds nodes in
    (p, rw (load_ng-ok w g e, front) refl, leads)

first_in_path_lem :
    (w : GroupMan) (sgs : List Addr) (c : Content) (cs : List Content) (d : NodeDef)
    (ds : List NodeDef) (dss : List (List NodeDef))
    → c.groups ≡ (d ∷ ds) ∷ dss
    → Shows w.heap sgs (c ∷ cs)
    → (p : Addr) × (first_in_path sgs w ≡ ok p w) × LeadsTo w p d
first_in_path_lem w [] c cs d ds dss starts s = absurd s
first_in_path_lem w (sg ∷ sgs) c cs d ds dss starts ((cell, below, e, id, name, groups), s) =
    let (p, run, leads) =
      first_in_sg_lem w cell.groups d ds dss
        (subst (ShowsGroups w.heap cell.groups) starts groups) in
    (p, rw (load_sg-ok w sg e, run) refl, leads)

pub get_first_nd-LeadsTo :
    (w : GroupMan) (c : Content) (cs : List Content) (d : NodeDef) (ds : List NodeDef)
    (dss : List (List NodeDef))
    → c.groups ≡ (d ∷ ds) ∷ dss
    → Shows w.heap w.path_sgl (c ∷ cs)
    → (p : Addr) × (get_first_nd w ≡ ok p w) × LeadsTo w p d
unfolding get_first_nd
get_first_nd-LeadsTo w c cs d ds dss starts s =
    first_in_path_lem w w.path_sgl c cs d ds dss starts s

-- an address was used
pub Shows-used :
    (h : Heap) (sgs : List Addr) (c : Content) (cs : List Content)
    → Shows h sgs (c ∷ cs)
    → 0 < h.next
Shows-used h [] c cs s = absurd s
Shows-used h (sg ∷ sgs) c cs ((cell, below, e, id, name, groups), s) = omega (arith, below)
