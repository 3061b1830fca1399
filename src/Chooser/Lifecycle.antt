-- ===== src/Chooser/Lifecycle.antt =====
-- Runs of the plugin and closings of its panel, in any sequence (plugin.cpp).
use graph_slick.Base.{
  ◌≡◌, refl, sym, subst, Bool, true, false, Option, none, some, List, ◌++◌, Text,
}
use graph_slick.Heap.{GroupMan, Run, ok, fault, and_then}
use graph_slick.Python.Matcher.{
  matcher_of, Interpreter, PyBbMatcher, new_matcher, init, init_python,
}
use graph_slick.Python.Calls.{IsComplete, init_python-IsComplete}
use graph_slick.Chooser.{Chooser, ChooserCmd}
use graph_slick.Chooser.Files.{new_man}
use graph_slick.Chooser.Actions.{on_destroy}
use graph_slick.Chooser.Plugin.{
  on_show, Plugin, show, show_at, show_with, created, new_chooser, close_panel, closed,
  delete_singleton,
}

module _ {Obj : Type 0} (py : Interpreter Obj) (answers : List (Option Text))
    (choose3 : ChooserCmd (Unit {0})) where
  -- a sequence of runs and closings that do not fault
  pub data Steps : GroupMan → Plugin Obj → GroupMan → Plugin Obj → Type 0 where
    stop : {w : GroupMan} {p : Plugin Obj} → Steps w p w p
    ran :
        {w w1 w2 : GroupMan} {p p1 p2 : Plugin Obj} (b : Bool)
        → show py answers choose3 p w ≡ ok (b, p1) w1
        → Steps w1 p1 w2 p2
        → Steps w p w2 p2
    panel_closed :
        {w w1 w2 : GroupMan} {p p1 p2 : Plugin Obj}
        → close_panel p w ≡ ok p1 w1
        → Steps w1 p1 w2 p2
        → Steps w p w2 p2

  abbrev pub HasMatcher : Option (Chooser × PyBbMatcher Obj) → Type 0
  HasMatcher none = Unit
  HasMatcher (some (c, m)) = IsComplete m

  abbrev pub is_open : Option (Chooser × PyBbMatcher Obj) → Bool
  is_open none = false
  is_open (some _) = true

  -- of the outcome of a run: what is true of it, if it does not fault
  abbrev After : {A : Type 0} → (A → Type 0) → Run A → Type 0
  After P fault = Unit
  After P (ok a w) = P a

  abbrev IsShown : Bool × Plugin Obj → Type 0
  IsShown (b, p) = HasMatcher p.singleton × (b ≡ is_open p.singleton)

  show_with-IsShown :
      (c : Chooser) (m : PyBbMatcher Obj) (p : Plugin Obj) (w : GroupMan)
      → IsComplete m
      → After IsShown (show_with py answers choose3 (c, m) p w)
  show_with-IsShown c m p w complete = of_run (choose3 c w)
    where
      of_run :
          (r : Run (Unit {0} × Chooser))
          → After IsShown (
              and_then r (λ (_, c').
                ok (true, record p { singleton = some (c', m); shown = p.shown ++ on_show })))
      of_run fault = tt
      of_run (ok a w') = (complete, refl)

  created-IsShown :
      (r : Option Text × PyBbMatcher Obj) (p : Plugin Obj) (w : GroupMan)
      → ((m : PyBbMatcher Obj) → matcher_of py r ≡ some m → IsComplete m)
      → After IsShown (created py answers choose3 r p w)
  created-IsShown (some err, m) p w complete = (tt, refl)
  created-IsShown (none, m) p w complete =
      show_with-IsShown (new_chooser answers) m
        (record p { init_file_executed = m.init_file_executed }) (new_man w) (complete m refl)

  show-IsShown :
      (p : Plugin Obj) (w : GroupMan)
      → HasMatcher p.singleton
      → After IsShown (show py answers choose3 p w)
  unfolding show init_python
  show-IsShown p w h = at_singleton p.singleton h
    where
      at_singleton :
          (x : Option (Chooser × PyBbMatcher Obj))
          → HasMatcher x
          → After IsShown (show_at py answers choose3 x p w)
      at_singleton none h =
          created-IsShown (init py (new_matcher p.init_file_executed)) p w
            (λ m e. init_python-IsComplete py p.init_file_executed m e)
      at_singleton (some (c, m)) h = show_with-IsShown c m p w h

  close_panel_lem :
      (p : Plugin Obj) (w : GroupMan) → After (λ p'. p'.singleton ≡ none) (close_panel p w)
  unfolding close_panel delete_singleton
  close_panel_lem p w = at_singleton p.singleton refl
    where
      of_run :
          (r : Run (Unit {0} × Chooser))
          → After (λ p'. p'.singleton ≡ none) (and_then r (λ _. ok (delete_singleton false p)))
      of_run fault = tt
      of_run (ok a w') = refl

      at_singleton :
          (x : Option (Chooser × PyBbMatcher Obj))
          → p.singleton ≡ x
          → After (λ p'. p'.singleton ≡ none) (closed x p w)
      at_singleton none e = e
      at_singleton (some (c, m)) e = of_run (on_destroy c w)

  after_run :
      {A : Type 0} (P : A → Type 0) (r : Run A) (a : A) (w : GroupMan)
      → After P r
      → r ≡ ok a w
      → P a
  after_run P r a w h e = subst (After P) e h

  Steps-HasMatcher :
      (w w' : GroupMan) (p p' : Plugin Obj)
      → HasMatcher p.singleton
      → Steps w p w' p'
      → HasMatcher p'.singleton
  Steps-HasMatcher w _ p _ h stop = h
  Steps-HasMatcher w w' p p' h (ran {w1 = w1} {p1 = p1} b run more) =
      let shown =
        after_run IsShown (show py answers choose3 p w) (b, p1) w1 (show-IsShown p w h) run in
      Steps-HasMatcher w1 w' p1 p' shown.0 more
  Steps-HasMatcher w w' p p' h (panel_closed {w1 = w1} {p1 = p1} run more) =
      let gone =
        after_run (λ q. q.singleton ≡ none) (close_panel p w) p1 w1 (close_panel_lem p w) run in
      Steps-HasMatcher w1 w' p1 p' (subst HasMatcher (sym gone) tt) more

  -- From a plugin without a chooser, runs and closings of the panel in any sequence lead only to
  -- plugins whose chooser, if there is one, has a complete Python matcher. In these a run that does not
  -- fault returns true if and only if there is a chooser behind it, and closing the panel leaves none.
  pub Steps-lifecycle :
      (w w' : GroupMan) (p p' : Plugin Obj)
      → p.singleton ≡ none
      → Steps w p w' p'
      → HasMatcher p'.singleton
        × ((b : Bool) (q : Plugin Obj) (u : GroupMan)
            → show py answers choose3 p' w' ≡ ok (b, q) u
            → b ≡ is_open q.singleton)
        × ((q : Plugin Obj) (u : GroupMan) → close_panel p' w' ≡ ok q u → q.singleton ≡ none)
  Steps-lifecycle w w' p p' start steps =
      let h = Steps-HasMatcher w w' p p' (subst HasMatcher (sym start) tt) steps in
      (
        h,
        (λ b q u run.
            (after_run IsShown (show py answers choose3 p' w') (b, q) u (show-IsShown p' w' h)
              run).1),
        λ q u run.
            after_run (λ x. x.singleton ≡ none) (close_panel p' w') q u (close_panel_lem p' w') run,
      )
