-- ===== src/Viewer/Terminal.antt =====
-- `class Terminal`: the escape sequences that it prints and the flag that it keeps.
use phantomfpga_project.Base.{
  Bool, true, false, not, ◌≡◌, refl, ◌∙◌, List, [], ◌∷◌, ◌++◌, if◌then◌else◌,
}

-- "\033[2J\033[H", "\033[?25l", "\033[?25h", "\033[H", and a newline.
pub data Output : Type 0 where
  clear hide show home newline : Output

pub record Terminal : Type 0 where
  pub cursor_hidden : Bool

abbrev pub new_terminal : Terminal
new_terminal = record { cursor_hidden = false }

abbrev pub clear_screen : Terminal → Terminal × List Output
clear_screen t = (t, clear ∷ [])

abbrev pub hide_cursor : Terminal → Terminal × List Output
hide_cursor t = (record t { cursor_hidden = true }, hide ∷ [])

abbrev pub show_cursor : Terminal → Terminal × List Output
show_cursor t = (record t { cursor_hidden = false }, show ∷ [])

abbrev pub cursor_home : Terminal → Terminal × List Output
cursor_home t = (t, home ∷ [])

-- The destructor.
abbrev pub destroy : Terminal → List Output
destroy t = if t.cursor_hidden then (show_cursor t).1 else []

-- A call by the derived class.
pub data Use : Type 0 where
  clears hides shows homes : Use

abbrev pub do_use : Use → Terminal → Terminal × List Output
do_use clears t = clear_screen t
do_use hides t = hide_cursor t
do_use shows t = show_cursor t
do_use homes t = cursor_home t

abbrev pub do_uses : List Use → Terminal → Terminal × List Output
do_uses [] t = (t, [])
do_uses (u ∷ us) t =
    let (t', first) = do_use u t in let (t'', rest) = do_uses us t' in (t'', first ++ rest)

-- Whether the screen shows its cursor after the output.
abbrev pub visible : Bool → List Output → Bool
visible shown [] = shown
visible shown (hide ∷ os) = visible false os
visible shown (show ∷ os) = visible true os
visible shown (clear ∷ os) = visible shown os
visible shown (home ∷ os) = visible shown os
visible shown (newline ∷ os) = visible shown os

pub visible-append :
    (shown : Bool) (os ps : List Output) → visible shown (os ++ ps) ≡ visible (visible shown os) ps
visible-append shown [] ps = refl
visible-append shown (hide ∷ os) ps = visible-append false os ps
visible-append shown (show ∷ os) ps = visible-append true os ps
visible-append shown (clear ∷ os) ps = visible-append shown os ps
visible-append shown (home ∷ os) ps = visible-append shown os ps
visible-append shown (newline ∷ os) ps = visible-append shown os ps

-- The flag says what the screen shows.
do_use-visible :
    (u : Use) (t : Terminal)
    → visible (not t.cursor_hidden) (do_use u t).1 ≡ not (do_use u t).0.cursor_hidden
do_use-visible clears t = refl
do_use-visible hides t = refl
do_use-visible shows t = refl
do_use-visible homes t = refl

pub do_uses-visible :
    (us : List Use) (t : Terminal)
    → visible (not t.cursor_hidden) (do_uses us t).1 ≡ not (do_uses us t).0.cursor_hidden
do_uses-visible [] t = refl
do_uses-visible (u ∷ us) t =
    let (t', first) = do_use u t in
    visible-append (not t.cursor_hidden) first (do_uses us t').1
    ∙ rw (do_use-visible u t) (do_uses-visible us t')

-- The destructor shows a hidden cursor.
pub destroy-visible : (t : Terminal) → visible (not t.cursor_hidden) (destroy t) ≡ true
destroy-visible t = destroy_if t.cursor_hidden
  where
    destroy_if : (hidden : Bool) → visible (not hidden) (if hidden then show ∷ [] else []) ≡ true
    destroy_if true = refl
    destroy_if false = refl
