-- ===== src/CopyMode/Tests.antt =====
-- The theorems at concrete screens and selections.
use dekit.Prelude.{◌≡◌, refl, true, ◌&&◌, List, [], ◌∷◌, arith}
use dekit.Prelude.Int.{pos, negsuc, cmp}
use dekit.CopyMode.{Pos, GridView, new, up, right, to_low_high, within, within_low_high}
use dekit.CopyMode.Selection.{reads_before, within_lem}
use dekit.CopyMode.Cursor.{
  Action, moves, begins, extends, scrolls_up, run, AreOnScreen, IsInside, run-IsInside,
}

abbrev screen : GridView
screen = record { width = 80; height = 24; max_scrollback = 3; scrollback = 0 }

abbrev test_actions : List Action
test_actions = extends 0 5 ∷ moves up ∷ begins ∷ scrolls_up 9 ∷ moves right ∷ []

on_screen : AreOnScreen (new screen) test_actions
unfolding AreOnScreen new
on_screen = ((omega arith, omega arith), (tt, (tt, (tt, (tt, tt)))))

run-IsInside_example : IsInside (run test_actions (new screen))
run-IsInside_example =
    run-IsInside screen test_actions (omega arith) (omega arith) (omega arith) (omega arith)
      (omega arith) (omega arith) on_screen

abbrev anchor : Pos
anchor = record { y = pos 4; x = pos 2 }

abbrev extent : Pos
extent = record { y = negsuc 1; x = pos 7 }

abbrev between : Pos
between = record { y = pos 0; x = pos 60 }

within_example : within anchor extent between ≡ true
unfolding within to_low_high within_low_high cmp
within_example = refl

within_lem_example :
    (within anchor extent between ≡ (
      reads_before (to_low_high anchor extent).0 between
      && reads_before between (to_low_high anchor extent).1))
    × (reads_before (to_low_high anchor extent).0 (to_low_high anchor extent).1 ≡ true)
    × (within extent anchor between ≡ within anchor extent between)
within_lem_example = within_lem anchor extent between
