-- ===== src/Samples/Tui.antt =====
-- Runs of the cursor and of the session selector (the packages tui and sshd).
use vibepit.Prelude.{ℕ, ◌≡◌, refl, List, [], ◌∷◌}
use vibepit.Tui.Cursor.{down, end_key, page_up, handle_key, ensure_visible, resize}
use vibepit.Tui.Cursor.Visible.{Input, presses, resizes, apply, apply_all, new_cursor}
use vibepit.Tui.Selector.{Message, other_message, window_size}

abbrev inputs : List Input
inputs = resizes 3 ∷ presses end_key ∷ presses page_up ∷ presses down ∷ []

moved :
    apply_all inputs (new_cursor 10)
    ≡ record { pos = 7; offset = 6; vp_height = 3; item_count = 10 }
unfolding apply apply_all handle_key resize ensure_visible
moved = refl

abbrev sessions : List ℕ
sessions = 11 ∷ 12 ∷ []

abbrev messages : List Message
messages = window_size 5 ∷ other_message down ∷ []
