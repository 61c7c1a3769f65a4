-- ===== src/Tui/Cursor.antt =====
-- tui/cursor.go: the cursor of a scrollable list. No field is negative: the code stops at 0 where the
-- subtraction here does.
pub mod Visible
use vibepit.Prelude.{ℕ, ◌+◌, ◌-◌, Bool, true, false, ◌&&◌, ◌==◌, ltb, leb, if◌then◌else◌}

pub record Cursor : Type 0 where
  pub pos : ℕ
  pub offset : ℕ
  pub vp_height : ℕ
  pub item_count : ℕ

-- The keys that the cursor tells apart, by their names in `HandleKey`.
pub data Key : Type 0 where
  down up end_key home page_down page_up other_key : Key

unfoldable pub at_end : Cursor → Bool
at_end c = ltb 0 c.item_count && c.pos == c.item_count - 1

unfoldable pub ensure_visible : Cursor → Cursor
ensure_visible c =
    let offset = if ltb c.pos c.offset then c.pos else c.offset in
    record c {
      offset = if leb (offset + c.vp_height) c.pos then c.pos - c.vp_height + 1 else offset;
    }

-- `EnsureVisible` after a move of the cursor
abbrev pub move : Cursor → ℕ → Cursor
move c pos = ensure_visible (record c { pos = pos })

-- `HandleKey`, with whether the key was handled
unfoldable pub handle_key : Cursor → Key → Cursor × Bool
handle_key c down = (if ltb c.pos (c.item_count - 1) then move c (c.pos + 1) else c, true)
handle_key c up = (if ltb 0 c.pos then move c (c.pos - 1) else c, true)
handle_key c end_key = (if ltb 0 c.item_count then move c (c.item_count - 1) else c, true)
handle_key c home = (move c 0, true)
handle_key c page_down =
    let pos = c.pos + c.vp_height in
    (move c (if leb c.item_count pos then c.item_count - 1 else pos), true)
handle_key c page_up = (move c (c.pos - c.vp_height), true)
handle_key c other_key = (c, false)

-- a new height of the viewport, as the screens set it
unfoldable pub resize : Cursor → ℕ → Cursor
resize c height = ensure_visible (record c { vp_height = height })
