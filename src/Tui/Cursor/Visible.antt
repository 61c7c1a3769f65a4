-- ===== src/Tui/Cursor/Visible.antt =====
-- The cursor stays on an item, and in view (tui/cursor.go).
use vibepit.Prelude.{
  ℕ, ◌+◌, ◌-◌, ◌≡◌, ◌≤◌, ◌<◌, refl, List, [], ◌∷◌, ltb, leb, if◌then◌else◌, arith, inl, inr,
  Bool-cases,
}
use vibepit.Tui.Cursor.{
  Cursor, Key, down, up, end_key, home, page_down, page_up, other_key, ensure_visible, move,
  handle_key, resize,
}

-- The highlighted position is that of an item, or 0 in an empty list, and lies in the viewport.
pub record IsInView (c : Cursor) : Type 0 where
  pub on_item : 0 < c.item_count → c.pos < c.item_count
  pub empty : c.item_count ≡ 0 → c.pos ≡ 0
  pub below : 0 < c.vp_height → c.offset ≤ c.pos
  pub above : 0 < c.vp_height → c.pos < c.offset + c.vp_height

-- An item, or 0 in an empty list.
abbrev pub IsPlace : ℕ → ℕ → Type 0
IsPlace count pos = (0 < count → pos < count) × (count ≡ 0 → pos ≡ 0)

pub ensure_visible-IsInView :
    (c : Cursor) → IsPlace c.item_count c.pos → IsInView (ensure_visible c)
unfolding ensure_visible
ensure_visible-IsInView c p = record {
  on_item = p.0;
  empty = p.1;
  below = λ h. ground (arith, h);
  above = λ h. ground (arith, h);
}

-- What the user does: a key, or a new height of the window.
pub data Input : Type 0 where
  presses : Key → Input
  resizes : ℕ → Input

unfoldable pub apply : Input → Cursor → Cursor
apply (presses k) c = (handle_key c k).0
apply (resizes h) c = resize c h

unfoldable pub apply_all : List Input → Cursor → Cursor
apply_all [] c = c
apply_all (i ∷ is) c = apply_all is (apply i c)

module _ (c : Cursor) (v : IsInView c) where
  move-IsInView : (pos : ℕ) → IsPlace c.item_count pos → IsInView (move c pos)
  move-IsInView pos p = ensure_visible-IsInView (record c { pos = pos }) p

  page_down-IsPlace :
      IsPlace c.item_count
        (if leb c.item_count (c.pos + c.vp_height) then c.item_count - 1 else c.pos + c.vp_height)
  page_down-IsPlace = (λ h. ground (arith, h), λ e. ground (arith, e))

  pub key-IsInView : (k : Key) → IsInView (handle_key c k).0
  unfolding handle_key
  key-IsInView down = elim (Bool-cases (ltb c.pos (c.item_count - 1))) [
    | inl e ↦ rw e (move-IsInView (c.pos + 1) (λ h. ground (arith, e), λ z. ground (arith, e, z)))
    | inr e ↦ rw e v
  ]
  key-IsInView up = elim (Bool-cases (ltb 0 c.pos)) [
    | inl e ↦
        rw e (
          move-IsInView (c.pos - 1)
            (λ h. omega (arith, v.on_item h), λ z. omega (arith, v.empty z)))
    | inr e ↦ rw e v
  ]
  key-IsInView end_key = elim (Bool-cases (ltb 0 c.item_count)) [
    | inl e ↦ rw e (move-IsInView (c.item_count - 1) (λ h. omega (arith, h), λ z. omega (arith, z)))
    | inr e ↦ rw e v
  ]
  key-IsInView home = move-IsInView 0 (λ h. h, λ z. refl)
  key-IsInView page_down = move-IsInView _ page_down-IsPlace
  key-IsInView page_up =
      move-IsInView (c.pos - c.vp_height)
        (λ h. omega (arith, v.on_item h), λ z. omega (arith, v.empty z))
  key-IsInView other_key = v

  pub apply-IsInView : (i : Input) → IsInView (apply i c)
  unfolding apply resize
  apply-IsInView (presses k) = key-IsInView k
  apply-IsInView (resizes h) =
      ensure_visible-IsInView (record c { vp_height = h }) (v.on_item, v.empty)

-- From a cursor in view, whatever keys are pressed and however the window is resized: the cursor
-- stands on an item, or on 0 in an empty list, and in the viewport unless that has no rows.
pub apply_all-IsInView : (is : List Input) (c : Cursor) → IsInView c → IsInView (apply_all is c)
unfolding apply_all
apply_all-IsInView [] c v = v
apply_all-IsInView (i ∷ is) c v = apply_all-IsInView is (apply i c) (apply-IsInView c v i)

-- a new list of items
abbrev pub new_cursor : ℕ → Cursor
new_cursor n = record { pos = 0; offset = 0; vp_height = 0; item_count = n }

pub new_cursor-IsInView : (n : ℕ) → IsInView (new_cursor n)
new_cursor-IsInView n = record {
  on_item = λ h. h;
  empty = λ z. refl;
  below = λ h. omega arith;
  above = λ h. absurd (omega (arith, h));
}
