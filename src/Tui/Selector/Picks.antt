-- ===== src/Tui/Selector/Picks.antt =====
-- What Enter picks (sshd/selector.go).
use vibepit.Prelude.{
  ℕ, zero, suc, ◌≡◌, ◌∙◌, ◌≤◌, ◌<◌, refl, Option, none, some, List, [], ◌∷◌, length, get_elem?,
  arith, ap,
}
use vibepit.Tui.Cursor.{
  Cursor, Key, down, up, end_key, home, page_down, page_up, other_key, handle_key, ensure_visible,
  resize,
}
use vibepit.Tui.Cursor.Visible.{
  IsInView, resizes, apply, new_cursor-IsInView, key-IsInView, apply-IsInView,
}
use vibepit.Tui.Selector.{
  Choice, new_session, session, Selector, Message, quit_key, new_key, enter_key, other_message,
  window_size, new_selector, update,
}

get_elem?-past : {A : Type 0} (xs : List A) (i : ℕ) → length xs ≤ i → get_elem? xs i ≡ none
get_elem?-past [] i h = refl
get_elem?-past (x ∷ xs) zero h = absurd (omega (arith, h))
get_elem?-past (x ∷ xs) (suc i) h = get_elem?-past xs i (omega (arith, h))

get_elem?-within :
    {A : Type 0} (xs : List A) (i : ℕ) → i < length xs → (a : A) × (get_elem? xs i ≡ some a)
get_elem?-within [] i h = absurd (omega (arith, h))
get_elem?-within (x ∷ xs) zero h = (x, refl)
get_elem?-within (x ∷ xs) (suc i) h = get_elem?-within xs i (omega (arith, h))

key-items : (c : Cursor) (k : Key) → (handle_key c k).0.item_count ≡ c.item_count
unfolding handle_key ensure_visible
key-items c down = ground arith
key-items c up = ground arith
key-items c end_key = ground arith
key-items c home = refl
key-items c page_down = refl
key-items c page_up = refl
key-items c other_key = refl

module _ {A : Type 0} where
  unfoldable pub update_all : List Message → Selector A → Selector A
  update_all [] s = s
  update_all (m ∷ ms) s = update_all ms (update s m)

  -- The sessions are those of the start, and the cursor of their number and one more is in view.
  record IsFor (sessions : List A) (s : Selector A) : Type 0 where
    same : s.sessions ≡ sessions
    items : s.cursor.item_count ≡ suc (length sessions)
    in_view : IsInView s.cursor

  update-IsFor :
      (sessions : List A) (s : Selector A) (m : Message)
      → IsFor sessions s
      → IsFor sessions (update s m)
  unfolding update
  update-IsFor sessions s quit_key v = record {
    same = v.same;
    items = v.items;
    in_view = v.in_view;
  }
  update-IsFor sessions s new_key v = record { same = v.same; items = v.items; in_view = v.in_view }
  update-IsFor sessions s enter_key v = record {
    same = v.same;
    items = v.items;
    in_view = v.in_view;
  }
  update-IsFor sessions s (other_message k) v = record {
    same = v.same;
    items = key-items s.cursor k ∙ v.items;
    in_view = key-IsInView s.cursor v.in_view k;
  }
  update-IsFor sessions s (window_size h) v = record {
    same = v.same;
    items = unfold resize in unfold ensure_visible in v.items;
    in_view = unfold apply in apply-IsInView s.cursor v.in_view (resizes h);
  }

  update_all-IsFor :
      (sessions : List A) (ms : List Message) (s : Selector A)
      → IsFor sessions s
      → IsFor sessions (update_all ms s)
  unfolding update_all
  update_all-IsFor sessions [] s v = v
  update_all-IsFor sessions (m ∷ ms) s v =
      update_all-IsFor sessions ms (update s m) (update-IsFor sessions s m v)

  new-IsFor : (sessions : List A) → IsFor sessions (new_selector sessions)
  unfolding new_selector
  new-IsFor sessions = record {
    same = refl;
    items = refl;
    in_view = new_cursor-IsInView (suc (length sessions));
  }

  enter_on :
      (s : Selector A) (o : Option A)
      → get_elem? s.sessions s.cursor.pos ≡ o
      → (update s enter_key).result ≡ some (elim o [ none ↦ new_session | some a ↦ session a ])
  unfolding update
  enter_on s o e =
      ap
        (λ (x : Option A).
          some (elim x as (λ y. Choice A) [ none ↦ new_session | some a ↦ session a ]))
        e

  -- After any keys and resizes, Enter picks the session that is highlighted, or a new session exactly
  -- on the line after the last one; the cursor is never past that line.
  pub enter-picks :
      (sessions : List A) (ms : List Message)
      → let s = update_all ms (new_selector sessions) in
        (s.cursor.pos ≤ length sessions)
        × (s.cursor.pos < length sessions
            → (a : A) × (get_elem? sessions s.cursor.pos ≡ some a)
              × ((update s enter_key).result ≡ some (session a)))
        × (s.cursor.pos ≡ length sessions → (update s enter_key).result ≡ some new_session)
  enter-picks sessions ms =
      let s = update_all ms (new_selector sessions) in
      let v = update_all-IsFor sessions ms (new_selector sessions) (new-IsFor sessions) in
      let on = v.in_view.on_item (omega (arith, v.items)) in
      let at : get_elem? s.sessions s.cursor.pos ≡ get_elem? sessions s.cursor.pos =
        ap (λ l. get_elem? l s.cursor.pos) v.same in
      (
        omega (arith, on, v.items),
        λ h.
            let (a, found) = get_elem?-within sessions s.cursor.pos h in
            (a, found, enter_on s (some a) (at ∙ found)),
        λ e. enter_on s none (at ∙ get_elem?-past sessions s.cursor.pos (omega (arith, e))),
      )
