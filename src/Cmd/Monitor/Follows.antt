-- ===== src/Cmd/Monitor/Follows.antt =====
-- The screen, its polls in flight and the log of the proxy, step by step (cmd/monitor_ui.go).
use vibepit.Prelude.{
  ℕ, zero, suc, ◌-◌, ◌≡◌, ◌≤◌, refl, ap, sym, subst, ◌∙◌, Bool, true, false, ◌&&◌, some, List, [],
  ◌∷◌, ◌++◌, map, length, get_elem?, set, All, All-append, length-append, length-set, ltb,
  if◌then◌else◌, is_empty, arith, Bool-cases, inl, inr,
}
use vibepit.Proxy.LogBuffer.{LogEntry}
use vibepit.Tui.Cursor.{
  Cursor, Key, handle_key, ensure_visible, move, resize, down, up, end_key, home, page_down,
  page_up, other_key,
}
use vibepit.Tui.Cursor.Visible.{IsInView, key-IsInView, ensure_visible-IsInView}
use vibepit.Cmd.Monitor.{
  LogItem, AllowStatus, Monitor, new_item, on_key, on_size, last_id, receive, was_at_end,
}
use vibepit.Cmd.Monitor.Feed.{Ascends, Ascends-append, IsLogged, Feeds}

abbrev pub shown : List LogItem → List LogEntry
shown items = map (λ i. i.entry) items

-- The screen shows entries of the log, each at most once and in the order of the log, up to the one
-- where the next poll goes on; and the cursor is on one of them, in view.
pub record Shows (log : List LogEntry) (items : List LogItem) (poll_cursor : ℕ) (cursor : Cursor)
    : Type 0 where
  pub ascends : Ascends 0 (shown items) poll_cursor
  pub bound : poll_cursor ≤ length log
  pub logged : All (IsLogged log) (shown items)
  pub counted : cursor.item_count ≡ length items
  pub view : IsInView cursor

abbrev pub IsFollowing : List LogEntry → Monitor → Type 0
IsFollowing log m = Shows log m.items m.poll_cursor m.cursor

key-item_count : (c : Cursor) (k : Key) → (handle_key c k).0.item_count ≡ c.item_count
unfolding handle_key ensure_visible
key-item_count c down = ground arith
key-item_count c up = ground arith
key-item_count c end_key = ground arith
key-item_count c home = refl
key-item_count c page_down = refl
key-item_count c page_up = refl
key-item_count c other_key = refl

shown-set :
    (items : List LogItem) (n : ℕ) (i j : LogItem)
    → get_elem? items n ≡ some i
    → j.entry ≡ i.entry
    → shown (set items n j) ≡ shown items
shown-set [] n i j h e = refl
shown-set (x ∷ items) zero i j h e =
    let same : x ≡ i = cc in ap (λ u. u ∷ shown items) (e ∙ ap (λ k. k.entry) (sym same))
shown-set (x ∷ items) (suc n) i j h e = ap (λ u. x.entry ∷ u) (shown-set items n i j h e)

shown-append :
    (items : List LogItem) (es : List LogEntry)
    → shown (items ++ map new_item es) ≡ shown items ++ es
shown-append [] [] = refl
shown-append [] (e ∷ es) = ap (λ u. e ∷ u) (shown-append [] es)
shown-append (i ∷ items) es = ap (λ u. i.entry ∷ u) (shown-append items es)

-- the cursor after the entries of a poll, with whether it is to follow the last of them
abbrev received : Bool → Cursor → ℕ → Cursor
received tails c n =
    if tails then move (record c { item_count = n }) (n - 1) else record c { item_count = n }

received_count : (tails : Bool) (c : Cursor) (n : ℕ) → (received tails c n).item_count ≡ n
unfolding ensure_visible
received_count true c n = refl
received_count false c n = refl

received_cursor :
    (c : Cursor) (n : ℕ) (ended : Bool)
    → IsInView c
    → c.item_count ≤ n
    → (c.item_count ≡ 0 → ended ≡ true)
    → IsInView (received (ended && ltb 0 n) c n)
received_cursor c n ended v grows empty = elim (Bool-cases (ended && ltb 0 n)) [
  | inl t ↦ rw t (
      ensure_visible-IsInView (record c { item_count = n; pos = n - 1 })
        (λ h. omega (arith, h), λ z. omega (arith, z)))
  | inr t ↦ rw t (record {
    on_item = λ h. ground (arith, t, v.on_item, empty, grows, h);
    empty = λ z. v.empty (omega (arith, z, grows));
    below = v.below;
    above = v.above;
  })
]

is_empty_zero : (items : List LogItem) → length items ≡ 0 → is_empty items ≡ true
unfolding is_empty
is_empty_zero [] z = refl
is_empty_zero (i ∷ items) z = absurd (omega (arith, z))

was_at_end_empty : (m : Monitor) → length m.items ≡ 0 → was_at_end m ≡ true
unfolding was_at_end
was_at_end_empty m z = rw (is_empty_zero m.items z) refl

module _ (log : List LogEntry) where
  pub on_key-IsFollowing :
      (m : Monitor) (k : Key) → IsFollowing log m → IsFollowing log (on_key m k)
  unfolding on_key
  on_key-IsFollowing m k f = record {
    ascends = f.ascends;
    bound = f.bound;
    logged = f.logged;
    counted = key-item_count m.cursor k ∙ f.counted;
    view = key-IsInView m.cursor f.view k;
  }

  pub on_size-IsFollowing :
      (m : Monitor) (h : ℕ) → IsFollowing log m → IsFollowing log (on_size m h)
  unfolding on_size resize ensure_visible
  on_size-IsFollowing m h f =
      let v = f.view in
      record {
        ascends = f.ascends;
        bound = f.bound;
        logged = f.logged;
        counted = f.counted;
        view = ensure_visible-IsInView (record (m.cursor) { vp_height = h }) (v.on_item, v.empty);
      }

  pub receive-IsFollowing :
      (m : Monitor) (new : List LogEntry)
      → IsFollowing log m
      → Feeds log m.poll_cursor new
      → IsFollowing log (receive m new)
  unfolding receive
  receive-IsFollowing m new f g =
      let items = m.items ++ map new_item new in
      record {
        ascends =
            subst (λ u. Ascends 0 u (last_id m.poll_cursor new)) (sym (shown-append m.items new))
              (Ascends-append 0 m.poll_cursor (last_id m.poll_cursor new) (shown m.items) new
                f.ascends g.ascends);
        bound = g.bound;
        logged =
            subst (All (IsLogged log)) (sym (shown-append m.items new))
              (All-append (IsLogged log) (shown m.items) new f.logged g.logged);
        counted = received_count (was_at_end m && ltb 0 (length items)) m.cursor (length items);
        view =
            received_cursor m.cursor (length items) (was_at_end m) f.view
              (omega (arith, f.counted, length-append m.items (map new_item new)))
              (λ z. was_at_end_empty m (omega (arith, z, f.counted)));
      }

  pub on_allowed-IsFollowing :
      (m : Monitor) (n : ℕ) (status : AllowStatus) (i : LogItem)
      → get_elem? m.items n ≡ some i
      → IsFollowing log m
      → IsFollowing log (record m { items = set m.items n (record i { status = status }) })
  on_allowed-IsFollowing m n status i e f =
      let same = shown-set m.items n i (record i { status = status }) e refl in
      record {
        ascends = subst (λ u. Ascends 0 u m.poll_cursor) (sym same) f.ascends;
        bound = f.bound;
        logged = subst (All (IsLogged log)) (sym same) f.logged;
        counted = f.counted ∙ sym (length-set m.items n (record i { status = status }));
        view = f.view;
      }
