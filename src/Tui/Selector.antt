-- ===== src/Tui/Selector.antt =====
-- sshd/selector.go: the screen that selects a session.
pub mod Picks
use vibepit.Prelude.{
  ℕ, suc, Bool, true, false, Option, none, some, List, [], ◌∷◌, length, get_elem?,
}
use vibepit.Tui.Cursor.{Cursor, Key, handle_key, resize}

-- A new session, or the one with the identifier at an index of the list.
pub data Choice (A : Type 0) : Type 0 where
  new_session : Choice A
  session : A → Choice A

pub record Selector (A : Type 0) : Type 0 where
  pub cursor : Cursor
  pub sessions : List A
  pub result : Option (Choice A)
  pub quits : Bool

pub data Message : Type 0 where
  quit_key new_key enter_key : Message
  other_message : Key → Message
  window_size : ℕ → Message

module _ {A : Type 0} where
  unfoldable pub new_selector : List A → Selector A
  new_selector sessions = record {
    cursor = record { pos = 0; offset = 0; vp_height = 0; item_count = suc (length sessions) };
    sessions = sessions;
    result = none;
    quits = false;
  }

  abbrev pub choose : Selector A → Choice A → Selector A
  choose s c = record s { result = some c; quits = true }

  -- `Update`
  unfoldable pub update : Selector A → Message → Selector A
  update s quit_key = record s { quits = true }
  update s new_key = choose s new_session
  update s enter_key =
      choose s
        (elim (get_elem? s.sessions s.cursor.pos) [ none ↦ new_session | some a ↦ session a ])
  update s (other_message k) = record s { cursor = (handle_key s.cursor k).0 }
  update s (window_size h) = record s { cursor = resize s.cursor h }
