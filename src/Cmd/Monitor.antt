-- ===== src/Cmd/Monitor.antt =====
-- cmd/monitor_ui.go: the screen that follows the log of the proxy.
pub mod Feed
pub mod Follows
pub mod Following
pub mod Grace
pub mod Offers
use vibepit.Prelude.{
  ℕ, zero, suc, ◌+◌, ◌-◌, Bool, true, false, not, ◌&&◌, ◌||◌, Option, none, some, List, [], ◌∷◌,
  ◌++◌, map, Text, codes, Result, ok, err, length, get_elem?, set, ltb, leb, ◌==◌, if◌then◌else◌,
  is_empty,
}
use vibepit.Proxy.LogBuffer.{Action, allow, block, Source, proxy, dns, LogEntry}
use vibepit.Tui.Cursor.{Cursor, Key, at_end, ensure_visible, move, handle_key, resize}

-- `allowStatus`
pub data AllowStatus : Type 0 where
  status_none status_temp status_saved : AllowStatus

pub record LogItem : Type 0 where
  pub entry : LogEntry
  pub status : AllowStatus

-- `has_back` and `has_client` tell whether onBack and client are set; `disconnect` is disconnectTick,
-- with `none` for -1.
pub record Monitor : Type 0 where
  pub has_back : Bool
  pub has_client : Bool
  pub cursor : Cursor
  pub poll_cursor : ℕ
  pub poll_in_flight : Bool
  pub items : List LogItem
  pub new_count : ℕ
  pub first_tick_seen : Bool
  pub disconnect : Option ℕ

unfoldable pub new_monitor : Bool → Bool → Monitor
new_monitor has_back has_client = record {
  has_back = has_back;
  has_client = has_client;
  cursor = record { pos = 0; offset = 0; vp_height = 0; item_count = 0 };
  poll_cursor = 0;
  poll_in_flight = false;
  items = [];
  new_count = 0;
  first_tick_seen = false;
  disconnect = none;
}

-- The messages of `Update`: the keys a and A (with `save`), esc, q and the others, the new height of
-- the window, the results of the two asynchronous commands, and a tick with whether the interval of
-- the polls has elapsed.
pub data Message : Type 0 where
  allow_key : Bool → Message
  esc_key quit_key : Message
  other_message : Key → Message
  window_size : ℕ → Message
  allow_result : ℕ → Result Text AllowStatus → Message
  logs_result : Result Text (List LogEntry) → Message
  tick : Bool → Message

-- What `Update` returns: a command to run, the end of the program, or the screen before this one.
pub data Command : Type 0 where
  poll_logs : ℕ → Command
  allow_entry : ℕ → LogEntry → Bool → Command
  quit go_back : Command

-- What is set in the window.
pub data Note : Type 0 where
  flash_already disconnected clear_error : Note
  flash_allowed flash_saved show_error : Text → Note

pub record Reply : Type 0 where
  pub monitor : Monitor
  pub command : Option Command
  pub notes : List Note

abbrev pub stay : Monitor → Reply
stay m = record { monitor = m; command = none; notes = [] }

abbrev pub runs : Monitor → Command → Reply
runs m c = record { monitor = m; command = some c; notes = [] }

abbrev pub tells : Monitor → Note → Reply
tells m n = record { monitor = m; command = none; notes = n ∷ [] }

-- 3 seconds in ticks of 250 milliseconds
abbrev pub disconnect_grace_ticks : ℕ
disconnect_grace_ticks = 12

unfoldable pub is_block : Action → Bool
is_block allow = false
is_block block = true

unfoldable pub is_status_none : AllowStatus → Bool
is_status_none status_none = true
is_status_none status_temp = false
is_status_none status_saved = false

-- `allowValueForEntry`
unfoldable pub allow_value : LogEntry → Text
allow_value e = elim e.source [
  | proxy ↦ if is_empty e.port then e.domain else e.domain ++ codes ":" ++ e.port
  | dns ↦ e.domain
]

unfoldable pub can_allow : LogItem → Bool
can_allow i = is_block i.entry.action && is_status_none i.status

unfoldable pub on_allow_key : Monitor → Bool → Option LogItem → Reply
on_allow_key m save none = stay m
on_allow_key m save (some i) =
    if can_allow i then runs m (allow_entry m.cursor.pos i.entry save) else tells m flash_already

unfoldable pub on_key : Monitor → Key → Monitor
on_key m k =
    let cursor = (handle_key m.cursor k).0 in
    record m {
      cursor = cursor;
      new_count =
          if (handle_key m.cursor k).1 && not (at_end m.cursor) && at_end cursor
          then 0
          else m.new_count;
    }

unfoldable pub on_size : Monitor → ℕ → Monitor
on_size m height = record m {
  cursor = resize m.cursor height;
  new_count = if leb (length m.items) (m.cursor.offset + height) then 0 else m.new_count;
}

unfoldable pub status_note : AllowStatus → Text → List Note
status_note status_none domain = []
status_note status_temp domain = flash_allowed domain ∷ []
status_note status_saved domain = flash_saved domain ∷ []

unfoldable pub on_allowed : Monitor → ℕ → AllowStatus → Option LogItem → Reply
on_allowed m i status none = stay m
on_allowed m i status (some item) = record {
  monitor = record m { items = set m.items i (record item { status = status }) };
  command = none;
  notes = status_note status item.entry.domain;
}

-- the ID of the last entry that is received
unfoldable pub last_id : ℕ → List LogEntry → ℕ
last_id id [] = id
last_id id (e ∷ es) = last_id e.id es

abbrev pub new_item : LogEntry → LogItem
new_item e = record { entry = e; status = status_none }

unfoldable pub was_at_end : Monitor → Bool
was_at_end m = is_empty m.items || at_end m.cursor

-- the new entries of a poll
unfoldable pub receive : Monitor → List LogEntry → Monitor
receive m entries =
    let items = m.items ++ map new_item entries in
    let counted = record (m.cursor) { item_count = length items } in
    let tails = was_at_end m && ltb 0 (length items) in
    record m {
      poll_in_flight = false;
      disconnect = none;
      items = items;
      poll_cursor = last_id m.poll_cursor entries;
      cursor = if tails then move counted (length items - 1) else counted;
      new_count =
          if tails
          then 0
          else if not (was_at_end m)
              && ltb 0 (length entries)
              && ltb (m.cursor.offset + m.cursor.vp_height) (length items)
          then m.new_count + length entries
          else m.new_count;
    }

unfoldable pub disconnect_start : Option ℕ → Option ℕ
disconnect_start none = some 0
disconnect_start (some n) = some n

unfoldable pub poll_failed : Monitor → Text → Reply
poll_failed m e =
    if m.has_back
    then tells (record m { poll_in_flight = false; disconnect = disconnect_start m.disconnect })
        disconnected
    else tells (record m { poll_in_flight = false }) (show_error e)

-- a tick while the session is not known to be gone
unfoldable pub tick_connected : Monitor → Bool → Reply
tick_connected m elapsed =
    let seen = record m { first_tick_seen = true } in
    if (elapsed || not m.first_tick_seen) && not m.poll_in_flight
    then if m.has_client
      then runs (record seen { poll_in_flight = true }) (poll_logs m.poll_cursor)
      else stay seen
    else stay seen

unfoldable pub tick_at : Monitor → Bool → Option ℕ → Reply
tick_at m elapsed none = tick_connected m elapsed
tick_at m elapsed (some n) =
    if m.has_back
    then if leb disconnect_grace_ticks (suc n)
      then runs (record m { disconnect = some (suc n) }) go_back
      else stay (record m { disconnect = some (suc n); first_tick_seen = true })
    else tick_connected m elapsed

-- `Update`
unfoldable pub update : Monitor → Message → Reply
update m (allow_key save) = on_allow_key m save (get_elem? m.items m.cursor.pos)
update m esc_key = if m.has_back then runs m go_back else stay m
update m quit_key = runs m quit
update m (other_message k) = stay (on_key m k)
update m (window_size h) = stay (on_size m h)
update m (allow_result i (err e)) = tells m (show_error e)
update m (allow_result i (ok status)) = on_allowed m i status (get_elem? m.items i)
update m (logs_result (err e)) = poll_failed m e
update m (logs_result (ok entries)) = tells (receive m entries) clear_error
update m (tick elapsed) = tick_at m elapsed m.disconnect

-- `allowCmd`: the command asks the control API for the entry, by its source, and then saves it;
-- `control` and `append` give the error of each
unfoldable pub allow_cmd :
    (Source → List Text → Option Text)
    → (Source → List Text → Option Text)
    → ℕ
    → LogEntry
    → Bool
    → Message
allow_cmd control append i e save =
    let values = allow_value e ∷ [] in
    elim (control e.source values) [
      | some problem ↦ allow_result i (err problem)
      | none ↦
          if save
          then elim (append e.source values) [
            | some problem ↦ allow_result i (err problem)
            | none ↦ allow_result i (ok status_saved)
          ]
          else allow_result i (ok status_temp)
    ]

-- The keys of `FooterKeys` for the item under the cursor.
pub data ItemKey : Type 0 where
  offers_allow offers_allow_save offers_save : ItemKey

unfoldable pub item_keys_of : LogItem → List ItemKey
item_keys_of i =
    if can_allow i
    then offers_allow ∷ offers_allow_save ∷ []
    else elim i.status [ status_temp ↦ offers_save ∷ [] | status_none ↦ [] | status_saved ↦ [] ]

unfoldable pub item_keys : Monitor → List ItemKey
item_keys m = elim (get_elem? m.items m.cursor.pos) [ none ↦ [] | some i ↦ item_keys_of i ]
