-- ===== src/Ward/Bar.antt =====
-- ward/wrapper.go: the event loop that owns the bar, with the events of ward/bar.go and the answers
-- of ward/command.go. The rendered text of the bar is a function of its cache.
pub mod Lively
pub mod Generations
use vibepit.Prelude.{
  ℕ, suc, ◌+◌, ◌*◌, ◌-◌, ◌%◌, ◌^◌, ◌==◌, Bool, true, false, not, ◌&&◌, ◌||◌, Option, none, some,
  List, [], ◌∷◌, ◌++◌, Text, is_empty, length, leb, if◌then◌else◌, drop,
}

pub record KeyHint : Type 0 where
  pub key : ℕ
  pub desc : Text
  pub require_alert : Bool

-- A timeout of 0 stands for one that is not positive; times are nanoseconds.
pub record StatusUpdate : Type 0 where
  pub message : Text
  pub alert : Bool
  pub timeout : ℕ
  pub target : Text
  pub key_hints : List KeyHint

pub data BarMode : Type 0 where
  hidden status_mode alert_mode cleared command_mode : BarMode

pub data CommandState : Type 0 where
  command_none command_active command_pending : CommandState

pub record BarCache : Type 0 where
  pub mode : BarMode
  pub message : Text
  pub target : Text
  pub key_hints : List KeyHint

-- `dismiss` is the armed dismiss timer with its duration, `idle` the armed idle timer with the
-- generation that it cancels; a timer that is stopped or has fired is `none`. `was_armed` says that
-- there has been a dismiss timer, `cancellable` that the context of command mode is open.
pub record BarLoop : Type 0 where
  pub last_status : Text
  pub queue : List StatusUpdate
  pub active : Option StatusUpdate
  pub dismiss : Option ℕ
  pub was_armed : Bool
  pub started_at : ℕ
  pub cmd : CommandState
  pub gen : ℕ
  pub idle : Option ℕ
  pub cancellable : Bool
  pub saved : ℕ
  pub cache : BarCache

abbrev pub start : BarLoop
start = record {
  last_status = [];
  queue = [];
  active = none;
  dismiss = none;
  was_armed = false;
  started_at = 0;
  cmd = command_none;
  gen = 0;
  idle = none;
  cancellable = false;
  saved = 0;
  cache = record { mode = hidden; message = []; target = []; key_hints = [] };
}

abbrev pub second : ℕ
second = 1000000000

abbrev pub default_timeout : ℕ
default_timeout = 3 * second

abbrev pub max_alert_queue : ℕ
max_alert_queue = 64

abbrev pub timeout_of : StatusUpdate → ℕ
timeout_of su = if su.timeout == 0 then default_timeout else su.timeout

unfoldable pub show_alert : ℕ → StatusUpdate → BarLoop → BarLoop
show_alert now su b = record b {
  active = some su;
  started_at = now;
  cache = record { mode = alert_mode; message = su.message; target = []; key_hints = [] };
  dismiss = some (timeout_of su);
  was_armed = true;
}

abbrev pub cleared_cache : BarCache
cleared_cache = record { mode = cleared; message = []; target = []; key_hints = [] }

abbrev pub status_cache : Text → BarCache
status_cache msg = record { mode = status_mode; message = msg; target = []; key_hints = [] }

-- the next alert of the queue, or the status, or nothing
unfoldable pub show_next_of : ℕ → BarLoop → List StatusUpdate → BarLoop
show_next_of now b (next ∷ rest) = show_alert now next (record b { queue = rest })
show_next_of now b [] = record b {
  cache = if is_empty b.last_status then cleared_cache else status_cache b.last_status;
}

abbrev pub show_next : ℕ → BarLoop → BarLoop
show_next now b = show_next_of now b b.queue

abbrev pub target_of : Option StatusUpdate → Text
target_of none = []
target_of (some su) = su.target

abbrev pub hints_of : Option StatusUpdate → List KeyHint
hints_of none = []
hints_of (some su) = su.key_hints

unfoldable pub visible_of : Bool → List KeyHint → List ℕ
visible_of has_alert [] = []
visible_of has_alert (h ∷ hs) =
    let rest = visible_of has_alert hs in
    if h.require_alert && not has_alert then rest else h.key ∷ rest

-- `visibleKeys`
abbrev pub visible_keys : Option StatusUpdate → List ℕ
visible_keys a = visible_of (not (is_empty (target_of a))) (hints_of a)

unfoldable pub exit_command_mode : BarLoop → BarLoop
exit_command_mode b = record b { idle = none; cancellable = false; cmd = command_none }

-- `restoreAfterCommand`, by the active alert
unfoldable pub restore_of : ℕ → BarLoop → Option StatusUpdate → BarLoop
restore_of now b (some su) =
    let shown = show_alert now su b in
    record shown { dismiss = if b.saved == 0 then shown.dismiss else some b.saved }
restore_of now b none = show_next now b

-- What a callback gave: a message, which may be empty, or an error with its text.
pub data ActionResult : Type 0 where
  message_result error_result : Text → ActionResult

pub data Event : Type 0 where
  status_event : Text → Event
  alert_event : StatusUpdate → Event
  dismiss_event enter_command : Event
  begin_action cancel_command : ℕ → Event
  action_event : ℕ → ActionResult → Event

-- What the loop sends back: nothing, the acknowledgement of an action, or the answer to entering
-- command mode.
pub data Answer : Type 0 where
  silent : Answer
  ack : Bool → Answer
  response : Text → List ℕ → ℕ → Answer

abbrev pub is_none : CommandState → Bool
is_none command_none = true
is_none _ = false

abbrev pub is_active : CommandState → Bool
is_active command_active = true
is_active _ = false

abbrev pub is_pending : CommandState → Bool
is_pending command_pending = true
is_pending _ = false

abbrev pub is_idle : BarLoop → Bool
is_idle b = elim b.active [ none ↦ is_none b.cmd | some su ↦ false ]

abbrev pub make_room : List StatusUpdate → List StatusUpdate
make_room q = if leb max_alert_queue (length q) then drop 1 q else q

unfoldable pub on_status : Text → BarLoop → BarLoop
on_status msg b = record b {
  last_status = msg;
  cache = if is_idle b then status_cache msg else b.cache;
}

unfoldable pub on_alert : ℕ → StatusUpdate → BarLoop → BarLoop
on_alert now su b =
    if is_idle b then show_alert now su b else record b { queue = make_room b.queue ++ su ∷ [] }

-- the timer has fired
unfoldable pub on_dismiss : ℕ → BarLoop → BarLoop
on_dismiss now b =
    let fired = record b { dismiss = none } in
    if is_none b.cmd then show_next now (record fired { active = none }) else fired

abbrev pub remaining : ℕ → BarLoop → ℕ
remaining now b =
    elim b.active [ none ↦ default_timeout | some su ↦ timeout_of su ] - (now - b.started_at)

unfoldable pub on_enter : ℕ → BarLoop → BarLoop
on_enter now b =
    let gen = suc b.gen % 2 ^ 64 in
    record b {
      gen = gen;
      cmd = command_active;
      dismiss = none;
      saved = if b.was_armed then remaining now b else b.saved;
      idle = some gen;
      cancellable = true;
      cache = record {
        mode = command_mode;
        message = target_of b.active;
        target = target_of b.active;
        key_hints = hints_of b.active;
      };
    }

abbrev pub begins : ℕ → BarLoop → Bool
begins g b = is_active b.cmd && g == b.gen

unfoldable pub on_begin : ℕ → BarLoop → BarLoop
on_begin g b = if begins g b then record b { idle = none; cmd = command_pending } else b

unfoldable pub after_action : ℕ → BarLoop → ActionResult → BarLoop
after_action now b (error_result msg) =
    let failure : StatusUpdate = record {
      message = msg;
      alert = true;
      timeout = 2 * second;
      target = [];
      key_hints = [];
    } in
    record (show_alert now failure b) { active = none }
after_action now b (message_result []) = show_next now (record b { active = none })
after_action now b (message_result (c ∷ msg)) = record b {
  active = none;
  cache = status_cache (c ∷ msg);
  dismiss = some (2 * second);
  was_armed = true;
}

unfoldable pub on_action : ℕ → ℕ → ActionResult → BarLoop → BarLoop
on_action now g r b =
    if is_pending b.cmd && g == b.gen then after_action now (exit_command_mode b) r else b

unfoldable pub on_cancel : ℕ → ℕ → BarLoop → BarLoop
on_cancel now g b = if begins g b then restore_of now (exit_command_mode b) b.active else b

-- The loop's case of an event that comes at the time `now`.
unfoldable pub handle : ℕ → Event → BarLoop → BarLoop × Answer
handle now (status_event msg) b = (on_status msg b, silent)
handle now (alert_event su) b = (on_alert now su b, silent)
handle now dismiss_event b = (on_dismiss now b, silent)
handle now enter_command b =
    (on_enter now b, response (target_of b.active) (visible_keys b.active) (on_enter now b).gen)
handle now (begin_action g) b = (on_begin g b, ack (begins g b))
handle now (action_event g r) b = (on_action now g r b, silent)
handle now (cancel_command g) b = (on_cancel now g b, silent)

-- The events in the order of the channel, with their times.
unfoldable pub handle_all : List (ℕ × Event) → BarLoop → BarLoop
handle_all [] b = b
handle_all ((now, e) ∷ es) b = handle_all es (handle now e b).0
