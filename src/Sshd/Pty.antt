-- ===== src/Sshd/Pty.antt =====
-- sshd/server.go: the handlers of the sessions with and without a terminal.
pub mod Finish
pub mod Exec
use vibepit.Prelude.{
  ℕ, zero, suc, ◌+◌, ◌-◌, ◌%◌, ◌^◌, Bool, true, false, not, ◌&&◌, ◌||◌, Option, none, some, List,
  [], ◌∷◌, ◌++◌, map, Text, codes, Result, ok, err, ltb, leb, ◌==◌, ℤ, pos, negsuc, if◌then◌else◌,
  is_empty, length,
}
use vibepit.Prelude.Lines.{has_prefix}
use vibepit.Tui.Selector.{Choice, new_session, session}
use vibepit.Session.Client.{
  DetachReason, detach_none, detach_disconnect, detach_keepalive, detach_slow_consumer, label,
}

abbrev pub default_pty_cols : ℕ
default_pty_cols = 80

abbrev pub default_pty_rows : ℕ
default_pty_rows = 24

abbrev pub max_pty_cols : ℕ
max_pty_cols = 2048

abbrev pub max_pty_rows : ℕ
max_pty_rows = 2048

pub record PtySize : Type 0 where
  pub cols : ℕ
  pub rows : ℕ

-- `clampDim`, for a size that is not negative; the conversion to uint16 wraps around
unfoldable pub clamp_dim : ℕ → ℕ → ℕ → ℕ
clamp_dim v dflt limit = if v == 0 then dflt else if ltb limit v then limit else v % 2 ^ 16

unfoldable pub clamp_pty_size : ℕ → ℕ → PtySize
clamp_pty_size cols rows = record {
  cols = clamp_dim cols default_pty_cols max_pty_cols;
  rows = clamp_dim rows default_pty_rows max_pty_rows;
}

abbrev pub disconnect_exit_code : ℕ
disconnect_exit_code = 255

unfoldable pub detach_exit_code : DetachReason → ℕ
detach_exit_code detach_none = 0
detach_exit_code detach_disconnect = disconnect_exit_code
detach_exit_code detach_keepalive = disconnect_exit_code
detach_exit_code detach_slow_consumer = disconnect_exit_code

-- `Contains` of a variable in an environment
unfoldable pub has_variable : Text → List Text → Bool
has_variable name [] = false
has_variable name (v ∷ vs) = if has_prefix v (name ++ codes "=") then true else has_variable name vs

-- the environment of a session with a terminal; `colorterm` is the variable of the server
unfoldable pub pty_env : List Text → Text → Text → List Text
pty_env env term colorterm =
    let with_term = env ++ (codes "TERM=" ++ term) ∷ [] in
    if has_variable (codes "COLORTERM") with_term || is_empty colorterm
    then with_term
    else with_term ++ (codes "COLORTERM=" ++ colorterm) ∷ []

-- What a handler does: the count of the connections, messages to stderr and to the log, the client of
-- a session of type `A`, its close, the run of a command, and the exit status.
pub data Action (A : Type 0) : Type 0 where
  conn_up conn_down close_client : Action A
  says logs runs : Text → Action A
  attaches : A → PtySize → Action A
  exits : ℕ → Action A

-- `Create` and `Get` of the manager, the selector, which is run on the detached sessions and gives
-- `none` if the user quits, and the reason why the output of the client of a session ends
module _ {A : Type 0} (create : PtySize → List Text → Result Text A) (get : Text → Option A)
    (select : List Text → Result Text (Option (Choice Text))) (reason_of : A → DetachReason) where
  -- `finishPTY`, with whether it was run before and whether there is a client
  unfoldable pub finish_pty : Bool → Bool → ℕ → List (Action A)
  finish_pty true client code = []
  finish_pty false client code =
      conn_down ∷ (if client then close_client ∷ [] else []) ++ exits code ∷ []

  unfoldable pub fail_pty : Text → List (Action A)
  fail_pty message = says message ∷ finish_pty false false 1

  -- from `Attach` on
  unfoldable pub attach_pty : PtySize → A → List (Action A)
  attach_pty size a =
      let text = label (reason_of a) in
      attaches a size ∷ (if is_empty text then [] else logs text ∷ [])
      ++ finish_pty false true (detach_exit_code (reason_of a))

  unfoldable pub create_pty : PtySize → List Text → List (Action A)
  create_pty size env = elim (create size env) [
    | err e ↦ fail_pty (codes "create session: " ++ e ++ codes "\n")
    | ok a ↦ attach_pty size a
  ]

  unfoldable pub open_pty : PtySize → Text → List (Action A)
  open_pty size id = elim (get id) [
    | none ↦ fail_pty (codes "session " ++ id ++ codes " not found\n")
    | some a ↦ attach_pty size a
  ]

  unfoldable pub select_pty : PtySize → List Text → List Text → List (Action A)
  select_pty size env detached = elim (select detached) [
    | err e ↦ fail_pty (codes "selector: " ++ e ++ codes "\n")
    | ok none ↦ finish_pty false false 0
    | ok (some new_session) ↦ create_pty size env
    | ok (some (session id)) ↦ open_pty size id
  ]

  -- `handlePTYSession`, with the detached ones of the sessions that the manager lists
  unfoldable pub handle_pty_session : List Text → Text → Text → ℕ → ℕ → List Text → List (Action A)
  handle_pty_session env term colorterm cols rows detached =
      let size = clamp_pty_size cols rows in
      let full = pty_env env term colorterm in
      conn_up ∷ (if is_empty detached then create_pty size full else select_pty size full detached)

-- The fields of `Server` under its lock.
pub record Server : Type 0 where
  pub exec_sessions : List (ℕ × Text)
  pub exec_counter : ℕ
  pub pty_conns : ℕ

unfoldable pub register_exec : Server → Text → Server
register_exec s command =
    let id = (s.exec_counter + 1) % 2 ^ 64 in
    record s { exec_counter = id; exec_sessions = (id, command) ∷ s.exec_sessions }

unfoldable pub delete : ℕ → List (ℕ × Text) → List (ℕ × Text)
delete id [] = []
delete id ((k, v) ∷ m) = let rest = delete id m in if k == id then rest else (k, v) ∷ rest

unfoldable pub deregister_exec : Server → ℕ → Server
deregister_exec s id = record s { exec_sessions = delete id s.exec_sessions }

-- The end of a command: its exit status, or an error that kept it from running.
pub data RunResult : Type 0 where
  finished : ℤ → RunResult
  not_run : Text → RunResult

-- `uint32(code)` in `Exit`
unfoldable pub exit_status : ℤ → ℕ
exit_status (pos n) = n % 2 ^ 32
exit_status (negsuc n) = 2 ^ 32 - 1 - n % 2 ^ 32

-- the run of the command, after the pipe of its input was made or not
unfoldable pub run_exec : Text → Option Text → RunResult → List (Action Unit)
run_exec command (some e) r = says (codes "stdin pipe: " ++ e ++ codes "\n") ∷ exits 1 ∷ []
run_exec command none (finished code) = runs command ∷ exits (exit_status code) ∷ []
run_exec command none (not_run e) =
    runs command ∷ says (codes "failed to run command: " ++ e ++ codes "\n") ∷ exits 1 ∷ []

-- `handleExecSession`, with the state while the command runs and the state after it
unfoldable pub handle_exec_session :
    Server → Text → Option Text → RunResult → Server × Server × List (Action Unit)
handle_exec_session s command pipe result =
    let running = register_exec s command in
    if is_empty command
    then (s, s, says (codes "no command specified\n") ∷ exits 1 ∷ [])
    else (running, deregister_exec running running.exec_counter, run_exec command pipe result)
