-- ===== src/Ward/Osc133.antt =====
-- ward/osc133.go: the streaming parser of the shell's prompt markers.
pub mod Chunks
pub mod Markers
use vibepit.Prelude.{
  ℕ, ◌==◌, Bool, true, false, Option, none, some, List, [], ◌∷◌, ◌++◌, Text, codes, length, ltb,
  text_eq, take, drop, ℤ, parse_int, if◌then◌else◌,
}

-- The markers; the end of a command comes with its exit code if that is a number.
pub data Event : Type 0 where
  prompt_start command_start command_executed : Event
  command_finished : Option ℤ → Event

pub data Zone : Type 0 where
  zone_unknown zone_prompt zone_input zone_output : Zone

pub data ParserState : Type 0 where
  at_ground escape osc_param osc_escape : ParserState

-- `params` is the part of the buffer that `paramLen` covers.
pub record Parser : Type 0 where
  pub state : ParserState
  pub zone : Zone
  pub params : Text

abbrev pub param_buf_cap : ℕ
param_buf_cap = 32

abbrev pub esc : ℕ
esc = 27

abbrev pub bel : ℕ
bel = 7

abbrev pub backslash : ℕ
backslash = 92

abbrev pub new_parser : Parser
new_parser = record { state = at_ground; zone = zone_unknown; params = [] }

-- the exit code among the parameters of a D marker
unfoldable pub exit_code : Text → Option ℤ
exit_code params =
    if ltb 6 (length params)
    then if text_eq (take 1 (drop 5 params)) (codes ";") then parse_int 32 (drop 6 params) else none
    else none

-- the case of the command byte
unfoldable pub marker : ℕ → Text → Option (Zone × Event)
marker cmd params =
    if cmd == b'A'
    then some (zone_prompt, prompt_start)
    else if cmd == b'B'
    then some (zone_input, command_start)
    else if cmd == b'C'
    then some (zone_output, command_executed)
    else if cmd == b'D'
    then some (zone_unknown, command_finished (exit_code params))
    else none

unfoldable pub command_of : Text → Text → Option (Zone × Event)
command_of [] params = none
command_of (cmd ∷ more) params =
    if text_eq (take 4 params) (codes "133;") then marker cmd params else none

-- the zone and the event of a marker with these parameters
unfoldable pub dispatch : Text → Option (Zone × Event)
dispatch params = command_of (drop 4 params) params

-- the parser after a dispatch, back in ground, with the event
unfoldable pub finish : Parser → Option (Zone × Event) → Parser × List Event
finish p none = (record p { state = at_ground }, [])
finish p (some (zone, e)) = (record p { state = at_ground; zone = zone }, e ∷ [])

abbrev pub dispatched : Parser → Parser × List Event
dispatched p = finish p (dispatch p.params)

unfoldable pub in_param : Parser → ℕ → Parser × List Event
in_param p b =
    if b == bel
    then dispatched p
    else if b == esc
    then (record p { state = osc_escape }, [])
    else if ltb (length p.params) param_buf_cap
    then (record p { params = p.params ++ b ∷ [] }, [])
    else (p, [])

-- one turn of the loop of `Push`
unfoldable pub push_byte : Parser → ℕ → Parser × List Event
push_byte p b = elim p.state [
  | at_ground ↦ (if b == esc then record p { state = escape } else p, [])
  | escape ↦ (
    if b == b']'
        then record p { state = osc_param; params = [] }
        else record p { state = at_ground },
    [],
  )
  | osc_param ↦ in_param p b
  | osc_escape ↦ if b == backslash then dispatched p else (record p { state = at_ground }, [])
]

unfoldable pub push : Parser → Text → Parser × List Event
push p [] = (p, [])
push p (b ∷ bs) = let (q, es) = push_byte p b in let rest = push q bs in (rest.0, es ++ rest.1)
