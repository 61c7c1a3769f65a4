-- ===== src/Proxy/ControlApi.antt =====
-- proxy/api.go: the handlers of the control API, over the state that they share with the filters.
pub mod Allow
use vibepit.Prelude.{
  ℕ, Option, none, some, List, [], ◌∷◌, Text, Result, ok, err, is_empty, if◌then◌else◌, parse_uint,
}
use vibepit.Proxy.Allowlist.{HttpAllowlist, DnsAllowlist, EntryError, add_http, add_dns}
use vibepit.Proxy.LogBuffer.{LogBuffer, LogEntry, DomainStats, entries_after}

pub record ControlApi : Type 0 where
  pub log : LogBuffer
  pub http_allowlist : HttpAllowlist
  pub dns_allowlist : DnsAllowlist

-- The errors of a request to allow entries; each is answered with status 400.
pub data AllowError : Type 0 where
  invalid_json entries_required : AllowError
  bad_entry : EntryError → AllowError

pub data Response : Type 0 where
  added_entries : List Text → Response
  bad_request : AllowError → Response

-- `handleLogs`: the query parameter is the empty text where there is none
unfoldable pub handle_logs : ControlApi → Text → List LogEntry
handle_logs a after = entries_after a.log (if is_empty after then 0 else parse_uint after)

-- What the JSON decoder gives: the field `entries`, or `none` for its error.
unfoldable pub decode_allow_request : Option (List Text) → Result AllowError (List Text)
decode_allow_request none = err invalid_json
decode_allow_request (some entries) = if is_empty entries then err entries_required else ok entries

unfoldable pub handle_allow_http : ControlApi → Option (List Text) → ControlApi × Response
handle_allow_http a body = elim (decode_allow_request body) [
  | err e ↦ (a, bad_request e)
  | ok entries ↦ elim (add_http a.http_allowlist entries) [
    | err e ↦ (a, bad_request (bad_entry e))
    | ok al ↦ (record a { http_allowlist = al }, added_entries entries)
  ]
]

unfoldable pub handle_allow_dns : ControlApi → Option (List Text) → ControlApi × Response
handle_allow_dns a body = elim (decode_allow_request body) [
  | err e ↦ (a, bad_request e)
  | ok entries ↦ elim (add_dns a.dns_allowlist entries) [
    | err e ↦ (a, bad_request (bad_entry e))
    | ok al ↦ (record a { dns_allowlist = al }, added_entries entries)
  ]
]
