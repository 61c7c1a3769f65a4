-- ===== src/Lib.antt =====
-- Vibepit runs coding agents in containers on an isolated network, behind a filtering proxy, in
-- terminal sessions that survive a lost connection. This library models the Go code of its core and
-- proves what makes it correct.
--
-- The parts and their files, by the paths from the repository's root:
--
-- * Proxy models the package proxy. Proxy/Pattern and Proxy/Allowlist are proxy/allowlist.go:
--   domain patterns, the validation of entries, the two allowlists with `Allows`, construction and
--   `Add` (add_http, add_dns), whose compare-and-swap loop is Proxy/Allowlist/Updates/Cas, an
--   interleaving of atomic actions. Proxy/LogBuffer is proxy/log.go, the ring buffer with its
--   statistics. Proxy/Cidr is proxy/cidr.go. Proxy/Http is proxy/http.go: `checkRequest`
--   (check_request), which asks the allowlist, the resolver and the CIDR blocker and writes the log,
--   and the two handlers on top of it. Proxy/Dns is the handler of proxy/dns.go. Proxy/ControlApi is
--   proxy/api.go, whose requests change the allowlists that the filters read. Proxy/Presets is the
--   registry of proxy/presets.go, which turns the presets of a project into entries.
-- * Session models the package session. Session/Client is session/client.go: the output channel of a
--   client, `Read`, the select of `deliver` (offer) and the close with a reason. Session/Hub is
--   session/session.go: `Attach`, `TakeOver`, `Resize`, `WriteInput`, `Detach`, the pump and
--   `waitForExit`, each critical section one function; Session/Hub/Steps is the step relation that
--   interleaves them. Session/Manager is session/manager.go. Session/Crlf is `ToCRLF`.
--   Session/Cleanup is session/cleanup.go: the lines of /proc and the signals to what a shell left
--   behind.
-- * Ward models the package ward. Ward/Scanner is ward/scanner.go with the goroutine of
--   ward/wrapper.go that copies the child's output and repairs the bar, by itself: the event loop
--   and the handler of SIGWINCH write the bar too and are not ordered with it; Ward/Osc133 is
--   ward/osc133.go; Ward/Bar is the event loop of ward/wrapper.go; Ward/Command is
--   `processInput` of ward/command.go with the loop that reads the input, which sends its events to
--   that loop.
-- * Config models `Merge` of config/config.go, which joins the configurations and the presets to the
--   entries of the allowlists, and config/setup.go (Config/Setup): the insertion of
--   entries into the text of a configuration file and the template of a new one.
-- * Cmd models the monitor of cmd/monitor_ui.go: its update on ticks, polled entries, keys and the
--   results of the calls, the commands it starts in return, and the keys that its footer offers.
--   Cmd/Update is cmd/update.go: the releases that an update spans with their notes, and the run of
--   the update up to the replacement of the binary (Cmd/Update/Run).
-- * Selfupdate models the package selfupdate: version.go, releases.go, changelog.go, and in
--   Selfupdate/Install the download, the checks, the extraction and the replacement.
-- * Sshd models sshd/shell_escape.go (Sshd/ShellEscape), the requests of a channel of
--   sshd/rawsession.go (Sshd/Channel) and the two handlers of sshd/server.go that run a command and a
--   terminal session (Sshd/Pty).
-- * Tui models tui/cursor.go (Tui/Cursor) and sshd/selector.go (Tui/Selector).
-- * Prelude holds what the parts share; Samples holds the runs on concrete inputs.
--
-- How the code is read: a run-time panic is `none` of Option (and_then), an error is `err` of Result.
-- Texts are lists of byte values, and the case of letters is that of ASCII. Machine integers keep
-- their wrap-around where it can be reached: the identifiers of log entries and the generations of
-- the bar, modulo 2^64. A mutex makes the code under it one step; what runs between locks is a step of
-- its own. A choice of `select` between ready cases is a Boolean argument, over which the theorems
-- quantify. A time is a number that is passed in.
--
-- Fuel: the search of Proxy/Presets.expand gets one more than the number of presets, since each level
-- below the last visits a preset that was not visited before; that it suffices is part of its
-- theorem. The decimal digits of a cursor position (decimal in Session/Hub) get one more than the
-- number, and a number has fewer digits than that.
--
-- Code that the repository only calls is a parameter: net.ParseCIDR, net.ParseIP, the resolver, the
-- exchange with the upstream DNS server, the decoders of JSON and YAML, the payloads of the SSH
-- library, the terminal emulator (Emulator), the order of versions (Semver), hashes, archives and
-- signatures (Tools), the callback of the bar (OnKey), and what /proc holds. The theorems assume
-- nothing of them but what their hypotheses say.
--
-- Not modelled: network and terminal I/O, the Docker client, certificates, rendering, the session
-- screen, the detection of presets and the setup screens, the command line, and what an update prints.
pub mod Prelude
pub mod Proxy
pub mod Selfupdate
pub mod Session
pub mod Ward
pub mod Tui
pub mod Sshd
pub mod Config
pub mod Cmd
pub mod Samples
