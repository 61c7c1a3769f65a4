-- ===== src/Ward/Scanner.antt =====
-- ward/scanner.go: the scanner of the child's output, and the loop of ward/wrapper.go that copies the
-- output and repairs the bar by what the scanner finds.
pub mod Items
pub mod Runs
pub mod Sequences
pub mod Repair
use vibepit.Prelude.{
  ℕ, ◌+◌, ◌-◌, ◌*◌, ◌%◌, ◌^◌, ◌==◌, Bool, true, false, not, ◌&&◌, ◌||◌, List, [], ◌∷◌, ◌++◌, Text,
  leb, if◌then◌else◌,
}

pub data ScanState : Type 0 where
  ground escape csi string string_escape : ScanState

-- `num_param` is Go's int, by its value modulo 2^64.
pub record Scanner : Type 0 where
  pub state : ScanState
  pub has_params : Bool
  pub param_byte : ℕ
  pub num_param : ℕ

pub record ScanResult : Type 0 where
  pub scroll_reset : Bool
  pub bar_erased : Bool

abbrev pub new_scanner : Scanner
new_scanner = record { state = ground; has_params = false; param_byte = 0; num_param = 0 }

abbrev pub no_result : ScanResult
no_result = record { scroll_reset = false; bar_erased = false }

abbrev pub esc : ℕ
esc = 27

abbrev pub bel : ℕ
bel = 7

unfoldable pub is_alt_screen_mode : ℕ → Bool
is_alt_screen_mode param = param == 1049 || param == 1047 || param == 47

unfoldable pub after_escape : Scanner → ℕ → Scanner
after_escape s b =
    if b == b'['
    then record { state = csi; has_params = false; param_byte = 0; num_param = 0 }
    else if b == b']' || b == b'P' || b == b'^' || b == b'_'
    then record s { state = string }
    else record s { state = ground }

-- a parameter byte of a CSI sequence
unfoldable pub take_param : Scanner → ℕ → Scanner
take_param s b =
    let first = if s.has_params then s.param_byte else b in
    record s {
      has_params = true;
      param_byte = first;
      num_param =
          if first == b'?' && leb b'0' b && leb b b'9'
          then (s.num_param * 10 + (b - b'0')) % 2 ^ 64
          else s.num_param;
    }

unfoldable pub resets_scroll : Scanner → ℕ → Bool
resets_scroll s b =
    (b == b'r' && not s.has_params)
    || ((b == b'h' || b == b'l') && s.param_byte == b'?' && is_alt_screen_mode s.num_param)

unfoldable pub erases_bar : Scanner → ℕ → Bool
erases_bar s b =
    b == b'J'
    && (not s.has_params || s.param_byte == b'0' || s.param_byte == b'2' || s.param_byte == b'3')

unfoldable pub in_csi : Scanner → ℕ → Scanner × ScanResult
in_csi s b =
    if leb 48 b && leb b 63
    then (take_param s b, no_result)
    else if leb 64 b && leb b 126
    then (
      record s { state = ground },
      record { scroll_reset = resets_scroll s b; bar_erased = erases_bar s b },
    )
    else (s, no_result)

unfoldable pub in_string : Scanner → ℕ → Scanner
in_string s b =
    if b == bel
    then record s { state = ground }
    else if b == esc
    then record s { state = string_escape }
    else s

abbrev pub reset_on : Bool → ScanResult
reset_on b = record { scroll_reset = b; bar_erased = false }

-- one turn of the loop of `Scan`
unfoldable pub scan_byte : Scanner → ℕ → Scanner × ScanResult
scan_byte s b = elim s.state [
  | ground ↦ (if b == esc then record s { state = escape } else s, no_result)
  | escape ↦ (after_escape s b, reset_on (b == b'c'))
  | csi ↦ in_csi s b
  | string ↦ (in_string s b, no_result)
  | string_escape ↦ (record s { state = ground }, reset_on (b == b'c'))
]

abbrev pub or_result : ScanResult → ScanResult → ScanResult
or_result r q = record {
  scroll_reset = r.scroll_reset || q.scroll_reset;
  bar_erased = r.bar_erased || q.bar_erased;
}

unfoldable pub scan : Scanner → Text → Scanner × ScanResult
scan s [] = (s, no_result)
scan s (b ∷ bs) = let (t, r) = scan_byte s b in let rest = scan t bs in (rest.0, or_result r rest.1)

unfoldable pub in_ground : Scanner → Bool
in_ground s = elim s.state [ ground ↦ true | _ ↦ false ]

-- What the copying goroutine writes to the terminal: the child's bytes, the sequence that sets the scroll
-- region, and the bar as it was last drawn.
pub data Write : Type 0 where
  child : Text → Write
  region bar : Write

-- The goroutine that copies the child's output; `out` is what it has written.
pub record OutputLoop : Type 0 where
  pub scanner : Scanner
  pub pending : ScanResult
  pub out : List Write

-- the writes of a repair, where the bar is shown
unfoldable pub repair : Bool → ScanResult → List Write
repair shown r =
    (if r.scroll_reset then region ∷ [] else [])
    ++ (if (r.scroll_reset || r.bar_erased) && shown then bar ∷ [] else [])

-- One read of the child's output; `tty` says whether stdout is a terminal, `shown` whether the bar
-- is not hidden.
unfoldable pub copy_chunk : Bool → Bool → OutputLoop → Text → OutputLoop
copy_chunk tty shown l data_read =
    let found = scan l.scanner data_read in
    let pending = or_result l.pending found.1 in
    let now = tty && in_ground found.0 in
    record {
      scanner = found.0;
      pending = if now then no_result else pending;
      out = l.out ++ (child data_read ∷ (if now then repair shown pending else []));
    }
