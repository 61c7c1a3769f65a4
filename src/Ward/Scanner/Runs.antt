-- ===== src/Ward/Scanner/Runs.antt =====
-- What the scanner does over the parts of one sequence (ward/scanner.go).
use vibepit.Prelude.{
  ℕ, ◌+◌, ◌-◌, ◌*◌, ◌%◌, ◌^◌, ◌≡◌, ◌≤◌, ◌<◌, ◌⊎◌, refl, inl, inr, Bool, true, false, ◌&&◌, ◌||◌, [],
  ◌∷◌, ◌++◌, append_assoc, Text, leb, ◌==◌, is_empty, All, arith,
}
use vibepit.Ward.Scanner.{
  ScanState, escape, csi, string, Scanner, ScanResult, or_result, esc, bel, is_alt_screen_mode,
  after_escape, take_param, resets_scroll, erases_bar, in_csi, in_string, scan_byte, scan,
}
use vibepit.Ward.Scanner.Items.{
  Item, byte, two_bytes, control, private_mode, control_string, bytes_of, IsIn, number, IsItem,
  is_alternate, reaches_bar, effect,
}

-- The scanner in a state, with what it keeps of the last control sequence.
abbrev pub at : ScanState → Bool → ℕ → ℕ → Scanner
at s h p n = record { state = s; has_params = h; param_byte = p; num_param = n }

between_run :
    (h : Bool) (p n : ℕ) (is rest : Text)
    → All (IsIn 32 47) is
    → scan (at csi h p n) (is ++ rest) ≡ scan (at csi h p n) rest
unfolding scan scan_byte in_csi
between_run h p n [] rest a = refl
between_run h p n (i ∷ is) rest a =
    let not_param : (leb 48 i && leb i 63) ≡ false = let q = a.0.1 in ground (arith, q) in
    let not_final : (leb 64 i && leb i 126) ≡ false = let q = a.0.1 in ground (arith, q) in
    rw (not_param, not_final) (between_run h p n is rest a.1)

-- parameters after the first one, which is not private
public_run :
    (p n : ℕ) (ps rest : Text)
    → (p == b'?') ≡ false
    → All (IsIn 48 63) ps
    → scan (at csi true p n) (ps ++ rest) ≡ scan (at csi true p n) rest
unfolding scan scan_byte in_csi take_param
public_run p n [] rest np a = refl
public_run p n (c ∷ ps) rest np a =
    let param : (leb 48 c && leb c 63) ≡ true = let (q, r) = a.0 in ground (arith, q, r) in
    rw (param, np) (public_run p n ps rest np a.1)

number_ge : (n : ℕ) (ds : Text) → n ≤ number n ds
number_ge n [] = omega arith
number_ge n (d ∷ ds) = let h = number_ge (n * 10 + (d - b'0')) ds in omega (arith, h)

digits_run :
    (n : ℕ) (ds rest : Text)
    → All (IsIn b'0' b'9') ds
    → number n ds < 2 ^ 64
    → scan (at csi true b'?' n) (ds ++ rest) ≡ scan (at csi true b'?' (number n ds)) rest
unfolding scan scan_byte in_csi take_param
digits_run n [] rest a small = refl
digits_run n (d ∷ ds) rest a small =
    let (lo, hi) = a.0 in
    let param : (leb 48 d && leb d 63) ≡ true = ground (arith, lo, hi) in
    let digit : (leb b'0' d && leb d b'9') ≡ true = ground (arith, lo, hi) in
    let whole : (n * 10 + (d - b'0')) % 2 ^ 64 ≡ n * 10 + (d - b'0') =
      let g = number_ge (n * 10 + (d - b'0')) ds in omega (arith, g, small) in
    rw (param, digit, whole) (digits_run (n * 10 + (d - b'0')) ds rest a.1 small)

-- the bytes of a control string's body leave it open
body_run :
    (h : Bool) (p n : ℕ) (body rest : Text)
    → All (λ c. ((c == bel) ≡ false) × ((c == esc) ≡ false)) body
    → scan (at string h p n) (body ++ rest) ≡ scan (at string h p n) rest
unfolding scan scan_byte in_string
body_run h p n [] rest a = refl
body_run h p n (c ∷ body) rest a = let (nb, ne) = a.0 in rw (nb, ne) (body_run h p n body rest a.1)

-- the final byte of a control sequence
final_run :
    (h : Bool) (p n last : ℕ) (rest : Text)
    → IsIn 64 126 last
    → scan (at csi h p n) (last ∷ rest) ≡ (
      (scan (at ScanState.ground h p n) rest).0,
      or_result
          (record {
            scroll_reset = resets_scroll (at csi h p n) last;
            bar_erased = erases_bar (at csi h p n) last;
          })
          (scan (at ScanState.ground h p n) rest).1,
    )
unfolding scan scan_byte in_csi
final_run h p n last rest (lo, hi) =
    let not_param : (leb 48 last && leb last 63) ≡ false = ground (arith, lo, hi) in
    let final : (leb 64 last && leb last 126) ≡ true = ground (arith, lo, hi) in
    rw (not_param, final) refl

-- What `rest` gives once the scanner is in ground again, after a sequence that had an effect.
abbrev pub Back : Bool → ℕ → ℕ → ScanResult → Text → Scanner × ScanResult
Back h p n found rest = (
  (scan (at ScanState.ground h p n) rest).0,
  or_result found (scan (at ScanState.ground h p n) rest).1,
)

tail_run :
    (h : Bool) (p n : ℕ) (between : Text) (last : ℕ) (rest : Text) (found : ScanResult)
    → All (IsIn 32 47) between
    → IsIn 64 126 last
    → resets_scroll (at csi h p n) last ≡ found.scroll_reset
    → erases_bar (at csi h p n) last ≡ found.bar_erased
    → scan (at csi h p n) ((between ++ last ∷ []) ++ rest) ≡ Back h p n found rest
tail_run h p n between last rest found a l reset erased =
    rw
      (
        append_assoc between (last ∷ []) rest,
        between_run h p n between (last ∷ rest) a,
        final_run h p n last rest l,
        reset,
        erased,
      )
      refl

-- a first parameter that is not private sets no mode
no_mode : (x y q z : Bool) → q ≡ false → (x || (y && q && z)) ≡ x
no_mode true y q z none = refl
no_mode false true q z none = rw none refl
no_mode false false q z none = refl

control_run :
    (params between : Text) (last : ℕ) (rest : Text)
    → IsItem (control params between last)
    → (h : Bool) × (p : ℕ) × (scan (at csi false 0 0) ((params ++ (between ++ last ∷ [])) ++ rest)
        ≡ Back h p 0 (effect (control params between last)) rest)
unfolding scan scan_byte in_csi take_param resets_scroll erases_bar is_empty
control_run [] between last rest (a, np, bs, l) = (
  false,
  0,
  tail_run false 0 0 between last rest (effect (control [] between last)) bs l
      (no_mode (last == b'r' && true) (last == b'h' || last == b'l') false (is_alt_screen_mode 0)
        refl)
      refl,
)
control_run (c ∷ ps) between last rest (a, np, bs, l) =
    let param : (leb 48 c && leb c 63) ≡ true = let (q, r) = a.0 in ground (arith, q, r) in
    let reset : resets_scroll (at csi true c 0) last ≡ (last == b'r' && false) =
      no_mode (last == b'r' && false) (last == b'h' || last == b'l') (c == b'?')
        (is_alt_screen_mode 0) np in
    let erased : erases_bar (at csi true c 0) last ≡ (last == b'J' && reaches_bar (c ∷ ps)) =
      refl in
    (
      true,
      c,
      rw
          (
            param,
            np,
            append_assoc ps (between ++ last ∷ []) rest,
            public_run c 0 ps ((between ++ last ∷ []) ++ rest) np a.1,
          )
          (tail_run true c 0 between last rest (effect (control (c ∷ ps) between last)) bs l reset
            erased),
    )

never : (x : Bool) → (x && false) ≡ false
never true = refl
never false = refl

mode_only : (x y z : Bool) → ((x && false) || (y && true && z)) ≡ (y && z)
mode_only true true z = refl
mode_only true false z = refl
mode_only false true z = refl
mode_only false false z = refl

private_run :
    (digits : Text) (last : ℕ) (rest : Text)
    → IsItem (private_mode digits last)
    → scan (at csi true b'?' 0) ((digits ++ last ∷ []) ++ rest)
      ≡ Back true b'?' (number 0 digits) (effect (private_mode digits last)) rest
unfolding resets_scroll erases_bar is_alt_screen_mode
private_run digits last rest (ds, small, l) =
    let n = number 0 digits in
    let reset : resets_scroll (at csi true b'?' n) last
        ≡ ((last == b'h' || last == b'l') && is_alternate n) =
      mode_only (last == b'r') (last == b'h' || last == b'l') (is_alternate n) in
    let erased : erases_bar (at csi true b'?' n) last ≡ false = never (last == b'J') in
    rw
      (
        append_assoc digits (last ∷ []) rest,
        digits_run 0 digits (last ∷ rest) ds small,
        final_run true b'?' n last rest l,
        reset,
        erased,
      )
      refl

abbrev pub IsIntro : ℕ → Type 0
IsIntro c = (c ≡ b']') ⊎ (c ≡ b'P') ⊎ (c ≡ b'^') ⊎ (c ≡ b'_')

pub opened :
    (c : ℕ) (h : Bool) (p n : ℕ) → IsIntro c → after_escape (at escape h p n) c ≡ at string h p n
unfolding after_escape
opened c h p n (inl e) = rw e refl
opened c h p n (inr (inl e)) = rw e refl
opened c h p n (inr (inr (inl e))) = rw e refl
opened c h p n (inr (inr (inr e))) = rw e refl

not_reset : (c : ℕ) → IsIntro c → (c == b'c') ≡ false
not_reset c (inl e) = rw e refl
not_reset c (inr (inl e)) = rw e refl
not_reset c (inr (inr (inl e))) = rw e refl
not_reset c (inr (inr (inr e))) = rw e refl

string_run :
    (intro : ℕ) (body : Text) (belled : Bool) (h : Bool) (p n : ℕ) (rest : Text)
    → IsItem (control_string intro body belled)
    → scan (at ScanState.ground h p n) (bytes_of (control_string intro body belled) ++ rest)
      ≡ scan (at ScanState.ground h p n) rest
unfolding scan scan_byte after_escape in_string
string_run intro body true h p n rest (opens, bs) =
    rw
      (
        opened intro h p n opens,
        not_reset intro opens,
        append_assoc body (bel ∷ []) rest,
        body_run h p n body (bel ∷ rest) bs,
      )
      refl
string_run intro body false h p n rest (opens, bs) =
    rw
      (
        opened intro h p n opens,
        not_reset intro opens,
        append_assoc body (esc ∷ 92 ∷ []) rest,
        body_run h p n body (esc ∷ 92 ∷ rest) bs,
      )
      refl

-- From ground a sequence leads to ground again, with its effect.
pub item_run :
    (i : Item) (h : Bool) (p n : ℕ) (rest : Text)
    → IsItem i
    → (k : Bool) × (q : ℕ) × (m : ℕ) × (scan (at ScanState.ground h p n) (bytes_of i ++ rest)
        ≡ Back k q m (effect i) rest)
unfolding scan scan_byte after_escape in_csi take_param
item_run (byte c) h p n rest plain = (h, p, n, rw plain refl)
item_run (two_bytes c) h p n rest (n1, n2, n3, n4, n5) = (h, p, n, rw (n1, n2, n3, n4, n5) refl)
item_run (control params between last) h p n rest is =
    let (k, q, e) = control_run params between last rest is in (k, q, 0, rw e refl)
item_run (private_mode digits last) h p n rest is =
    (true, b'?', number 0 digits, rw (private_run digits last rest is) refl)
item_run (control_string intro body belled) h p n rest is =
    (h, p, n, string_run intro body belled h p n rest is)
