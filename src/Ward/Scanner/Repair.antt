-- ===== src/Ward/Scanner/Repair.antt =====
-- The goroutine of ward/wrapper.go that copies the child's output and repairs the bar, taken by itself:
-- the event loop and the handler of SIGWINCH also write the bar, whatever the scanner's state, and are
-- not ordered with it here.
use vibepit.Prelude.{
  ◌≡◌, refl, sym, ap, subst, ◌∙◌, Bool, true, false, ◌&&◌, ◌||◌, List, [], ◌∷◌, ◌++◌, append-nil,
  append_assoc, Text, arith, inl, inr, Bool-cases,
}
use vibepit.Ward.Scanner.{
  Scanner, ScanResult, new_scanner, no_result, or_result, scan, in_ground, Write, child, region,
  bar, OutputLoop, repair, copy_chunk,
}

-- The bytes of the child among the writes, and the scanner after them.
unfoldable pub child_bytes : List Write → Text
child_bytes [] = []
child_bytes (child t ∷ ws) = t ++ child_bytes ws
child_bytes (region ∷ ws) = child_bytes ws
child_bytes (bar ∷ ws) = child_bytes ws

unfoldable pub scanner_after : Scanner → List Write → Scanner
scanner_after s [] = s
scanner_after s (child t ∷ ws) = scanner_after (scan s t).0 ws
scanner_after s (region ∷ ws) = scanner_after s ws
scanner_after s (bar ∷ ws) = scanner_after s ws

-- No repair stands where the child's bytes before it end inside a sequence.
abbrev pub IsSafe : Scanner → List Write → Type 0
IsSafe s [] = Unit
IsSafe s (child t ∷ ws) = IsSafe (scan s t).0 ws
IsSafe s (region ∷ ws) = (in_ground s ≡ true) × IsSafe s ws
IsSafe s (bar ∷ ws) = (in_ground s ≡ true) × IsSafe s ws

-- After the writes, some reset of the scroll region has not been followed by a repair.
unfoldable pub owes : Scanner → Bool → List Write → Bool
owes s b [] = b
owes s b (child t ∷ ws) = owes (scan s t).0 (b || (scan s t).1.scroll_reset) ws
owes s b (region ∷ ws) = owes s false ws
owes s b (bar ∷ ws) = owes s b ws

scanner_after-append :
    (s : Scanner) (xs ys : List Write)
    → scanner_after s (xs ++ ys) ≡ scanner_after (scanner_after s xs) ys
unfolding scanner_after
scanner_after-append s [] ys = refl
scanner_after-append s (child t ∷ xs) ys = scanner_after-append (scan s t).0 xs ys
scanner_after-append s (region ∷ xs) ys = scanner_after-append s xs ys
scanner_after-append s (bar ∷ xs) ys = scanner_after-append s xs ys

IsSafe-append :
    (s : Scanner) (xs ys : List Write)
    → IsSafe s xs
    → IsSafe (scanner_after s xs) ys
    → IsSafe s (xs ++ ys)
unfolding scanner_after
IsSafe-append s [] ys h k = k
IsSafe-append s (child t ∷ xs) ys h k = IsSafe-append (scan s t).0 xs ys h k
IsSafe-append s (region ∷ xs) ys h k = (h.0, IsSafe-append s xs ys h.1 k)
IsSafe-append s (bar ∷ xs) ys h k = (h.0, IsSafe-append s xs ys h.1 k)

owes-append :
    (s : Scanner) (b : Bool) (xs ys : List Write)
    → owes s b (xs ++ ys) ≡ owes (scanner_after s xs) (owes s b xs) ys
unfolding owes scanner_after
owes-append s b [] ys = refl
owes-append s b (child t ∷ xs) ys = owes-append (scan s t).0 (b || (scan s t).1.scroll_reset) xs ys
owes-append s b (region ∷ xs) ys = owes-append s false xs ys
owes-append s b (bar ∷ xs) ys = owes-append s b xs ys

child_bytes-append :
    (xs ys : List Write) → child_bytes (xs ++ ys) ≡ child_bytes xs ++ child_bytes ys
unfolding child_bytes
child_bytes-append [] ys = refl
child_bytes-append (child t ∷ xs) ys =
    rw (child_bytes-append xs ys) (sym (append_assoc t (child_bytes xs) (child_bytes ys)))
child_bytes-append (region ∷ xs) ys = child_bytes-append xs ys
child_bytes-append (bar ∷ xs) ys = child_bytes-append xs ys

-- A repair is safe in ground, adds no byte of the child's, and settles what is owed.
module _ (s : Scanner) (shown : Bool) (r : ScanResult) where
  repair-IsSafe : in_ground s ≡ true → IsSafe s (repair shown r)
  unfolding repair
  repair-IsSafe g = ground (arith, g)

  repair-scanner : scanner_after s (repair shown r) ≡ s
  unfolding repair scanner_after
  repair-scanner = ground arith

  repair-child : child_bytes (repair shown r) ≡ []
  unfolding repair child_bytes
  repair-child = ground arith

  repair-owes : owes s r.scroll_reset (repair shown r) ≡ false
  unfolding repair owes
  repair-owes = ground arith

record IsTidy (tty : Bool) (l : OutputLoop) : Type 0 where
  follows : l.scanner ≡ scanner_after new_scanner l.out
  safe : IsSafe new_scanner l.out
  owed : tty ≡ true → owes new_scanner false l.out ≡ l.pending.scroll_reset
  settled : tty ≡ true → in_ground l.scanner ≡ true → l.pending ≡ no_result

module _ (tty shown : Bool) (l : OutputLoop) (chunk : Text) (v : IsTidy tty l) where
  abbrev next : Scanner
  next = (scan l.scanner chunk).0

  abbrev owing : ScanResult
  owing = or_result l.pending (scan l.scanner chunk).1

  scanner_after-child :
      (ws : List Write)
      → scanner_after new_scanner (l.out ++ child chunk ∷ ws) ≡ scanner_after next ws
  unfolding scanner_after
  scanner_after-child ws =
      scanner_after-append new_scanner l.out (child chunk ∷ ws)
      ∙ ap (λ s. scanner_after (scan s chunk).0 ws) (sym v.follows)

  owes-child :
      (ws : List Write)
      → tty ≡ true
      → owes new_scanner false (l.out ++ child chunk ∷ ws) ≡ owes next owing.scroll_reset ws
  unfolding owes
  owes-child ws t =
      owes-append new_scanner false l.out (child chunk ∷ ws)
      ∙ ap (λ b. owes (scanner_after new_scanner l.out) b (child chunk ∷ ws)) (v.owed t)
      ∙ ap (λ s. owes s l.pending.scroll_reset (child chunk ∷ ws)) (sym v.follows)

  IsSafe-child : (ws : List Write) → IsSafe next ws → IsSafe new_scanner (l.out ++ child chunk ∷ ws)
  IsSafe-child ws h =
      IsSafe-append new_scanner l.out (child chunk ∷ ws) v.safe
        (subst (λ s. IsSafe (scan s chunk).0 ws) v.follows h)

  copy_chunk-IsTidy : IsTidy tty (copy_chunk tty shown l chunk)
  unfolding copy_chunk
  copy_chunk-IsTidy = elim (Bool-cases (tty && in_ground next)) [
    | inl now ↦ rw now (record {
      follows = sym (scanner_after-child (repair shown owing) ∙ repair-scanner next shown owing);
      safe =
          IsSafe-child (repair shown owing) (repair-IsSafe next shown owing (ground (arith, now)));
      owed = λ t. owes-child (repair shown owing) t ∙ repair-owes next shown owing;
      settled = λ t g. refl;
    })
    | inr later ↦ rw later (record {
      follows = sym (scanner_after-child [] ∙ unfold scanner_after in refl);
      safe = IsSafe-child [] tt;
      owed = λ t. owes-child [] t ∙ unfold owes in refl;
      settled = λ t g. absurd (ground (arith, later, t, g));
    })
  ]

  copy_chunk-child : child_bytes (copy_chunk tty shown l chunk).out ≡ child_bytes l.out ++ chunk
  unfolding copy_chunk child_bytes
  copy_chunk-child = elim (Bool-cases (tty && in_ground next)) [
    | inl now ↦
        rw
          (
            now,
            child_bytes-append l.out (child chunk ∷ repair shown owing),
            repair-child next shown owing,
            append-nil chunk,
          )
          refl
    | inr later ↦ rw (later, child_bytes-append l.out (child chunk ∷ []), append-nil chunk) refl
  ]

-- The reads of the loop, each with whether the bar is shown by then.
unfoldable pub copy_all : Bool → OutputLoop → List (Bool × Text) → OutputLoop
copy_all tty l [] = l
copy_all tty l ((shown, chunk) ∷ cs) = copy_all tty (copy_chunk tty shown l chunk) cs

unfoldable pub all_bytes : List (Bool × Text) → Text
all_bytes [] = []
all_bytes ((shown, chunk) ∷ cs) = chunk ++ all_bytes cs

abbrev pub fresh_loop : OutputLoop
fresh_loop = record { scanner = new_scanner; pending = no_result; out = [] }

copy_all-IsTidy :
    (tty : Bool) (l : OutputLoop) (cs : List (Bool × Text))
    → IsTidy tty l
    → IsTidy tty (copy_all tty l cs)
unfolding copy_all
copy_all-IsTidy tty l [] v = v
copy_all-IsTidy tty l ((shown, chunk) ∷ cs) v =
    copy_all-IsTidy tty (copy_chunk tty shown l chunk) cs (copy_chunk-IsTidy tty shown l chunk v)

copy_all-child :
    (tty : Bool) (l : OutputLoop) (cs : List (Bool × Text))
    → IsTidy tty l
    → child_bytes (copy_all tty l cs).out ≡ child_bytes l.out ++ all_bytes cs
unfolding copy_all all_bytes
copy_all-child tty l [] v = sym (append-nil (child_bytes l.out))
copy_all-child tty l ((shown, chunk) ∷ cs) v =
    copy_all-child tty (copy_chunk tty shown l chunk) cs (copy_chunk-IsTidy tty shown l chunk v)
    ∙ ap (λ t. t ++ all_bytes cs) (copy_chunk-child tty shown l chunk v)
    ∙ append_assoc (child_bytes l.out) chunk (all_bytes cs)

fresh-IsTidy : (tty : Bool) → IsTidy tty fresh_loop
fresh-IsTidy tty = record {
  follows = unfold scanner_after in refl;
  safe = tt;
  owed = λ t. unfold owes in refl;
  settled = λ t g. refl;
}

-- However the child's output is cut into reads, of the writes of the copying goroutine alone: the
-- terminal gets all of the child's bytes in their order; no repair stands where the scanner is inside
-- one of the child's escape sequences; and whenever the output so far ends outside a sequence, every reset of the scroll
-- region in it has been repaired and no repair is pending (where stdout is a terminal).
pub copy_all-repairs :
    (tty : Bool) (cs : List (Bool × Text))
    → let l = copy_all tty fresh_loop cs in
      (child_bytes l.out ≡ all_bytes cs)
      × IsSafe new_scanner l.out
      × (tty ≡ true
          → in_ground (scanner_after new_scanner l.out) ≡ true
          → (owes new_scanner false l.out ≡ false) × (l.pending ≡ no_result))
copy_all-repairs tty cs =
    let l = copy_all tty fresh_loop cs in
    let v = copy_all-IsTidy tty fresh_loop cs (fresh-IsTidy tty) in
    (
      copy_all-child tty fresh_loop cs (fresh-IsTidy tty) ∙ unfold child_bytes in refl,
      v.safe,
      λ t g.
          let quiet = v.settled t (subst (λ s. in_ground s ≡ true) (sym v.follows) g) in
          (v.owed t ∙ ap (λ r. r.scroll_reset) quiet, quiet),
    )
