-- ===== src/Session/Cleanup/StatLine.antt =====
-- A line of /proc is read whatever the name of the process is (session/cleanup.go).
use vibepit.Prelude.{
  ℕ, suc, ◌+◌, ◌≡◌, ◌<◌, refl, ap, sym, ◌∙◌, true, false, ◌==◌, none, some, [], ◌∷◌, ◌++◌,
  append_assoc, Text, length, length-append, drop, All, All-append, All-map, ==_iff, leb, arith,
  last_index, and_then, atoi,
}
use vibepit.Prelude.Lines.{is_space}
use vibepit.Session.Cleanup.{words, add_byte, fields, cut_space, parse_ids, parse_proc_stat}

-- A word of the line: not empty, without spaces and parentheses.
abbrev pub IsWord : Text → Type 0
IsWord w = (0 < length w) × All (λ c. (is_space c ≡ false) × ((c == b')') ≡ false)) w

-- The fields of a line, as the kernel writes it; `comm` is any text.
pub record Line : Type 0 where
  pub pid : Text
  pub comm : Text
  pub state : Text
  pub ppid : Text
  pub pgid : Text
  pub sid : Text
  pub more : Text

abbrev pub tail : Line → Text
tail l = l.state ++ b' ' ∷ (l.ppid ++ b' ' ∷ (l.pgid ++ b' ' ∷ (l.sid ++ b' ' ∷ l.more)))

abbrev pub render : Line → Text
render l = l.pid ++ b' ' ∷ b'(' ∷ (l.comm ++ b')' ∷ b' ' ∷ tail l)

-- The words are words, and no parenthesis closes after the name.
pub record IsLine (l : Line) : Type 0 where
  pub pid : IsWord l.pid
  pub state : IsWord l.state
  pub ppid : IsWord l.ppid
  pub pgid : IsWord l.pgid
  pub sid : IsWord l.sid
  pub more : All (λ c. (c == b')') ≡ false) l.more

last_index-after :
    (c : ℕ) (front s : Text)
    → last_index c s ≡ none
    → last_index c (front ++ c ∷ s) ≡ some (length front)
unfolding last_index
last_index-after c [] s h = rw (h, (==_iff c c).1 refl) refl
last_index-after c (x ∷ front) s h = rw (last_index-after c front s h) refl

last_index-none : (c : ℕ) (s : Text) → All (λ x. (x == c) ≡ false) s → last_index c s ≡ none
unfolding last_index
last_index-none c [] h = refl
last_index-none c (x ∷ s) h = rw (last_index-none c s h.1, h.0) refl

cut_space-word :
    (w s : Text)
    → All (λ c. (is_space c ≡ false) × ((c == b')') ≡ false)) w
    → cut_space (w ++ b' ' ∷ s) ≡ some w
unfolding cut_space
cut_space-word [] s h = refl
cut_space-word (c ∷ w) s h =
    let n : (c == b' ') ≡ false = let q = h.0.0 in ground arith in
    rw (n, cut_space-word w s h.1) refl

words_word :
    (c : ℕ) (w s : Text)
    → All (λ c. (is_space c ≡ false) × ((c == b')') ≡ false)) (c ∷ w)
    → words (c ∷ (w ++ b' ' ∷ s)) ≡ ((c ∷ w) ∷ fields s, true)
unfolding words add_byte
words_word c [] s h = let q = h.0.0 in rw q refl
words_word c (d ∷ w) s h = let q = h.0.0 in ap (add_byte c) (words_word d w s h.1) ∙ (rw q refl)

fields-word : (w s : Text) → IsWord w → fields (w ++ b' ' ∷ s) ≡ w ∷ fields s
fields-word [] s h = absurd (let z = h.0 in omega (arith, z))
fields-word (c ∷ w) s h = ap (λ p. p.0) (words_word c w s h.1)

fields-tail :
    (l : Line) → IsLine l → fields (tail l) ≡ l.state ∷ l.ppid ∷ l.pgid ∷ l.sid ∷ fields l.more
fields-tail l h =
    fields-word l.state _ h.state
    ∙ ap (λ u. l.state ∷ u)
        (fields-word l.ppid _ h.ppid
          ∙ ap (λ u. l.ppid ∷ u)
              (fields-word l.pgid _ h.pgid ∙ ap (λ u. l.pgid ∷ u) (fields-word l.sid l.more h.sid)))

abbrev IsOpen : Text → Type 0
IsOpen = All (λ c. (c == b')') ≡ false)

word-IsOpen : (w : Text) → IsWord w → IsOpen w
word-IsOpen w h =
    All-map (λ c. (is_space c ≡ false) × ((c == b')') ≡ false)) (λ c. (c == b')') ≡ false) w
      (λ c q. q.1) h.1

tail-IsOpen : (l : Line) → IsLine l → IsOpen (b' ' ∷ tail l)
tail-IsOpen l h =
    let P : ℕ → Type 0 = λ c. (c == b')') ≡ false in
    (
      refl,
      All-append P l.state _ (word-IsOpen l.state h.state) (
        refl,
        All-append P l.ppid _ (word-IsOpen l.ppid h.ppid) (
          refl,
          All-append P l.pgid _ (word-IsOpen l.pgid h.pgid)
              (refl, All-append P l.sid _ (word-IsOpen l.sid h.sid) (refl, h.more)),
        ),
      ),
    )

drop_past : (front : Text) (a b : ℕ) (s : Text) → drop (length front + 2) (front ++ a ∷ b ∷ s) ≡ s
drop_past [] a b s = refl
drop_past (x ∷ front) a b s =
    let e : suc (length front) + 2 ≡ suc (length front + 2) = omega arith in
    rw e (drop_past front a b s)

-- A line is read as its numbers, whatever the name of the process is: the name may have spaces and
-- parentheses of its own.
pub parse_proc_stat-render :
    (l : Line)
    → IsLine l
    → parse_proc_stat (render l)
      ≡ and_then (atoi l.pid) (λ p.
        and_then
          (atoi l.pgid)
          (λ g. and_then (atoi l.sid) (λ s. some (record { pid = p; pgid = g; sid = s }))))
unfolding parse_proc_stat parse_ids
parse_proc_stat-render l h =
    let front = l.pid ++ b' ' ∷ b'(' ∷ l.comm in
    let whole : render l ≡ front ++ b')' ∷ b' ' ∷ tail l =
      sym (append_assoc l.pid (b' ' ∷ b'(' ∷ l.comm) (b')' ∷ b' ' ∷ tail l)) in
    let close : last_index b')' (render l) ≡ some (length front) =
      ap (last_index b')') whole
      ∙ last_index-after b')' front (b' ' ∷ tail l)
          (last_index-none b')' (b' ' ∷ tail l) (tail-IsOpen l h)) in
    let long : leb (length (render l)) (length front + 2) ≡ false =
      let n = ap length whole ∙ length-append front (b')' ∷ b' ' ∷ tail l) in
      let t =
        length-append l.state
          (b' ' ∷ (l.ppid ++ b' ' ∷ (l.pgid ++ b' ' ∷ (l.sid ++ b' ' ∷ l.more)))) in
      let z = h.state.0 in ground arith in
    let rest : drop (length front + 2) (render l) ≡ tail l =
      ap (drop (length front + 2)) whole ∙ drop_past front b')' b' ' (tail l) in
    let pid = cut_space-word l.pid (b'(' ∷ (l.comm ++ b')' ∷ b' ' ∷ tail l)) h.pid.1 in
    rw (close, long, pid, rest, fields-tail l h) refl
