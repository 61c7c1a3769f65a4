-- ===== src/Cmd/Monitor/Feed.antt =====
-- The entries that a poll of the log gives the screen (proxy/log.go and cmd/monitor_ui.go).
use vibepit.Prelude.{
  ℕ, zero, suc, ◌+◌, ◌-◌, ◌≡◌, ◌≤◌, ◌<◌, refl, ap, sym, subst, ◌∙◌, some, List, [], ◌∷◌, ◌++◌, min,
  ap₂, length-append, length, get_elem?, drop, if◌then◌else◌, ◌==◌, All, length-drop, append_assoc,
  arith,
}
use vibepit.Proxy.LogBuffer.{LogEntry, LogBuffer, word, new_log_buffer, add_all, entries_after}
use vibepit.Proxy.LogBuffer.Ring.{stamp}
use vibepit.Proxy.LogBuffer.Queries.{length-stamp, drop-stamp, entries_after-last}
use vibepit.Cmd.Monitor.{last_id}

-- The IDs rise from above `low`, and the last one is `high`.
abbrev pub Ascends : ℕ → List LogEntry → ℕ → Type 0
Ascends low [] high = low ≡ high
Ascends low (e ∷ es) high = (low < e.id) × Ascends e.id es high

pub Ascends-append :
    (low mid high : ℕ) (es fs : List LogEntry)
    → Ascends low es mid
    → Ascends mid fs high
    → Ascends low (es ++ fs) high
Ascends-append low mid high [] fs h k = subst (λ n. Ascends n fs high) (sym h) k
Ascends-append low mid high (e ∷ es) fs h k = (h.0, Ascends-append e.id mid high es fs h.1 k)

stamp-Ascends :
    (low n : ℕ) (es : List LogEntry) → low < n → Ascends low (stamp n es) (last_id low (stamp n es))
unfolding stamp last_id
stamp-Ascends low n [] h = refl
stamp-Ascends low n (e ∷ es) h = (h, stamp-Ascends n (suc n) es (omega arith))

last_id-stamp :
    (low n bound : ℕ) (es : List LogEntry)
    → low ≤ bound
    → n + length es ≤ bound + 1
    → last_id low (stamp n es) ≤ bound
unfolding stamp last_id
last_id-stamp low n bound [] h k = h
last_id-stamp low n bound (e ∷ es) h k =
    last_id-stamp n (suc n) bound es (omega (arith, k)) (omega (arith, k))

-- The entry of the log with its ID.
abbrev pub IsLogged : List LogEntry → LogEntry → Type 0
IsLogged log e = get_elem? (stamp 1 log) (e.id - 1) ≡ some e

get_elem?-stamp :
    (n : ℕ) (front : List LogEntry) (e : LogEntry) (es : List LogEntry)
    → get_elem? (stamp n (front ++ e ∷ es)) (length front)
      ≡ some (record e { id = n + length front })
unfolding stamp
get_elem?-stamp n [] e es =
    let z : n ≡ n + 0 = omega arith in ap (λ k. some (record e { id = k })) z
get_elem?-stamp n (f ∷ front) e es =
    let z : suc n + length front ≡ n + suc (length front) = omega arith in
    get_elem?-stamp (suc n) front e es ∙ ap (λ k. some (record e { id = k })) z

stamp_logged :
    (log front es : List LogEntry)
    → log ≡ front ++ es
    → All (IsLogged log) (stamp (1 + length front) es)
unfolding stamp
stamp_logged log front [] h = tt
stamp_logged log front (e ∷ es) h =
    let here : 1 + length front - 1 ≡ length front = omega arith in
    let next : 1 + length (front ++ e ∷ []) ≡ suc (1 + length front) =
      omega (arith, length-append front (e ∷ [])) in
    (
      ap₂ (λ l i. get_elem? (stamp 1 l) i) h here ∙ get_elem?-stamp 1 front e es,
      subst (λ n. All (IsLogged log) (stamp n es)) next
          (stamp_logged log (front ++ e ∷ []) es (h ∙ sym (append_assoc front (e ∷ []) es))),
    )

All-drop : (P : LogEntry → Type 0) (n : ℕ) (es : List LogEntry) → All P es → All P (drop n es)
All-drop P zero es h = h
All-drop P (suc n) [] h = tt
All-drop P (suc n) (e ∷ es) h = All-drop P n es h.1

stamp-append :
    (n : ℕ) (es fs : List LogEntry) → stamp n (es ++ fs) ≡ stamp n es ++ stamp (n + length es) fs
unfolding stamp
stamp-append n [] fs = let z : n ≡ n + 0 = omega arith in ap (λ k. stamp k fs) z
stamp-append n (e ∷ es) fs =
    let z : suc n + length es ≡ n + suc (length es) = omega arith in
    ap (λ u. record e { id = n } ∷ u)
      (stamp-append (suc n) es fs ∙ ap (λ k. stamp (suc n) es ++ stamp k fs) z)

get_elem?-append :
    (es fs : List LogEntry) (i : ℕ) (e : LogEntry)
    → get_elem? es i ≡ some e
    → get_elem? (es ++ fs) i ≡ some e
get_elem?-append [] fs i e h = absurd cc
get_elem?-append (x ∷ es) fs zero e h = h
get_elem?-append (x ∷ es) fs (suc i) e h = get_elem?-append es fs i e h

pub IsLogged-append :
    (log more : List LogEntry) (e : LogEntry) → IsLogged log e → IsLogged (log ++ more) e
IsLogged-append log more e h =
    ap (λ u. get_elem? u (e.id - 1)) (stamp-append 1 log more)
    ∙ get_elem?-append (stamp 1 log) (stamp (1 + length log) more) (e.id - 1) e h

-- What a poll gives after the ID `a`.
pub record Feeds (log : List LogEntry) (a : ℕ) (new : List LogEntry) : Type 0 where
  pub ascends : Ascends a new (last_id a new)
  pub bound : last_id a new ≤ length log
  pub logged : All (IsLogged log) new

drop-Feeds :
    (log : List LogEntry) (a k : ℕ) → a ≤ k → k ≤ length log → Feeds log a (drop k (stamp 1 log))
drop-Feeds log a k h below =
    let size = length-drop k log in
    record {
      ascends = rw (drop-stamp k 1 log) (stamp-Ascends a (1 + k) (drop k log) (omega (arith, h)));
      bound = rw (drop-stamp k 1 log) (
          last_id-stamp a (1 + k) (length log) (drop k log) (omega (arith, h, below))
            (omega (arith, size, below)));
      logged = All-drop (IsLogged log) k (stamp 1 log) (stamp_logged log [] log refl);
    }

pub entries_after-Feeds :
    (capacity a : ℕ) (log : List LogEntry) (b : LogBuffer)
    → 0 < capacity
    → length log + 2 < word
    → a ≤ length log
    → add_all (new_log_buffer capacity) log ≡ some b
    → Feeds log a (entries_after b a)
entries_after-Feeds capacity a log b h room below steps =
    let n = if a == 0 then min 25 capacity else min capacity (length log - a) in
    let size = length-stamp 1 log in
    let first : a ≤ length (stamp 1 log) - n = ground (arith, size) in
    let inside : length (stamp 1 log) - n ≤ length log = omega (arith, size) in
    subst (Feeds log a) (sym (entries_after-last capacity a log b h room steps))
      (drop-Feeds log a (length (stamp 1 log) - n) first inside)
