-- ===== src/Proxy/LogBuffer/Stats.antt =====
-- The statistics count every entry since the start, also those that the ring has dropped.
use vibepit.Prelude.{
  ℕ, suc, ◌+◌, ◌≡◌, ◌≤◌, ◌<◌, refl, sym, subst, Bool, true, false, Option, none, some, List, [],
  ◌∷◌, Text, text_eq, text_eq_iff, length, arith, if◌then◌else◌, ◌==◌, Bool-cases, Option-cases,
  inl, inr,
}
use native.Mathlib.Nat.{add_assoc}
use vibepit.Proxy.LogBuffer.{
  LogEntry, LogBuffer, Action, allow, block, DomainStats, word, new_log_buffer, bump, count_entry,
  add, added, add_all, stats_of,
}

abbrev same_action : Action → Action → Bool
same_action allow allow = true
same_action block block = true
same_action _ _ = false

-- How many of the entries are of a domain and have an action.
unfoldable pub tally : Text → Action → List LogEntry → ℕ
tally d a [] = 0
tally d a (e ∷ es) =
    let rest = tally d a es in
    if text_eq e.domain d then (if same_action e.action a then suc rest else rest) else rest

-- The counters that the entries ask for; a domain with no entry has none.
abbrev pub summary : ℕ → ℕ → Option DomainStats
summary a b = if a + b == 0 then none else some (record { allowed = a; blocked = b })

abbrev or_zero : Option DomainStats → DomainStats
or_zero none = record { allowed = 0; blocked = 0 }
or_zero (some s) = s

stats_of-count_entry :
    (k d : Text) (a : Action) (m : List (Text × DomainStats))
    → stats_of d (count_entry k a m)
      ≡ (if text_eq k d then some (bump a (or_zero (stats_of d m))) else stats_of d m)
unfolding stats_of count_entry
stats_of-count_entry k d a [] = refl
stats_of-count_entry k d a ((j, s) ∷ m) =
    ground (arith, stats_of-count_entry k d a m, text_eq_iff j k, text_eq_iff j d, text_eq_iff k d)

add-added : (b : LogBuffer) (e : LogEntry) {c : LogBuffer} → add b e ≡ some c → c ≡ added b e
unfolding add
add-added b e h = ground arith

tally-cons :
    (d : Text) (a : Action) (e : LogEntry) (es : List LogEntry)
    → tally d a (e ∷ es) ≡ tally d a (e ∷ []) + tally d a es
unfolding tally
tally-cons d a e es = ground arith

tally-one : (d : Text) (e : LogEntry) → tally d allow (e ∷ []) + tally d block (e ∷ []) ≤ 1
unfolding tally
tally-one d e = elim (Bool-cases (text_eq e.domain d)) [
  | inl same ↦ rw same (one_action e.action)
  | inr other ↦ rw other (omega arith)
]
  where
    one_action :
        (a : Action)
        → (if same_action a allow then suc 0 else 0) + (if same_action a block then suc 0 else 0)
          ≤ 1
    one_action allow = omega arith
    one_action block = omega arith

-- One entry, by its action.
summary-bump :
    (x y : ℕ) (a : Action)
    → x + y + 1 < word
    → some (bump a (or_zero (summary x y)))
      ≡ summary
          (x + (if same_action a allow then 1 else 0))
          (y + (if same_action a block then 1 else 0))
unfolding bump
summary-bump x y allow room = ground arith
summary-bump x y block room = ground arith

stats-added :
    (d : Text) (b : LogBuffer) (e : LogEntry) (x y : ℕ)
    → stats_of d b.stats ≡ summary x y
    → x + y + 1 < word
    → stats_of d (added b e).stats
      ≡ summary (x + tally d allow (e ∷ [])) (y + tally d block (e ∷ []))
unfolding added tally
stats-added d b e x y s room = elim (Bool-cases (text_eq e.domain d)) [
  | inl same ↦
      rw (stats_of-count_entry e.domain d e.action b.stats, same, s)
        (summary-bump x y e.action room)
  | inr other ↦ rw (stats_of-count_entry e.domain d e.action b.stats, other, s) (ground arith)
]

stats-add_all :
    (d : Text) (b : LogBuffer) (es : List LogEntry) (x y : ℕ) {c : LogBuffer}
    → add_all b es ≡ some c
    → stats_of d b.stats ≡ summary x y
    → x + y + length es < word
    → stats_of d c.stats ≡ summary (x + tally d allow es) (y + tally d block es)
unfolding add_all
stats-add_all d b [] x y h s room = unfold tally in ground arith
stats-add_all d b (e ∷ es) x y {c} h s room = elim (Option-cases (add b e)) [
  | inl panicked ↦ ground (arith, panicked)
  | inr (next, stepped) ↦
      let same = add-added b e stepped in
      let x' = x + tally d allow (e ∷ []) in
      let y' = y + tally d block (e ∷ []) in
      let one = tally-one d e in
      let here : stats_of d next.stats ≡ summary x' y' =
        subst (λ n. stats_of d n.stats ≡ summary x' y') (sym same)
          (stats-added d b e x y s (omega arith)) in
      let rest =
        stats-add_all d next es x' y' {c = c} (ground (arith, stepped)) here (omega (arith, one)) in
      rw
        (
          tally-cons d allow e es,
          tally-cons d block e es,
          sym (add_assoc x (tally d allow (e ∷ [])) (tally d allow es)),
          sym (add_assoc y (tally d block (e ∷ [])) (tally d block es)),
        )
        rest
]

-- After any run of `Add` on a new buffer, short of the range of the counters, the statistics of
-- each domain are the numbers of its allowed and blocked entries in the whole run, and a domain
-- with no entry has none.
pub stats-new :
    (capacity : ℕ) (d : Text) (es : List LogEntry) (b : LogBuffer)
    → add_all (new_log_buffer capacity) es ≡ some b
    → length es < word
    → stats_of d b.stats ≡ summary (tally d allow es) (tally d block es)
stats-new capacity d es b h room =
    let empty : stats_of d (new_log_buffer capacity).stats ≡ summary 0 0 =
      unfold stats_of new_log_buffer in refl in
    let all = stats-add_all d (new_log_buffer capacity) es 0 0 h empty (omega arith) in
    ground (arith, all)
