-- ===== src/Session/Cleanup/Sent.antt =====
-- The groups that are terminated and the rounds of kills (session/cleanup.go).
use vibepit.Prelude.{
  ℕ, zero, suc, ◌+◌, ◌≡◌, ◌≤◌, ◌<◌, refl, ap, sym, subst, true, false, ◌||◌, List, [], ◌∷◌, All,
  Any, All-append, Any-append_left, Any-append_right, ◌⊎◌, ==_iff, Bool-cases, inl, inr, arith, ℤ,
  pos, negsuc, int_eq, is_empty, map,
}
use vibepit.Session.Cleanup.{
  Stat, ProcInfo, info, Signal, terminate_group, kill_process, is_killed, terminate, kill_rounds,
}

int_eq_eq : (a b : ℤ) → int_eq a b ≡ true → a ≡ b
int_eq_eq (pos a) (pos b) h = ap pos ((==_iff a b).0 h)
int_eq_eq (pos a) (negsuc b) h = ground arith
int_eq_eq (negsuc a) (pos b) h = ground arith
int_eq_eq (negsuc a) (negsuc b) h = ap negsuc ((==_iff a b).0 h)

module _ (P : ProcInfo → Type 0) (Q : Signal → Type 0)
    (group : (p : ProcInfo)
      → P p
      → int_eq p.pgid (pos 0) ≡ false
      → Q (terminate_group p.pgid)) where
  pub terminate_targets :
      (killed : List ℤ) (ps : List ProcInfo) → All P ps → All Q (terminate killed ps)
  unfolding terminate
  terminate_targets killed [] h = tt
  terminate_targets killed (p ∷ ps) h =
      let same = terminate_targets killed ps h.1 in
      let more = terminate_targets (p.pgid ∷ killed) ps h.1 in
      elim (Bool-cases (int_eq p.pgid (pos 0))) [
        | inl unnamed ↦ rw unnamed same
        | inr named ↦ elim (Bool-cases (is_killed p.pgid killed)) [
          | inl before ↦ rw (named, before) same
          | inr first ↦ rw (named, first) (group p h.0 named, more)
        ]
      ]

killed_before :
    (g : ℤ) (killed : List ℤ) (p : ProcInfo) (ps : List ProcInfo)
    → is_killed g (p.pgid ∷ killed) ≡ true
    → (is_killed g killed ≡ true)
      ⊎ Any (λ x. x ≡ terminate_group g) (terminate_group p.pgid ∷ terminate (p.pgid ∷ killed) ps)
unfolding is_killed
killed_before g killed p ps h = elim (Bool-cases (int_eq p.pgid g)) [
  | inl now ↦ inr (inl (ap terminate_group (int_eq_eq p.pgid g now)))
  | inr not_now ↦ inl (ground arith)
]

-- the group was terminated before, or is terminated now
pub terminate_reaches :
    (g : ℤ) (killed : List ℤ) (ps : List ProcInfo)
    → int_eq g (pos 0) ≡ false
    → Any (λ p. p.pgid ≡ g) ps
    → (is_killed g killed ≡ true) ⊎ Any (λ x. x ≡ terminate_group g) (terminate killed ps)
unfolding terminate is_killed
terminate_reaches g killed [] h at = absurd at
terminate_reaches g killed (p ∷ ps) h (inl here) =
    let named : int_eq p.pgid (pos 0) ≡ false =
      subst (λ a. int_eq a (pos 0) ≡ false) (sym here) h in
    elim (Bool-cases (is_killed p.pgid killed)) [
      | inl before ↦ inl (subst (λ a. is_killed a killed ≡ true) here before)
      | inr first ↦ inr (rw (named, first) (inl (ap terminate_group here)))
    ]
terminate_reaches g killed (p ∷ ps) h (inr at) =
    elim (Bool-cases (int_eq p.pgid (pos 0) || is_killed p.pgid killed)) [
      | inl skipped ↦ rw skipped (terminate_reaches g killed ps h at)
      | inr sent ↦ rw sent (elim (terminate_reaches g (p.pgid ∷ killed) ps h at) [
        | inl killed_now ↦ killed_before g killed p ps killed_now
        | inr later ↦ inr (inr later)
      ])
    ]

map_kills :
    (s : Stat) (ps : List ProcInfo)
    → Any (λ p. p ≡ info s) ps
    → Any (λ x. x ≡ kill_process s.pid) (map (λ p. kill_process p.pid) ps)
map_kills s [] at = absurd at
map_kills s (p ∷ ps) (inl here) = inl (ap (λ q. kill_process q.pid) here)
map_kills s (p ∷ ps) (inr at) = inr (map_kills s ps at)

pub some_busy : (s : Stat) (ps : List ProcInfo) → Any (λ p. p ≡ info s) ps → is_empty ps ≡ false
unfolding is_empty
some_busy s [] at = absurd at
some_busy s (p ∷ ps) at = refl

pub rounds_reach :
    (scan : ℕ → List ProcInfo) (s : Stat) (rounds j i : ℕ)
    → j < rounds
    → ((m : ℕ) → m < j → is_empty (scan (m + i)) ≡ false)
    → Any (λ p. p ≡ info s) (scan (j + i))
    → Any (λ x. x ≡ kill_process s.pid) (kill_rounds scan rounds i)
unfolding kill_rounds
rounds_reach scan s zero j i lt busy at = absurd (let z = lt in omega (arith, z))
rounds_reach scan s (suc rounds) zero i lt busy at =
    let e : 0 + i ≡ i = omega arith in
    let here = subst (λ n. Any (λ p. p ≡ info s) (scan n)) e at in
    rw (some_busy s (scan i) here)
      (Any-append_left (λ x. x ≡ kill_process s.pid) _ _ (map_kills s (scan i) here))
rounds_reach scan s (suc rounds) (suc j) i lt busy at =
    let z : 0 + i ≡ i = omega arith in
    let e : (m : ℕ) → suc m + i ≡ m + suc i = λ m. omega arith in
    let l : j < rounds = omega (arith, lt) in
    let now = subst (λ n. is_empty (scan n) ≡ false) z (busy 0 (omega arith)) in
    let busy_later : (m : ℕ) → m < j → is_empty (scan (m + suc i)) ≡ false = λ m le.
      subst (λ n. is_empty (scan n) ≡ false) (e m)
        (busy (suc m) (let q = le in omega (arith, q))) in
    let there = subst (λ n. Any (λ p. p ≡ info s) (scan n)) (e j) at in
    let later = rounds_reach scan s rounds j (suc i) l busy_later there in
    rw now (Any-append_right (λ x. x ≡ kill_process s.pid) _ _ later)

module _ (P : ℕ → ProcInfo → Type 0) (Q : Signal → Type 0) (last : ℕ)
    (kill : (i : ℕ) (p : ProcInfo) → 1 ≤ i → i ≤ last → P i p → Q (kill_process p.pid)) where
  map_targets :
      (i : ℕ)
      → 1 ≤ i
      → i ≤ last
      → (ps : List ProcInfo) → All (P i) ps
      → All Q (map (λ p. kill_process p.pid) ps)
  map_targets i lo hi [] h = tt
  map_targets i lo hi (p ∷ ps) h = (kill i p lo hi h.0, map_targets i lo hi ps h.1)

  pub rounds_targets :
      (scan : ℕ → List ProcInfo)
      → ((i : ℕ) → All (P i) (scan i))
      → (rounds i : ℕ) → 1 ≤ i
      → rounds + i ≡ suc last
      → All Q (kill_rounds scan rounds i)
  unfolding kill_rounds
  rounds_targets scan h zero i lo e = tt
  rounds_targets scan h (suc rounds) i lo e =
      let hi : i ≤ last = omega (arith, e) in
      let rest = rounds_targets scan h rounds (suc i) (omega arith) (omega (arith, e)) in
      elim (Bool-cases (is_empty (scan i))) [
        | inl idle ↦ rw idle tt
        | inr busy ↦ rw busy (All-append Q _ _ (map_targets i lo hi (scan i) (h i)) rest)
      ]
