-- ===== src/Proxy/Allowlist/Updates/NoLostUpdate.antt =====
-- Concurrent calls of `Add` lose no rules, and no call is held up for good.
use vibepit.Prelude.{
  ℕ, suc, ◌≡◌, ◌≤◌, refl, sym, ap, ◌∙◌, List, [], ◌∷◌, ◌++◌, append_assoc, append-nil, arith, ◌⊎◌,
  inl, inr, if◌then◌else◌, ◌==◌, count, count-append, Bool-cases,
}
use vibepit.Proxy.Allowlist.Updates.Cas.{
  Phase, start, loaded, returned, Shared, update, has_returned, act, run, committed,
  committed-append,
}

Phase-cases :
    {R : Type 0} (x : Phase R)
    → (x ≡ start) ⊎ ((p : ℕ) × (snapshot : List R) × (x ≡ loaded p snapshot)) ⊎ (x ≡ returned)
Phase-cases start = inl refl
Phase-cases (loaded p snapshot) = inr (inl (p, snapshot, refl))
Phase-cases returned = inr (inr refl)

module _ {R : Type 0} (batch : ℕ → List R) (initial : List R) where
  record Inv (s : Shared R) : Type 0 where
    stored : s.rules ≡ initial ++ committed batch s.log
    current_held : (t p : ℕ) (snapshot : List R) → s.phase t ≡ loaded p snapshot → p ≤ s.current
    same_held :
        (t p : ℕ) (snapshot : List R)
        → s.phase t ≡ loaded p snapshot
        → p ≡ s.current
        → snapshot ≡ s.rules
    once : (t : ℕ) → count t s.log ≡ has_returned (s.phase t)

  committed-snoc :
      (log : List ℕ) (t : ℕ)
      → initial ++ committed batch (log ++ t ∷ []) ≡ (initial ++ committed batch log) ++ batch t
  unfolding committed
  committed-snoc log t =
      rw (committed-append batch log (t ∷ []), append-nil (batch t))
        (sym (append_assoc initial (committed batch log) (batch t)))

  Inv-load :
      (s : Shared R) (t : ℕ)
      → s.phase t ≡ start
      → Inv s
      → Inv (record s { phase = update s.phase t (loaded s.current s.rules) })
  Inv-load s t at v = record {
    stored = v.stored;
    current_held = λ u p snapshot h. ground (arith, v.current_held u p snapshot);
    same_held = λ u p snapshot h e. ground (arith, v.same_held u p snapshot);
    once = λ u. ground (arith, v.once u);
  }

  Inv-retry :
      (s : Shared R) (t p : ℕ) (snapshot : List R)
      → s.phase t ≡ loaded p snapshot
      → Inv s
      → Inv (record s { phase = update s.phase t start })
  Inv-retry s t p snapshot at v = record {
    stored = v.stored;
    current_held = λ u q other h. ground (arith, v.current_held u q other);
    same_held = λ u q other h e. ground (arith, v.same_held u q other);
    once = λ u. ground (arith, v.once u);
  }

  Inv-swap :
      (s : Shared R) (t p : ℕ) (snapshot : List R)
      → s.phase t ≡ loaded p snapshot
      → p ≡ s.current
      → Inv s
      → Inv (record {
        current = suc s.current;
        rules = snapshot ++ batch t;
        phase = update s.phase t returned;
        log = s.log ++ t ∷ [];
      })
  unfolding count
  Inv-swap s t p snapshot at same v = record {
    stored =
        ap (λ l. l ++ batch t) (v.same_held t p snapshot at same ∙ v.stored)
        ∙ sym (committed-snoc s.log t);
    current_held = λ u q other h. ground (arith, v.current_held u q other);
    same_held = λ u q other h e. ground (arith, v.current_held u q other);
    once = λ u. ground (arith, v.once u, v.once t, count-append u s.log (t ∷ []));
  }

  act-Inv : (t : ℕ) (s : Shared R) → Inv s → Inv (act batch t s)
  unfolding act
  act-Inv t s v = elim (Phase-cases (s.phase t)) [
    | inl at ↦ rw (at, act) (Inv-load s t at v)
    | inr (inr done) ↦ rw (done, act) v
    | inr (inl (p, snapshot, at)) ↦
        rw (at, act)
          (elim (Bool-cases (p == s.current)) [
            | inl same ↦ rw same (Inv-swap s t p snapshot at (ground arith) v)
            | inr other ↦ rw other (Inv-retry s t p snapshot at v)
          ])
  ]

  run-Inv : (schedule : List ℕ) (s : Shared R) → Inv s → Inv (run batch schedule s)
  unfolding run
  run-Inv [] s v = v
  run-Inv (t ∷ ts) s v = run-Inv ts (act batch t s) (act-Inv t s v)

  -- the state before any call of `Add`
  abbrev pub before : Shared R
  before = record { current = 0; rules = initial; phase = λ t. start; log = [] }

  Inv-before : Inv before
  unfolding count committed
  Inv-before = record {
    stored = sym (append-nil initial);
    current_held = λ t p snapshot h. ground arith;
    same_held = λ t p snapshot h e. ground arith;
    once = λ t. refl;
  }

  -- However the calls of `Add` interleave, the rules are the initial ones and then the batches of
  -- the calls that have returned, in the order of their swaps, each exactly once.
  pub run-committed :
      (schedule : List ℕ)
      → ((run batch schedule before).rules
          ≡ initial ++ committed batch (run batch schedule before).log)
        × ((t : ℕ)
            → count t (run batch schedule before).log
              ≡ has_returned ((run batch schedule before).phase t))
  run-committed schedule = let v = run-Inv schedule before Inv-before in (v.stored, v.once)

module _ {R : Type 0} (batch : ℕ → List R) (t : ℕ) where
  act-returned : (s : Shared R) → s.phase t ≡ returned → (act batch t s).phase t ≡ returned
  unfolding act
  act-returned s e = rw (e, act) e

  act-start :
      (s : Shared R)
      → s.phase t ≡ start
      → ((act batch t s).phase t ≡ loaded s.current s.rules) × ((act batch t s).current ≡ s.current)
  unfolding act
  act-start s e = rw (e, act) (ground arith, refl)

  act-loaded :
      (s : Shared R) (p : ℕ) (snapshot : List R)
      → s.phase t ≡ loaded p snapshot
      → (act batch t s).phase t ≡ (if p == s.current then returned else start)
  unfolding act
  act-loaded s p snapshot e = rw (e, act) (ground arith)

  act_twice-start :
      (s : Shared R) → s.phase t ≡ start → (act batch t (act batch t s)).phase t ≡ returned
  act_twice-start s e =
      let (held, same) = act-start s e in
      let next = act-loaded (act batch t s) s.current s.rules held in ground (arith, next, same)

-- A goroutine that takes three actions in a row returns, whatever it had loaded before: a failed
-- swap is followed by a load and a swap that nothing comes between.
pub run-returns :
    {R : Type 0} (batch : ℕ → List R) (s : Shared R) (t : ℕ)
    → (run batch (t ∷ t ∷ t ∷ []) s).phase t ≡ returned
unfolding run
run-returns batch s t = elim (Phase-cases (s.phase t)) [
  | inl at ↦ act-returned batch t (act batch t (act batch t s)) (act_twice-start batch t s at)
  | inr (inr done) ↦
      act-returned batch t (act batch t (act batch t s))
        (act-returned batch t (act batch t s) (act-returned batch t s done))
  | inr (inl (p, snapshot, at)) ↦ elim (Bool-cases (p == s.current)) [
    | inl same ↦ act-returned batch t (act batch t (act batch t s)) (
        act-returned batch t (act batch t s)
          (ground (arith, same, act-loaded batch t s p snapshot at)))
    | inr other ↦
        act_twice-start batch t (act batch t s)
          (ground (arith, other, act-loaded batch t s p snapshot at))
  ]
]
