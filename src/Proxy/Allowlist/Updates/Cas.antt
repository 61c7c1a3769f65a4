-- ===== src/Proxy/Allowlist/Updates/Cas.antt =====
-- The loop of `Add`: load the pointer, build the merged slice, compare and swap, or load again.
-- A pointer is a number; a slice is stored once, under a number not used before, and the slice
-- behind a pointer that a goroutine still holds is not collected.
use vibepit.Prelude.{ℕ, suc, ◌≡◌, refl, sym, List, [], ◌∷◌, ◌++◌, append_assoc, if◌then◌else◌, ◌==◌}

-- Where a goroutine stands in its call of `Add`, with the pointer and the slice that it loaded.
pub data Phase (R : Type 0) : Type 0 where
  start : Phase R
  loaded : ℕ → List R → Phase R
  returned : Phase R

-- The atomic pointer with the slice behind it, and the goroutines by number. `log` lists the
-- goroutines in the order of their successful swaps; the program does not keep it.
pub record Shared (R : Type 0) : Type 0 where
  pub current : ℕ
  pub rules : List R
  pub phase : ℕ → Phase R
  pub log : List ℕ

module _ {R : Type 0} where
  abbrev pub update : (ℕ → Phase R) → ℕ → Phase R → ℕ → Phase R
  update f t p u = if u == t then p else f u

  abbrev pub has_returned : Phase R → ℕ
  has_returned returned = 1
  has_returned _ = 0

  module _ (batch : ℕ → List R) where
    -- the next atomic action of goroutine `t`, which adds the rules `batch t`
    unfoldable pub act : ℕ → Shared R → Shared R
    act t s = elim (s.phase t) [
      | start ↦ record s { phase = update s.phase t (loaded s.current s.rules) }
      | loaded p snapshot ↦
          if p == s.current
          then record {
            current = suc s.current;
            rules = snapshot ++ batch t;
            phase = update s.phase t returned;
            log = s.log ++ t ∷ [];
          }
          else record s { phase = update s.phase t start }
      | returned ↦ s
    ]

    -- an interleaving: whose action comes next
    unfoldable pub run : List ℕ → Shared R → Shared R
    run [] s = s
    run (t ∷ ts) s = run ts (act t s)

    unfoldable pub committed : List ℕ → List R
    committed [] = []
    committed (t ∷ ts) = batch t ++ committed ts

    pub committed-append : (ts us : List ℕ) → committed (ts ++ us) ≡ committed ts ++ committed us
    unfolding committed
    committed-append [] us = refl
    committed-append (t ∷ ts) us =
        rw (committed-append ts us) (sym (append_assoc (batch t) (committed ts) (committed us)))
