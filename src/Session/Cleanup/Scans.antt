-- ===== src/Session/Cleanup/Scans.antt =====
-- The processes that a scan of /proc finds (session/cleanup.go).
use vibepit.Prelude.{
  Text, ◌≡◌, refl, ap, sym, ◌∙◌, subst, true, false, Option, none, some, List, [], ◌∷◌, All, Any,
  Bool-cases, Option-cases, inl, inr, arith, ℤ, int_eq,
}
use vibepit.Session.Cleanup.{
  Stat, ProcInfo, Scan, belongs, info, stat_of, keep_process, find_processes,
}

-- A process that a scan shows, in the session and neither the shell nor the program itself.
pub record Runs (sid shell self : ℤ) (files : Scan) (s : Stat) : Type 0 where
  pub shown : Any (λ file. stat_of file ≡ some s) files
  pub session : int_eq s.sid sid ≡ true
  pub other : int_eq s.pid shell ≡ false
  pub foreign : int_eq s.pid self ≡ false

abbrev pub Found : ℤ → ℤ → ℤ → Scan → ProcInfo → Type 0
Found sid shell self files p = (s : Stat) × Runs sid shell self files s × (p ≡ info s)

belongs-Runs :
    (sid shell self : ℤ) (files : Scan) (s : Stat)
    → belongs sid shell self s ≡ true
    → Any (λ file. stat_of file ≡ some s) files
    → Runs sid shell self files s
unfolding belongs
belongs-Runs sid shell self files s h at = record {
  shown = at;
  session = ground arith;
  other = ground arith;
  foreign = ground arith;
}

pub Runs-belongs :
    (sid shell self : ℤ) (files : Scan) (s : Stat)
    → Runs sid shell self files s
    → belongs sid shell self s ≡ true
unfolding belongs
Runs-belongs sid shell self files s r = rw (r.session, r.other, r.foreign) refl

run_in_more :
    (sid shell self : ℤ) (file : Option Text) (files : Scan) (s : Stat)
    → Runs sid shell self files s
    → Runs sid shell self (file ∷ files) s
run_in_more sid shell self file files s r = record {
  shown = inr r.shown;
  session = r.session;
  other = r.other;
  foreign = r.foreign;
}

later_ones :
    (sid shell self : ℤ) (file : Option Text) (files : Scan) (ps : List ProcInfo)
    → All (Found sid shell self files) ps
    → All (Found sid shell self (file ∷ files)) ps
later_ones sid shell self file files [] h = tt
later_ones sid shell self file files (p ∷ ps) h =
    let r = run_in_more sid shell self file files h.0.0 h.0.1 in
    ((h.0.0, r, h.0.2), later_ones sid shell self file files ps h.1)

find_unread :
    (sid shell self : ℤ) (file : Option Text) (files : Scan)
    → stat_of file ≡ none
    → find_processes sid shell self (file ∷ files) ≡ find_processes sid shell self files
unfolding find_processes keep_process
find_unread sid shell self file files e =
    ap (λ o. keep_process sid shell self o (find_processes sid shell self files)) e

find_ours :
    (sid shell self : ℤ) (file : Option Text) (files : Scan) (s : Stat)
    → stat_of file ≡ some s
    → belongs sid shell self s ≡ true
    → find_processes sid shell self (file ∷ files) ≡ info s ∷ find_processes sid shell self files
unfolding find_processes keep_process
find_ours sid shell self file files s e ours =
    ap (λ o. keep_process sid shell self o (find_processes sid shell self files)) e ∙ rw ours refl

find_other :
    (sid shell self : ℤ) (file : Option Text) (files : Scan) (s : Stat)
    → stat_of file ≡ some s
    → belongs sid shell self s ≡ false
    → find_processes sid shell self (file ∷ files) ≡ find_processes sid shell self files
unfolding find_processes keep_process
find_other sid shell self file files s e other =
    ap (λ o. keep_process sid shell self o (find_processes sid shell self files)) e ∙ rw other refl

pub find_processes-Found :
    (sid shell self : ℤ) (files : Scan)
    → All (Found sid shell self files) (find_processes sid shell self files)
unfolding find_processes
find_processes-Found sid shell self [] = tt
find_processes-Found sid shell self (file ∷ files) =
    let P = All (Found sid shell self (file ∷ files)) in
    let rest = later_ones sid shell self file files _ (find_processes-Found sid shell self files) in
    elim (Option-cases (stat_of file)) [
      | inl unread ↦ subst P (sym (find_unread sid shell self file files unread)) rest
      | inr (s, read) ↦ elim (Bool-cases (belongs sid shell self s)) [
        | inl ours ↦
            let r = belongs-Runs sid shell self (file ∷ files) s ours (inl read) in
            subst P (sym (find_ours sid shell self file files s read ours)) ((s, r, refl), rest)
        | inr other ↦ subst P (sym (find_other sid shell self file files s read other)) rest
      ]
    ]

pub find_all :
    (sid shell self : ℤ) (s : Stat) (files : Scan)
    → belongs sid shell self s ≡ true
    → Any (λ file. stat_of file ≡ some s) files
    → Any (λ p. p ≡ info s) (find_processes sid shell self files)
find_all sid shell self s [] ours at = absurd at
find_all sid shell self s (file ∷ files) ours (inl read) =
    subst (Any (λ p. p ≡ info s)) (sym (find_ours sid shell self file files s read ours)) (inl refl)
find_all sid shell self s (file ∷ files) ours (inr at) =
    let P = Any (λ p. p ≡ info s) in
    let later = find_all sid shell self s files ours at in
    elim (Option-cases (stat_of file)) [
      | inl unread ↦ subst P (sym (find_unread sid shell self file files unread)) later
      | inr (t, read) ↦ elim (Bool-cases (belongs sid shell self t)) [
        | inl also ↦ subst P (sym (find_ours sid shell self file files t read also)) (inr later)
        | inr other ↦ subst P (sym (find_other sid shell self file files t read other)) later
      ]
    ]
