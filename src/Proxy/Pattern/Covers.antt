-- ===== src/Proxy/Pattern/Covers.antt =====
-- What it means for a pattern to cover a host: `*` stands for one label, `**` for one or more.
use vibepit.Prelude.{
  ℕ, suc, ◌+◌, ◌-◌, ◌≤◌, ◌≡◌, ◌≢◌, refl, sym, ap, List, [], ◌∷◌, ◌++◌, Text, length, take, drop,
  arith, ◌⊎◌, All, subst,
}
use native.Mathlib.Decide.{dec_lt}
use vibepit.Proxy.Pattern.{star, double_star}

-- One label of a pattern against one label of a host.
abbrev pub CoversLabel : Text → Text → Type 0
CoversLabel p h = (p ≡ star) ⊎ (p ≡ h)

pub data Covers : List Text → List Text → Type 0 where
  end : Covers [] []
  one :
      {p h : Text} {ps hs : List Text}
      → p ≢ double_star
      → CoversLabel p h
      → Covers ps hs
      → Covers (p ∷ ps) (h ∷ hs)
  last :
      {p h : Text} {ps hs : List Text} → p ≡ double_star → Covers ps hs → Covers (p ∷ ps) (h ∷ hs)
  more :
      {p h : Text} {ps hs : List Text}
      → p ≡ double_star
      → Covers (p ∷ ps) hs
      → Covers (p ∷ ps) (h ∷ hs)

-- labels_of with no `**` among them.
abbrev pub Plain : List Text → Type 0
Plain = All (λ p. p ≢ double_star)

pub Covers-length : {ps hs : List Text} → Covers ps hs → Plain ps → length ps ≡ length hs
Covers-length end q = refl
Covers-length (one n c d) q = omega (arith, Covers-length d q.1)
Covers-length (last e d) q = absurd (q.0 e)
Covers-length (more e d) q = absurd (q.0 e)

pub Covers-head :
    {p h : Text} {ps hs : List Text} → Covers (p ∷ ps) (h ∷ hs) → p ≢ double_star → CoversLabel p h
Covers-head (one n c d) q = c
Covers-head (last e d) q = absurd (q e)
Covers-head (more e d) q = absurd (q e)

pub Covers-tail :
    {p h : Text} {ps hs : List Text} → Covers (p ∷ ps) (h ∷ hs) → p ≢ double_star → Covers ps hs
Covers-tail (one n c d) q = d
Covers-tail (last e d) q = absurd (q e)
Covers-tail (more e d) q = absurd (q e)

-- What is left for the labels after a `**`: the end of the host, with at least one label before it.
abbrev CoversEnd : List Text → List Text → Type 0
CoversEnd after hs =
    (length after + 1 ≤ length hs) × Covers after (drop (length hs - length after) hs)

drop_past :
    (h : Text) (hs : List Text) (n : ℕ)
    → n ≤ length hs
    → drop (suc (length hs) - n) (h ∷ hs) ≡ drop (length hs - n) hs
drop_past h hs n le =
    let e : suc (length hs) - n ≡ suc (length hs - n) = omega arith in ap (λ k. drop k (h ∷ hs)) e

pub stars→CoversEnd :
    (p : Text) (after hs : List Text)
    → p ≡ double_star
    → Plain after
    → Covers (p ∷ after) hs
    → CoversEnd after hs
stars→CoversEnd p after [] e q d = elim d [ ]
stars→CoversEnd p after (h ∷ hs) e q (one n c d) = absurd (n e)
stars→CoversEnd p after (h ∷ hs) e q (last s d) =
    let same = Covers-length d q in
    let e : ◌≡◌ {A = ℕ} 1 (suc (length hs) - length after) = omega arith in
    (omega arith, subst (λ k. Covers after (drop k (h ∷ hs))) e d)
stars→CoversEnd p after (h ∷ hs) e q (more s d) =
    let (enough, rest) = stars→CoversEnd p after hs e q d in
    (omega arith, subst (Covers after) (sym (drop_past h hs (length after) (omega arith))) rest)

pub CoversEnd→stars :
    (p : Text) (after hs : List Text) → p ≡ double_star → CoversEnd after hs → Covers (p ∷ after) hs
CoversEnd→stars p after [] e c = absurd (omega arith)
CoversEnd→stars p after (h ∷ hs) e (enough, d) = elim (dec_lt (length after) (length hs)) [
  | yes room ↦ more e (
      CoversEnd→stars p after hs e
        (omega arith, subst (Covers after) (drop_past h hs (length after) (omega arith)) d))
  | no full ↦
      let e1 : suc (length hs) - length after ≡ 1 = omega arith in
      last e (subst (λ k. Covers after (drop k (h ∷ hs))) e1 d)
]

-- A pattern with one `**` covers a host exactly if the host is long enough, its first labels are
-- covered by what stands before the `**`, and its last labels by what stands after it.
abbrev pub CoversAround : List Text → List Text → List Text → Type 0
CoversAround before after hs =
    (length before + length after + 1 ≤ length hs)
    × Covers before (take (length before) hs)
    × Covers after (drop (length hs - length after) hs)

module _ (p : Text) (after : List Text) (stars : p ≡ double_star) where
  pub Covers→around :
      (before hs : List Text)
      → Plain before
      → Plain after
      → Covers (before ++ p ∷ after) hs
      → CoversAround before after hs
  Covers→around [] hs b a d =
      let (enough, rest) = stars→CoversEnd p after hs stars a d in (omega arith, end, rest)
  Covers→around (q ∷ qs) [] b a d = elim d [ ]
  Covers→around (q ∷ qs) (h ∷ hs) b a d =
      let (enough, front, rest) = Covers→around qs hs b.1 a (Covers-tail d b.0) in
      (
        omega arith,
        one b.0 (Covers-head d b.0) front,
        subst (Covers after) (sym (drop_past h hs (length after) (omega arith))) rest,
      )

  pub around→Covers :
      (before hs : List Text)
      → Plain before
      → CoversAround before after hs
      → Covers (before ++ p ∷ after) hs
  around→Covers [] hs b (enough, front, rest) = CoversEnd→stars p after hs stars (omega arith, rest)
  around→Covers (q ∷ qs) [] b (enough, front, rest) = absurd (omega arith)
  around→Covers (q ∷ qs) (h ∷ hs) b (enough, front, rest) = one b.0 (Covers-head front b.0) (
      around→Covers qs hs b.1 (
        omega arith,
        Covers-tail front b.0,
        subst (Covers after) (drop_past h hs (length after) (omega arith)) rest,
      ))
