-- ===== src/Proxy/Presets/Expansion.antt =====
-- The expansion ends, and finds exactly the domains of the presets that the names include
-- (proxy/presets.go).
use vibepit.Prelude.{
  ℕ, zero, suc, ◌≡◌, ◌≤◌, ◌<◌, ◌↔◌, inl, inr, refl, sym, subst, true, false, Option, none, some,
  List, [], ◌∷◌, Text, text_eq, text_eq_iff, text_eq_self, length, if◌then◌else◌, arith, Bool-cases,
  Option-cases,
}
use vibepit.Proxy.Presets.{Preset, has, get, Search, visit, each, expand_new, expand_name, expand}
use vibepit.Proxy.Presets.Domains.{IsDistinct}
use vibepit.Proxy.Presets.Growth.{
  Source, IsDone, Grows, nothing_new, in_turn, visit-Grows, preset-Grows,
}

-- How many presets have a name that is not visited.
unfoldable left : List Preset → List Text → ℕ
left [] visited = 0
left (p ∷ ps) visited = let rest = left ps visited in if has p.name visited then rest else suc rest

left_all : (ps : List Preset) → left ps [] ≤ length ps
unfolding left has
left_all [] = omega arith
left_all (p ∷ ps) = omega (arith, left_all ps)

left_fewer :
    (ps : List Preset) (visited more : List Text)
    → ((x : Text) → has x visited ≡ true → has x more ≡ true)
    → left ps more ≤ left ps visited
unfolding left
left_fewer [] visited more k = omega arith
left_fewer (p ∷ ps) visited more k = ground (arith, k p.name, left_fewer ps visited more k)

left_visit :
    (ps : List Preset) (name : Text) (p : Preset) (visited : List Text)
    → get ps name ≡ some p
    → has name visited ≡ false
    → left ps (name ∷ visited) < left ps visited
unfolding left has get
left_visit [] name p visited known new = cc
left_visit (q ∷ ps) name p visited known new =
    let fewer = left_fewer ps visited (name ∷ visited) (λ x h. ground (arith, h)) in
    elim (Option-cases (get ps name)) [
      | inr (r, e) ↦ let rest = left_visit ps name r visited e new in ground (arith, rest)
      | inl e ↦ elim (Bool-cases (text_eq q.name name)) [
        | inl f ↦
            let same : q.name ≡ name = (text_eq_iff q.name name).0 f in
            let back = (text_eq_iff name q.name).1 (sym same) in
            let unseen : has q.name visited ≡ false =
              subst (λ t. has t visited ≡ false) (sym same) new in
            ground (arith, back, unseen, fewer)
        | inr f ↦ absurd (ground (arith, e, f, known))
      ]
    ]

module _ (presets : List Preset) (R : Text → Type 0)
    (onward : (x : Text) (p : Preset) (y : Text)
      → R x
      → get presets x ≡ some p
      → has y p.includes ≡ true
      → R y) where
  -- A call for a name succeeds, and grows what is found by the name.
  abbrev Succeeds : Search → Text → Option Search → Type 0
  Succeeds st name r =
      (next : Search) × (r ≡ some next) × Grows presets R st next × (has name next.visited ≡ true)

  abbrev Works : ℕ → (Text → Search → Option Search) → Type 0
  Works bound f =
      (name : Text) (st : Search)
      → left presets st.visited < bound
      → R name
      → Succeeds st name (f name st)

  each-Succeeds :
      (bound : ℕ) (f : Text → Search → Option Search)
      → Works bound f
      → (names : List Text) (st : Search) → left presets st.visited < bound
      → ((y : Text) → has y names ≡ true → R y)
      → (next : Search) × (each f names st ≡ some next)
        × Grows presets R st next
        × ((y : Text) → has y names ≡ true → has y next.visited ≡ true)
  unfolding each has
  each-Succeeds bound f w [] st h r = (st, refl, nothing_new presets R st, λ y m. cc)
  each-Succeeds bound f w (name ∷ names) st h r =
      let (mid, e, g, m) = w name st h (r name (ground (arith, text_eq_self name))) in
      let fewer = left_fewer presets st.visited mid.visited g.keeps in
      let (next, f_next, k, n) =
        each-Succeeds bound f w names mid (omega (arith, fewer, h))
          (λ y q. r y (ground (arith, q))) in
      (
        next,
        rw e f_next,
        in_turn presets R st mid next g k,
        λ y q. elim (Bool-cases (text_eq name y)) [
          | inl s ↦
              let same : name ≡ y = (text_eq_iff name y).0 s in
              subst (λ t. has t next.visited ≡ true) same (k.keeps name m)
          | inr s ↦ n y (ground (arith, q, s))
        ],
      )

  new-Succeeds :
      (bound : ℕ) (f : Text → Search → Option Search)
      → Works bound f
      → (o : Option Preset) (name : Text) (st : Search) → get presets name ≡ o
      → has name st.visited ≡ false
      → left presets st.visited < suc bound
      → R name
      → Succeeds st name (expand_new f o name st)
  unfolding expand_new has
  new-Succeeds bound f w none name st e new h r =
      (visit name st, refl, visit-Grows presets R st name e, ground (arith, text_eq_self name))
  new-Succeeds bound f w (some p) name st e new h r =
      let fewer = left_visit presets name p st.visited e new in
      let (found, eq, g, m) =
        each-Succeeds bound f w p.includes (visit name st) (omega (arith, fewer, h))
          (λ y q. onward name p y r e q) in
      (
        _,
        rw eq refl,
        preset-Grows presets R st found name p e r g m,
        g.keeps name (ground (arith, text_eq_self name)),
      )

  expand_name-Works : (fuel : ℕ) → Works fuel (expand_name presets fuel)
  unfolding expand_name
  expand_name-Works zero name st h r = absurd (omega (arith, h))
  expand_name-Works (suc fuel) name st h r = elim (Bool-cases (has name st.visited)) [
    | inl e ↦ (st, rw (e, expand_name) refl, nothing_new presets R st, e)
    | inr e ↦
        rw (e, expand_name)
          (new-Succeeds fuel (expand_name presets fuel) (expand_name-Works fuel) (get presets name)
            name st refl e h r)
  ]

-- The preset names that the given names include, directly or through other presets.
pub data IsIncluded (presets : List Preset) (names : List Text) : Text → Type 0 where
  named : (x : Text) → has x names ≡ true → IsIncluded presets names x
  included :
      (x : Text) (p : Preset) (y : Text)
      → IsIncluded presets names x
      → get presets x ≡ some p
      → has y p.includes ≡ true
      → IsIncluded presets names y

-- The names that are included are visited, if what is visited is done.
included-visited :
    (presets : List Preset) (names : List Text) (found : Search)
    → ((y : Text) → has y names ≡ true → has y found.visited ≡ true)
    → ((y : Text) → has y found.visited ≡ true → IsDone presets (IsIncluded presets names) found y)
    → (x : Text) → IsIncluded presets names x
    → has x found.visited ≡ true
included-visited presets names found n d _ (named x h) = n x h
included-visited presets names found n d _ (included x p y i e h) =
    (d x (included-visited presets names found n d x i) p e).0 y h

-- The expansion ends on all inputs, cycles of includes among them; it lists no domain twice, and a
-- domain exactly if it is one of a preset that the names include, directly or through others.
pub expand-IsIncluded :
    (presets : List Preset) (names : List Text)
    → (found : Search) × (expand presets names ≡ some found)
      × IsDistinct found.domains
      × ((d : Text) → (has d found.domains ≡ true) ↔ Source presets (IsIncluded presets names) d)
unfolding expand has
expand-IsIncluded presets names =
    let R = IsIncluded presets names in
    let bound = suc (length presets) in
    let (found, e, g, n) =
      each-Succeeds presets R (λ x p y i k h. included x p y i k h) bound
        (expand_name presets bound)
        (expand_name-Works presets R (λ x p y i k h. included x p y i k h) bound) names
        (record { visited = []; domains = [] }) (omega (arith, left_all presets))
        (λ y h. named y h) in
    let done : (y : Text) → has y found.visited ≡ true → IsDone presets R found y =
      λ y h. elim (g.done y h) [ inl old ↦ cc old | inr d ↦ d ] in
    (
      found,
      e,
      g.distinct tt,
      λ d. (
        λ h. elim (g.sound d h) [ inl old ↦ cc old | inr s ↦ s ],
        λ s.
            (done s.name (included-visited presets names found n done s.name s.allowed) s.preset
                s.known).1
              d s.listed,
      ),
    )
