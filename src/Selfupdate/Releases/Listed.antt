-- ===== src/Selfupdate/Releases/Listed.antt =====
-- The lists of releases, by their versions (selfupdate/releases.go).
use vibepit.Prelude.{
  ◌≡◌, refl, ap, sym, ◌∙◌, subst, Bool, true, false, not, ◌&&◌, ◌||◌, List, [], ◌∷◌, ◌++◌, Text,
  text_eq, text_eq_iff, Bool-cases, inl, inr, if◌then◌else◌, arith,
}
use vibepit.Selfupdate.Version.{Semver, is_before, is_after}
use vibepit.Selfupdate.Releases.{
  ReleaseEntry, in_range, filter_range, insert_newest, sort_newest, seen, add_releases,
}

-- No two releases have the same version.
abbrev pub IsDistinct : List ReleaseEntry → Type 0
IsDistinct [] = Unit
IsDistinct (r ∷ rs) = (seen r.version rs ≡ false) × IsDistinct rs

seen-snoc :
    (v : Text) (out : List ReleaseEntry) (r : ReleaseEntry)
    → seen v (out ++ r ∷ []) ≡ (seen v out || text_eq r.version v)
unfolding seen
seen-snoc v [] r = ground arith
seen-snoc v (x ∷ out) r = ground (arith, seen-snoc v out r)

text_eq_sym : (s t : Text) → text_eq s t ≡ false → text_eq t s ≡ false
text_eq_sym s t h = elim (Bool-cases (text_eq t s)) [
  | inl same ↦ let e = (text_eq_iff s t).1 (sym ((text_eq_iff t s).0 same)) in ground arith
  | inr other ↦ other
]

IsDistinct-snoc :
    (out : List ReleaseEntry) (r : ReleaseEntry)
    → IsDistinct out
    → seen r.version out ≡ false
    → IsDistinct (out ++ r ∷ [])
unfolding seen
IsDistinct-snoc [] r d h = (refl, tt)
IsDistinct-snoc (x ∷ out) r d h =
    let not_x : text_eq x.version r.version ≡ false = ground arith in
    let not_out : seen r.version out ≡ false = ground arith in
    let not_r = text_eq_sym x.version r.version not_x in
    let first : seen x.version (out ++ r ∷ []) ≡ false =
      let e = seen-snoc x.version out r in let f = d.0 in ground arith in
    (first, IsDistinct-snoc out r d.1 not_out)

pub add_releases-IsDistinct :
    (out more : List ReleaseEntry) → IsDistinct out → IsDistinct (add_releases out more)
unfolding add_releases
add_releases-IsDistinct out [] d = d
add_releases-IsDistinct out (r ∷ more) d = elim (Bool-cases (seen r.version out)) [
  | inl again ↦ rw again (add_releases-IsDistinct out more d)
  | inr first ↦
      rw first (add_releases-IsDistinct (out ++ r ∷ []) more (IsDistinct-snoc out r d first))
]

seen_again :
    (v : Text) (r : ReleaseEntry) (out more : List ReleaseEntry)
    → seen r.version out ≡ true
    → (seen v out || seen v more) ≡ (seen v out || (text_eq r.version v || seen v more))
seen_again v r out more again = elim (Bool-cases (text_eq r.version v)) [
  | inl same ↦
      let e = subst (λ w. seen w out ≡ true) ((text_eq_iff r.version v).0 same) again in
      ground arith
  | inr other ↦ ground arith
]

pub seen-add_releases :
    (v : Text) (out more : List ReleaseEntry)
    → seen v (add_releases out more) ≡ (seen v out || seen v more)
unfolding add_releases seen
seen-add_releases v out [] = ground arith
seen-add_releases v out (r ∷ more) = elim (Bool-cases (seen r.version out)) [
  | inl again ↦ rw again (seen-add_releases v out more ∙ seen_again v r out more again)
  | inr first ↦
      rw first
        (seen-add_releases v (out ++ r ∷ []) more ∙ (let e = seen-snoc v out r in ground arith))
]

module _ (semver : Semver) (current target : Text) where
  -- current < v <= target
  abbrev pub within : Text → Bool
  within v = is_before semver current v && not (is_after semver v target)

  pub seen-filter_range :
      (v : Text) (rs : List ReleaseEntry)
      → seen v (filter_range semver current target rs) ≡ (seen v rs && within v)
  unfolding filter_range seen in_range
  seen-filter_range v [] = refl
  seen-filter_range v (r ∷ rs) =
      let rest = seen-filter_range v rs in
      elim (Bool-cases (text_eq r.version v)) [
        | inl same ↦
            let e : within r.version ≡ within v = ap within ((text_eq_iff r.version v).0 same) in
            ground arith
        | inr other ↦ ground arith
      ]

  pub filter_range-IsDistinct :
      (rs : List ReleaseEntry) → IsDistinct rs → IsDistinct (filter_range semver current target rs)
  unfolding filter_range
  filter_range-IsDistinct [] d = tt
  filter_range-IsDistinct (r ∷ rs) d =
      let rest = filter_range-IsDistinct rs d.1 in
      let e = seen-filter_range r.version rs in
      elim (Bool-cases (in_range semver current target r)) [
        | inl kept ↦ rw kept (let f = d.0 in ground arith, rest)
        | inr left ↦ rw left rest
      ]

module _ (semver : Semver) where
  abbrev pub IsNewestFirst : List ReleaseEntry → Type 0
  IsNewestFirst [] = Unit
  IsNewestFirst (r ∷ []) = Unit
  IsNewestFirst (r ∷ x ∷ rs) =
      (is_after semver x.version r.version ≡ false) × IsNewestFirst (x ∷ rs)

  seen-insert_newest :
      (v : Text) (r : ReleaseEntry) (rs : List ReleaseEntry)
      → seen v (insert_newest semver r rs) ≡ (text_eq r.version v || seen v rs)
  unfolding insert_newest seen
  seen-insert_newest v r [] = refl
  seen-insert_newest v r (x ∷ rs) = ground (arith, seen-insert_newest v r rs)

  pub seen-sort_newest :
      (v : Text) (rs : List ReleaseEntry) → seen v (sort_newest semver rs) ≡ seen v rs
  unfolding sort_newest seen
  seen-sort_newest v [] = refl
  seen-sort_newest v (r ∷ rs) =
      seen-insert_newest v r (sort_newest semver rs)
      ∙ ap (λ b. text_eq r.version v || b) (seen-sort_newest v rs)

  insert_newest-IsDistinct :
      (r : ReleaseEntry) (rs : List ReleaseEntry)
      → seen r.version rs ≡ false
      → IsDistinct rs
      → IsDistinct (insert_newest semver r rs)
  unfolding insert_newest seen
  insert_newest-IsDistinct r [] h d = (refl, tt)
  insert_newest-IsDistinct r (x ∷ rs) h d =
      let not_x : text_eq x.version r.version ≡ false = ground arith in
      let not_rs : seen r.version rs ≡ false = ground arith in
      let not_r = text_eq_sym x.version r.version not_x in
      let e = seen-insert_newest x.version r rs in
      elim (Bool-cases (is_after semver r.version x.version)) [
        | inl newer ↦ rw newer (h, d)
        | inr older ↦
            rw older (let f = d.0 in ground arith, insert_newest-IsDistinct r rs not_rs d.1)
      ]

  pub sort_newest-IsDistinct :
      (rs : List ReleaseEntry) → IsDistinct rs → IsDistinct (sort_newest semver rs)
  unfolding sort_newest
  sort_newest-IsDistinct [] d = tt
  sort_newest-IsDistinct (r ∷ rs) d =
      insert_newest-IsDistinct r (sort_newest semver rs) (seen-sort_newest r.version rs ∙ d.0)
        (sort_newest-IsDistinct rs d.1)

module _ (semver : Semver)
    (asym : (a b : Text) → is_after semver a b ≡ true → is_after semver b a ≡ false) where
  insert_newest-IsNewestFirst :
      (r : ReleaseEntry) (rs : List ReleaseEntry)
      → IsNewestFirst semver rs
      → IsNewestFirst semver (insert_newest semver r rs)
  unfolding insert_newest
  insert_newest-IsNewestFirst r [] n = tt
  insert_newest-IsNewestFirst r (x ∷ []) n =
      elim (Bool-cases (is_after semver r.version x.version)) [
        | inl newer ↦ rw newer (asym r.version x.version newer, tt)
        | inr older ↦ rw older (older, tt)
      ]
  insert_newest-IsNewestFirst r (x ∷ y ∷ rs) n =
      let rest = insert_newest-IsNewestFirst r (y ∷ rs) n.1 in
      elim (Bool-cases (is_after semver r.version x.version)) [
        | inl newer ↦ rw newer (asym r.version x.version newer, n)
        | inr older ↦ elim (Bool-cases (is_after semver r.version y.version)) [
          | inl next ↦ rw (older, next) (older, (asym r.version y.version next, n.1))
          | inr later ↦
              rw (older, later)
                (
                  n.0,
                  subst
                      (λ b.
                        IsNewestFirst semver
                          (if b then r ∷ y ∷ rs else y ∷ insert_newest semver r rs))
                      later rest,
                )
        ]
      ]

  pub sort_newest-IsNewestFirst :
      (rs : List ReleaseEntry) → IsNewestFirst semver (sort_newest semver rs)
  unfolding sort_newest
  sort_newest-IsNewestFirst [] = tt
  sort_newest-IsNewestFirst (r ∷ rs) =
      insert_newest-IsNewestFirst r (sort_newest semver rs) (sort_newest-IsNewestFirst rs)
