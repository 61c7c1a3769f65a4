-- ===== src/Selfupdate/Install/Sizes.antt =====
-- A downloaded archive keeps the limit (selfupdate/download.go).
use vibepit.Prelude.{
  ℕ, suc, ◌-◌, ◌≡◌, ◌≤◌, refl, ap, sym, ◌∙◌, subst, Bool, true, false, not, ◌⊎◌, inl, inr, Option,
  none, some, List, [], ◌∷◌, ◌++◌, append-nil, take, length, Text, ltb, ltb-false→le, is_empty,
  is_empty_iff, if◌then◌else◌, Result, ok, ok_inj, if_not_ok, arith, ◌==◌,
}
use vibepit.Selfupdate.Install.{
  exceeds, Download, download_loop, download_response, download_archive,
}

either_ok :
    {E A : Type 0} (b : Bool) (r s : Result E A) (a : A)
    → (if b then r else s) ≡ ok a
    → ((b ≡ true) × (r ≡ ok a)) ⊎ ((b ≡ false) × (s ≡ ok a))
either_ok true r s a h = inl (refl, h)
either_ok false r s a h = inr (refl, h)

download_loop_fits :
    (limit : ℕ) (written : Text) (reads : List (Text × Bool)) (complete : Bool) (archive : Text)
    → length written ≤ limit
    → download_loop limit written reads complete ≡ ok archive
    → length archive ≤ limit
unfolding download_loop
download_loop_fits limit written [] true archive le h =
    subst (λ s. length s ≤ limit) (ok_inj written archive h) le
download_loop_fits limit written [] false archive le h = cc
download_loop_fits limit written (r ∷ reads) complete archive le h =
    let chunk = take (suc limit - length written) r.0 in
    elim (either_ok (is_empty chunk) _ _ archive h) [
      | inl idle ↦
          let e = ap (λ s. written ++ s) ((is_empty_iff chunk).0 idle.0) ∙ append-nil written in
          download_loop_fits limit (written ++ chunk) reads complete archive
            (subst (λ s. length s ≤ limit) (sym e) le) idle.1
      | inr more ↦
          let a = if_not_ok (not r.1) _ _ archive more.1 in
          let b = if_not_ok (ltb limit (length (written ++ chunk))) _ _ archive a.1 in
          download_loop_fits limit (written ++ chunk) reads complete archive
            (ltb-false→le limit (length (written ++ chunk)) b.0) b.1
    ]

download_response-fits :
    (limit : ℕ) (d : Download) (status : Option ℕ) (archive : Text)
    → download_response limit d status ≡ ok archive
    → length archive ≤ limit
unfolding download_response
download_response-fits limit d none archive h = cc
download_response-fits limit d (some status) archive h =
    let a = if_not_ok (not (status == 200)) _ _ archive h in
    let b = if_not_ok (exceeds d.total_size limit) _ _ archive a.1 in
    let c = if_not_ok (not d.temp_file) _ _ archive b.1 in
    download_loop_fits limit [] d.reads d.complete archive (omega arith) c.1

pub download_archive-fits :
    (limit : ℕ) (d : Download) (archive : Text)
    → download_archive limit d ≡ ok archive
    → length archive ≤ limit
download_archive-fits limit d archive h = download_response-fits limit d d.status archive h
