-- ===== src/Proxy/ControlApi/Allow.antt =====
-- A request to allow entries changes the allowlist as a whole, or not at all (proxy/api.go).
use vibepit.Prelude.{
  ◌≡◌, ◌≢◌, ◌⊎◌, inl, inr, refl, sym, ◌∙◌, Option, none, some, List, [], ◌∷◌, ◌++◌, Text, Result,
  ok, err, Result-cases, is_empty,
}
use vibepit.Proxy.Allowlist.{EntryError, add_http, new_http_allowlist}
use vibepit.Proxy.Allowlist.Updates.{add_http-new}
use vibepit.Proxy.ControlApi.{
  ControlApi, AllowError, Response, bad_request, added_entries, handle_allow_http,
  decode_allow_request,
}

-- What a request did, where `rebuild` makes an allowlist of the added entries and the earlier
-- ones, and `set` stores an allowlist.
abbrev pub AllowOutcome :
    {L : Type 0}
    → (List Text → Result EntryError L)
    → (L → ControlApi)
    → ControlApi
    → Option (List Text)
    → ControlApi × Response
    → Type 0
AllowOutcome {L} rebuild store a body r =
    ((e : AllowError) × (r ≡ (a, bad_request e))
      × ((ys : List Text) → body ≡ some ys → ys ≢ [] → (x : EntryError) × (rebuild ys ≡ err x)))
    ⊎ ((ys : List Text) × (al : L) × (body ≡ some ys)
        × (ys ≢ [])
        × (rebuild ys ≡ ok al)
        × (r ≡ (store al, added_entries ys)))

-- The handler answers 400 and leaves everything as it was exactly if the body is no list of
-- entries, the list is empty or an entry is invalid; otherwise the HTTP allowlist becomes the one
-- that construction gives for the earlier entries and then the new ones, and nothing else changes.
pub handle_allow_http-AllowOutcome :
    (a : ControlApi) (body : Option (List Text)) (xs : List Text)
    → new_http_allowlist xs ≡ ok a.http_allowlist
    → AllowOutcome
        (λ ys. new_http_allowlist (xs ++ ys))
        (λ al. record a { http_allowlist = al })
        a
        body
        (handle_allow_http a body)
unfolding handle_allow_http decode_allow_request is_empty
handle_allow_http-AllowOutcome a none xs built = inl (_, refl, λ ys e n. cc)
handle_allow_http-AllowOutcome a (some []) xs built = inl (_, refl, λ ys e n. absurd (n cc))
handle_allow_http-AllowOutcome a (some (y ∷ ys)) xs built =
    let same = add_http-new xs (y ∷ ys) a.http_allowlist built in
    elim (Result-cases (add_http a.http_allowlist (y ∷ ys))) [
      | inl (e, bad) ↦ rw (bad, handle_allow_http) (inl (_, refl, λ zs h n. (e, cc (h, same, bad))))
      | inr (al, good) ↦
          rw (good, handle_allow_http) (inr (y ∷ ys, al, refl, λ e. cc, sym same ∙ good, refl))
    ]
