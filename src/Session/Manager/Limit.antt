-- ===== src/Session/Manager/Limit.antt =====
-- The limit on the active sessions, and their identifiers (session/manager.go).
use vibepit.Prelude.{
  ℕ, suc, ◌+◌, ◌≡◌, ◌≢◌, ◌≤◌, ◌<◌, refl, Bool, true, false, none, some, List, [], ◌∷◌, ◌++◌, leb,
  arith, inl, inr, ◌↔◌, Bool-cases,
}
use vibepit.Session.Manager.{
  Entry, Manager, new_manager, active, created, create, get, mark_exited, delete,
}

-- A call of `Create`, the exit of a session, or its cleanup.
pub data Event : Type 0 where
  creates : Bool → Event
  exits cleans : ℕ → Event

unfoldable pub handle : Event → Manager → Manager
handle (creates started) m = (create m started).0
handle (exits i) m = record m { sessions = mark_exited i m.sessions }
handle (cleans i) m = record m { sessions = delete i m.sessions }

unfoldable pub handle_all : List Event → Manager → Manager
handle_all [] m = m
handle_all (e ∷ es) m = handle_all es (handle e m)

active-append : (xs ys : List Entry) → active (xs ++ ys) ≡ active xs + active ys
unfolding active
active-append [] ys = omega arith
active-append (x ∷ xs) ys = ground (arith, active-append xs ys)

active-exit : (i : ℕ) (xs : List Entry) → active (mark_exited i xs) ≤ active xs
unfolding active mark_exited
active-exit i [] = omega arith
active-exit i (x ∷ xs) = ground (arith, active-exit i xs)

active-delete : (i : ℕ) (xs : List Entry) → active (delete i xs) ≤ active xs
unfolding active delete
active-delete i [] = omega arith
active-delete i (x ∷ xs) = ground (arith, active-delete i xs)

get-append : (xs : List Entry) (y : Entry) (i : ℕ) → y.id ≢ i → get (xs ++ y ∷ []) i ≡ get xs i
unfolding get
get-append [] y i n = ground arith
get-append (x ∷ xs) y i n = ground (arith, get-append xs y i n)

get-new : (xs : List Entry) (y : Entry) → get xs y.id ≡ none → get (xs ++ y ∷ []) y.id ≡ some y
unfolding get
get-new [] y n = ground arith
get-new (x ∷ xs) y n = ground (arith, n, get-new xs y)

get-exit : (i j : ℕ) (xs : List Entry) → get xs j ≡ none → get (mark_exited i xs) j ≡ none
unfolding get mark_exited
get-exit i j [] n = refl
get-exit i j (x ∷ xs) n = ground (arith, n, get-exit i j xs)

get-delete : (i j : ℕ) (xs : List Entry) → get xs j ≡ none → get (delete i xs) j ≡ none
unfolding get delete
get-delete i j [] n = refl
get-delete i j (x ∷ xs) n = ground (arith, n, get-delete i j xs)

record IsLimited (limit : ℕ) (m : Manager) : Type 0 where
  same : m.limit ≡ limit
  within : active m.sessions ≤ limit
  unused : (i : ℕ) → m.counter < i → get m.sessions i ≡ none

module _ (limit : ℕ) (m : Manager) (v : IsLimited limit m) where
  create-IsLimited : (started : Bool) → IsLimited limit (create m started).0
  unfolding create
  create-IsLimited started = elim (Bool-cases (leb m.limit (active m.sessions))) [
    | inl e ↦ rw (e, create) v
    | inr e ↦ go started e
  ]
    where
      go : (b : Bool) → leb m.limit (active m.sessions) ≡ false → IsLimited limit (create m b).0
      go true e =
          unfold create in
          rw (e, create)
            (record {
              same = v.same;
              within =
                  unfold active in
                  ground (
                    arith,
                    e,
                    v.same,
                    active-append m.sessions (record { id = suc m.counter; exited = false } ∷ []),
                  );
              unused = λ i h. ground (
                arith,
                v.unused i,
                get-append m.sessions (record { id = suc m.counter; exited = false }) i,
              );
            })
      go false e =
          unfold create in
          rw (e, create)
            (record {
              same = v.same;
              within = v.within;
              unused = λ i h. v.unused i (omega (arith, h));
            })

  handle-IsLimited : (e : Event) → IsLimited limit (handle e m)
  unfolding handle
  handle-IsLimited (creates started) = create-IsLimited started
  handle-IsLimited (exits i) = record {
    same = v.same;
    within = omega (arith, active-exit i m.sessions, v.within);
    unused = λ j h. get-exit i j m.sessions (v.unused j h);
  }
  handle-IsLimited (cleans i) = record {
    same = v.same;
    within = omega (arith, active-delete i m.sessions, v.within);
    unused = λ j h. get-delete i j m.sessions (v.unused j h);
  }

handle_all-IsLimited :
    (limit : ℕ) (es : List Event) (m : Manager)
    → IsLimited limit m
    → IsLimited limit (handle_all es m)
unfolding handle_all
handle_all-IsLimited limit [] m v = v
handle_all-IsLimited limit (e ∷ es) m v =
    handle_all-IsLimited limit es (handle e m) (handle-IsLimited limit m v e)

new-IsLimited : (limit : ℕ) → IsLimited limit (new_manager limit)
unfolding new_manager active get
new-IsLimited limit = record { same = refl; within = omega arith; unused = λ i h. refl }

-- Whatever sessions were created, exited and cleaned up: the active ones stay within the limit; a
-- shell that can start gets a session exactly if there is room below the limit; and its identifier
-- was not in use and finds it afterwards.
pub create-within :
    (limit : ℕ) (es : List Event)
    → let m = handle_all es (new_manager limit) in
      let i = suc m.counter in
      (active m.sessions ≤ limit)
      × (((create m true).1 ≡ created i) ↔ (active m.sessions < limit))
      × (get m.sessions i ≡ none)
      × ((create m true).1 ≡ created i
          → get (create m true).0.sessions i ≡ some (record { id = i; exited = false }))
unfolding create
create-within limit es =
    let m = handle_all es (new_manager limit) in
    let v = handle_all-IsLimited limit es (new_manager limit) (new-IsLimited limit) in
    let none_yet = v.unused (suc m.counter) (omega arith) in
    (
      v.within,
      (λ h. ground (arith, h, v.same), λ h. ground (arith, h, v.same)),
      none_yet,
      λ h.
          ground
            (arith, h, get-new m.sessions (record { id = suc m.counter; exited = false }) none_yet),
    )
