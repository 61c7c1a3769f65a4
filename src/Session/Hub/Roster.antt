-- ===== src/Session/Hub/Roster.antt =====
-- Who is attached, and who writes.
use vibepit.Prelude.{
  ℕ, suc, ◌≡◌, ◌≤◌, ◌<◌, refl, Bool, true, false, Option, none, some, List, [], ◌∷◌, ◌++◌, Text,
  length, length-append, inl, inr, arith, Option-cases, if◌then◌else◌,
}
use vibepit.Session.Client.{Client, DetachReason, channel_cap, close_done, offer, read}
use vibepit.Session.Hub.{Session, update, is_writer, remove, last, delivered, is_none}
use vibepit.Session.Hub.Steps.{has}
use vibepit.Session.Hub.Members.{
  IsDistinct, has-append, has-remove, has-remove_other, has-remove_same, remove-IsDistinct,
  IsDistinct-snoc, has-last, last-none,
}

-- A client that has closed is about to detach.
abbrev pub IsLive : Client → Type 0
IsLive c = c.done ≡ true → c.detaching ≡ true

-- The attached clients are made and distinct, none of them is already detached, the writer is one
-- of them, there is a writer if there is a client, and no output channel is over its capacity.
pub record Roster (clients : List ℕ) (writer : Option ℕ) (fresh : ℕ) (client : ℕ → Client)
    : Type 0 where
  pub known : (x : ℕ) → has x clients ≡ true → x < fresh
  pub unique : IsDistinct clients
  pub writer_in : (w : ℕ) → writer ≡ some w → has w clients ≡ true
  pub someone : writer ≡ none → clients ≡ []
  pub live : (x : ℕ) → has x clients ≡ true → IsLive (client x)
  pub bounded : (x : ℕ) → length (client x).output ≤ channel_cap

abbrev pub IsManned : {S : Type 0} → Session S → Type 0
IsManned s = Roster s.clients s.writer s.fresh s.client

module _ (clients : List ℕ) (writer : Option ℕ) (fresh : ℕ) (client : ℕ → Client) where
  -- A change of one client keeps the roster if it keeps the client's part.
  pub Roster-update :
      (x : ℕ) (c : Client)
      → (IsLive (client x) → IsLive c)
      → length c.output ≤ channel_cap
      → Roster clients writer fresh client
      → Roster clients writer fresh (update client x c)
  Roster-update x c l b v = record {
    known = v.known;
    unique = v.unique;
    writer_in = v.writer_in;
    someone = v.someone;
    live = λ y h d. ground (arith, l, v.live y);
    bounded = λ y. ground (arith, b, v.bounded y);
  }

  writer_stays :
      (x : ℕ)
      → Roster clients writer fresh client
      → (w : ℕ) → (if is_writer writer x then last (remove x clients) else writer) ≡ some w
      → has w (remove x clients) ≡ true
  writer_stays x v w h = elim (Option-cases writer) [
    | inl e ↦ ground (arith, e, h)
    | inr (u, e) ↦
        ground
          (arith, e, h, has-last w (remove x clients), has-remove_other x w clients, v.writer_in w)
  ]

  writer_needed :
      (x : ℕ)
      → Roster clients writer fresh client
      → (if is_writer writer x then last (remove x clients) else writer) ≡ none
      → remove x clients ≡ []
  unfolding remove
  writer_needed x v h = elim (Option-cases writer) [
    | inl e ↦ rw (v.someone e, remove) refl
    | inr (u, e) ↦ ground (arith, e, h, last-none (remove x clients))
  ]

  pub Roster-detach :
      (x : ℕ)
      → Roster clients writer fresh client
      → Roster
          (remove x clients)
          (if is_writer writer x then last (remove x clients) else writer)
          fresh
          (update client x (record (client x) { detaching = false }))
  Roster-detach x v =
      let gone = has-remove_same x clients v.unique in
      record {
        known = λ y h. v.known y (has-remove x y clients h);
        unique = remove-IsDistinct x clients v.unique;
        writer_in = writer_stays x v;
        someone = writer_needed x v;
        live = λ y h d. ground (arith, gone, has-remove x y clients, v.live y);
        bounded = λ y. ground (arith, v.bounded y, v.bounded x);
      }

  -- A client that is made and not attached.
  pub Roster-make :
      (c : Client)
      → length c.output ≤ channel_cap
      → Roster clients writer fresh client
      → Roster clients writer (suc fresh) (update client fresh c)
  Roster-make c b v = record {
    known = λ y h. ground (arith, h, v.known y);
    unique = v.unique;
    writer_in = v.writer_in;
    someone = v.someone;
    live = λ y h d. ground (arith, h, d, v.known y, v.live y);
    bounded = λ y. ground (arith, v.bounded y, b);
  }

  pub Roster-attach :
      (c : Client)
      → IsLive c
      → length c.output ≤ channel_cap
      → Roster clients writer fresh client
      → Roster
          (clients ++ fresh ∷ [])
          (if is_none writer then some fresh else writer)
          (suc fresh)
          (update client fresh c)
  unfolding has
  Roster-attach c l b v = record {
    known = λ y h. ground (arith, h, has-append y clients (fresh ∷ []), v.known y);
    unique = IsDistinct-snoc fresh clients (ground (arith, v.known fresh)) v.unique;
    writer_in = λ w h.
        let split = has-append w clients (fresh ∷ []) in
        elim (Option-cases writer) [
          | inl e ↦ ground (arith, e, h, split)
          | inr (u, e) ↦ ground (arith, e, h, split, v.writer_in w)
        ];
    someone = λ h. elim (Option-cases writer) [
      | inl e ↦ absurd (ground (arith, e, h))
      | inr (u, e) ↦ absurd (ground (arith, e, h))
    ];
    live = λ y h d. ground (arith, h, d, l, has-append y clients (fresh ∷ []), v.live y);
    bounded = λ y. ground (arith, v.bounded y, b);
  }

module _ (c : Client) where
  pub close_done-IsLive : (r : DetachReason) → IsLive c → IsLive (close_done c r)
  unfolding close_done
  close_done-IsLive r l = ground (arith, l)

  pub close_done-output : (r : DetachReason) → (close_done c r).output ≡ c.output
  unfolding close_done
  close_done-output r = ground arith

  pub delivered-IsLive : (stop : Bool) (chunk : Text) → IsLive c → IsLive (delivered stop c chunk)
  unfolding delivered offer close_done
  delivered-IsLive stop chunk l = ground (arith, l)

  pub delivered-bounded :
      (stop : Bool) (chunk : Text)
      → length c.output ≤ channel_cap
      → length (delivered stop c chunk).output ≤ channel_cap
  unfolding delivered offer close_done
  delivered-bounded stop chunk b = ground (arith, b, length-append c.output (chunk ∷ []))

  pub read-IsLive : (stop : Bool) (n : ℕ) → IsLive c → IsLive (read stop n c).1
  unfolding read
  read-IsLive stop n l = ground (arith, l)

  pub read-bounded :
      (stop : Bool) (n : ℕ)
      → length c.output ≤ channel_cap
      → length (read stop n c).1.output ≤ channel_cap
  unfolding read
  read-bounded stop n b = ground (arith, b)
