-- ===== src/Session/Client/Stream.antt =====
-- A client's output as a stream of bytes (session/client.go).
use vibepit.Prelude.{
  ℕ, ◌≡◌, refl, sym, ap, ◌∙◌, Bool, true, false, List, [], ◌∷◌, ◌++◌, append-nil, append_assoc,
  Text, take, drop, take-append-drop, arith, inl, inr, Bool-cases, is_empty, ◌&&◌,
}
use vibepit.Session.Client.{
  Client, DetachReason, new_client, ReadResult, got, eof, blocks, read, Offer, sent, dropped, full,
  offer, close_output, close_done, detach_slow_consumer,
}

unfoldable pub flat : List Text → Text
flat [] = []
flat (x ∷ xs) = x ++ flat xs

flat-append : (xs ys : List Text) → flat (xs ++ ys) ≡ flat xs ++ flat ys
unfolding flat
flat-append [] ys = refl
flat-append (x ∷ xs) ys = rw (flat-append xs ys) (sym (append_assoc x (flat xs) (flat ys)))

-- The bytes that were sent to a client and not yet read.
abbrev pub unread : Client → Text
unread c = c.pending ++ flat c.output

abbrev pub read_bytes : ReadResult → Text
read_bytes (got p) = p
read_bytes _ = []

-- What an operation does with a client: offer a chunk, read into a buffer, close it for a reason, or
-- close its output.
pub data Op : Type 0 where
  offers : Bool → Text → Op
  reads : Bool → ℕ → Op
  closes : DetachReason → Op
  ends : Op

-- A client, with all the bytes that the channel took and all that `Read` returned.
pub record Trace : Type 0 where
  pub client : Client
  pub taken : Text
  pub returned : Text

abbrev sent_to : Trace → Text → Offer → Trace
sent_to t chunk (sent c) = record { client = c; taken = t.taken ++ chunk; returned = t.returned }
sent_to t chunk dropped = t
sent_to t chunk full = record t { client = close_done t.client detach_slow_consumer }

unfoldable pub apply : Op → Trace → Trace
apply (offers stop chunk) t = sent_to t chunk (offer stop t.client chunk)
apply (reads stop n) t =
    let (r, c) = read stop n t.client in
    record { client = c; taken = t.taken; returned = t.returned ++ read_bytes r }
apply (closes reason) t = record t { client = close_done t.client reason }
apply ends t = record t { client = close_output t.client }

unfoldable pub apply_all : List Op → Trace → Trace
apply_all [] t = t
apply_all (o ∷ os) t = apply_all os (apply o t)

abbrev pub fresh_trace : Trace
fresh_trace = record { client = new_client; taken = []; returned = [] }

abbrev IsStream : Trace → Type 0
IsStream t = t.returned ++ unread t.client ≡ t.taken

-- What a read returns stands before what is left.
abbrev ReadSplits : Bool → ℕ → Client → Type 0
ReadSplits stop n c = read_bytes (read stop n c).0 ++ unread (read stop n c).1 ≡ unread c

abbrev made : List Text → Bool → Bool → Bool → Text → DetachReason → Client
made output closed done detaching pending reason = record {
  output = output;
  output_closed = closed;
  done = done;
  detaching = detaching;
  pending = pending;
  detach_reason = reason;
}

split_pending :
    (n : ℕ) (p : Text) (output : List Text)
    → take n p ++ (drop n p ++ flat output) ≡ p ++ flat output
split_pending n p output =
    sym (append_assoc (take n p) (drop n p) (flat output))
    ∙ ap (λ l. l ++ flat output) (take-append-drop n p)

read-unread_made :
    (stop : Bool) (n : ℕ) (output : List Text) (closed done detaching : Bool) (pending : Text)
    (reason : DetachReason)
    → ReadSplits stop n (made output closed done detaching pending reason)
unfolding read is_empty flat
read-unread_made stop n output closed done detaching (b ∷ p) reason = split_pending n (b ∷ p) output
read-unread_made stop n [] closed done detaching [] reason = ground arith
read-unread_made stop n (chunk ∷ rest) closed done detaching [] reason =
    elim (Bool-cases (done && stop)) [
      | inl e ↦ rw e refl
      | inr e ↦ rw e (split_pending n chunk rest)
    ]

read-unread : (stop : Bool) (n : ℕ) (c : Client) → ReadSplits stop n c
read-unread stop n c =
    read-unread_made stop n c.output c.output_closed c.done c.detaching c.pending c.detach_reason

close_done-unread : (c : Client) (reason : DetachReason) → unread (close_done c reason) ≡ unread c
unfolding close_done
close_done-unread c reason = ground arith

-- Nothing is left, for a client that is open.
abbrev NothingLeft : Bool → ℕ → Client → Type 0
NothingLeft stop n c =
    ((read stop n c).0 ≡ eof → c.done ≡ false → (unread c ≡ []) × (c.output_closed ≡ true))
    × ((read stop n c).0 ≡ blocks → unread c ≡ [])

read-eof_made :
    (stop : Bool) (n : ℕ) (output : List Text) (closed done detaching : Bool) (pending : Text)
    (reason : DetachReason)
    → NothingLeft stop n (made output closed done detaching pending reason)
unfolding read is_empty flat
read-eof_made stop n output closed done detaching (b ∷ p) reason = (λ e. cc, λ e. cc)
read-eof_made stop n [] closed done detaching [] reason = (λ e o. (refl, ground arith), λ e. refl)
read-eof_made stop n (chunk ∷ rest) closed done detaching [] reason =
    (λ e o. ground (arith, e, o), λ e. ground (arith, e))

unread-offer :
    (c : Client) (chunk : Text)
    → unread (record c { output = c.output ++ chunk ∷ [] }) ≡ unread c ++ chunk
unfolding flat
unread-offer c chunk =
    rw (flat-append c.output (chunk ∷ []), append-nil chunk)
      (sym (append_assoc c.pending (flat c.output) chunk))

offer-sent :
    (stop : Bool) (c d : Client) (chunk : Text)
    → offer stop c chunk ≡ sent d
    → record c { output = c.output ++ chunk ∷ [] } ≡ d
unfolding offer
offer-sent stop c d chunk e = ground (arith, e)

offer-IsStream :
    (t : Trace) (chunk : Text) (stop : Bool) → IsStream t → IsStream (apply (offers stop chunk) t)
unfolding apply
offer-IsStream t chunk stop h = go (offer stop t.client chunk) refl
  where
    go : (o : Offer) → offer stop t.client chunk ≡ o → IsStream (sent_to t chunk o)
    go (sent c) e =
        let now : unread c ≡ unread t.client ++ chunk =
          ap unread (sym (offer-sent stop t.client c chunk e)) ∙ unread-offer t.client chunk in
        ap (λ l. t.returned ++ l) now
        ∙ sym (append_assoc t.returned (unread t.client) chunk)
        ∙ ap (λ l. l ++ chunk) h
    go dropped e = h
    go full e = ap (λ l. t.returned ++ l) (close_done-unread t.client detach_slow_consumer) ∙ h

read-IsStream : (t : Trace) (stop : Bool) (n : ℕ) → IsStream t → IsStream (apply (reads stop n) t)
unfolding apply
read-IsStream t stop n h =
    append_assoc t.returned (read_bytes (read stop n t.client).0) (unread (read stop n t.client).1)
    ∙ ap (λ l. t.returned ++ l) (read-unread stop n t.client)
    ∙ h

apply-IsStream : (o : Op) (t : Trace) → IsStream t → IsStream (apply o t)
apply-IsStream (offers stop chunk) t h = offer-IsStream t chunk stop h
apply-IsStream (reads stop n) t h = read-IsStream t stop n h
apply-IsStream (closes reason) t h =
    unfold apply in (ap (λ l. t.returned ++ l) (close_done-unread t.client reason) ∙ h)
apply-IsStream ends t h = unfold apply in unfold close_output in h

apply_all-IsStream : (os : List Op) (t : Trace) → IsStream t → IsStream (apply_all os t)
unfolding apply_all
apply_all-IsStream [] t h = h
apply_all-IsStream (o ∷ os) t h = apply_all-IsStream os (apply o t) (apply-IsStream o t h)

-- In whatever order chunks are offered, `Read` is called and the client is closed: what the reads
-- returned, followed by what is still unread, is what the channel took, byte for byte and in order;
-- and a read of an open client neither blocks while a byte is unread, nor ends before every byte is
-- read and the output is closed.
pub stream-read :
    (os : List Op)
    → let t = apply_all os fresh_trace in
      (t.returned ++ unread t.client ≡ t.taken)
      × ((stop : Bool) (n : ℕ)
          → ((read stop n t.client).0 ≡ eof
              → t.client.done ≡ false
              → (unread t.client ≡ []) × (t.client.output_closed ≡ true))
            × ((read stop n t.client).0 ≡ blocks → unread t.client ≡ []))
stream-read os =
    let t = apply_all os fresh_trace in
    let c = t.client in
    (
      apply_all-IsStream os fresh_trace (unfold flat in refl),
      λ stop n.
          read-eof_made stop n c.output c.output_closed c.done c.detaching c.pending
            c.detach_reason,
    )
