-- ===== src/Proxy/LogBuffer/Ring.antt =====
-- The ring buffer implements a bounded history.
use native.Mathlib.Decide.{dec_lt}
use native.Mathlib.Nat.{mod_self, mod-lt, mod-eq_of_lt}
use vibepit.Prelude.{
  ℕ, suc, ◌+◌, ◌-◌, ◌%◌, ◌≡◌, ◌≤◌, ◌<◌, refl, sym, ap, subst, ◌∙◌, true, false, some, List, [], ◌∷◌,
  ◌++◌, append_assoc, append-nil, length, take, drop, set, length-append, length-set, drop-nil,
  take_all, length-replicate, arith, lt→ltb, Bool-cases, inl, inr,
}
use vibepit.Proxy.LogBuffer.{
  LogEntry, LogBuffer, word, new_log_buffer, add, added, add_all, entries_locked,
}
use vibepit.Proxy.LogBuffer.Rotation.{last, last-snoc, take-set, rotate-set}

-- The history as the buffer numbers it, from `n` on.
unfoldable pub stamp : ℕ → List LogEntry → List LogEntry
stamp n [] = []
stamp n (e ∷ es) = record e { id = n } ∷ stamp (suc n) es

-- What the buffer holds after the entries `history`, oldest first, with their numbers.
record Holds (history : List LogEntry) (b : LogBuffer) : Type 0 where
  sized : length b.entries ≡ b.cap
  inside : b.pos < b.cap
  contents : entries_locked b ≡ last b.cap history
  filling : b.full ≡ false → b.pos ≡ length history
  filled : b.full ≡ true → b.cap ≤ length history
  numbered : b.next_id ≡ length history + 1

entries_locked-full :
    (b : LogBuffer)
    → b.full ≡ true
    → entries_locked b ≡ drop b.pos b.entries ++ take b.pos b.entries
unfolding entries_locked
entries_locked-full b e = rw e

entries_locked-filling : (b : LogBuffer) → b.full ≡ false → entries_locked b ≡ take b.pos b.entries
unfolding entries_locked
entries_locked-filling b e = rw e

module _ (history : List LogEntry) (b : LogBuffer) (e : LogEntry) (v : Holds history b) where
  abbrev stamped : LogEntry
  stamped = record e { id = b.next_id }

  full-added : b.full ≡ true → (added b e).full ≡ true
  unfolding added
  full-added h = ground arith

  turn : b.pos + 1 ≡ b.cap → (b.pos + 1) % b.cap ≡ 0
  turn h = rw h (mod_self b.cap)

  go_on : b.pos + 1 < b.cap → (b.pos + 1) % b.cap ≡ b.pos + 1
  go_on h = mod-eq_of_lt h

  contents_full : b.full ≡ true → entries_locked (added b e) ≡ last b.cap (history ++ stamped ∷ [])
  contents_full h =
      let room : b.pos < length b.entries = omega (arith, v.sized, v.inside) in
      let turned = rotate-set b.entries b.pos stamped room in
      rw (entries_locked-full (added b e) (full-added h)) (
        unfold added in
        subst
          (λ n.
            drop ((b.pos + 1) % n) (set b.entries b.pos stamped)
              ++ take ((b.pos + 1) % n) (set b.entries b.pos stamped)
            ≡ last b.cap (history ++ stamped ∷ []))
          v.sized
          (turned
            ∙ ap (λ l. drop 1 l ++ stamped ∷ []) (sym (entries_locked-full b h) ∙ v.contents)
            ∙ sym (last-snoc b.cap history stamped (v.filled h) (omega (arith, v.inside)))))

  -- While the buffer fills up, it holds the whole history.
  short_history : b.full ≡ false → take b.pos b.entries ≡ history
  short_history h =
      let none_lost : length history - b.cap ≡ 0 = omega (arith, v.filling h, v.inside) in
      sym (entries_locked-filling b h) ∙ v.contents ∙ ap (λ k. drop k history) none_lost

  longer :
      b.full ≡ false
      → take (b.pos + 1) (set b.entries b.pos stamped) ≡ last b.cap (history ++ stamped ∷ [])
  longer h =
      let room : b.pos < length b.entries = omega (arith, v.sized, v.inside) in
      let none_lost : length (history ++ stamped ∷ []) - b.cap ≡ 0 =
        omega (arith, v.filling h, v.inside, length-append history (stamped ∷ [])) in
      rw none_lost
        (take-set b.entries b.pos stamped room ∙ ap (λ l. l ++ stamped ∷ []) (short_history h))

  contents_filling :
      b.full ≡ false
      → b.pos + 1 < b.cap
      → entries_locked (added b e) ≡ last b.cap (history ++ stamped ∷ [])
  contents_filling h lt =
      let on = go_on lt in
      let still : (added b e).full ≡ false = unfold added in ground (arith, h, on) in
      rw (entries_locked-filling (added b e) still) (unfold added in rw on (longer h))

  contents_filled :
      b.full ≡ false
      → b.pos + 1 ≡ b.cap
      → entries_locked (added b e) ≡ last b.cap (history ++ stamped ∷ [])
  contents_filled h eq =
      let back = turn eq in
      let now : (added b e).full ≡ true = unfold added in ground (arith, h, back) in
      let all : take (b.pos + 1) (set b.entries b.pos stamped) ≡ set b.entries b.pos stamped =
        take_all (b.pos + 1) _ (omega (arith, length-set b.entries b.pos stamped, v.sized, eq)) in
      rw (entries_locked-full (added b e) now)
        (unfold added in rw (back, append-nil (set b.entries b.pos stamped)) (sym all ∙ longer h))

  contents-added : entries_locked (added b e) ≡ last b.cap (history ++ stamped ∷ [])
  contents-added = elim (Bool-cases b.full) [
    | inl h ↦ contents_full h
    | inr h ↦ elim (dec_lt (b.pos + 1) b.cap) [
      | yes lt ↦ contents_filling h lt
      | no ge ↦ contents_filled h (omega (arith, v.inside))
    ]
  ]

  filling-added : (added b e).full ≡ false → (added b e).pos ≡ length (history ++ stamped ∷ [])
  filling-added h = elim (Bool-cases b.full) [
    | inl full ↦ cc (full-added full, h)
    | inr fill ↦ elim (dec_lt (b.pos + 1) b.cap) [
      | yes lt ↦
          unfold added in
          rw (go_on lt) (omega (arith, v.filling fill, length-append history (stamped ∷ [])))
      | no ge ↦
          let back = turn (omega (arith, v.inside)) in
          let now : (added b e).full ≡ true = unfold added in ground (arith, fill, back) in
          cc (now, h)
    ]
  ]

  filled-added : (added b e).full ≡ true → (added b e).cap ≤ length (history ++ stamped ∷ [])
  filled-added h = elim (Bool-cases b.full) [
    | inl full ↦ unfold added in omega (arith, v.filled full, length-append history (stamped ∷ []))
    | inr fill ↦ elim (dec_lt (b.pos + 1) b.cap) [
      | yes lt ↦
          let on = go_on lt in
          let still : (added b e).full ≡ false = unfold added in ground (arith, fill, on) in
          cc (still, h)
      | no ge ↦
          unfold added in
          omega (arith, v.filling fill, v.inside, length-append history (stamped ∷ []))
    ]
  ]

  added-Holds : length history + 2 < word → Holds (history ++ stamped ∷ []) (added b e)
  unfolding added
  added-Holds room =
      let longer_by_one = length-append history (stamped ∷ []) in
      record {
        sized = length-set b.entries b.pos stamped ∙ v.sized;
        inside = mod-lt (b.pos + 1) (omega (arith, v.inside));
        contents = contents-added;
        filling = λ h. filling-added h;
        filled = λ h. filled-added h;
        numbered =
            ap (λ n. (n + 1) % word) v.numbered
            ∙ mod-eq_of_lt (omega arith)
            ∙ omega (arith, longer_by_one);
      }

  -- `Add` does not panic.
  add-some : add b e ≡ some (added b e)
  unfolding add
  add-some = rw (lt→ltb b.pos (length b.entries) (omega (arith, v.sized, v.inside)))

  cap-added : (added b e).cap ≡ b.cap
  unfolding added
  cap-added = refl

  stamp-cons :
      (es : List LogEntry)
      → history ++ stamp (length history + 1) (e ∷ es)
        ≡ (history ++ stamped ∷ []) ++ stamp (length (history ++ stamped ∷ []) + 1) es
  unfolding stamp
  stamp-cons es =
      let next : length (history ++ stamped ∷ []) + 1 ≡ suc (length history + 1) =
        omega (arith, length-append history (stamped ∷ [])) in
      rw (next, v.numbered)
        (sym (
          append_assoc history (record e { id = length history + 1 } ∷ [])
            (stamp (suc (length history + 1)) es)))

cap-new : (capacity : ℕ) → (new_log_buffer capacity).cap ≡ capacity
unfolding new_log_buffer
cap-new capacity = refl

new-Holds : (capacity : ℕ) → 0 < capacity → Holds [] (new_log_buffer capacity)
unfolding new_log_buffer entries_locked
new-Holds capacity h = record {
  sized = length-replicate capacity _;
  inside = h;
  contents = sym (drop-nil (0 - capacity));
  filling = λ _. refl;
  filled = λ e. cc;
  numbered = refl;
}

add_all-Holds :
    (history : List LogEntry) (b : LogBuffer) (es : List LogEntry)
    → Holds history b
    → length history + length es + 2 < word
    → (c : LogBuffer) × (add_all b es ≡ some c)
      × Holds (history ++ stamp (length history + 1) es) c
      × (c.cap ≡ b.cap)
unfolding add_all
add_all-Holds history b [] v room =
    unfold stamp in (b, refl, subst (λ h. Holds h b) (sym (append-nil history)) v, refl)
add_all-Holds history b (e ∷ es) v room =
    let longer_by_one = length-append history (stamped history b e v ∷ []) in
    let w = added-Holds history b e v (omega arith) in
    let (c, steps, held, same) =
      add_all-Holds (history ++ stamped history b e v ∷ []) (added b e) es w
        (omega (arith, longer_by_one)) in
    (
      c,
      rw (add-some history b e v) steps,
      subst (λ h. Holds h c) (sym (stamp-cons history b e v es)) held,
      same ∙ cap-added history b e v,
    )

-- A new buffer takes any number of entries short of the range of its counter without a panic, and
-- then holds the last `capacity` of them, oldest first, numbered from 1.
pub add_all-last :
    (capacity : ℕ) (es : List LogEntry)
    → 0 < capacity
    → length es + 2 < word
    → (b : LogBuffer) × (add_all (new_log_buffer capacity) es ≡ some b)
      × (entries_locked b ≡ last capacity (stamp 1 es))
add_all-last capacity es h room =
    let (b, steps, held, same) =
      add_all-Holds [] (new_log_buffer capacity) es (new-Holds capacity h) (omega arith) in
    (
      b,
      steps,
      subst (λ n. entries_locked b ≡ last n (stamp 1 es)) (same ∙ cap-new capacity) held.contents,
    )
