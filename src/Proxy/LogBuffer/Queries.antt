-- ===== src/Proxy/LogBuffer/Queries.antt =====
-- `EntriesAfter`: a client that polls with the last ID it has seen misses nothing that is kept.
use native.Mathlib.Decide.{dec_lt}
use vibepit.Prelude.{
  ℕ, zero, suc, ◌+◌, ◌-◌, ◌≡◌, ◌<◌, refl, sym, ap, ◌∙◌, false, some, List, [], ◌∷◌, min, length,
  drop-nil, drop-drop, lt→ltb, drop, drop_all, length-drop, arith, ltb, ◌==◌, if◌then◌else◌,
  Bool-cases, inl, inr,
}
use vibepit.Proxy.LogBuffer.{
  LogEntry, LogBuffer, word, new_log_buffer, add_all, entries_locked, first_after, entries_after,
}
use vibepit.Proxy.LogBuffer.Ring.{stamp, add_all-last}
use vibepit.Proxy.LogBuffer.Rotation.{last}

pub length-stamp : (n : ℕ) (es : List LogEntry) → length (stamp n es) ≡ length es
unfolding stamp
length-stamp n [] = refl
length-stamp n (e ∷ es) = ap suc (length-stamp (suc n) es)

pub drop-stamp : (k n : ℕ) (es : List LogEntry) → drop k (stamp n es) ≡ stamp (n + k) (drop k es)
unfolding stamp
drop-stamp zero n es = ap (λ m. stamp m es) (omega arith)
drop-stamp (suc k) n [] = refl
drop-stamp (suc k) n (e ∷ es) =
    drop-stamp k (suc n) es ∙ ap (λ m. stamp m (drop k es)) (omega arith)

-- IDs increase by one, so the scan stops at a known place.
first_after-stamp :
    (a n : ℕ) (es : List LogEntry) → first_after a (stamp n es) ≡ drop (suc a - n) (stamp n es)
unfolding first_after stamp
first_after-stamp a n [] = sym (drop-nil (suc a - n))
first_after-stamp a n (e ∷ es) = elim (dec_lt a n) [
  | yes lt ↦ let none_old : suc a - n ≡ 0 = omega arith in rw (lt→ltb a n lt, none_old)
  | no ge ↦
      let newer : ltb a n ≡ false = ground arith in
      let one_old : suc a - n ≡ suc (suc a - suc n) = omega arith in
      rw (newer, one_old) (first_after-stamp a (suc n) es)
]

last_25 :
    (capacity : ℕ) (xs : List LogEntry)
    → (let all = last capacity xs in
        if ltb 25 (length all) then drop (length all - 25) all else all)
      ≡ last (min 25 capacity) xs
last_25 capacity xs =
    let kept = length-drop (length xs - capacity) xs in
    elim (Bool-cases (ltb 25 (length (last capacity xs)))) [
      | inl many ↦
          let e : length xs - capacity + (length (last capacity xs) - 25)
              ≡ length xs - min 25 capacity =
            ground (arith, kept, many) in
          rw (many, drop-drop (length (last capacity xs) - 25) (length xs - capacity) xs, e)
      | inr few ↦
          let e : length xs - capacity ≡ length xs - min 25 capacity = ground (arith, kept, few) in
          rw (few, e)
    ]

newer_last :
    (capacity a : ℕ) (es : List LogEntry)
    → first_after a (last capacity (stamp 1 es)) ≡ last (min capacity (length es - a)) (stamp 1 es)
newer_last capacity a es =
    let size = length-stamp 1 es in
    let k = length (stamp 1 es) - capacity in
    let jump = drop-drop (suc a - (1 + k)) k (stamp 1 es) in
    rw (drop-stamp k 1 es, first_after-stamp a (1 + k) (drop k es), sym (drop-stamp k 1 es), jump)
      (elim (dec_lt (length es) a) [
        | yes ahead ↦
            drop_all (k + (suc a - (1 + k))) (stamp 1 es) (omega (arith, size))
            ∙ sym (
                drop_all (length (stamp 1 es) - min capacity (length es - a)) (stamp 1 es)
                  (omega (arith, size)))
        | no behind ↦
            let e : k + (suc a - (1 + k)) ≡ length (stamp 1 es) - min capacity (length es - a) =
              omega (arith, size) in
            ap (λ i. drop i (stamp 1 es)) e
      ])

-- After any run of `Add` on a new buffer, `EntriesAfter` with the ID of the last entry that a
-- client has seen returns, oldest first, every entry that came after it and is still kept, and
-- nothing else; without an ID it returns the last 25 entries that are kept.
pub entries_after-last :
    (capacity a : ℕ) (es : List LogEntry) (b : LogBuffer)
    → 0 < capacity
    → length es + 2 < word
    → add_all (new_log_buffer capacity) es ≡ some b
    → entries_after b a
      ≡ last (if a == 0 then min 25 capacity else min capacity (length es - a)) (stamp 1 es)
unfolding entries_after
entries_after-last capacity a es b h room steps =
    let (c, same_steps, contents) = add_all-last capacity es h room in
    let same : some b ≡ some c = sym steps ∙ same_steps in
    let same_buffer : b ≡ c = cc same in
    let held : entries_locked b ≡ last capacity (stamp 1 es) =
      ap entries_locked same_buffer ∙ contents in
    rw held (elim (Bool-cases (a == 0)) [
      | inl zero_id ↦ rw zero_id (last_25 capacity (stamp 1 es))
      | inr seen ↦ rw seen (newer_last capacity a es)
    ])
