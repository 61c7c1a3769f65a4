-- ===== src/Cmd/Monitor/Offers.antt =====
-- The keys that the footer offers for an item, and what they do (cmd/monitor_ui.go).
use vibepit.Prelude.{
  ◌≡◌, ◌↔◌, inl, inr, refl, sym, subst, Bool, true, some, List, [], ◌∷◌, Any, get_elem?, Bool-cases,
  arith,
}
use vibepit.Proxy.LogBuffer.{Action, allow, block}
use vibepit.Cmd.Monitor.{
  Monitor, LogItem, AllowStatus, status_none, status_temp, status_saved, allow_key, allow_entry,
  flash_already, runs, tells, is_block, is_status_none, can_allow, on_allow_key, update, ItemKey,
  offers_allow, offers_allow_save, offers_save, item_keys_of, item_keys,
}

-- The item is blocked and was not allowed since.
abbrev pub IsAllowable : LogItem → Type 0
IsAllowable i = (i.entry.action ≡ block) × (i.status ≡ status_none)

abbrev pub Offered : ItemKey → Monitor → Type 0
Offered k m = Any (λ x. x ≡ k) (item_keys m)

-- The footer and what the keys do agree, but for the offer to save an item that is allowed already.
pub record Offers (m : Monitor) (i : LogItem) : Type 0 where
  pub allows : Offered offers_allow m ↔ IsAllowable i
  pub saves_too : Offered offers_allow_save m ↔ IsAllowable i
  pub saves : Offered offers_save m ↔ (i.status ≡ status_temp)
  pub acts :
      (save : Bool)
      → IsAllowable i
      → update m (allow_key save) ≡ runs m (allow_entry m.cursor.pos i.entry save)
  pub idle : (save : Bool) → ¬ IsAllowable i → update m (allow_key save) ≡ tells m flash_already

block_iff : (a : Action) → (is_block a ≡ true) ↔ (a ≡ block)
unfolding is_block
block_iff allow = (λ h. cc, λ h. cc)
block_iff block = (λ h. refl, λ h. refl)

none_iff : (s : AllowStatus) → (is_status_none s ≡ true) ↔ (s ≡ status_none)
unfolding is_status_none
none_iff status_none = (λ h. refl, λ h. refl)
none_iff status_temp = (λ h. cc, λ h. cc)
none_iff status_saved = (λ h. cc, λ h. cc)

can_allow_iff : (i : LogItem) → (can_allow i ≡ true) ↔ IsAllowable i
unfolding can_allow
can_allow_iff i = ground (arith, block_iff i.entry.action, none_iff i.status)

-- What is offered, by the two tests.
abbrev IsMade : List ItemKey → Type 0 → AllowStatus → Type 0
IsMade keys A s =
    (Any (λ x. x ≡ offers_allow) keys ↔ A)
    × (Any (λ x. x ≡ offers_allow_save) keys ↔ A)
    × (Any (λ x. x ≡ offers_save) keys ↔ (s ≡ status_temp))

no_keys : (A : Type 0) (s : AllowStatus) → ¬ A → (s ≡ status_temp → ⊥) → IsMade [] A s
no_keys A s no_a no_temp =
    ((λ h. absurd h, λ a. no_a a), (λ h. absurd h, λ a. no_a a), (λ h. absurd h, no_temp))

both_keys :
    (A : Type 0) (s : AllowStatus)
    → A
    → s ≡ status_none
    → IsMade (offers_allow ∷ offers_allow_save ∷ []) A s
both_keys A s a e = (
  (λ _. a, λ _. inl refl),
  (λ _. a, λ _. inr (inl refl)),
  (
    λ h. elim h [ inl x ↦ absurd cc | inr (inl x) ↦ absurd cc | inr (inr x) ↦ absurd x ],
    λ t. absurd cc,
  ),
)

save_key : (A : Type 0) (s : AllowStatus) → ¬ A → s ≡ status_temp → IsMade (offers_save ∷ []) A s
save_key A s no_a e = (
  (λ h. elim h [ inl x ↦ absurd cc | inr x ↦ absurd x ], λ a. absurd (no_a a)),
  (λ h. elim h [ inl x ↦ absurd cc | inr x ↦ absurd x ], λ a. absurd (no_a a)),
  (λ _. e, λ _. inl refl),
)

other_keys :
    (A : Type 0) (s t : AllowStatus)
    → ¬ A
    → s ≡ t
    → IsMade (elim t [ status_temp ↦ offers_save ∷ [] | status_none ↦ [] | status_saved ↦ [] ]) A s
other_keys A s status_temp no_a e = save_key A s no_a e
other_keys A s status_none no_a e = no_keys A s no_a (λ t. cc)
other_keys A s status_saved no_a e = no_keys A s no_a (λ t. cc)

item_keys_of-IsMade : (i : LogItem) → IsMade (item_keys_of i) (IsAllowable i) i.status
unfolding item_keys_of
item_keys_of-IsMade i = elim (Bool-cases (can_allow i)) [
  | inl t ↦ let a = (can_allow_iff i).0 t in rw t (both_keys (IsAllowable i) i.status a a.1)
  | inr t ↦
      let no_a : ¬ IsAllowable i = λ a. let u = (can_allow_iff i).1 a in cc in
      rw t (other_keys (IsAllowable i) i.status i.status no_a refl)
]

-- The footer offers to allow the item under the cursor, for the session or for good, exactly if it
-- is blocked and was not allowed since, and then the keys a and A run the command for it. On any
-- other item both keys only report that it is allowed already; all the same the footer offers A to
-- save it exactly if it is allowed temporarily.
pub item_keys-Offers :
    (m : Monitor) (i : LogItem) → get_elem? m.items m.cursor.pos ≡ some i → Offers m i
unfolding update on_allow_key item_keys
item_keys-Offers m i e =
    let same : item_keys m ≡ item_keys_of i = rw (e, item_keys) refl in
    let k = subst (λ ks. IsMade ks (IsAllowable i) i.status) (sym same) (item_keys_of-IsMade i) in
    record {
      allows = k.0;
      saves_too = k.1;
      saves = k.2;
      acts = λ save a. let t = (can_allow_iff i).1 a in rw (e, t) refl;
      idle = λ save n. elim (Bool-cases (can_allow i)) [
        | inl t ↦ absurd (n ((can_allow_iff i).0 t))
        | inr t ↦ rw (e, t) refl
      ];
    }
