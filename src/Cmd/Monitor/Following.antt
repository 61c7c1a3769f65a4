-- ===== src/Cmd/Monitor/Following.antt =====
-- The screen with its poll in flight, the log of the proxy and the user (cmd/monitor_ui.go).
use vibepit.Prelude.{
  All-map, ℕ, suc, ◌+◌, ◌≡◌, ◌≤◌, ◌<◌, refl, sym, subst, Bool, true, false, not, ◌&&◌, ◌||◌, Option,
  none, some, List, [], ◌∷◌, ◌++◌, Text, ok, err, length, get_elem?, leb, length-append, arith,
  Bool-cases, inl, inr,
}
use vibepit.Proxy.LogBuffer.{LogEntry, LogBuffer, word, new_log_buffer, add_all, entries_after}
use vibepit.Tui.Cursor.Visible.{new_cursor-IsInView}
use vibepit.Cmd.Monitor.{
  LogItem, AllowStatus, Monitor, Message, Command, Reply, allow_key, esc_key, quit_key,
  other_message, window_size, allow_result, logs_result, tick, poll_logs, allow_entry, quit,
  go_back, new_monitor, on_allow_key, on_key, on_size, on_allowed, receive, poll_failed,
  tick_connected, tick_at, update, can_allow, disconnect_grace_ticks,
}
use vibepit.Cmd.Monitor.Feed.{IsLogged, IsLogged-append, Feeds, entries_after-Feeds}
use vibepit.Cmd.Monitor.Follows.{
  IsFollowing, shown, on_key-IsFollowing, on_size-IsFollowing, receive-IsFollowing,
  on_allowed-IsFollowing,
}

-- The screen, the entries that the proxy has logged, and the polls that are not answered yet, each by
-- the ID after which it asks.
pub record System : Type 0 where
  pub monitor : Monitor
  pub log : List LogEntry
  pub pending : List ℕ

-- A command is run: a poll waits for its answer, with those that wait already.
abbrev pub pending_after : Option Command → List ℕ → List ℕ
pending_after none p = p
pending_after (some (poll_logs a)) p = a ∷ p
pending_after (some (allow_entry i e save)) p = p
pending_after (some quit) p = p
pending_after (some go_back) p = p

abbrev pub after : System → Message → System
after s message =
    let r = update s.monitor message in
    record s { monitor = r.monitor; pending = pending_after r.command s.pending }

-- A message that is not the result of a poll.
abbrev pub IsLocal : Message → Type 0
IsLocal (allow_key save) = Unit
IsLocal esc_key = Unit
IsLocal quit_key = Unit
IsLocal (other_message k) = Unit
IsLocal (window_size h) = Unit
IsLocal (allow_result i r) = Unit
IsLocal (logs_result r) = ⊥
IsLocal (tick elapsed) = Unit

-- The proxy logs an entry; the screen gets a message; one of the polls that wait is answered by
-- the buffer of the proxy, as it is then, or fails.
pub data Step (capacity : ℕ) : System → System → Type 0 where
  logs : (s : System) (e : LogEntry) → Step capacity s (record s { log = s.log ++ e ∷ [] })
  acts : (s : System) (message : Message) → IsLocal message → Step capacity s (after s message)
  answers :
      (s : System) (earlier later : List ℕ) (a : ℕ) (b : LogBuffer)
      → s.pending ≡ earlier ++ a ∷ later
      → add_all (new_log_buffer capacity) s.log ≡ some b
      → Step capacity s
          (after (record s { pending = earlier ++ later }) (logs_result (ok (entries_after b a))))
  fails :
      (s : System) (earlier later : List ℕ) (a : ℕ) (e : Text)
      → s.pending ≡ earlier ++ a ∷ later
      → Step capacity s (after (record s { pending = earlier ++ later }) (logs_result (err e)))

pub data Reaches (capacity : ℕ) (s : System) : System → Type 0 where
  here : Reaches capacity s s
  next : (t u : System) → Reaches capacity s t → Step capacity t u → Reaches capacity s u

-- At most one poll is in flight, and it asks for what follows the last entry of the screen.
abbrev pub Waits : Bool → ℕ → List ℕ → Type 0
Waits in_flight poll_cursor [] = in_flight ≡ false
Waits in_flight poll_cursor (a ∷ []) = (in_flight ≡ true) × (a ≡ poll_cursor)
Waits in_flight poll_cursor (a ∷ b ∷ more) = ⊥

idle_empty : (b : Bool) (c : ℕ) (p : List ℕ) → Waits b c p → b ≡ false → p ≡ []
idle_empty b c [] w e = refl
idle_empty b c (a ∷ []) w e = absurd (let f = w.0 in cc)
idle_empty b c (x ∷ y ∷ more) w e = absurd w

-- The poll that is answered was the only one.
only_one :
    (b : Bool) (c : ℕ) (earlier later : List ℕ) (a : ℕ)
    → Waits b c (earlier ++ a ∷ later)
    → (a ≡ c) × (earlier ++ later ≡ [])
only_one b c [] [] a w = (w.1, refl)
only_one b c [] (x ∷ later) a w = absurd w
only_one b c (x ∷ []) later a w = absurd w
only_one b c (x ∷ y ∷ earlier) later a w = absurd w

abbrev pub IsPending : Monitor → List ℕ → Type 0
IsPending m p = Waits m.poll_in_flight m.poll_cursor p

abbrev pub IsSound : System → Type 0
IsSound s = IsFollowing s.log s.monitor × IsPending s.monitor s.pending

module _ (log : List LogEntry) (m : Monitor) (f : IsFollowing log m) (p : List ℕ)
    (w : IsPending m p) where
  abbrev IsKept : Reply → Type 0
  IsKept r = IsFollowing log r.monitor × IsPending r.monitor (pending_after r.command p)

  on_allow_key-IsKept : (save : Bool) (i : Option LogItem) → IsKept (on_allow_key m save i)
  unfolding on_allow_key
  on_allow_key-IsKept save none = (f, w)
  on_allow_key-IsKept save (some i) = elim (Bool-cases (can_allow i)) [
    | inl e ↦ rw e (f, w)
    | inr e ↦ rw e (f, w)
  ]

  on_allowed-IsKept :
      (n : ℕ) (status : AllowStatus) (i : Option LogItem)
      → get_elem? m.items n ≡ i
      → IsKept (on_allowed m n status i)
  unfolding on_allowed
  on_allowed-IsKept n status none e = (f, w)
  on_allowed-IsKept n status (some i) e = (on_allowed-IsFollowing log m n status i e f, w)

  tick_connected-IsKept : (elapsed : Bool) → IsKept (tick_connected m elapsed)
  unfolding tick_connected
  tick_connected-IsKept elapsed =
      elim (Bool-cases ((elapsed || not m.first_tick_seen) && not m.poll_in_flight)) [
        | inl t ↦ elim (Bool-cases m.has_client) [
          | inl c ↦
              let free : m.poll_in_flight ≡ false = ground (arith, t) in
              let only = idle_empty m.poll_in_flight m.poll_cursor p w free in
              rw (t, c)
                (
                  f,
                  subst (λ q. Waits true m.poll_cursor (m.poll_cursor ∷ q)) (sym only) (refl, refl),
                )
          | inr c ↦ rw (t, c) (f, w)
        ]
        | inr t ↦ rw t (f, w)
      ]

  tick_at-IsKept : (elapsed : Bool) (d : Option ℕ) → IsKept (tick_at m elapsed d)
  unfolding tick_at
  tick_at-IsKept elapsed none = tick_connected-IsKept elapsed
  tick_at-IsKept elapsed (some n) = elim (Bool-cases m.has_back) [
    | inl b ↦ elim (Bool-cases (leb disconnect_grace_ticks (suc n))) [
      | inl t ↦ rw (b, t) (f, w)
      | inr t ↦ rw (b, t) (f, w)
    ]
    | inr b ↦ simp b (tick_connected-IsKept elapsed)
  ]

  update-IsKept : (message : Message) → IsLocal message → IsKept (update m message)
  unfolding update on_key on_size
  update-IsKept (allow_key save) l = on_allow_key-IsKept save (get_elem? m.items m.cursor.pos)
  update-IsKept esc_key l = elim (Bool-cases m.has_back) [
    | inl b ↦ rw b (f, w)
    | inr b ↦ rw b (f, w)
  ]
  update-IsKept quit_key l = (f, w)
  update-IsKept (other_message k) l = (on_key-IsFollowing log m k f, w)
  update-IsKept (window_size h) l = (on_size-IsFollowing log m h f, w)
  update-IsKept (allow_result i (err e)) l = (f, w)
  update-IsKept (allow_result i (ok status)) l =
      on_allowed-IsKept i status (get_elem? m.items i) refl
  update-IsKept (logs_result r) l = absurd l
  update-IsKept (tick elapsed) l = tick_at-IsKept elapsed m.disconnect

  failed_kept :
      (e : Text)
      → IsFollowing log (poll_failed m e).monitor
        × IsPending (poll_failed m e).monitor (pending_after (poll_failed m e).command [])
  unfolding poll_failed
  failed_kept e = elim (Bool-cases m.has_back) [ inl b ↦ rw b (f, refl) | inr b ↦ rw b (f, refl) ]

log_grows :
    (log : List LogEntry) (e : LogEntry) (m : Monitor)
    → IsFollowing log m
    → IsFollowing (log ++ e ∷ []) m
log_grows log e m f = record {
  ascends = f.ascends;
  bound = let l = length-append log (e ∷ []) in let b = f.bound in omega (arith, l, b);
  logged =
      All-map (IsLogged log) (IsLogged (log ++ e ∷ [])) (shown m.items)
        (λ x h. IsLogged-append log (e ∷ []) x h) f.logged;
  counted = f.counted;
  view = f.view;
}

Step-log : (capacity : ℕ) (s t : System) → Step capacity s t → length s.log ≤ length t.log
Step-log capacity s t (logs u e) = omega (arith, length-append u.log (e ∷ []))
Step-log capacity s t (acts u m l) = omega arith
Step-log capacity s t (answers u x y a b p e) = omega arith
Step-log capacity s t (fails u x y a e p) = omega arith

module _ (capacity : ℕ) (positive : 0 < capacity) where
  Step-IsSound :
      (s t : System) → Step capacity s t → length t.log + 2 < word → IsSound s → IsSound t
  unfolding update
  Step-IsSound s t (logs u e) room (f, w) = (log_grows u.log e u.monitor f, w)
  Step-IsSound s t (acts u m l) room (f, w) = update-IsKept u.log u.monitor f u.pending w m l
  Step-IsSound s t (answers u x y a b p e) room (f, w) =
      let one =
        only_one u.monitor.poll_in_flight u.monitor.poll_cursor x y a
          (subst (IsPending u.monitor) p w) in
      let feeds =
        entries_after-Feeds capacity a u.log b positive room
          (subst (λ n. n ≤ length u.log) (sym one.0) f.bound) e in
      (
        receive-IsFollowing u.log u.monitor (entries_after b a) f
            (subst (λ n. Feeds u.log n (entries_after b a)) one.0 feeds),
        subst (IsPending (receive u.monitor (entries_after b a))) (sym one.1)
            (unfold receive in refl),
      )
  Step-IsSound s t (fails u x y a e p) room (f, w) =
      let one =
        only_one u.monitor.poll_in_flight u.monitor.poll_cursor x y a
          (subst (IsPending u.monitor) p w) in
      let kept = failed_kept u.log u.monitor f u.pending w e in
      (
        kept.0,
        subst
            (λ q.
              IsPending (poll_failed u.monitor e).monitor
                (pending_after (poll_failed u.monitor e).command q))
            (sym one.1) kept.1,
      )

  Reaches-IsSound :
      (s t : System) → Reaches capacity s t → length t.log + 2 < word → IsSound s → IsSound t
  Reaches-IsSound s t here room h = h
  Reaches-IsSound s t (next u v r st) room h =
      let g = Step-log capacity u v st in
      Step-IsSound u v st room (Reaches-IsSound s u r (omega (arith, g, room)) h)

-- a new screen, before anything is logged
abbrev pub start : Bool → Bool → System
start has_back has_client = record {
  monitor = new_monitor has_back has_client;
  log = [];
  pending = [];
}

start-IsSound : (has_back has_client : Bool) → IsSound (start has_back has_client)
unfolding new_monitor
start-IsSound has_back has_client = (
  record {
    ascends = refl;
    bound = omega arith;
    logged = tt;
    counted = refl;
    view = new_cursor-IsInView 0;
  },
  refl,
)

-- Whatever the user does and however the log grows, polls fail and answers arrive late, with fewer
-- than 2^64 - 2 entries logged: the screen shows entries of the log, each at most once and in the
-- order of the log; at most one poll is in flight, and it asks for what follows the last entry that
-- is shown; the cursor counts the entries, stands on one of them, or on 0 without any, and is in view.
pub new_monitor-IsSound :
    (capacity : ℕ) (has_back has_client : Bool) (t : System)
    → 0 < capacity
    → Reaches capacity (start has_back has_client) t
    → length t.log + 2 < word
    → IsSound t
new_monitor-IsSound capacity has_back has_client t positive r room =
    Reaches-IsSound capacity positive (start has_back has_client) t r room
      (start-IsSound has_back has_client)
