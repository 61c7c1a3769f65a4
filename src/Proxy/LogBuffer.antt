-- ===== src/Proxy/LogBuffer.antt =====
-- proxy/log.go: the ring buffer of log entries, with the statistics of each domain.
pub mod Rotation
pub mod Ring
pub mod Queries
pub mod Stats
use vibepit.Prelude.{
  ℕ, zero, suc, ◌+◌, ◌-◌, ◌%◌, ◌^◌, ◌<◌, Bool, true, false, not, ◌&&◌, Option, none, some, List, [],
  ◌∷◌, ◌++◌, Text, text_eq, length, take, drop, set, replicate, ltb, ◌==◌, if◌then◌else◌, and_then,
}

pub data Action : Type 0 where
  allow block : Action

pub data Source : Type 0 where
  proxy dns : Source

-- `time` counts ticks of the clock.
pub record LogEntry : Type 0 where
  pub id : ℕ
  pub time : ℕ
  pub domain : Text
  pub port : Text
  pub action : Action
  pub source : Source
  pub reason : Text

pub record DomainStats : Type 0 where
  pub allowed : ℕ
  pub blocked : ℕ

-- uint64, and the bit patterns of int
abbrev pub word : ℕ
word = 2 ^ 64

-- The map `stats` is an association list with each domain once.
pub record LogBuffer : Type 0 where
  pub entries : List LogEntry
  pub cap : ℕ
  pub pos : ℕ
  pub full : Bool
  pub next_id : ℕ
  pub stats : List (Text × DomainStats)

abbrev zero_entry : LogEntry
zero_entry = record {
  id = 0;
  time = 0;
  domain = [];
  port = [];
  action = block;
  source = proxy;
  reason = [];
}

unfoldable pub new_log_buffer : ℕ → LogBuffer
new_log_buffer capacity = record {
  entries = replicate capacity zero_entry;
  cap = capacity;
  pos = 0;
  full = false;
  next_id = 1;
  stats = [];
}

unfoldable pub bump : Action → DomainStats → DomainStats
bump allow s = record s { allowed = (s.allowed + 1) % word }
bump block s = record s { blocked = (s.blocked + 1) % word }

-- the counters of a domain, made on its first entry
unfoldable pub count_entry : Text → Action → List (Text × DomainStats) → List (Text × DomainStats)
count_entry d a [] = (d, bump a (record { allowed = 0; blocked = 0 })) ∷ []
count_entry d a ((k, s) ∷ m) =
    let rest = count_entry d a m in if text_eq k d then (k, bump a s) ∷ m else (k, s) ∷ rest

-- the fields after `Add`
unfoldable pub added : LogBuffer → LogEntry → LogBuffer
added b entry =
    let pos = (b.pos + 1) % b.cap in
    record {
      entries = set b.entries b.pos (record entry { id = b.next_id });
      cap = b.cap;
      pos = pos;
      full = if pos == 0 && not b.full then true else b.full;
      next_id = (b.next_id + 1) % word;
      stats = count_entry entry.domain entry.action b.stats;
    }

-- `Add`; the write at `pos` panics if it is out of range.
unfoldable pub add : LogBuffer → LogEntry → Option LogBuffer
add b entry = if ltb b.pos (length b.entries) then some (added b entry) else none

-- The write of `Add` is in range.
abbrev pub IsReady : LogBuffer → Type 0
IsReady b = b.pos < length b.entries

unfoldable pub add_all : LogBuffer → List LogEntry → Option LogBuffer
add_all b [] = some b
add_all b (e ∷ es) = and_then (add b e) (λ c. add_all c es)

-- `entriesLocked`: the two copies fill a slice of length `cap`, which is that of `entries`.
unfoldable pub entries_locked : LogBuffer → List LogEntry
entries_locked b =
    if not b.full then take b.pos b.entries else drop b.pos b.entries ++ take b.pos b.entries

-- the entries from the first one whose ID is greater; none of them gives nil
unfoldable pub first_after : ℕ → List LogEntry → List LogEntry
first_after after_id [] = []
first_after after_id (e ∷ es) =
    let rest = first_after after_id es in if ltb after_id e.id then e ∷ es else rest

unfoldable pub entries_after : LogBuffer → ℕ → List LogEntry
entries_after b after_id =
    let all = entries_locked b in
    if after_id == 0
    then (if ltb 25 (length all) then drop (length all - 25) all else all)
    else first_after after_id all

-- a lookup in `Stats()`
unfoldable pub stats_of : Text → List (Text × DomainStats) → Option DomainStats
stats_of d [] = none
stats_of d ((k, s) ∷ m) = if text_eq k d then some s else stats_of d m
