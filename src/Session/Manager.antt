-- ===== src/Session/Manager.antt =====
-- session/manager.go: the sessions of the daemon and their limit.
pub mod Limit
use vibepit.Prelude.{
  ℕ, suc, ◌+◌, ◌==◌, Bool, true, false, Option, none, some, List, [], ◌∷◌, ◌++◌, leb, if◌then◌else◌,
}

-- A session of the map, by the number in its identifier "session-%d".
pub record Entry : Type 0 where
  pub id : ℕ
  pub exited : Bool

pub record Manager : Type 0 where
  pub sessions : List Entry
  pub counter : ℕ
  pub limit : ℕ

unfoldable pub new_manager : ℕ → Manager
new_manager limit = record { sessions = []; counter = 0; limit = limit }

-- the count of the sessions that have not exited
unfoldable pub active : List Entry → ℕ
active [] = 0
active (e ∷ es) = let rest = active es in if e.exited then rest else suc rest

pub data CreateResult : Type 0 where
  created : ℕ → CreateResult
  limit_reached start_failed : CreateResult

-- `Create`; `started` tells whether `newSession` could start the shell
unfoldable pub create : Manager → Bool → Manager × CreateResult
create m started =
    if leb m.limit (active m.sessions)
    then (m, limit_reached)
    else if started
    then (
      record m {
        sessions = m.sessions ++ record { id = suc m.counter; exited = false } ∷ [];
        counter = suc m.counter;
      },
      created (suc m.counter),
    )
    else (record m { counter = suc m.counter }, start_failed)

-- `Get`: whether there is a session with the identifier
unfoldable pub get : List Entry → ℕ → Option Entry
get [] i = none
get (e ∷ es) i = let rest = get es i in if e.id == i then some e else rest

-- a session that exits, and the delete after its cleanup
unfoldable pub mark_exited : ℕ → List Entry → List Entry
mark_exited i [] = []
mark_exited i (e ∷ es) =
    let rest = mark_exited i es in if e.id == i then record e { exited = true } ∷ rest else e ∷ rest

unfoldable pub delete : ℕ → List Entry → List Entry
delete i [] = []
delete i (e ∷ es) = let rest = delete i es in if e.id == i then rest else e ∷ rest
