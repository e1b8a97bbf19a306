-- ===== src/Ingress/Lock.antt =====
-- sync.RWMutex: readers share, a writer is alone, and a writer that waits keeps new readers out.
use podman_swarm.Base.{ℕ, suc, ◌-◌, Bool, true, false, Option, none, some, ◌||◌, ltb, if◌then◌else◌}

pub record Mutex : Type 0 where
  pub readers : ℕ
  pub writer : Bool
  pub waiting : ℕ

abbrev pub free : Mutex
free = record { readers = 0; writer = false; waiting = 0 }

-- RLock: `none` when the call has to wait.
unfoldable pub rlock : Mutex → Option Mutex
rlock m = if m.writer || ltb 0 m.waiting then none else some (record m { readers = suc m.readers })

-- Lock: `none` when the call has to wait; then it waits as `wait` says.
unfoldable pub lock : Mutex → Option Mutex
lock m = if m.writer || ltb 0 m.readers then none else some (record m { writer = true })

abbrev pub wait : Mutex → Mutex
wait m = record m { waiting = suc m.waiting }

abbrev pub runlock : Mutex → Mutex
runlock m = record m { readers = m.readers - 1 }

abbrev pub unlock : Mutex → Mutex
unlock m = record m { writer = false }
