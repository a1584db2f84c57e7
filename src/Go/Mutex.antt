-- ===== src/Go/Mutex.antt =====
-- `sync.RWMutex`, as one goroutine meets it: a call that would wait for the goroutine itself is a
-- deadlock, and an unlock of what is not locked is a fatal error.
use niova_block_csi.Prelude.{ℕ, ◌+◌, ◌-◌, Bool, true, false, ◌||◌, ltb, if◌then◌else◌}
use niova_block_csi.Go.Exec.{ok, panic, self_deadlock, not_locked, Exec}

pub record RwMutex : Type 0 where
  pub readers : ℕ
  pub writing : Bool

abbrev pub unlocked : RwMutex
unlocked = record { readers = 0; writing = false }

unfoldable pub lock : Exec RwMutex (Unit {0})
lock m =
    if m.writing || ltb 0 m.readers
    then (panic self_deadlock, m)
    else (ok tt, record m { writing = true })

unfoldable pub unlock : Exec RwMutex (Unit {0})
unlock m = if m.writing then (ok tt, record m { writing = false }) else (panic not_locked, m)

unfoldable pub r_lock : Exec RwMutex (Unit {0})
r_lock m =
    if m.writing then (panic self_deadlock, m) else (ok tt, record m { readers = m.readers + 1 })

unfoldable pub r_unlock : Exec RwMutex (Unit {0})
r_unlock m =
    if ltb 0 m.readers then (ok tt, record m { readers = m.readers - 1 }) else (panic not_locked, m)
