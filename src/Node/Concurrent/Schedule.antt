-- ===== src/Node/Concurrent/Schedule.antt =====
-- The calls of pkg/node/node.go in goroutines that run side by side, in every order in which their
-- sections may come.
use mathlib.Core.Path.{subst}
use niova_block_csi.Prelude.{
  ℕ, String, ◌≡◌, refl, ◌∙◌, true, false, List, [], ◌∷◌, ◌==◌, nat_eq, inl, inr, Bool-cases, arith,
  if◌then◌else◌,
}
use niova_block_csi.Node.Host.{Host}
use niova_block_csi.Node.State.{entry}
use niova_block_csi.Node.Server.{NodeServer}
use niova_block_csi.Node.Service.{NodeCall, IsSound}
use niova_block_csi.Node.Concurrent.{
  Goroutine, finished, running, Pool, advance, step, run_all, steps_of,
}
use niova_block_csi.Node.Concurrent.Later.{Later-refl, Keeps}
use niova_block_csi.Node.Concurrent.Safe.{Safe, Safe-Later}
use niova_block_csi.Node.Concurrent.Isolation.{volume_of, steps_of-Safe}

module _ (H : Host) where
  -- Goroutine `i` serves `calls i`, and none has begun.
  abbrev pub start : (ℕ → NodeCall) → NodeServer H → Pool H
  start calls s = record { threads = λ i. steps_of H (calls i); server = s }

  module _ (ids : ℕ → String) where
    -- The server is sound, and what each goroutine has left to do is safe.
    pub record PoolSafe (c : Pool H) : Type 0 where
      pub sound : IsSound H c.server
      pub each : (i : ℕ) → Safe H (ids i) (c.threads i) c.server.node

    same_thread : (i j : ℕ) → nat_eq i j ≡ true → i ≡ j
    same_thread i j e = ground arith

    advance-PoolSafe :
        (g : Goroutine H) (i : ℕ) (c : Pool H)
        → PoolSafe c
        → Safe H (ids i) g c.server.node
        → PoolSafe (advance H g i c)
          × ((other : String)
              → (ids i == other) ≡ false
              → entry (advance H g i c).server.node other ≡ entry c.server.node other)
    unfolding Safe
    advance-PoolSafe (finished r) i c safe own = (safe, λ other apart. refl)
    advance-PoolSafe (running f k) i c safe own =
        let (keeps, more) = own c.server (Later-refl c.server.node) safe.sound in
        (record { sound = keeps.sound; each = λ j. pick j keeps more }, keeps.others)
      where
        pick :
            (j : ℕ)
            → Keeps H (ids i) c.server (f c.server)
            → Safe H (ids i) (k c.server) (f c.server).node
            → Safe H (ids j) (if nat_eq i j then k c.server else c.threads j) (f c.server).node
        pick j keeps more = elim (Bool-cases (nat_eq i j)) [
          | inl same ↦ rw same (
              subst (λ x. Safe H (ids x) (k c.server) (f c.server).node) (same_thread i j same)
                more)
          | inr apart ↦ rw apart (
              Safe-Later H (ids j) (c.threads j) c.server.node (f c.server).node keeps.later
                (safe.each j))
        ]

    pub step-PoolSafe :
        (i : ℕ) (c : Pool H)
        → PoolSafe c
        → PoolSafe (step H i c)
          × ((other : String)
              → (ids i == other) ≡ false
              → entry (step H i c).server.node other ≡ entry c.server.node other)
    unfolding step
    step-PoolSafe i c safe = advance-PoolSafe (c.threads i) i c safe (safe.each i)

    run_all-PoolSafe :
        (schedule : List ℕ) (c : Pool H) → PoolSafe c → PoolSafe (run_all H schedule c)
    unfolding run_all
    run_all-PoolSafe [] c safe = safe
    run_all-PoolSafe (i ∷ schedule) c safe =
        run_all-PoolSafe schedule (step H i c) (step-PoolSafe i c safe).0

    run_all-others :
        (other : String) (schedule : List ℕ) (c : Pool H)
        → PoolSafe c
        → ((i : ℕ) → (ids i == other) ≡ false)
        → entry (run_all H schedule c).server.node other ≡ entry c.server.node other
    unfolding run_all
    run_all-others other [] c safe apart = refl
    run_all-others other (i ∷ schedule) c safe apart =
        let (safe', same) = step-PoolSafe i c safe in
        run_all-others other schedule (step H i c) safe' apart ∙ same other (apart i)

  module _ (calls : ℕ → NodeCall) where
    abbrev pub ids : ℕ → String
    ids i = volume_of (calls i)

    pub start-PoolSafe : (s : NodeServer H) → IsSound H s → PoolSafe ids (start calls s)
    start-PoolSafe s sound = record { sound = sound; each = λ i. steps_of-Safe H (calls i) s.node }

    -- Any calls, each in a goroutine of its own, in any order of their sections, also with goroutines
    -- left half way: where the mutex was free and the map well formed before, they are so after, so
    -- no two volumes ever come to share a pointer.
    pub run_all-IsSound :
        (schedule : List ℕ) (s : NodeServer H)
        → IsSound H s
        → IsSound H (run_all H schedule (start calls s)).server
    run_all-IsSound schedule s sound =
        (run_all-PoolSafe ids schedule (start calls s) (start-PoolSafe s sound)).sound

    -- Where the mutex is free and the map is well formed before, calls for other volumes, each in a
    -- goroutine of its own and in any order of their sections, leave the entry of a volume as it is.
    -- This holds also where such a call writes through a pointer that it took from the map before
    -- another one unstaged its volume.
    pub run_all-isolates :
        (volume : String) (schedule : List ℕ) (s : NodeServer H)
        → IsSound H s
        → ((i : ℕ) → (volume_of (calls i) == volume) ≡ false)
        → entry (run_all H schedule (start calls s)).server.node volume ≡ entry s.node volume
    run_all-isolates volume schedule s sound apart =
        run_all-others ids volume schedule (start calls s) (start-PoolSafe s sound) apart
