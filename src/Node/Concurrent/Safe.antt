-- ===== src/Node/Concurrent/Safe.antt =====
-- Each section of a call of pkg/node/node.go for one volume leaves all other volumes alone, whatever the
-- other goroutines did before it.
use mathlib.Core.Path.{subst}
use niova_block_csi.Prelude.{String, ◌≡◌, refl, sym}
use niova_block_csi.Go.Exec.{Result, ok, err, panic, Exec}
use niova_block_csi.Go.Mutex.{unlocked}
use niova_block_csi.Types.{Node}
use niova_block_csi.Node.Host.{Host}
use niova_block_csi.Node.Server.{NodeServer}
use niova_block_csi.Node.Service.{IsSound}
use niova_block_csi.Node.Concurrent.{Goroutine, finished, running, after, section, last}
use niova_block_csi.Node.Concurrent.Later.{Later, Later-trans, Keeps, same-Keeps}

module _ (H : Host) (id : String) where
  -- From any later map on, each section leaves the other volumes alone, and so does what follows it.
  unfoldable pub Safe : Goroutine H → Node → Type 0
  Safe (finished r) n = Unit {0}
  Safe (running f k) n =
      (s : NodeServer H) → Later n s.node → IsSound H s → Keeps H id s (f s) × Safe (k s) (f s).node

  pub Safe-Later : (g : Goroutine H) (n n' : Node) → Later n n' → Safe g n → Safe g n'
  unfolding Safe
  Safe-Later (finished r) n n' later safe = tt
  Safe-Later (running f k) n n' later safe =
      λ s after sound. safe s (Later-trans n n' s.node later after) sound

  module _ {A : Type 0} (m : Exec (NodeServer H) A) (k : A → Goroutine H) (n : Node) where
    -- What is to be shown of a section.
    abbrev pub SectionSafe : Type 0
    SectionSafe =
        (s : NodeServer H)
        → Later n s.node
        → IsSound H s
        → Keeps H id s (m s).1 × ((a : A) → (m s).0 ≡ ok a → Safe (k a) (m s).1.node)

    after-Safe :
        (r : Result A) (n' : Node) → ((a : A) → r ≡ ok a → Safe (k a) n') → Safe (after H k r) n'
    unfolding Safe
    after-Safe (ok a) n' h = h a refl
    after-Safe (err e) n' h = tt
    after-Safe (panic f) n' h = tt

    pub section-Safe : SectionSafe → Safe (section H m k) n
    unfolding Safe
    section-Safe h s later sound =
        let (keeps, more) = h s later sound in (keeps, after-Safe (m s).0 (m s).1.node more)

  pub last-Safe :
      (m : Exec (NodeServer H) (Unit {0})) (n : Node)
      → ((s : NodeServer H) → Later n s.node → IsSound H s → Keeps H id s (m s).1)
      → Safe (last H m) n
  unfolding Safe
  last-Safe m n h =
      section-Safe m (λ _. finished (ok tt)) n (λ s later sound. (h s later sound, λ a e. tt))

  -- A section that leaves the map and the mutex as they are.
  abbrev pub Quiet : {A : Type 0} → Exec (NodeServer H) A → Type 0
  Quiet m =
      (s : NodeServer H) → s.mutex ≡ unlocked → ((m s).1.mutex ≡ unlocked) × ((m s).1.node ≡ s.node)

  pub Quiet-Safe :
      {A : Type 0} (m : Exec (NodeServer H) A) (k : A → Goroutine H) (n : Node)
      → Quiet m
      → ((s : NodeServer H) (a : A)
          → Later n s.node
          → IsSound H s
          → (m s).0 ≡ ok a
          → Safe (k a) s.node)
      → Safe (section H m k) n
  Quiet-Safe m k n quiet more = section-Safe m k n (λ s later sound.
      let (free, same) = quiet s sound.0 in
      (
        same-Keeps H id s (m s).1 sound free same,
        λ a e. subst (Safe (k a)) (sym same) (more s a later sound e),
      ))
