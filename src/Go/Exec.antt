-- ===== src/Go/Exec.antt =====
-- Go functions that change a state of type `S` and may return an error or panic. What was written
-- before an error stays written, so the state comes back beside every result.
use niova_block_csi.Prelude.{Bool, true, false, Option, none, some}
use niova_block_csi.Go.Error.{Error}

-- What makes a goroutine go no further: it dereferences nil, it waits for a lock that it holds, or it
-- frees a lock that is free.
pub data Fault : Type 0 where
  nil_dereference self_deadlock not_locked : Fault
  -- A loop that a model stopped after its rounds.
  still_running : Fault

pub data Result {ℓ} (A : Type ℓ) : Type ℓ where
  ok : A → Result A
  err : Error → Result A
  panic : Fault → Result A

-- What a call of other code returns: `value, nil` or `_, err`.
pub data Reply {ℓ} (A : Type ℓ) : Type ℓ where
  returned : A → Reply A
  failed : Error → Reply A

abbrev pub to_result {ℓ} : {A : Type ℓ} → Reply A → Result A
to_result (returned a) = ok a
to_result (failed e) = err e

abbrev pub Exec : Type 0 → Type 0 → Type 0
Exec S A = S → Result A × S

module _ {S A : Type 0} where
  abbrev pub pure : A → Exec S A
  pure a s = (ok a, s)

  -- `return …, err`
  abbrev pub raise : Error → Exec S A
  raise e s = (err e, s)

  abbrev pub crash : Fault → Exec S A
  crash f s = (panic f, s)

  abbrev pub gets : (S → A) → Exec S A
  gets f s = (ok (f s), s)

-- `if b { return …, err }`
abbrev pub reject_if : {S : Type 0} → Bool → Error → Exec S (Unit {0})
reject_if true e s = (err e, s)
reject_if false e s = (ok tt, s)

-- `if p == nil { return …, err }`, and then what `p` points to.
abbrev pub or_reject : {S A : Type 0} → Option A → Error → Exec S A
or_reject none e s = (err e, s)
or_reject (some a) e s = (ok a, s)

abbrev pub modify : {S : Type 0} → (S → S) → Exec S (Unit {0})
modify f s = (ok tt, f s)

module _ {S A B : Type 0} where
  abbrev branch : Result A → (Error → Exec S B) → (A → Exec S B) → Exec S B
  branch (ok a) h k s = k a s
  branch (err e) h k s = h e s
  branch (panic f) h k s = (panic f, s)

  -- `a, err := m; if err != nil { h }; k`
  abbrev pub attempt : Exec S A → (Error → Exec S B) → (A → Exec S B) → Exec S B
  attempt m h k s = let (r, s') = m s in branch r h k s'

  infixl 10 ◌>>=◌ ◌>>◌
  -- The same where the error is returned as it is.
  abbrev pub ◌>>=◌ : Exec S A → (A → Exec S B) → Exec S B
  m >>= k = attempt m raise k

  abbrev pub ◌>>◌ : Exec S A → Exec S B → Exec S B
  m >> k = m >>= λ _. k

  -- `defer d; …`: `d` runs on every way out.
  abbrev pub finally : Exec S B → Exec S A → Exec S A
  finally d m s = let (r, s') = m s in (r, (d s').1)
