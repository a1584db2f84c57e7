-- ===== src/Go/Steps.antt =====
-- What a function of Go that returned no error did on its way.
use mathlib.Core.Path.{subst}
use niova_block_csi.Prelude.{◌≡◌, refl, Bool, true, false, arith}
use niova_block_csi.Go.Error.{Error}
use niova_block_csi.Go.Exec.{reject_if, Result, ok, err, panic, Exec, ◌>>=◌, ◌>>◌}

-- `a, err := m; if err != nil { return err }; k(a)`: `m` returned a value, and `k` did the rest.
pub bind-ok :
    {S A B : Type 0} (m : Exec S A) (k : A → Exec S B) (b : B) (s : S)
    → ((m >>= k) s).0 ≡ ok b
    → (a : A) × (s' : S) × (m s ≡ (ok a, s')) × ((m >>= k) s ≡ k a s')
bind-ok {S = S} {A = A} m k b s = of_result (m s)
  where
    of_result :
        (r : Result A × S)
        → (((λ x. r) >>= k) s).0 ≡ ok b
        → (a : A) × (s' : S) × (r ≡ (ok a, s')) × (((λ x. r) >>= k) s ≡ k a s')
    of_result (ok a, s') h = (a, s', refl, refl)
    of_result (err e, s') h = ground arith
    of_result (panic f, s') h = ground arith

-- The same where `m` returns nothing but the error.
pub seq-ok :
    {S : Type 0} (m k : Exec S (Unit {0})) (s : S)
    → ((m >> k) s).0 ≡ ok tt
    → (s' : S) × (m s ≡ (ok tt, s')) × ((m >> k) s ≡ k s')
seq-ok m k s h = let (tt, s', first, rest) = bind-ok m (λ x. k) tt s h in (s', first, rest)

-- `if b { return err }; k`: the test did not hold.
pub reject_if-ok :
    {S A : Type 0} (b : Bool) (e : Error) (k : Exec S A) (a : A) (s : S)
    → ((reject_if b e >> k) s).0 ≡ ok a
    → (k s).0 ≡ ok a
reject_if-ok true e k a s h = ground arith
reject_if-ok false e k a s h = h

-- A call that is known to return a value, and what comes behind it.
pub value-ok :
    {S A B : Type 0} (m : Exec S A) (k : A → Exec S B) (a : A) (b : B) (s : S)
    → m s ≡ (ok a, s)
    → ((m >>= k) s).0 ≡ ok b
    → (k a s).0 ≡ ok b
value-ok m k a b s e h = subst (λ r. (((λ x. r) >>= k) s).0 ≡ ok b) e h
