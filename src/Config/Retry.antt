-- ===== src/Config/Retry.antt =====
-- What `RetryAuth` of pkg/config/config.go does on each way through its loop.
use niova_block_csi.Prelude.{
  ℕ, zero, suc, ◌≤◌, ◌+◌, ◌*◌, ◌≡◌, refl, ◌⊎◌, inl, inr, String, false, arith,
}
use niova_block_csi.Go.Error.{Error, wrapped}
use niova_block_csi.Go.Exec.{Result, Reply, ok, err, panic, returned, failed}
use niova_block_csi.Types.{max_retry, niova_user_name, niova_user_secret}
use niova_block_csi.Config.Plane.{Plane}
use niova_block_csi.Config.Manager.{
  Manager, call, blames_token, user_login, verify_token_expiry_and_relogin, retry_loop, retry_auth,
}

-- A call that came back to its caller.
abbrev pub Settles : {A : Type 0} → Result A → Type 0
Settles (ok a) = Unit
Settles (err e) = Unit
Settles (panic f) = ⊥

pub reply_cases :
    {A S : Type 0} (r : Reply A × S)
    → ((a : A) × (s : S) × (r ≡ (returned a, s))) ⊎ ((e : Error) × (s : S) × (r ≡ (failed e, s)))
reply_cases (returned a, s) = inl (a, s, refl)
reply_cases (failed e, s) = inr (e, s, refl)

result_cases :
    {S : Type 0} (r : Result (Unit {0}) × S)
    → Settles r.0
    → ((s : S) × (r ≡ (ok tt, s))) ⊎ ((e : Error) × (s : S) × (r ≡ (err e, s)))
result_cases (ok a, s) h = inl (s, refl)
result_cases (err e, s) h = inr (e, s, refl)
result_cases (panic f, s) h = absurd h

module _ (P : Plane) where
  abbrev pub login_now : P.State → Reply String × P.State
  login_now = P.login (P.getenv niova_user_name) (P.getenv niova_user_secret)

  user_login-keeps :
      (m : Manager P) → Settles (user_login P m).0 × ((user_login P m).1.mutex ≡ m.mutex)
  unfolding user_login
  user_login-keeps m = ground arith

  relogin-keeps :
      (e : Error) (m : Manager P)
      → Settles (verify_token_expiry_and_relogin P e m).0
        × ((verify_token_expiry_and_relogin P e m).1.mutex ≡ m.mutex)
  unfolding verify_token_expiry_and_relogin
  relogin-keeps e m = ground (arith, user_login-keeps m)

  module _ {A : Type 0} (f : P.State → Reply A × P.State) where
    retry_loop-keeps :
        (rounds : ℕ) (m : Manager P)
        → Settles (retry_loop P rounds (call P f) m).0
          × ((retry_loop P rounds (call P f) m).1.mutex ≡ m.mutex)
    unfolding retry_loop
    retry_loop-keeps zero m = ground arith
    retry_loop-keeps (suc rounds) m = grind (arith, relogin-keeps, retry_loop-keeps rounds)

    pub retry_auth-keeps :
        (m : Manager P)
        → Settles (retry_auth P (call P f) m).0 × ((retry_auth P (call P f) m).1.mutex ≡ m.mutex)
    unfolding retry_auth
    retry_auth-keeps m = retry_loop-keeps max_retry m

    -- The value is that of one call of the operation, and nothing is called after it.
    abbrev FromLastCall : A → P.State → Type 0
    FromLastCall a end = (s : P.State) × (f s ≡ (returned a, end))

    relogin-cases :
        (e : Error) (m : Manager P)
        → ((m' : Manager P) × (verify_token_expiry_and_relogin P e m ≡ (ok tt, m')))
          ⊎ ((x : Error) × (m' : Manager P) × (verify_token_expiry_and_relogin P e m ≡ (err x, m')))
    relogin-cases e m = result_cases (verify_token_expiry_and_relogin P e m) (relogin-keeps e m).0

    retry_loop-ok :
        (rounds : ℕ) (m : Manager P) (a : A)
        → (retry_loop P rounds (call P f) m).0 ≡ ok a
        → FromLastCall a (retry_loop P rounds (call P f) m).1.plane
    unfolding retry_loop
    retry_loop-ok zero m a h = cc
    retry_loop-ok (suc rounds) m a h = elim (reply_cases (f m.plane)) [
      | inl (b, s, e) ↦ (m.plane, ground arith)
      | inr (x, s, e) ↦ elim (relogin-cases x (record m { plane = s })) [
        | inl (m', r) ↦ rw (e, r) (retry_loop-ok rounds m' a (ground arith))
        | inr (y, m', r) ↦ absurd (ground arith)
      ]
    ]

    retry_loop-bound :
        (count : P.State → ℕ) (c l : ℕ)
        → ((s : P.State) → count (f s).1 ≤ count s + c)
        → ((s : P.State) → count (login_now s).1 ≤ count s + l)
        → ((t : String) (s : P.State) → count (P.set_token t s) ≤ count s)
        → (rounds : ℕ) (m : Manager P)
        → count (retry_loop P rounds (call P f) m).1.plane ≤ count m.plane + rounds * (c + l)
    unfolding retry_loop verify_token_expiry_and_relogin user_login
    retry_loop-bound count c l hf hl ht zero m = omega arith
    retry_loop-bound count c l hf hl ht (suc rounds) m =
        grind (arith, hf, hl, ht, retry_loop-bound count c l hf hl ht rounds)

    -- The first error stands where it does not blame the token: no login, no second call.
    pub retry_auth-other_error :
        (m : Manager P) (e : Error) (s : P.State)
        → f m.plane ≡ (failed e, s)
        → blames_token e ≡ false
        → retry_auth P (call P f) m
          ≡ (err (wrapped "failed to relogin: " e), record m { plane = s })
    unfolding retry_auth retry_loop verify_token_expiry_and_relogin
    retry_auth-other_error m e s h b = ground arith

    -- What `RetryAuth` returns is the value of one call of the operation, and nothing is called after
    -- that call.
    pub retry_auth-ok :
        (m : Manager P) (a : A)
        → (retry_auth P (call P f) m).0 ≡ ok a
        → (s : P.State) × (f s ≡ (returned a, (retry_auth P (call P f) m).1.plane))
    unfolding retry_auth
    retry_auth-ok m a h = retry_loop-ok max_retry m a h

    -- The operation and the login run at most `MAX_RETRY` times each: a quantity that a call raises by
    -- at most `c` and a login by at most `l`, and that `SetToken` does not raise, grows by at most
    -- `MAX_RETRY * (c + l)`.
    pub retry_auth-bound :
        (count : P.State → ℕ) (c l : ℕ)
        → ((s : P.State) → count (f s).1 ≤ count s + c)
        → ((s : P.State) → count (login_now s).1 ≤ count s + l)
        → ((t : String) (s : P.State) → count (P.set_token t s) ≤ count s)
        → (m : Manager P)
        → count (retry_auth P (call P f) m).1.plane ≤ count m.plane + max_retry * (c + l)
    unfolding retry_auth
    retry_auth-bound count c l hf hl ht m = retry_loop-bound count c l hf hl ht max_retry m
