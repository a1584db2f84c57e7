-- ===== src/Config/Refresh.antt =====
-- Over a lawful control plane to which the login succeeds, an expired token does not show: each
-- operation has the result that it has under a token that is accepted.
use niova_block_csi.Prelude.{ℕ, suc, ◌≡◌, refl, true, false, arith, Bool-cases, inl, inr}
use niova_block_csi.Go.Error.{Error, wrapped}
use niova_block_csi.Go.Exec.{Result, Reply, ok, err, returned, failed}
use niova_block_csi.Config.Plane.{Plane}
use niova_block_csi.Config.Manager.{
  Manager, call, blames_token, user_login, verify_token_expiry_and_relogin, retry_loop, retry_auth,
}
use niova_block_csi.Config.Retry.{login_now, reply_cases}
use niova_block_csi.Config.Lawful.{IsLawful, LogsIn, Rejected}

abbrev pub retry_result : {A : Type 0} → Reply A → Result A
retry_result (returned a) = ok a
retry_result (failed e) = err (wrapped "failed to relogin: " e)

module _ (P : Plane) (L : IsLawful P) (logs_in : LogsIn P) where
  -- The state in which the operation is answered: that of the caller, or that after the login.
  fresh : P.State → P.State
  fresh s = P.set_token (logs_in s).0 (login_now P s).1

  fresh_accepted : (s : P.State) → L.accepted (fresh s) ≡ true
  unfolding fresh
  fresh_accepted s = L.login_accepted _ _ s (logs_in s).0 (logs_in s).1

  pub answered : P.State → P.State
  unfolding fresh
  answered s = elim (L.accepted s) [ true ↦ s | false ↦ fresh s ]

  pub accepted-answered : (s : P.State) → L.accepted (answered s) ≡ true
  unfolding answered
  accepted-answered s = ground (arith, fresh_accepted s)

  pub vdevs-answered : (s : P.State) → L.vdevs (answered s) ≡ L.vdevs s
  unfolding answered fresh
  vdevs-answered s = ground (
    arith,
    L.set_token_keeps (logs_in s).0 (login_now P s).1,
    L.login_keeps (P.getenv "NIOVA_BLOCK_CP_AUTH_USERNAME") (P.getenv "NIOVA_BLOCK_CP_AUTH_SECRET")
        s,
  )

  answered_good : (s : P.State) → L.accepted s ≡ true → answered s ≡ s
  unfolding answered
  answered_good s h = ground arith

  answered_bad : (s : P.State) → L.accepted s ≡ false → answered s ≡ fresh s
  unfolding answered
  answered_bad s h = ground arith

  -- An operation that a token which is not accepted keeps from doing anything, and whose errors
  -- under an accepted token have other reasons.
  pub record Guarded {A : Type 0} (f : P.State → Reply A × P.State) : Type 0 where
    pub rejected : (s : P.State) → L.accepted s ≡ false → Rejected s (f s)
    pub other_reason :
        (s : P.State) (e : Error)
        → L.accepted s ≡ true
        → (f s).0 ≡ failed e
        → blames_token e ≡ false

  module _ {A : Type 0} (f : P.State → Reply A × P.State) (g : Guarded f) where
    good_loop :
        (rounds : ℕ) (m : Manager P)
        → L.accepted m.plane ≡ true
        → retry_loop P (suc rounds) (call P f) m
          ≡ (retry_result (f m.plane).0, record m { plane = (f m.plane).1 })
    unfolding retry_loop verify_token_expiry_and_relogin
    good_loop rounds m good = elim (reply_cases (f m.plane)) [
      | inl (a, s, e) ↦ ground arith
      | inr (x, s, e) ↦ ground (arith, g.other_reason m.plane x good)
    ]

    abbrev relogged : Manager P → Manager P
    relogged m = record m { usertoken = (logs_in m.plane).0; plane = fresh m.plane }

    bad_loop :
        (rounds : ℕ) (m : Manager P)
        → L.accepted m.plane ≡ false
        → retry_loop P (suc rounds) (call P f) m ≡ retry_loop P rounds (call P f) (relogged m)
    unfolding retry_loop verify_token_expiry_and_relogin user_login fresh
    bad_loop rounds m bad =
        let (e, rejection, blame) = g.rejected m.plane bad in ground (arith, (logs_in m.plane).1)

    pub retry_auth-answered :
        (m : Manager P)
        → ((retry_auth P (call P f) m).0 ≡ retry_result (f (answered m.plane)).0)
          × ((retry_auth P (call P f) m).1.plane ≡ (f (answered m.plane)).1)
    unfolding retry_auth
    retry_auth-answered m = elim (Bool-cases (L.accepted m.plane)) [
      | inl good ↦ rw (answered_good m.plane good, good_loop 1 m good) (refl, refl)
      | inr bad ↦
          rw
            (
              answered_bad m.plane bad,
              bad_loop 1 m bad,
              good_loop 0 (relogged m) (fresh_accepted m.plane),
            )
            (refl, refl)
    ]
