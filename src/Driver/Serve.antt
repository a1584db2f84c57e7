-- ===== src/Driver/Serve.antt =====
-- When `Run` of pkg/driver/driver.go comes to serve.
use niova_block_csi.Prelude.{String, ◌≡◌, sym, ap, ◌∙◌, ◌==◌, if◌then◌else◌, arith, inl, inr}
use niova_block_csi.Go.Exec.{ok, returned, Exec, pure, ◌>>◌}
use niova_block_csi.Go.Steps.{seq-ok}
use niova_block_csi.Config.Retry.{reply_cases}
use niova_block_csi.Driver.{parse_endpoint}
use niova_block_csi.Driver.Run.{
  CsiDriver, Runtime, registered, prepare_socket, open_listener, serve_at, run,
}

module _ {S : Type 0} (R : Runtime S) where
  -- That a run came to serve at this endpoint, in the state `before`.
  pub record Served (endpoint : String) (s before : S) : Type 0 where
    pub proto : String
    pub addr : String
    pub prepared : S
    pub parsed : parse_endpoint endpoint ≡ returned (proto, addr)
    pub socket : (if proto == "unix" then prepare_socket R addr else pure tt) s ≡ (ok tt, prepared)
    pub listens : R.listen proto addr prepared ≡ (returned tt, before)

  serve_at-ok :
      (d : CsiDriver) (proto addr : String) (s : S)
      → (serve_at R d proto addr s).0 ≡ ok tt
      → (before : S) × (R.listen proto addr s ≡ (returned tt, before))
        × (R.serve (registered d) before ≡ (returned tt, (serve_at R d proto addr s).1))
  unfolding serve_at open_listener
  serve_at-ok d proto addr s k = elim (reply_cases (R.listen proto addr s)) [
    | inl (tt, before, e) ↦ elim (reply_cases (R.serve (registered d) before)) [
      | inl (tt, after, served) ↦ (before, e, ground arith)
      | inr (refused, after, served) ↦ ground arith
    ]
    | inr (refused, after, e) ↦ ground arith
  ]

  -- Where `Run` returns no error, the endpoint is well formed, the listener was opened at it, and what the
  -- driver had set up, and nothing else, was served from there on to the end.
  pub run-ok :
      (d : CsiDriver) (s : S)
      → (run R d s).0 ≡ ok tt
      → (before : S) × Served d.endpoint s before
        × (R.serve (registered d) before ≡ (returned tt, (run R d s).1))
  unfolding run
  run-ok d s k = elim (reply_cases (parse_endpoint d.endpoint, s)) [
    | inl ((proto, addr), s', e) ↦
        let parsed : parse_endpoint d.endpoint ≡ returned (proto, addr) = ap (λ x. x.0) e in
        let m : Exec S (Unit {0}) = if proto == "unix" then prepare_socket R addr else pure tt in
        let runs : run R d s ≡ (m >> serve_at R d proto addr) s = ground arith in
        let (prepared, first, later) = seq-ok m (serve_at R d proto addr) s (ground arith) in
        let (before, listens, serves) = serve_at-ok d proto addr prepared (ground arith) in
        (
          before,
          record {
            proto = proto;
            addr = addr;
            prepared = prepared;
            parsed = parsed;
            socket = first;
            listens = listens;
          },
          serves ∙ ap (λ x. (returned tt, x.1)) (sym (runs ∙ later)),
        )
    | inr (bad, s', e) ↦ ground arith
  ]
