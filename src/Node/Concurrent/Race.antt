-- ===== src/Node/Concurrent/Race.antt =====
-- What pkg/node/node.go does not rule out when two calls for one volume run side by side.
use mathlib.Core.Path.{subst}
use niova_block_csi.Prelude.{
  ℕ, String, ◌≡◌, refl, sym, ap, ◌∙◌, Bool, false, [], ◌∷◌, nat_eq, arith, if◌then◌else◌,
}
use niova_block_csi.Go.Exec.{ok, Exec}
use niova_block_csi.Go.Mutex.{unlocked}
use niova_block_csi.Csi.{AccessType, NodeStageRequest}
use niova_block_csi.Node.Host.{Host}
use niova_block_csi.Node.State.{is_staged}
use niova_block_csi.Node.Server.{NodeServer, reading}
use niova_block_csi.Node.Service.{stage}
use niova_block_csi.Node.Concurrent.{
  Goroutine, finished, section, stage_inputs, stage_rest, stage_steps, Pool, advance, step, run_all,
  steps_of,
}
use niova_block_csi.Node.Concurrent.Calls.{}
use niova_block_csi.Node.Concurrent.Calls.{reading-free}
use niova_block_csi.Node.Concurrent.Schedule.{start}

module _ (H : Host) where
  -- One turn of a goroutine whose section goes through.
  pub record Turned (i : ℕ) (c c' : Pool H) (g : Goroutine H) (s : NodeServer H) : Type 0 where
    pub own : c'.threads i ≡ g
    pub server : c'.server ≡ s
    pub other : (j : ℕ) → nat_eq i j ≡ false → c'.threads j ≡ c.threads j

  pub turn :
      {A : Type 0} (i : ℕ) (c : Pool H) (m : Exec (NodeServer H) A) (k : A → Goroutine H) (a : A)
      (s : NodeServer H)
      → c.threads i ≡ section H m k
      → m c.server ≡ (ok a, s)
      → Turned i c (step H i c) (k a) s
  unfolding step
  turn i c m k a s e r =
      let t : Pool H = advance H (section H m k) i c in
      let t_own : t.threads i ≡ k a = ground arith in
      let t_server : t.server ≡ s = ap (λ x. x.1) r in
      subst (λ g. Turned i c (advance H g i c) (k a) s) (sym e)
        (record { own = t_own; server = t_server; other = λ j apart. rw apart refl })

  -- `NodeStageVolume` behind its checks.
  if_unstaged : NodeStageRequest → AccessType × String × Bool × Bool → Goroutine H
  if_unstaged req (access, size, recovery, read_only) =
      section H (reading H (λ n. is_staged n req.volume_id)) (λ staged.
        if staged
        then finished (ok tt)
        else stage_rest H req.volume_id req.staging_target_path access size recovery read_only)

  -- Two calls to stage one volume that is not staged, side by side, on a free mutex: where the request
  -- passes its checks, both calls may pass the test for a staged volume before either has recorded
  -- anything, and each then goes on with the start of the daemon and all that comes after it.
  pub stage_races :
      (req : NodeStageRequest) (access : AccessType) (size : String) (recovery read_only : Bool)
      (s : NodeServer H)
      → s.mutex ≡ unlocked
      → is_staged s.node req.volume_id ≡ false
      → stage_inputs H req s ≡ (ok (access, size, recovery, read_only), s)
      → let c = run_all H (0 ∷ 1 ∷ 0 ∷ 1 ∷ []) (start H (λ i. stage req) s) in
        let rest =
          stage_rest H req.volume_id req.staging_target_path access size recovery read_only in
        (c.threads 0 ≡ rest) × (c.threads 1 ≡ rest) × (c.server ≡ s)
  unfolding run_all steps_of stage_steps if_unstaged
  stage_races req access size recovery read_only s free new passes =
      let c0 = start H (λ i. stage req) s in
      let c1 = step H 0 c0 in
      let c2 = step H 1 c1 in
      let c3 = step H 0 c2 in
      let x : AccessType × String × Bool × Bool = (access, size, recovery, read_only) in
      let read = reading H (λ n. is_staged n req.volume_id) in
      let reads : read s ≡ (ok false, s) =
        reading-free H req.volume_id (λ n. is_staged n req.volume_id) s free
        ∙ ap (λ b. (ok b, s)) new in
      let go_on = λ (staged : Bool).
        (if staged
          then finished (ok tt)
          else stage_rest H req.volume_id req.staging_target_path access size recovery read_only) in
      let t1 = turn 0 c0 (stage_inputs H req) (if_unstaged req) x s refl passes in
      let t2 =
        turn 1 c1 (stage_inputs H req) (if_unstaged req) x s (t1.other 1 refl)
          (ap (stage_inputs H req) t1.server ∙ passes) in
      let t3 =
        turn 0 c2 read go_on false s (t2.other 0 refl ∙ t1.own) (ap read t2.server ∙ reads) in
      let t4 =
        turn 1 c3 read go_on false s (t3.other 1 refl ∙ t2.own) (ap read t3.server ∙ reads) in
      (t4.other 0 refl ∙ t3.own, t4.own, t4.server)
