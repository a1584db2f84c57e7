-- ===== src/Node/Concurrent/Alone.antt =====
-- A goroutine that runs alone is the handler of pkg/node/node.go.
use niova_block_csi.Prelude.{
  String, ◌≡◌, refl, ◌∙◌, ap, Bool, if◌then◌else◌, arith, Option-cases, inl, inr, sym,
}
use niova_block_csi.Go.Exec.{Result, ok, err, panic, Exec, ◌>>=◌}
use niova_block_csi.Go.Mutex.{unlocked, lock, unlock, r_lock, r_unlock}
use niova_block_csi.Csi.{AccessType, NodeStageRequest, NodePublishRequest}
use niova_block_csi.Node.Host.{Host}
use niova_block_csi.Node.State.{is_staged}
use niova_block_csi.Node.Server.{NodeServer, reading}
use niova_block_csi.Node.Stage.{
  stage_checked, node_stage_volume, unstage_mapped, node_unstage_volume,
}
use niova_block_csi.Node.Publish.{node_publish_volume, node_unpublish_volume}
use niova_block_csi.Node.Service.{
  NodeCall, stage, unstage, publish, unpublish, stats, expand, capabilities, info, serve,
}
use niova_block_csi.Node.Concurrent.{
  Goroutine, finished, after, section, last, stage_inputs, stage_create, stage_mount, stage_rest,
  stage_steps, unstage_inputs, unstage_unmount, unstage_device, unstage_rest, unstage_steps,
  publish_inputs, publish_bind, publish_steps, unpublish_inputs, unpublish_unmount, unpublish_rest,
  unpublish_steps, steps_of, run_alone,
}

module _ (H : Host) where
  alone_after :
      {A : Type 0} (r : Result A × NodeServer H) (k : A → Goroutine H)
      → run_alone H (after H k r.0) r.1 ≡ ((λ s. r) >>= λ a. run_alone H (k a)) r.1
  unfolding run_alone
  alone_after (ok a, s) k = refl
  alone_after (err e, s) k = refl
  alone_after (panic f, s) k = refl

  run_alone-section :
      {A : Type 0} (m : Exec (NodeServer H) A) (k : A → Goroutine H) (s : NodeServer H)
      → run_alone H (section H m k) s ≡ (m >>= λ a. run_alone H (k a)) s
  unfolding run_alone
  run_alone-section m k s = alone_after (m s) k

  -- `ok` and `err` by sections: the last section of a call returns what it returned.
  last-alone :
      (m : Exec (NodeServer H) (Unit {0})) (s : NodeServer H) → run_alone H (last H m) s ≡ m s
  unfolding run_alone
  last-alone m s = last_result (m s)
    where
      last_result :
          (r : Result (Unit {0}) × NodeServer H)
          → run_alone H (after H (λ _. finished (ok tt)) r.0) r.1 ≡ r
      last_result (ok tt, s') = refl
      last_result (err e, s') = refl
      last_result (panic f, s') = refl

  publish-alone :
      (req : NodePublishRequest) (s : NodeServer H)
      → run_alone H (publish_steps H req) s ≡ node_publish_volume H req s
  unfolding run_alone publish_steps publish_inputs publish_bind node_publish_volume
  publish-alone req s = grind arith

  unpublish-alone :
      (id target : String) (s : NodeServer H)
      → s.mutex ≡ unlocked
      → run_alone H (unpublish_steps H id target) s ≡ node_unpublish_volume H id target s
  unfolding run_alone unpublish_steps unpublish_inputs unpublish_unmount unpublish_rest
      node_unpublish_volume r_lock r_unlock lock unlock
  unpublish-alone id target s free = grind arith

  unstage-alone :
      (id staging : String) (s : NodeServer H)
      → s.mutex ≡ unlocked
      → run_alone H (unstage_steps H id staging) s ≡ node_unstage_volume H id staging s
  unfolding run_alone unstage_steps unstage_inputs unstage_rest unstage_unmount unstage_device
      node_unstage_volume unstage_mapped r_lock r_unlock
  unstage-alone id staging s free = grind arith

  stage_test-alone :
      (id staging : String) (access : AccessType) (size : String) (recovery read_only : Bool)
      (s : NodeServer H)
      → s.mutex ≡ unlocked
      → run_alone H
          (section H (reading H (λ n. is_staged n id)) (λ staged.
            if staged
            then finished (ok tt)
            else stage_rest H id staging access size recovery read_only))
          s
        ≡ stage_checked H id staging access size recovery read_only s
  unfolding run_alone stage_rest stage_checked stage_create stage_mount r_lock r_unlock
  stage_test-alone id staging access size recovery read_only s free = grind arith

  -- `NodeStageVolume` behind its checks.
  stage_checked_with :
      NodeStageRequest → AccessType × String × Bool × Bool → Exec (NodeServer H) (Unit {0})
  stage_checked_with req (access, size, recovery, read_only) =
      stage_checked H req.volume_id req.staging_target_path access size recovery read_only

  stage_inputs-stage :
      (req : NodeStageRequest) (s : NodeServer H)
      → node_stage_volume H req s ≡ (stage_inputs H req >>= stage_checked_with req) s
  unfolding node_stage_volume stage_inputs stage_checked_with
  stage_inputs-stage req s = elim (Option-cases req.volume_capability) [
    | inl none_ ↦ ground arith
    | inr (asked, x) ↦ elim (Option-cases asked.access_mode) [
      | inl none_ ↦ ground arith
      | inr (mode, y) ↦ ground arith
    ]
  ]

  stage_inputs-keeps : (req : NodeStageRequest) (s : NodeServer H) → (stage_inputs H req s).1 ≡ s
  unfolding stage_inputs
  stage_inputs-keeps req s = ground arith

  bind_cong :
      {A B : Type 0} (r : Result A × NodeServer H) (f g : A → Exec (NodeServer H) B)
      → ((a : A) → f a r.1 ≡ g a r.1)
      → ((λ (s : NodeServer H). r) >>= f) r.1 ≡ ((λ (s : NodeServer H). r) >>= g) r.1
  bind_cong (ok a, s) f g h = h a
  bind_cong (err e, s) f g h = refl
  bind_cong (panic x, s) f g h = refl

  stage-alone :
      (req : NodeStageRequest) (s : NodeServer H)
      → s.mutex ≡ unlocked
      → run_alone H (stage_steps H req) s ≡ node_stage_volume H req s
  unfolding stage_steps stage_checked_with
  stage-alone req s free =
      let same = stage_inputs-keeps req s in
      let free' : (stage_inputs H req s).1.mutex ≡ unlocked =
        ap (λ (x : NodeServer H). x.mutex) same ∙ free in
      run_alone-section (stage_inputs H req) _ s
      ∙ bind_cong (stage_inputs H req s) _ (stage_checked_with req)
          (λ (access, size, recovery, read_only).
            stage_test-alone req.volume_id req.staging_target_path access size recovery read_only
              (stage_inputs H req s).1 free')
      ∙ sym (stage_inputs-stage req s)

  -- A call of the node service whose goroutine runs with no other beside it, on a free mutex, does what
  -- its handler does: the same result, and the same server behind it.
  pub steps_of-alone :
      (c : NodeCall) (s : NodeServer H)
      → s.mutex ≡ unlocked
      → run_alone H (steps_of H c) s ≡ serve H c s
  unfolding steps_of serve
  steps_of-alone (stage req) s free = stage-alone req s free
  steps_of-alone (unstage id staging) s free = unstage-alone id staging s free
  steps_of-alone (publish req) s free = publish-alone req s
  steps_of-alone (unpublish id target) s free = unpublish-alone id target s free
  steps_of-alone (stats id path) s free = last-alone (serve H (stats id path)) s
  steps_of-alone expand s free = last-alone (serve H expand) s
  steps_of-alone capabilities s free = last-alone (serve H capabilities) s
  steps_of-alone info s free = last-alone (serve H info) s
