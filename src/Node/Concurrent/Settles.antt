-- ===== src/Node/Concurrent/Settles.antt =====
-- The sections of pkg/node/node.go come back to their goroutine, each begun on a free mutex.
use niova_block_csi.Prelude.{ℕ, String, ◌≡◌, Bool, true, Option-cases, inl, inr, arith}
use niova_block_csi.Prelude.Dict.{lookup}
use niova_block_csi.Go.Exec.{ok}
use niova_block_csi.Go.Mutex.{unlocked, lock, unlock, r_lock, r_unlock}
use niova_block_csi.Csi.{AccessType, NodeStageRequest, NodePublishRequest}
use niova_block_csi.Types.{Node}
use niova_block_csi.Config.Retry.{Settles}
use niova_block_csi.Node.Host.{Host}
use niova_block_csi.Node.Mount.Settles.{
  format_and_mount_device-Settles, unmount-Settles, cleanup_mount_point-Settles,
}
use niova_block_csi.Node.Ublk.Wait.{IsClocked, delete_ublk_device-Settles}
use niova_block_csi.Node.Server.{NodeServer, reading, writing}
use niova_block_csi.Node.Service.{stage}
use niova_block_csi.Node.Returns.{has_mode, publish_at-Settles, create_ublk_device-Settles}
use niova_block_csi.Node.Concurrent.{
  stage_inputs, stage_create, stage_mount, unstage_inputs, unstage_unmount, unstage_device,
  publish_inputs, publish_bind, unpublish_inputs, unpublish_unmount,
}
use niova_block_csi.Node.Concurrent.Calls.{reading-free}

module _ (H : Host) where
  pub unstage_device-ok :
      (id staging : String) (p : ℕ) (s : NodeServer H) → (unstage_device H id staging p s).0 ≡ ok tt
  unfolding unstage_device
  unstage_device-ok id staging p s =
      grind (arith, delete_ublk_device-Settles H, cleanup_mount_point-Settles)

  pub writing-free :
      (f : Node → Node) (s : NodeServer H)
      → s.mutex ≡ unlocked
      → writing H f s ≡ (ok tt, record s { node = f s.node })
  unfolding lock unlock
  writing-free f s free = ground arith

  pub stage_inputs-Settles :
      (req : NodeStageRequest) (s : NodeServer H)
      → has_mode (stage req) ≡ true
      → Settles (stage_inputs H req s).0
  unfolding stage_inputs has_mode
  stage_inputs-Settles req s moded = elim (Option-cases req.volume_capability) [
    | inl none_ ↦ ground arith
    | inr (asked, x) ↦ elim (Option-cases asked.access_mode) [
      | inl none_ ↦ ground arith
      | inr (mode, y) ↦ ground arith
    ]
  ]

  pub reading-Settles :
      {A : Type 0} (f : Node → A) (s : NodeServer H)
      → s.mutex ≡ unlocked
      → Settles (reading H f s).0
  reading-Settles f s free = let read = reading-free H "" f s free in rw read tt

  pub stage_create-Settles :
      (clock : IsClocked H) (id size : String) (recovery read_only : Bool) (s : NodeServer H)
      → Settles (stage_create H id size recovery read_only s).0
  unfolding stage_create
  stage_create-Settles clock id size recovery read_only s =
      grind (arith, create_ublk_device-Settles H clock id size)

  pub stage_mount-Settles :
      (id staging : String) (access : AccessType) (path : String) (s : NodeServer H)
      → Settles (stage_mount H id staging access path s).0
  unfolding stage_mount
  stage_mount-Settles id staging access path s =
      grind (arith, format_and_mount_device-Settles, delete_ublk_device-Settles H id)

  pub unstage_inputs-Settles :
      (id staging : String) (s : NodeServer H)
      → s.mutex ≡ unlocked
      → Settles (unstage_inputs H id staging s).0
  unfolding unstage_inputs
  unstage_inputs-Settles id staging s free =
      let read = reading-free H "" (λ n. lookup id n.vol_map) s free in ground arith

  pub unstage_unmount-Settles :
      (staging : String) (s : NodeServer H) → Settles (unstage_unmount H staging s).0
  unfolding unstage_unmount
  unstage_unmount-Settles staging s = grind (arith, unmount-Settles)

  pub publish_inputs-Settles :
      (req : NodePublishRequest) (s : NodeServer H)
      → s.mutex ≡ unlocked
      → Settles (publish_inputs H req s).0
  unfolding publish_inputs r_lock r_unlock
  publish_inputs-Settles req s free = grind arith

  pub publish_bind-Settles :
      (req : NodePublishRequest) (p : ℕ) (s : NodeServer H) → Settles (publish_bind H req p s).0
  unfolding publish_bind
  publish_bind-Settles req p s = grind (arith, publish_at-Settles)

  pub unpublish_inputs-Settles :
      (id target : String) (s : NodeServer H)
      → s.mutex ≡ unlocked
      → Settles (unpublish_inputs H id target s).0
  unfolding unpublish_inputs
  unpublish_inputs-Settles id target s free =
      let read = reading-free H "" (λ n. lookup id n.vol_map) s free in ground arith

  pub unpublish_unmount-Settles :
      (target : String) (s : NodeServer H) → Settles (unpublish_unmount H target s).0
  unfolding unpublish_unmount
  unpublish_unmount-Settles target s = grind (arith, unmount-Settles)
