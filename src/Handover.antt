-- ===== src/Handover.antt =====
-- What pkg/controller/controller.go hands to pkg/node/node.go: the publish context of a volume, which
-- `ControllerPublishVolume` writes and `NodeStageVolume` reads.
use niova_block_csi.Prelude.{◌≡◌, false, some, ◌==◌, arith}
use niova_block_csi.Prelude.Dict.{get_text}
use niova_block_csi.Prelude.Int.{ℤ, IsInt64}
use niova_block_csi.Go.Exec.{ok, returned}
use niova_block_csi.Go.Mutex.{unlocked}
use niova_block_csi.Go.Strconv.{parse_int}
use niova_block_csi.Csi.{AccessMode, VolumeCapability, ControllerPublishRequest, NodeStageRequest}
use niova_block_csi.Config.Plane.{VdevConfig, Plane}
use niova_block_csi.Config.Manager.{Manager}
use niova_block_csi.Config.Lawful.{IsLawful, LogsIn, resolve}
use niova_block_csi.Config.Operations.{vdevs_of}
use niova_block_csi.Controller.Server.{controller_publish_volume}
use niova_block_csi.Controller.Publish.{controller_publish_volume_lem}
use niova_block_csi.Node.Host.{Host}
use niova_block_csi.Node.State.{recovery_of, is_reader_only}
use niova_block_csi.Node.Server.{NodeServer}
use niova_block_csi.Node.Stage.{stage_checked, node_stage_volume}

module _ (H : Host) where
  -- `NodeStageVolume` behind its checks.
  node_stage_volume-checked :
      (req : NodeStageRequest) (cap : VolumeCapability) (mode : AccessMode) (size : ℤ)
      (s : NodeServer H)
      → (req.volume_id == "") ≡ false
      → (req.staging_target_path == "") ≡ false
      → req.volume_capability ≡ some cap
      → cap.access_mode ≡ some mode
      → parse_int (get_text "volumeSize" req.publish_context) ≡ returned size
      → node_stage_volume H req s
        ≡ stage_checked H req.volume_id req.staging_target_path cap.access_type
            (get_text "volumeSize" req.publish_context)
            (recovery_of req.volume_context)
            (is_reader_only mode)
            s
  unfolding node_stage_volume
  node_stage_volume-checked req cap mode size s a b c d e = ground arith

  -- On a lawful control plane to which the login succeeds and whose sizes fit in 64 bits, with the mutex
  -- of the controller free: where `ControllerPublishVolume` succeeds, its publish context names the
  -- volume of the request, and the text under "volumeSize" reads as the size of that volume. A
  -- `NodeStageVolume` with this publish context and otherwise well-formed fields passes every check of
  -- the request, and goes on with that very text.
  pub publish-stage :
      (P : Plane) (L : IsLawful P) (logs_in : LogsIn P) (m : Manager P)
      (asked : ControllerPublishRequest) (req : NodeStageRequest) (cap : VolumeCapability)
      (mode : AccessMode) (s : NodeServer H)
      → m.mutex ≡ unlocked
      → ((v : VdevConfig)
          → resolve L.is_uuid asked.volume_id (vdevs_of L m) ≡ some v
          → IsInt64 v.size)
      → (controller_publish_volume P asked m).0 ≡ ok req.publish_context
      → (req.volume_id == "") ≡ false
      → (req.staging_target_path == "") ≡ false
      → req.volume_capability ≡ some cap
      → cap.access_mode ≡ some mode
      → (v : VdevConfig) × (resolve L.is_uuid asked.volume_id (vdevs_of L m) ≡ some v)
        × (get_text "volumeID" req.publish_context ≡ asked.volume_id)
        × (parse_int (get_text "volumeSize" req.publish_context) ≡ returned v.size)
        × (node_stage_volume H req s
            ≡ stage_checked H req.volume_id req.staging_target_path cap.access_type
                (get_text "volumeSize" req.publish_context)
                (recovery_of req.volume_context)
                (is_reader_only mode)
                s)
  publish-stage P L logs_in m asked req cap mode s free fits published a b c d =
      let (v, known, named, sized) =
        controller_publish_volume_lem P L logs_in m free asked req.publish_context fits published in
      (v, known, named, sized, node_stage_volume-checked req cap mode v.size s a b c d sized)
