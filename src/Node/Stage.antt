-- ===== src/Node/Stage.antt =====
-- `NodeStageVolume` and `NodeUnstageVolume` of pkg/node/node.go.
pub mod Outcome
pub mod Unstage
use niova_block_csi.Prelude.{ℕ, String, ◌<>◌, Bool, none, some, ◌==◌, if◌then◌else◌}
use niova_block_csi.Prelude.Dict.{lookup, get_text}
use niova_block_csi.Prelude.Int.{pos}
use niova_block_csi.Go.Error.{error_text, status, internal}
use niova_block_csi.Go.Exec.{
  returned, failed, nil_dereference, Exec, pure, raise, crash, gets, attempt, reject_if, or_reject,
  ◌>>=◌, ◌>>◌,
}
use niova_block_csi.Go.Strconv.{parse_int}
use niova_block_csi.Types.{mount_mode}
use niova_block_csi.Csi.{AccessType, NodeStageRequest}
use niova_block_csi.Node.Host.{Host}
use niova_block_csi.Node.Mount.{format_and_mount_device, unmount, cleanup_mount_point}
use niova_block_csi.Node.Ublk.{create_ublk_device, delete_ublk_device}
use niova_block_csi.Node.State.{
  invalid, put_new, drop, is_staged, mode_of, fs_type_of, is_reader_only, recovery_of, device_path,
}
use niova_block_csi.Node.Server.{NodeServer, on_ublk, on_host, reading, writing, ignoring}

module _ (H : Host) where
  -- The end of `NodeStageVolume`, when the device is there and mounted.
  unfoldable pub record_staged :
      String → String → String → String → ℕ → Exec (NodeServer H) (Unit {0})
  unfolding invalid
  record_staged id staging mode path pid = elim (H.parse_uuid id) [
    | failed e ↦ do
      ignoring H (on_ublk H (delete_ublk_device H id path))
      raise (invalid ("Invalid volume ID format: " <> error_text e))
    | returned uuid ↦ writing H (
        put_new id (record {
          vol_id = uuid;
          ublk_path = path;
          ublk_pid = pos pid;
          volume_mode = mode;
          staging_path = staging;
          target_path = "";
        }))
  ]

  -- The part of `NodeStageVolume` behind the checks of the request.
  unfoldable pub stage_checked :
      String → String → AccessType → String → Bool → Bool → Exec (NodeServer H) (Unit {0})
  stage_checked id staging access size recovery read_only = do
    staged ← reading H (λ n. is_staged n id)
    if staged
        then pure tt
        else attempt (on_ublk H (create_ublk_device H id size recovery read_only))
            (λ e. raise (status internal ("Failed to create ublk device: " <> error_text e)))
            (λ (path, pid).
              attempt
                (if mode_of access == mount_mode
                  then on_host H (format_and_mount_device H path staging (fs_type_of access))
                  else pure tt)
                (λ e. do
                  ignoring H (on_ublk H (delete_ublk_device H id path))
                  raise (status internal ("Failed to mount device: " <> error_text e)))
                (λ _. record_staged id staging (mode_of access) path pid))

  unfoldable pub node_stage_volume : NodeStageRequest → Exec (NodeServer H) (Unit {0})
  unfolding invalid
  node_stage_volume req = do
    reject_if (req.volume_id == "") (invalid "Volume ID cannot be empty")
    reject_if (req.staging_target_path == "") (invalid "Staging target path cannot be empty")
    cap ← or_reject req.volume_capability (invalid "Volume capabilities cannot be empty")
    elim cap.access_mode [
      | none ↦ crash nil_dereference
      | some access_mode ↦
          let size = get_text "volumeSize" req.publish_context in
          elim (parse_int size) [
            | failed e ↦ raise (invalid ("Invalid volume size: " <> error_text e))
            | returned n ↦
                stage_checked req.volume_id req.staging_target_path cap.access_type size
                  (recovery_of req.volume_context) (is_reader_only access_mode)
          ]
    ]

  -- The part of `NodeUnstageVolume` behind the lookup of the volume.
  unfoldable pub unstage_mapped : String → String → ℕ → Exec (NodeServer H) (Unit {0})
  unstage_mapped id staging p =
      attempt (on_host H (unmount H staging))
        (λ e. raise (status internal ("Failed to unmount staging path: " <> error_text e)))
        (λ _. do
          vol ← gets (λ s. s.node.heap p)
          ignoring H (on_ublk H (delete_ublk_device H id (device_path id vol.ublk_path)))
          ignoring H (on_host H (cleanup_mount_point H staging))
          writing H (drop id))

  unfoldable pub node_unstage_volume : String → String → Exec (NodeServer H) (Unit {0})
  unfolding invalid
  node_unstage_volume id staging = do
    reject_if (id == "") (invalid "Volume ID cannot be empty")
    reject_if (staging == "") (invalid "Staging target path cannot be empty")
    pointer ← reading H (λ n. lookup id n.vol_map)
    elim pointer [ none ↦ pure tt | some p ↦ unstage_mapped id staging p ]
