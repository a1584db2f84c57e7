-- ===== src/Node/Publish.antt =====
-- `NodePublishVolume`, `NodeUnpublishVolume` and the small handlers of pkg/node/node.go.
pub mod Outcome
use niova_block_csi.Prelude.{
  String, ◌<>◌, Bool, true, false, not, List, none, some, ◌==◌, if◌then◌else◌,
}
use niova_block_csi.Prelude.Dict.{lookup}
use niova_block_csi.Prelude.Int.{ℤ, pos}
use niova_block_csi.Go.Error.{
  error_text, is_not_exist, status, not_found, failed_precondition, unimplemented, internal,
}
use niova_block_csi.Go.Exec.{Exec, pure, raise, gets, attempt, reject_if, ◌>>=◌, ◌>>◌}
use niova_block_csi.Go.Filepath.{dir}
use niova_block_csi.Csi.{NodePublishRequest, NodeRpc}
use niova_block_csi.Node.Host.{Host}
use niova_block_csi.Node.Mount.{call, bind_raw_block, bind_mount, unmount, cleanup_mount_point}
use niova_block_csi.Node.State.{node_caps, invalid, entry, wants_block, set_target, is_block_volume}
use niova_block_csi.Node.Server.{NodeServer, on_host, reading, writing, ignoring}

module _ (H : Host) where
  -- The bind mount of `NodePublishVolume`, from the device or from the staging path.
  unfoldable pub publish_at : Bool → String → String → String → Exec (NodeServer H) (Unit {0})
  publish_at true device staging target =
      attempt (on_host H (call H (H.mkdir_all (dir target))))
        (λ e. raise (status internal (error_text e)))
        (λ _.
          attempt (on_host H (call H (H.create_file target)))
            (λ e. raise (status internal (error_text e)))
            (λ _.
              attempt (on_host H (bind_raw_block H device target))
                (λ e.
                  raise (status internal ("Failed to bind mount block device: " <> error_text e)))
                pure))
  publish_at false device staging target =
      attempt (on_host H (bind_mount H staging target))
        (λ e. raise (status internal ("Failed to bind mount filesystem: " <> error_text e))) pure

  unfoldable pub node_publish_volume : NodePublishRequest → Exec (NodeServer H) (Unit {0})
  unfolding invalid
  node_publish_volume req = do
    reject_if (req.volume_id == "") (invalid "Volume ID cannot be empty")
    reject_if (req.target_path == "") (invalid "Target path cannot be empty")
    reject_if (req.staging_target_path == "") (invalid "Staging target path cannot be empty")
    pointer ← reading H (λ n. lookup req.volume_id n.vol_map)
    elim pointer [
      | none ↦ raise (status failed_precondition ("Volume " <> req.volume_id <> " not staged"))
      | some p ↦ do
        vol ← gets (λ s. s.node.heap p)
        publish_at (wants_block req.volume_capability) vol.ublk_path req.staging_target_path
            req.target_path
        writing H (set_target p req.target_path)
    ]

  -- The removal of a target path: a directory with what is mounted there, or a file.
  unfoldable pub remove_target : String → Exec (NodeServer H) (Unit {0})
  remove_target target =
      attempt (on_host H (call H (H.stat target)))
        (λ e. ignoring H (on_host H (call H (H.remove target))))
        (λ is_dir.
          if is_dir
          then ignoring H (on_host H (cleanup_mount_point H target))
          else ignoring H (on_host H (call H (H.remove target))))

  unfoldable pub node_unpublish_volume : String → String → Exec (NodeServer H) (Unit {0})
  unfolding invalid
  node_unpublish_volume id target = do
    reject_if (id == "") (invalid "Volume ID cannot be empty")
    reject_if (target == "") (invalid "Target path cannot be empty")
    pointer ← reading H (λ n. lookup id n.vol_map)
    attempt (on_host H (unmount H target))
        (λ e.
          if is_not_exist e
          then pure tt
          else raise (status internal ("Failed to unmount target path: " <> error_text e)))
        pure
    elim pointer [ none ↦ pure tt | some p ↦ do remove_target target; writing H (set_target p "") ]

  -- The total and the used bytes of the answer.
  unfoldable pub node_get_volume_stats : String → String → Exec (NodeServer H) (ℤ × ℤ)
  unfolding invalid
  node_get_volume_stats id path = do
    reject_if (id == "") (invalid "Volume ID cannot be empty")
    reject_if (path == "") (invalid "Volume path cannot be empty")
    vol ← reading H (λ n. entry n id)
    reject_if (is_block_volume vol) (status unimplemented "Block volume stats not supported")
    attempt (on_host H (call H (H.stat path)))
        (λ e. raise (status not_found ("Volume path " <> path <> " not found")))
        (λ _. pure (pos 0, pos 0))

  unfoldable pub node_expand_volume : Exec (NodeServer H) (Unit {0})
  node_expand_volume = raise (status unimplemented "NodeExpandVolume is not implemented")

  unfoldable pub node_get_capabilities : Exec (NodeServer H) (List NodeRpc)
  node_get_capabilities = pure node_caps

  unfoldable pub node_get_info : Exec (NodeServer H) String
  node_get_info = gets (λ s. s.node_id)
