-- ===== src/Tests/Handover.antt =====
-- A volume that the controller publishes, on the control plane and the host in memory.
use niova_block_csi.Prelude.{◌≡◌, refl, some, []}
use niova_block_csi.Prelude.Dict.{get_text}
use niova_block_csi.Go.Exec.{returned}
use niova_block_csi.Go.Strconv.{parse_int}
use niova_block_csi.Csi
use niova_block_csi.Config.Plane.{VdevConfig}
use niova_block_csi.Config.Lawful.{resolve}
use niova_block_csi.Node.State.{recovery_of, is_reader_only}
use niova_block_csi.Node.Stage.{stage_checked, node_stage_volume}
use niova_block_csi.Handover.{publish-stage}
use niova_block_csi.Csi.{NodeStageRequest}
use niova_block_csi.Tests.Config.{first, stale}
use niova_block_csi.Tests.Memory.{
  memory, is_id, memory-IsLawful as lawful, memory-LogsIn as logs_in,
}
use niova_block_csi.Tests.Controller.{to_node, first_context, all_fit, publishes}
use niova_block_csi.Tests.Machine.{disk}
use niova_block_csi.Tests.Node.{server, staging, mounted_writer}
use niova_block_csi.Prelude.{◌∷◌}

abbrev handed : NodeStageRequest
handed = record staging { volume_id = "vdev-0"; publish_context = first_context }

publish-stage_example :
    (v : VdevConfig) × (resolve is_id "vdev-0" (first ∷ []) ≡ some v)
    × (get_text "volumeID" first_context ≡ "vdev-0")
    × (parse_int (get_text "volumeSize" first_context) ≡ returned v.size)
    × (node_stage_volume disk handed server
        ≡ stage_checked disk "vdev-0" "/stage/vol"
            (Csi.mount "ext4")
            (get_text "volumeSize" first_context)
            (recovery_of [])
            (is_reader_only Csi.single_node_writer)
            server)
publish-stage_example =
    publish-stage disk memory lawful logs_in stale to_node handed mounted_writer
      Csi.single_node_writer server refl all_fit publishes refl refl refl refl
