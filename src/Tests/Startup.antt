-- ===== src/Tests/Startup.antt =====
-- The start of the node plugin, and its theorems, on the control plane and the host in memory.
use niova_block_csi.Prelude.{◌≡◌, refl, [], ◌∷◌, some, none}
use niova_block_csi.Prelude.Dict.{get_text, lookup}
use niova_block_csi.Prelude.Int.{pos}
use niova_block_csi.Go.Error.{plain}
use niova_block_csi.Go.Exec.{ok, err}
use niova_block_csi.Go.Mutex.{unlocked}
use niova_block_csi.Go.Strconv.{parse_int}
use niova_block_csi.Types.{nil_uuid, empty_volume}
use niova_block_csi.Csi
use niova_block_csi.Config.Plane.{VdevConfig}
use niova_block_csi.Node.State.{entry}
use niova_block_csi.Node.Stage.{node_stage_volume}
use niova_block_csi.Startup.{Plugin, seed, update_node_volume_map}
use niova_block_csi.Startup.Seed.{lists_id, IsReadOnly, seeded}
use niova_block_csi.Startup.Restart.{
  all_parse, update_node_volume_map_lem, restart-stage, seed-parse_failure,
}
use niova_block_csi.Tests.Memory.{memory, memory-IsLawful as lawful, memory-LogsIn as logs_in}
use niova_block_csi.Tests.Config.{first}
use niova_block_csi.Tests.Machine.{disk}
use niova_block_csi.Tests.Node.{server, server-IsSound, staging, mounted_writer}

abbrev listed_vdev : VdevConfig
listed_vdev = record first { id = "vol" }

abbrev pub plugin : Plugin memory disk
plugin = record {
  manager = record {
    plane = record { vdevs = listed_vdev ∷ []; token = ""; valid = "t"; serial = 1 };
    usertoken = "";
    mutex = unlocked;
  };
  server = server;
}

pub disk-IsReadOnly : IsReadOnly disk
disk-IsReadOnly = record { stat_keeps = λ path h. refl }

update_node_volume_map_lem_example :
    ((update_node_volume_map memory disk plugin).0 ≡ ok tt)
    × (entry (update_node_volume_map memory disk plugin).1.server.node "vol"
        ≡ some (seeded disk "vol" none))
unfolding all_parse lists_id entry lookup
update_node_volume_map_lem_example =
    update_node_volume_map_lem memory lawful logs_in disk "vol" plugin disk-IsReadOnly
      server-IsSound.1 refl

restart-stage_example :
    node_stage_volume disk staging (update_node_volume_map memory disk plugin).1.server
    ≡ (ok tt, (update_node_volume_map memory disk plugin).1.server)
unfolding all_parse lists_id parse_int get_text lookup
restart-stage_example =
    restart-stage memory lawful logs_in disk staging mounted_writer Csi.single_node_writer
      (pos 1024) plugin disk-IsReadOnly server-IsSound.1 refl refl refl refl refl refl refl refl
      refl

seed-parse_failure_example :
    ((seed disk (record first { id = "bad" } ∷ listed_vdev ∷ []) server).0
      ≡ err (plain "invalid UUID"))
    × (seed disk (record first { id = "bad" } ∷ listed_vdev ∷ []) server
        ≡ seed disk (record first { id = "bad" } ∷ []) server)
    × (entry (seed disk (record first { id = "bad" } ∷ listed_vdev ∷ []) server).1.node "bad"
        ≡ some (record empty_volume { vol_id = nil_uuid }))
unfolding entry lookup
seed-parse_failure_example =
    seed-parse_failure disk (record first { id = "bad" }) (listed_vdev ∷ []) (plain "invalid UUID")
      server server-IsSound.1 refl refl refl
