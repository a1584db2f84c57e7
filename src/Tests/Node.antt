-- ===== src/Tests/Node.antt =====
-- Runs of the node service, and its theorems, on the host in memory.
use niova_block_csi.Prelude.{◌≡◌, refl, [], ◌∷◌, some, none, arith}
use niova_block_csi.Prelude.Dict.{get_text, lookup, insert, delete}
use niova_block_csi.Go.Error.{plain}
use niova_block_csi.Go.Exec.{ok, failed}
use niova_block_csi.Go.Mutex.{unlocked, lock, unlock, r_lock, r_unlock}
use niova_block_csi.Go.Strconv.{parse_int}
use niova_block_csi.Go.Text.{trim_space, has_prefix, trim_prefix}
use niova_block_csi.Go.Filepath.{base}
use niova_block_csi.Types.{empty_volume, ublk_by_uuid_path}
use niova_block_csi.Csi
use niova_block_csi.Csi.{VolumeCapability, NodeStageRequest, NodePublishRequest}
use niova_block_csi.Node.Mount.{
  is_supported_filesystem, get_existing_filesystem_type, validate_filesystem_compatibility,
  format_and_mount_device, mount_once, bind_mount, unmount, cleanup_mount_point,
}
use niova_block_csi.Node.Systemd.{start_ublk_unit, stop_ublk_unit, run_host_command}
use niova_block_csi.Node.Ublk.{
  new_ublk_manager, create_ublk_device, delete_ublk_device, resolve_ublk_id, wait_for_by_uuid_link,
  wait_loop, get_binary_path,
}
use niova_block_csi.Node.State.{
  entry, is_staged, mode_of, fs_type_of, device_path, wants_block, set_target, put_new, write, drop,
}
use niova_block_csi.Node.State.Laws.{retarget}
use niova_block_csi.Node.Server.{NodeServer}
use niova_block_csi.Node.Stage.{
  stage_checked, record_staged, unstage_mapped, node_stage_volume, node_unstage_volume,
}
use niova_block_csi.Node.Stage.Outcome.{Failing, Stages, node_stage_volume-ok}
use niova_block_csi.Node.Publish.{
  publish_at, node_publish_volume, remove_target, node_unpublish_volume,
}
use niova_block_csi.Node.Publish.Outcome.{node_publish_volume-ok, node_unpublish_volume-ok}
use niova_block_csi.Node.Stage.Unstage.{node_unstage_volume-ok}
use niova_block_csi.Node.Service.{
  IsSound, serve, serve_all, serve_all-IsSound, stage, publish, unpublish,
}
use niova_block_csi.Node.Atomic.{serve-Failing}
use niova_block_csi.Node.Returns.{has_mode, serve-Settles, node_unstage_volume-forgets}
use niova_block_csi.Config.Retry.{Settles}
use niova_block_csi.Node.Host.{Host}
use niova_block_csi.Tests.Mount.{disk-IsClocked}
use niova_block_csi.Node.Lifecycle.{node_stage_volume-twice, life_of_volume}
use niova_block_csi.Tests.Machine.{disk, idle, is_listed, without}

abbrev pub server : NodeServer disk
server = record {
  node_id = "node-1";
  node = record { vol_map = []; heap = λ p. empty_volume; next = 0 };
  ublk = record { manager = new_ublk_manager "node-1"; host = idle };
  mutex = unlocked;
}

pub server-IsSound : IsSound disk server
unfolding lookup
server-IsSound =
    (refl, record { below = λ id p x. ground arith; apart = λ a b p x y. ground arith })

abbrev pub mounted_writer : VolumeCapability
mounted_writer = record {
  access_type = Csi.mount "ext4";
  access_mode = some Csi.single_node_writer;
}

abbrev pub staging : NodeStageRequest
staging = record {
  volume_id = "vol";
  publish_context = ("volumeSize", "1024") ∷ [];
  staging_target_path = "/stage/vol";
  volume_capability = some mounted_writer;
  volume_context = [];
}

abbrev pub publishing : NodePublishRequest
publishing = record {
  volume_id = "vol";
  staging_target_path = "/stage/vol";
  target_path = "/pods/1/vol";
  volume_capability = some mounted_writer;
}

stages : (node_stage_volume disk staging server).0 ≡ ok tt
unfolding node_stage_volume stage_checked record_staged create_ublk_device start_ublk_unit
    wait_for_by_uuid_link wait_loop get_binary_path format_and_mount_device
    get_existing_filesystem_type validate_filesystem_compatibility is_supported_filesystem
    mount_once is_staged entry mode_of fs_type_of is_listed trim_space get_text lookup parse_int
    r_lock r_unlock lock unlock new_ublk_manager
stages = refl

abbrev staged_now : NodeServer disk
staged_now = (node_stage_volume disk staging server).1

node_stage_volume-ok_example :
    Stages disk "vol" "/stage/vol" (Csi.mount "ext4") server.node staged_now.node
unfolding is_staged entry lookup
node_stage_volume-ok_example =
    node_stage_volume-ok disk staging mounted_writer server refl refl refl stages

serve-Failing_example :
    Failing
      (serve disk (stage (record staging { volume_id = "other" })) server).0
      server.node
      (serve disk (stage (record staging { volume_id = "other" })) server).1.node
serve-Failing_example =
    serve-Failing disk (stage (record staging { volume_id = "other" })) server refl

serve-Settles_example : Settles (serve disk (stage staging) server).0
unfolding has_mode
serve-Settles_example = serve-Settles disk disk-IsClocked (stage staging) server refl refl

node_stage_volume-twice_example : node_stage_volume disk staging staged_now ≡ (ok tt, staged_now)
node_stage_volume-twice_example =
    node_stage_volume-twice disk staging mounted_writer Csi.single_node_writer server server-IsSound
      refl refl stages

abbrev published_now : NodeServer disk
published_now = (node_publish_volume disk publishing staged_now).1

abbrev unpublished_now : NodeServer disk
unpublished_now = (node_unpublish_volume disk "vol" "/pods/1/vol" published_now).1

publishes : (node_publish_volume disk publishing staged_now).0 ≡ ok tt
unfolding node_stage_volume stage_checked record_staged create_ublk_device start_ublk_unit
    wait_for_by_uuid_link wait_loop get_binary_path format_and_mount_device
    get_existing_filesystem_type validate_filesystem_compatibility is_supported_filesystem
    mount_once is_staged entry mode_of fs_type_of is_listed trim_space get_text lookup parse_int
    r_lock r_unlock lock unlock new_ublk_manager node_publish_volume publish_at wants_block
    bind_mount put_new insert
publishes = refl

unpublishes : (node_unpublish_volume disk "vol" "/pods/1/vol" published_now).0 ≡ ok tt
unfolding node_stage_volume stage_checked record_staged create_ublk_device start_ublk_unit
    wait_for_by_uuid_link wait_loop get_binary_path format_and_mount_device
    get_existing_filesystem_type validate_filesystem_compatibility is_supported_filesystem
    mount_once is_staged entry mode_of fs_type_of is_listed trim_space get_text lookup parse_int
    r_lock r_unlock lock unlock new_ublk_manager node_publish_volume publish_at wants_block
    bind_mount put_new insert node_unpublish_volume remove_target unmount cleanup_mount_point
    set_target write without
unpublishes = refl

unstages : (node_unstage_volume disk "vol" "/stage/vol" unpublished_now).0 ≡ ok tt
unfolding node_stage_volume stage_checked record_staged create_ublk_device start_ublk_unit
    wait_for_by_uuid_link wait_loop get_binary_path format_and_mount_device
    get_existing_filesystem_type validate_filesystem_compatibility is_supported_filesystem
    mount_once is_staged entry mode_of fs_type_of is_listed trim_space get_text lookup parse_int
    r_lock r_unlock lock unlock new_ublk_manager node_publish_volume publish_at wants_block
    bind_mount put_new insert node_unpublish_volume remove_target unmount cleanup_mount_point
    set_target write without node_unstage_volume unstage_mapped delete_ublk_device resolve_ublk_id
    stop_ublk_unit run_host_command device_path base has_prefix trim_prefix drop ublk_by_uuid_path
    delete
unstages = refl

life_of_volume_example :
    entry (node_unstage_volume disk "vol" "/stage/vol" unpublished_now).1.node "vol"
    ≡ entry server.node "vol"
unfolding entry lookup
life_of_volume_example =
    life_of_volume disk staging publishing server mounted_writer "vol" server-IsSound refl refl refl
      stages publishes unpublishes unstages

serve_all-IsSound_example : IsSound disk (
    serve_all disk (stage staging ∷ publish publishing ∷ unpublish "vol" "/pods/1/vol" ∷ []) server)
serve_all-IsSound_example =
    serve_all-IsSound disk (stage staging ∷ publish publishing ∷ unpublish "vol" "/pods/1/vol" ∷ [])
      server server-IsSound

staged-IsSound : IsSound disk staged_now
unfolding serve serve_all
staged-IsSound = serve_all-IsSound disk (stage staging ∷ []) server server-IsSound

node_publish_volume-ok_example :
    ((entry staged_now.node "vol" ≡ none) → ⊥)
    × (entry published_now.node "vol" ≡ retarget "/pods/1/vol" (entry staged_now.node "vol"))
node_publish_volume-ok_example =
    node_publish_volume-ok disk publishing "vol" staged_now staged-IsSound.0 staged-IsSound.1
      publishes

published-IsSound : IsSound disk published_now
unfolding serve serve_all
published-IsSound =
    serve_all-IsSound disk (stage staging ∷ publish publishing ∷ []) server server-IsSound

node_unpublish_volume-ok_example :
    entry unpublished_now.node "vol" ≡ retarget "" (entry published_now.node "vol")
node_unpublish_volume-ok_example =
    node_unpublish_volume-ok disk "vol" "/pods/1/vol" "vol" published_now published-IsSound.0
      published-IsSound.1 unpublishes

unpublished-free : unpublished_now.mutex ≡ unlocked
unfolding serve serve_all
unpublished-free =
    (serve_all-IsSound disk
      (stage staging ∷ publish publishing ∷ unpublish "vol" "/pods/1/vol" ∷ []) server
      server-IsSound).0

node_unstage_volume-ok_example :
    entry (node_unstage_volume disk "vol" "/stage/vol" unpublished_now).1.node "vol" ≡ none
node_unstage_volume-ok_example =
    node_unstage_volume-ok disk "vol" "/stage/vol" "vol" unpublished_now unpublished-free unstages

abbrev stuck : Host
stuck = record disk { connect = λ h. (failed (plain "no systemd"), h) }

abbrev remembering : NodeServer stuck
remembering = record {
  node_id = "node-1";
  node = record { vol_map = ("vol", 0) ∷ []; heap = λ p. empty_volume; next = 1 };
  ublk = record { manager = new_ublk_manager "node-1"; host = idle };
  mutex = unlocked;
}

node_unstage_volume-forgets_example :
    ((node_unstage_volume stuck "vol" "/stage/vol" remembering).0 ≡ ok tt)
    × ((node_unstage_volume stuck "vol" "/stage/vol" remembering).1.node
        ≡ drop "vol" remembering.node)
unfolding lookup unmount is_listed
node_unstage_volume-forgets_example =
    node_unstage_volume-forgets stuck "vol" "/stage/vol" 0 remembering refl refl refl refl refl
