-- ===== src/Tests/Concurrent.antt =====
-- The theorems on goroutines, on the host in memory.
use niova_block_csi.Prelude.{ℕ, ◌≡◌, refl, false, none, [], ◌∷◌, List, nat_eq, arith, if◌then◌else◌}
use niova_block_csi.Prelude.Dict.{get_text, lookup}
use niova_block_csi.Go.Exec.{ok}
use niova_block_csi.Go.Mutex.{r_lock, r_unlock}
use niova_block_csi.Types.{empty_volume, mount_mode}
use niova_block_csi.Go.Strconv.{parse_int, parse_bool}
use niova_block_csi.Csi
use niova_block_csi.Node.State.{
  device_path, wants_block, entry, is_staged, recovery_of, is_reader_only,
}
use niova_block_csi.Node.Service.{NodeCall, stage, unstage, publish, IsSound}
use niova_block_csi.Node.Concurrent.{
  finished, publish_inputs, unstage_unmount, publish_bind, unstage_device, stage_inputs, stage_rest,
  run_all,
}
use niova_block_csi.Node.Concurrent.Isolation.{volume_of}
use niova_block_csi.Node.Concurrent.Schedule.{start, run_all-IsSound, run_all-isolates}
use niova_block_csi.Node.Concurrent.Progress.{turns, IsFinished, run_all-IsFinished}
use niova_block_csi.Node.Concurrent.Race.{stage_races}
use niova_block_csi.Node.Concurrent.Orphan.{publish_and_unstage, publish_races}
use niova_block_csi.Go.Text.{has_prefix, trim_prefix}
use niova_block_csi.Go.Filepath.{base}
use niova_block_csi.Node.Ublk.{delete_ublk_device, resolve_ublk_id}
use niova_block_csi.Node.Systemd.{stop_ublk_unit, run_host_command}
use niova_block_csi.Node.Server.{NodeServer}
use niova_block_csi.Node.Mount.{cleanup_mount_point, bind_mount, mount_once, unmount}
use niova_block_csi.Node.Publish.{publish_at}
use niova_block_csi.Tests.Machine.{disk, idle, is_listed, without}
use niova_block_csi.Node.Returns.{has_mode}
use niova_block_csi.Tests.Mount.{disk-IsClocked}
use niova_block_csi.Tests.Node.{server, server-IsSound, staging, publishing}

-- One goroutine stages the volume, one unstages it, and all others publish it.
abbrev calls : ℕ → NodeCall
calls i =
    if nat_eq i 0
    then stage staging
    else if nat_eq i 1
    then unstage "vol" "/stage/vol"
    else publish publishing

abbrev mixed : List ℕ
mixed = 0 ∷ 0 ∷ 0 ∷ 1 ∷ 0 ∷ 0 ∷ 2 ∷ 1 ∷ 2 ∷ []

run_all-IsSound_example : IsSound disk (run_all disk mixed (start disk calls server)).server
run_all-IsSound_example = run_all-IsSound disk calls mixed server server-IsSound

run_all-isolates_example :
    entry (run_all disk mixed (start disk (λ i. stage staging) server)).server.node "vol-2"
    ≡ entry server.node "vol-2"
unfolding volume_of
run_all-isolates_example =
    run_all-isolates disk (λ i. stage staging) "vol-2" mixed server server-IsSound (λ i. refl)

run_all-IsFinished_example :
    IsFinished disk ((run_all disk mixed (start disk calls server)).threads 0)
unfolding turns has_mode
run_all-IsFinished_example =
    run_all-IsFinished disk disk-IsClocked calls 0 mixed server server-IsSound refl (omega arith)

stage_races_example :
    let c = run_all disk (0 ∷ 1 ∷ 0 ∷ 1 ∷ []) (start disk (λ i. stage staging) server) in
    let rest = stage_rest disk "vol" "/stage/vol" (Csi.mount "ext4") "1024" false false in
    (c.threads 0 ≡ rest) × (c.threads 1 ≡ rest) × (c.server ≡ server)
unfolding is_staged entry lookup stage_inputs parse_int get_text recovery_of is_reader_only
    parse_bool
stage_races_example =
    stage_races disk staging (Csi.mount "ext4") "1024" false false server refl refl refl

-- The volume is staged and mounted at its staging path.
abbrev staged_server : NodeServer disk
staged_server = record server {
  node = record {
    vol_map = ("vol", 0) ∷ [];
    heap =
        λ p. record empty_volume { ublk_path = "/dev/disk/by-uuid/vol"; volume_mode = mount_mode };
    next = 1;
  };
  ublk = record server.ublk { host = record idle { mounted = "/stage/vol" ∷ [] } };
}

publish_races_example :
    let c =
      run_all disk
        (0 ∷ 1 ∷ 1 ∷ 1 ∷ 1 ∷ 0 ∷ 0 ∷ [])
        (start disk (publish_and_unstage publishing) staged_server) in
    (c.threads 0 ≡ finished (ok tt))
    × (c.threads 1 ≡ finished (ok tt))
    × (entry c.server.node "vol" ≡ none)
unfolding publish_inputs unstage_unmount publish_bind unstage_device lookup publish_at bind_mount
    mount_once unmount is_listed without r_lock r_unlock wants_block delete_ublk_device device_path
    resolve_ublk_id has_prefix base stop_ublk_unit trim_prefix run_host_command cleanup_mount_point
publish_races_example = publish_races disk publishing 0 staged_server refl refl refl refl
