-- ===== src/Node/Ublk/Wait.antt =====
-- That `waitForByUUIDLink` of pkg/node/ublk.go comes to an end.
use niova_block_csi.Prelude.{ℕ, zero, suc, ◌+◌, ◌*◌, ◌≤◌, String, arith, List}
use niova_block_csi.Types.{ublk_by_uuid_path}
use niova_block_csi.Config.Retry.{Settles}
use niova_block_csi.Node.Host.{Host}
use niova_block_csi.Node.Systemd.{stop_ublk_unit, run_host_command}
use niova_block_csi.Node.Ublk.{
  Ublk, delete_ublk_device, resolve_ublk_id, wait_loop, wait_for_by_uuid_link,
}

-- The clock of the host: a sleep takes as long as it says, and `Lstat` does not turn the clock back.
pub record IsClocked (H : Host) : Type 0 where
  pub sleep_takes : (ms : ℕ) (h : H.State) → H.now h + ms ≤ H.now (H.sleep ms h)
  pub lstat_takes : (path : String) (h : H.State) → H.now h ≤ H.now (H.lstat path h).1

module _ (H : Host) (clock : IsClocked H) where
  wait_loop-Settles :
      (rounds deadline : ℕ) (path : String) (h : H.State)
      → deadline ≤ H.now h + 500 * rounds
      → Settles (wait_loop H (suc rounds) deadline path h).0
  unfolding wait_loop
  wait_loop-Settles zero deadline path h late = ground arith
  wait_loop-Settles (suc rounds) deadline path h late =
      let h1 = (H.lstat path h).1 in
      let h2 = H.sleep 500 h1 in
      let a = clock.lstat_takes path h in
      let b = clock.sleep_takes 500 h1 in ground (arith, wait_loop-Settles rounds deadline path h2)

  -- On a host whose clock goes forward, `waitForByUUIDLink` comes back within its rounds of half a
  -- second: with the udev link of the volume, or with an error after 30 seconds.
  pub wait_for_by_uuid_link-Settles :
      (volume_id : String) (h : H.State) → Settles (wait_for_by_uuid_link H volume_id h).0
  unfolding wait_for_by_uuid_link
  wait_for_by_uuid_link-Settles volume_id h =
      wait_loop-Settles 60 (H.now h + 30000) (ublk_by_uuid_path volume_id) h ground arith

module _ (H : Host) where
  resolve_ublk_id-Settles : (path : String) (h : H.State) → Settles (resolve_ublk_id H path h).0
  unfolding resolve_ublk_id
  resolve_ublk_id-Settles path h = ground arith

  pub stop_ublk_unit-Settles : (id : String) (h : H.State) → Settles (stop_ublk_unit H id h).0
  unfolding stop_ublk_unit
  stop_ublk_unit-Settles id h = ground arith

  run_host_command-Settles :
      (suffix binary : String) (args : List String) (h : H.State)
      → Settles (run_host_command H suffix binary args h).0
  unfolding run_host_command
  run_host_command-Settles suffix binary args h = ground arith

  pub delete_ublk_device-Settles :
      (id path : String) (u : Ublk H) → Settles (delete_ublk_device H id path u).0
  unfolding delete_ublk_device
  delete_ublk_device-Settles id path u =
      grind (arith, resolve_ublk_id-Settles, stop_ublk_unit-Settles, run_host_command-Settles)
