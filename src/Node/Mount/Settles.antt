-- ===== src/Node/Mount/Settles.antt =====
-- That the methods of `MountManager` of pkg/node/mount.go come back to their caller.
use niova_block_csi.Prelude.{String, Bool, true, false, List, arith}
use niova_block_csi.Config.Retry.{Settles}
use niova_block_csi.Node.Host.{Host}
use niova_block_csi.Node.Mount.{
  get_existing_filesystem_type, validate_filesystem_compatibility, format_device, format_if,
  mount_once, format_and_mount_device, unmount, cleanup_mount_point,
}

module _ (H : Host) where
  existing-Settles :
      (device : String) (h : H.State) → Settles (get_existing_filesystem_type H device h).0
  unfolding get_existing_filesystem_type
  existing-Settles device h = ground arith

  validate-Settles :
      (device fs : String) (h : H.State)
      → Settles (validate_filesystem_compatibility H device fs h).0
  unfolding validate_filesystem_compatibility
  validate-Settles device fs h = ground (arith, existing-Settles device h)

  format_device-Settles :
      (device fs : String) (h : H.State) → Settles (format_device H device fs h).0
  unfolding format_device
  format_device-Settles device fs h = ground arith

  pub mount_once-Settles :
      (source target fs : String) (opts : List String) (failure : String) (h : H.State)
      → Settles (mount_once H source target fs opts failure h).0
  unfolding mount_once
  mount_once-Settles source target fs opts failure h = ground arith

  format_if-Settles :
      (b : Bool) (device fs : String) (h : H.State) → Settles (format_if H b device fs h).0
  unfolding format_if
  format_if-Settles true device fs h = ground (arith, format_device-Settles device fs h)
  format_if-Settles false device fs h = tt

  pub format_and_mount_device-Settles :
      (device target fs : String) (h : H.State)
      → Settles (format_and_mount_device H device target fs h).0
  unfolding format_and_mount_device
  format_and_mount_device-Settles device target fs h =
      grind (arith, validate-Settles, existing-Settles, format_if-Settles, mount_once-Settles)

  pub unmount-Settles : (target : String) (h : H.State) → Settles (unmount H target h).0
  unfolding unmount
  unmount-Settles target h = ground arith

  pub cleanup_mount_point-Settles :
      (target : String) (h : H.State) → Settles (cleanup_mount_point H target h).0
  unfolding cleanup_mount_point
  cleanup_mount_point-Settles target h = ground (arith, unmount-Settles target h)
