-- ===== src/Node/Mount/Preserve.antt =====
-- What `MountManager` leaves alone, and which errors it lets through.
use niova_block_csi.Prelude.{String, ◌≡◌, false, List, [], ◌∷◌, none, some, ◌==◌, arith}
use niova_block_csi.Go.Error.{Error, is_not_exist}
use niova_block_csi.Go.Exec.{Result, ok, err, returned}
use niova_block_csi.Go.Text.{contains, trim_space}
use niova_block_csi.Node.Host.{Host}
use niova_block_csi.Node.Mount.{
  is_supported_filesystem, get_existing_filesystem_type, validate_filesystem_compatibility,
  format_device, format_if, mount_once, format_and_mount_device, unmount,
}

abbrev pub blkid_args : String → List String
blkid_args device = "-o" ∷ "value" ∷ "-s" ∷ "TYPE" ∷ device ∷ []

-- A file system that was found.
abbrev IsSeen : Result String → Type 0
IsSeen (ok fs) = (fs == "") ≡ false
IsSeen _ = Unit

module _ (H : Host) where
  module _ (Keeps : H.State → Type 0) (device : String) where
    -- A state of the host that the calls of the mount path keep, and in which blkid sees a file system
    -- on the device.
    pub record IsGuarded : Type 0 where
      pub mkdir_all : (path : String) (h : H.State) → Keeps h → Keeps (H.mkdir_all path h).1
      pub is_mount_point :
          (path : String) (h : H.State) → Keeps h → Keeps (H.is_mount_point path h).1
      pub mount :
          (source target fs : String) (opts : List String) (h : H.State)
          → Keeps h
          → Keeps (H.mount source target fs opts h).1
      pub blkid : (h : H.State) → Keeps h → Keeps (H.run "blkid" (blkid_args device) h).1
      pub answers : (h : H.State) → Keeps h → (H.run "blkid" (blkid_args device) h).0.error ≡ none
      pub sees :
          (h : H.State)
          → Keeps h
          → (trim_space (H.run "blkid" (blkid_args device) h).0.text == "") ≡ false

    module _ (g : IsGuarded) where
      existing-Keeps : (h : H.State) → Keeps h → Keeps (get_existing_filesystem_type H device h).1
      unfolding get_existing_filesystem_type
      existing-Keeps h k = ground (arith, g.blkid h k, g.answers h k)

      existing-IsSeen : (h : H.State) → Keeps h → IsSeen (get_existing_filesystem_type H device h).0
      unfolding get_existing_filesystem_type
      existing-IsSeen h k = ground (arith, g.sees h k, g.answers h k)

      validate-Keeps :
          (fs : String) (h : H.State)
          → Keeps h
          → Keeps (validate_filesystem_compatibility H device fs h).1
      unfolding validate_filesystem_compatibility
      validate-Keeps fs h k = ground (arith, existing-Keeps h k)

      mount_once-Keeps :
          (source target fs : String) (opts : List String) (failure : String) (h : H.State)
          → Keeps h
          → Keeps (mount_once H source target fs opts failure h).1
      unfolding mount_once
      mount_once-Keeps source target fs opts failure h k = grind (arith, g.is_mount_point, g.mount)

      -- If every state of some kind is kept by the creation of a directory, by the test for a mount, by
      -- a mount and by blkid, and blkid names a file system on the device in it, then
      -- `FormatAndMountDevice` keeps it too, on every way out: it never formats such a device.
      pub format_and_mount_device-Keeps :
          (target fs : String) (h : H.State)
          → Keeps h
          → Keeps (format_and_mount_device H device target fs h).1
      unfolding format_and_mount_device format_if
      format_and_mount_device-Keeps target fs h k =
          let h1 = (H.mkdir_all target h).1 in
          let k1 : Keeps h1 = g.mkdir_all target h k in
          let h2 = (validate_filesystem_compatibility H device fs h1).1 in
          let k2 : Keeps h2 = validate-Keeps fs h1 k1 in
          let k3 = existing-Keeps h2 k2 in
          let seen = existing-IsSeen h2 k2 in grind (arith, mount_once-Keeps)

  -- `Unmount` never returns an error for which `os.IsNotExist` holds, so the tests for one behind its
  -- calls never pass.
  pub unmount-not_exist :
      (target : String) (h : H.State) (e : Error)
      → (unmount H target h).0 ≡ err e
      → is_not_exist e ≡ false
  unfolding unmount
  unmount-not_exist target h e x = ground arith

  -- On a device on which blkid fails with any text but "No such device", `FormatAndMountDevice` runs
  -- mkfs as soon as the directory is there and the requested type is ext4, whatever the device holds:
  -- the state is that after mkfs, the test for a mount and the mount.
  pub format_and_mount_device-blkid_fails :
      (device target : String) (h h1 h2 h3 h4 : H.State) (e1 e2 : Error) (t1 t2 t3 : String)
      → H.mkdir_all target h ≡ (returned tt, h1)
      → H.run "blkid" (blkid_args device) h1 ≡ (record { text = t1; error = some e1 }, h2)
      → contains t1 "No such device" ≡ false
      → H.run "blkid" (blkid_args device) h2 ≡ (record { text = t2; error = some e2 }, h3)
      → contains t2 "No such device" ≡ false
      → H.run "mkfs.ext4" ("-F" ∷ device ∷ []) h3 ≡ (record { text = t3; error = none }, h4)
      → format_and_mount_device H device target "ext4" h
        ≡ mount_once H device target "ext4" [] "failed to mount device " h4
  unfolding format_and_mount_device format_if validate_filesystem_compatibility format_device
      get_existing_filesystem_type is_supported_filesystem
  format_and_mount_device-blkid_fails device target h h1 h2 h3 h4 e1 e2 t1 t2 t3 a b c d f g =
      ground arith
