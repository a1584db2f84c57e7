-- ===== src/Node/Mount.antt =====
-- `MountManager` of pkg/node/mount.go.
pub mod Preserve
pub mod Settles
use niova_block_csi.Prelude.{
  String, ◌<>◌, Bool, true, false, ◌||◌, List, [], ◌∷◌, Option, none, some, ◌==◌, if◌then◌else◌,
}
use niova_block_csi.Go.Error.{plain, error_text, is_not_exist}
use niova_block_csi.Go.Exec.{
  Reply, ok, to_result, Exec, pure, raise, attempt, reject_if, ◌>>=◌, ◌>>◌,
}
use niova_block_csi.Go.Text.{contains, trim_space}
use niova_block_csi.Node.Host.{Output, Host}

unfoldable pub is_supported_filesystem : String → Bool
is_supported_filesystem fs = fs == "ext4" || fs == "ext3" || fs == "xfs"

module _ (H : Host) where
  -- A call that returns a value or an error.
  abbrev pub call : {A : Type 0} → (H.State → Reply A × H.State) → Exec H.State A
  call f h = let (r, h') = f h in (to_result r, h')

  -- A command, whose error is looked at by the caller.
  abbrev pub run_command : String → List String → Exec H.State Output
  run_command name args h = let (out, h') = H.run name args h in (ok out, h')

  unfoldable pub get_existing_filesystem_type : String → Exec H.State String
  get_existing_filesystem_type device = do
    output ← run_command "blkid" ("-o" ∷ "value" ∷ "-s" ∷ "TYPE" ∷ device ∷ [])
    elim output.error [
      | none ↦ pure (if trim_space output.text == "" then "" else trim_space output.text)
      | some e ↦
          if contains output.text "No such device"
          then raise (plain ("device " <> device <> " not found"))
          else pure ""
    ]

  unfoldable pub is_device_formatted : String → Exec H.State Bool
  is_device_formatted device = do
    fs ← get_existing_filesystem_type device
    pure (if fs == "" then false else true)

  unfoldable pub validate_filesystem_compatibility : String → String → Exec H.State (Unit {0})
  validate_filesystem_compatibility device requested = do
    reject_if (if is_supported_filesystem requested then false else true)
        (plain ("unsupported filesystem type requested: " <> requested))
    attempt (get_existing_filesystem_type device)
        (λ e. raise (plain ("failed to detect existing filesystem: " <> error_text e)))
        (λ existing.
          if existing == ""
          then pure tt
          else if is_supported_filesystem existing
          then pure tt
          else raise (
              plain (
                "existing filesystem type " <> existing <> " on device " <> device
                <> " is not supported")))

  -- The command that formats a device, by the type of the file system.
  abbrev pub Command : Type 0
  Command = Option (String × List String)

  mkfs : String → String → Command
  mkfs device fs =
      if fs == "ext4"
      then some ("mkfs.ext4", "-F" ∷ device ∷ [])
      else if fs == "xfs"
      then some ("mkfs.xfs", "-f" ∷ device ∷ [])
      else if fs == "ext3"
      then some ("mkfs.ext3", "-F" ∷ device ∷ [])
      else if fs == "btrfs"
      then some ("mkfs.btrfs", "-f" ∷ device ∷ [])
      else none

  unfoldable pub format_device : String → String → Exec H.State (Unit {0})
  unfolding mkfs
  format_device device fs = do
    reject_if (if is_supported_filesystem fs then false else true)
        (plain ("unsupported filesystem type: " <> fs))
    elim (mkfs device fs) [
      | none ↦ raise (plain ("unsupported filesystem type: " <> fs))
      | some (name, args) ↦ do
        output ← run_command name args
        elim output.error [
          | none ↦ pure tt
          | some e ↦
              raise
                (plain ("failed to format device: " <> error_text e <> ", output: " <> output.text))
        ]
    ]

  -- `if needsFormatting { … }`
  unfoldable pub format_if : Bool → String → String → Exec H.State (Unit {0})
  format_if false device fs = pure tt
  format_if true device fs =
      attempt (format_device device fs)
        (λ e. raise (plain ("failed to format device " <> device <> ": " <> error_text e))) pure

  -- The test for a mount at the target, and the mount where there is none.
  unfoldable pub mount_once :
      String → String → String → List String → String → Exec H.State (Unit {0})
  mount_once source target fs opts failure =
      attempt (call (H.is_mount_point target))
        (λ e. raise (plain ("failed to check if target is mounted: " <> error_text e)))
        (λ mounted.
          if mounted
          then pure tt
          else attempt (call (H.mount source target fs opts))
              (λ e. raise (plain (failure <> source <> " to " <> target <> ": " <> error_text e)))
              pure)

  unfoldable pub format_and_mount_device : String → String → String → Exec H.State (Unit {0})
  unfolding format_if mount_once
  format_and_mount_device device target requested =
      attempt (call (H.mkdir_all target))
        (λ e.
          raise (plain ("failed to create target directory " <> target <> ": " <> error_text e)))
        (λ _.
          attempt (validate_filesystem_compatibility device requested)
            (λ e. raise (plain ("filesystem compatibility check failed: " <> error_text e)))
            (λ _.
              attempt (get_existing_filesystem_type device)
                (λ e. raise (plain ("failed to detect existing filesystem: " <> error_text e)))
                (λ existing. do
                  format_if (existing == "") device requested
                  mount_once device target (if existing == "" then requested else existing) []
                      "failed to mount device ")))

  unfoldable pub bind_raw_block : String → String → Exec H.State (Unit {0})
  unfolding mount_once
  bind_raw_block source target =
      attempt (call (H.stat target))
        (λ e. raise (plain ("failed to find target path " <> target <> ": " <> error_text e)))
        (λ _. mount_once source target "" ("bind" ∷ []) "failed to bind mount ")

  unfoldable pub bind_mount : String → String → Exec H.State (Unit {0})
  unfolding mount_once
  bind_mount source target =
      attempt (call (H.mkdir_all target))
        (λ e.
          raise (plain ("failed to create target directory " <> target <> ": " <> error_text e)))
        (λ _. mount_once source target "" ("bind" ∷ []) "failed to bind mount ")

  unfoldable pub unmount : String → Exec H.State (Unit {0})
  unmount target =
      attempt (call (H.stat target)) (λ e. if is_not_exist e then pure tt else raise e)
        (λ _.
          attempt (call (H.is_mount_point target))
            (λ e.
              if is_not_exist e
              then pure tt
              else raise (plain ("failed to check if target is mounted: " <> error_text e)))
            (λ mounted.
              if mounted
              then attempt (call (H.unmount target))
                  (λ e.
                    if is_not_exist e
                    then pure tt
                    else raise (plain ("failed to unmount " <> target <> ": " <> error_text e)))
                  pure
              else pure tt))

  unfoldable pub cleanup_mount_point : String → Exec H.State (Unit {0})
  cleanup_mount_point target =
      attempt (unmount target)
        (λ e.
          if is_not_exist e
          then pure tt
          else raise (plain ("failed to unmount during cleanup: " <> error_text e)))
        (λ _.
          attempt (call (H.remove target))
            (λ e.
              if is_not_exist e
              then pure tt
              else raise
                  (plain ("Failed to remove the path " <> target <> " with err " <> error_text e)))
            pure)

  unfoldable pub is_path_mounted : String → Exec H.State Bool
  is_path_mounted target = call (H.is_mount_point target)
