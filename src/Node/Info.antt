-- ===== src/Node/Info.antt =====
-- What pkg/node reads of mounts, file systems and devices: GetMountInfo and probeFilesystemInfo of
-- mount.go, GetUblkDeviceInfo and prepareTargetPath of ublk.go.
pub mod Laws
use niova_block_csi.Prelude.{
  ℕ, ◌+◌, ◌-◌, nat_eq, String, ◌<>◌, Bool, true, false, List, [], ◌∷◌, Option, none, some, ◌==◌,
  if◌then◌else◌,
}
use niova_block_csi.Prelude.Dict.{Dict, insert}
use niova_block_csi.Prelude.Int.{ℤ, pos, negsuc}
use niova_block_csi.Go.Error.{plain, error_text}
use niova_block_csi.Go.Exec.{Exec, pure, raise, gets, attempt, reject_if, ◌>>=◌, ◌>>◌}
use niova_block_csi.Go.Text.{contains, trim_space, split_two}
use niova_block_csi.Go.Filepath.{clean, join, split_at}
use niova_block_csi.Go.Strconv.{format_int}
use niova_block_csi.Node.Host.{MountPoint, Host}
use niova_block_csi.Node.Mount.{call, run_command}
use niova_block_csi.Node.Ublk.{Ublk, on_host, extract_ublk_id}

-- `parts := strings.SplitN(line, sep, 2)`, and the trimmed parts where there are two.
unfoldable pub pair_of : String → String → Option (String × String)
pair_of sep line = elim (split_two sep line) [
  | none ↦ none
  | some (key, value) ↦ some (trim_space key, trim_space value)
]

-- A line that `blkid -o export` prints.
unfoldable pub export_pair : String → Option (String × String)
unfolding pair_of
export_pair line = if trim_space line == "" then none else pair_of "=" (trim_space line)

-- A line that `niova-ublk --info` prints.
unfoldable pub info_pair : String → Option (String × String)
unfolding pair_of
info_pair line = if contains line ":" then pair_of ":" line else none

-- The loop over the lines: `info[key] = value`.
unfoldable pub collect :
    (String → Option (String × String)) → List String → Dict String → Dict String
collect pair [] info = info
collect pair (line ∷ lines) info =
    collect pair lines
      (elim (pair line) [ none ↦ info | some (key, value) ↦ insert key value info ])

-- The loop over the mount points: the first one at the path.
unfoldable pub find_mount : String → List MountPoint → Option MountPoint
find_mount target [] = none
find_mount target (m ∷ mounts) =
    let later = find_mount target mounts in if clean m.path == target then some m else later

abbrev mount_fields : MountPoint → Dict String
mount_fields m =
    ("device", m.device) ∷ ("path", m.path) ∷ ("type", m.kind) ∷ ("options", join "," m.opts) ∷ []

-- `n + 1` of an `int` of 64 bits.
unfoldable pub next_int : ℤ → ℤ
next_int (pos n) = if nat_eq n 0x7fffffffffffffff then negsuc n else pos (n + 1)
next_int (negsuc n) = if nat_eq n 0 then pos 0 else negsuc (n - 1)

-- `fmt.Sprintf("tcp:%s:%s:%d", …)`
unfoldable pub prepare_target_path : String → String → ℤ → String
prepare_target_path nisd_uuid nisd_ip_addr nisd_port =
    let port = format_int (next_int nisd_port) in
    if nisd_ip_addr == ""
    then "tcp:" <> nisd_uuid <> ":127.0.0.1:" <> port
    else "tcp:" <> nisd_uuid <> ":" <> nisd_ip_addr <> ":" <> port

module _ (H : Host) where
  unfoldable pub probe_filesystem_info : String → Exec H.State (Dict String)
  unfolding collect
  probe_filesystem_info device = do
    output ← run_command H "blkid" ("-o" ∷ "export" ∷ device ∷ [])
    elim output.error [
      | none ↦ pure (collect export_pair (split_at b'\n' output.text) [])
      | some e ↦
          if contains output.text "No such device"
          then raise (plain ("device " <> device <> " not found"))
          else pure []
    ]

  unfoldable pub get_mount_info : String → Exec H.State (Dict String)
  get_mount_info target =
      attempt (call H H.list_mounts)
        (λ e. raise (plain ("failed to list mount points: " <> error_text e)))
        (λ mounts. elim (find_mount (clean target) mounts) [
          | none ↦ raise (plain ("mount point " <> clean target <> " not found"))
          | some m ↦ pure (mount_fields m)
        ])

  unfoldable pub get_ublk_device_info : String → Exec (Ublk H) (Dict String)
  unfolding extract_ublk_id collect
  get_ublk_device_info path = do
    reject_if (extract_ublk_id path == "") (plain ("invalid ublk device path: " <> path))
    binary ← gets (λ u. u.manager.ublk_binary)
    output ← on_host H (run_command H binary ("-i" ∷ extract_ublk_id path ∷ "--info" ∷ []))
    elim output.error [
      | none ↦ pure (collect info_pair (split_at b'\n' output.text) [])
      | some e ↦ raise (
          plain ("failed to get ublk device info: " <> error_text e <> ", output: " <> output.text))
    ]
