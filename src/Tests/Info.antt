-- ===== src/Tests/Info.antt =====
-- What the readers of pkg/node find, on the host in memory.
use niova_block_csi.Prelude.{◌≡◌, refl, [], ◌∷◌, none}
use niova_block_csi.Prelude.Dict.{insert}
use niova_block_csi.Prelude.Int.{pos}
use niova_block_csi.Go.Error.{plain}
use niova_block_csi.Go.Exec.{ok, err, returned}
use niova_block_csi.Go.Filepath.{split_at, clean, join}
use niova_block_csi.Go.Text.{trim_space, contains, split_two}
use niova_block_csi.Go.Strconv.{format_int}
use niova_block_csi.Node.Host.{Host}
use niova_block_csi.Node.Info.{
  collect, export_pair, info_pair, pair_of, prepare_target_path, next_int, probe_filesystem_info,
  get_mount_info, find_mount,
}
use niova_block_csi.Tests.Machine.{machine, idle}

-- A device with a label that holds a sign "=", and two mounts at one path.
abbrev labelled : Host
labelled =
    record (machine
      (record { text = "DEVNAME=/dev/ublkb7\nLABEL= a=b \n\nTYPE=ext4\n"; error = none })) {
        list_mounts = λ h. (
          returned (
              record {
                device = "/dev/ublkb7";
                path = "/stage/";
                kind = "ext4";
                opts = "rw" ∷ "noatime" ∷ [];
              }
              ∷ record { device = "tmpfs"; path = "/stage"; kind = "tmpfs"; opts = [] }
              ∷ []),
          h,
        );
      }

tests_of_info :
    ((probe_filesystem_info labelled "/dev/ublkb7" idle).0
      ≡ ok (("DEVNAME", "/dev/ublkb7") ∷ ("LABEL", "a=b") ∷ ("TYPE", "ext4") ∷ []))
    × ((get_mount_info labelled "/x/../stage" idle).0
        ≡ ok (
            ("device", "/dev/ublkb7")
            ∷ ("path", "/stage/")
            ∷ ("type", "ext4")
            ∷ ("options", "rw,noatime")
            ∷ []))
    × ((get_mount_info labelled "/other" idle).0 ≡ err (plain "mount point /other not found"))
    × (collect info_pair ("state: live" ∷ "no field" ∷ "queues : 4:8" ∷ []) []
        ≡ ("state", "live") ∷ ("queues", "4:8") ∷ [])
    × (prepare_target_path "nisd" "" (pos 9000) ≡ "tcp:nisd:127.0.0.1:9001")
unfolding probe_filesystem_info collect export_pair pair_of split_two trim_space split_at
    get_mount_info find_mount clean join info_pair contains prepare_target_path next_int format_int
    insert
tests_of_info = (refl, refl, refl, refl, refl)
