-- ===== src/Tests/Mount.antt =====
-- The theorems on mounts and on the wait for a device, on the host in memory.
use niova_block_csi.Prelude.{◌≡◌, refl, true, false, [], arith}
use niova_block_csi.Go.Error.{plain, is_not_exist}
use niova_block_csi.Go.Exec.{err, failed}
use niova_block_csi.Go.Text.{contains, trim_space}
use niova_block_csi.Node.Host.{Host}
use niova_block_csi.Node.Mount.{format_and_mount_device, mount_once, unmount}
use niova_block_csi.Node.Mount.Preserve.{
  IsGuarded, format_and_mount_device-Keeps, unmount-not_exist, format_and_mount_device-blkid_fails,
}
use niova_block_csi.Node.Ublk.Wait.{IsClocked}
use niova_block_csi.Tests.Machine.{Machine, disk, unread, idle}

abbrev IsUntouched : Machine → Type 0
IsUntouched h = h.formatted ≡ false

disk-IsGuarded : IsGuarded disk IsUntouched "/dev/ublkb7"
unfolding trim_space
disk-IsGuarded = record {
  mkdir_all = λ path h k. k;
  is_mount_point = λ path h k. k;
  mount = λ source target fs opts h k. k;
  blkid = λ h k. k;
  answers = λ h k. refl;
  sees = λ h k. refl;
}

format_and_mount_device-Keeps_example :
    (format_and_mount_device disk "/dev/ublkb7" "/stage" "xfs" idle).1.formatted ≡ false
format_and_mount_device-Keeps_example =
    format_and_mount_device-Keeps disk IsUntouched "/dev/ublkb7" disk-IsGuarded "/stage" "xfs" idle
      refl

format_and_mount_device-blkid_fails_example :
    format_and_mount_device unread "/dev/ublkb7" "/stage" "ext4" idle
    ≡ mount_once unread "/dev/ublkb7" "/stage" "ext4" [] "failed to mount device "
        (record idle { formatted = true })
unfolding contains
format_and_mount_device-blkid_fails_example =
    format_and_mount_device-blkid_fails unread "/dev/ublkb7" "/stage" idle idle idle idle
      (record idle { formatted = true }) (plain "exit status 2") (plain "exit status 2")
      "Permission denied" "Permission denied" "" refl refl refl refl refl refl

pub disk-IsClocked : IsClocked disk
disk-IsClocked = record { sleep_takes = λ ms h. ground arith; lstat_takes = λ path h. ground arith }

-- A host that does not let the program look at files.
abbrev closed : Host
closed = record disk { stat = λ path h. (failed (plain "permission denied"), h) }

denied : (unmount closed "/stage" idle).0 ≡ err (plain "permission denied")
unfolding unmount
denied = refl

unmount-not_exist_example : is_not_exist (plain "permission denied") ≡ false
unmount-not_exist_example =
    unmount-not_exist closed "/stage" idle (plain "permission denied") denied
