-- ===== src/Tests/Machine.antt =====
-- A host in memory: what is mounted, whether mkfs has run, and a clock.
use niova_block_csi.Prelude.{
  ℕ, ◌+◌, String, Bool, true, false, ◌||◌, List, [], ◌∷◌, none, some, ◌==◌, if◌then◌else◌,
}
use niova_block_csi.Go.Error.{plain}
use niova_block_csi.Go.Exec.{Reply, returned, failed}
use niova_block_csi.Types.{nil_uuid}
use niova_block_csi.Node.Host.{Host, Output, uint32}

pub record Machine : Type 0 where
  pub mounted : List String
  pub formatted : Bool
  pub clock : ℕ

unfoldable pub is_listed : String → List String → Bool
is_listed s [] = false
is_listed s (t ∷ more) = s == t || is_listed s more

unfoldable pub without : String → List String → List String
without s [] = []
without s (t ∷ more) = let rest = without s more in if s == t then rest else t ∷ rest

abbrev pub done : {A : Type 0} → A → Machine → Reply A × Machine
done a h = (returned a, h)

-- The host on which blkid gives this answer.
abbrev pub machine : Output → Host
machine answer = record {
  State = Machine;
  stat = λ path. done true;
  lstat = λ path. done tt;
  mkdir_all = λ path. done tt;
  create_file = λ path. done tt;
  remove = λ path. done tt;
  getenv = λ name. "";
  eval_symlinks = λ path. done "/dev/ublkb7";
  run = λ name args h.
      if name == "blkid"
      then (answer, h)
      else (record { text = ""; error = none }, record h { formatted = true });
  is_mount_point = λ path h. (returned (is_listed path h.mounted), h);
  mount = λ source target kind opts h. (returned tt, record h { mounted = target ∷ h.mounted });
  unmount = λ target h. (returned tt, record h { mounted = without target h.mounted });
  list_mounts = done [];
  connect = done tt;
  reset_failed = λ unit. done tt;
  start_transient = λ unit spec. done tt;
  stop_unit = λ unit. done tt;
  job_result = λ unit h. (some "done", h);
  service_property = λ unit name. done (uint32 4242);
  show = λ v. "4242";
  now = λ h. h.clock;
  sleep = λ ms h. record h { clock = h.clock + ms };
  parse_uuid = λ s. if s == "vol" then returned nil_uuid else failed (plain "invalid UUID");
  uuid_beside_error = λ s. nil_uuid;
}

abbrev pub idle : Machine
idle = record { mounted = []; formatted = false; clock = 0 }

-- A device that holds ext4.
abbrev pub disk : Host
disk = machine (record { text = "ext4"; error = none })

-- A device that blkid may not read.
abbrev pub unread : Host
unread = machine (record { text = "Permission denied"; error = some (plain "exit status 2") })
