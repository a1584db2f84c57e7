-- ===== src/Node/Host.antt =====
-- What pkg/node calls and this repository does not hold: the host's files, processes, mounts and
-- systemd, and the library for UUIDs. A call may change the state of the host.
use niova_block_csi.Prelude.{ℕ, String, Bool, List, Option}
use niova_block_csi.Go.Error.{Error}
use niova_block_csi.Go.Exec.{Reply}
use niova_block_csi.Types.{Uuid}

-- A mount point that `mount.Interface.List` lists.
pub record MountPoint : Type 0 where
  pub device : String
  pub path : String
  pub kind : String
  pub opts : List String

-- `cmd.CombinedOutput()`: the text comes with an error too.
pub record Output : Type 0 where
  pub text : String
  pub error : Option Error

-- A transient unit of systemd, with the properties that the program gives; those that it does not
-- give are empty or 0.
pub record UnitSpec : Type 0 where
  pub description : String
  pub kind : String
  pub exec_start : List String
  pub slice : String
  pub environment : List String
  pub working_directory : String
  pub restart : String
  pub restart_usec : ℕ
  pub start_limit_interval_usec : ℕ
  pub start_limit_burst : ℕ
  pub collect_mode : String

-- The value of a property of a unit, where the program looks at its Go type.
pub data Variant : Type 0 where
  uint32 : ℕ → Variant
  other_value : String → Variant

pub record Host : Type 1 where
  pub State : Type 0
  -- package os: `Stat` says whether the path is a directory.
  pub stat : String → State → Reply Bool × State
  pub lstat : String → State → Reply (Unit {0}) × State
  pub mkdir_all : String → State → Reply (Unit {0}) × State
  -- `OpenFile` with O_CREATE and O_RDWR, and `Close`.
  pub create_file : String → State → Reply (Unit {0}) × State
  pub remove : String → State → Reply (Unit {0}) × State
  pub getenv : String → String
  -- `filepath.EvalSymlinks`
  pub eval_symlinks : String → State → Reply String × State
  -- `exec.Command(name, args...).CombinedOutput()`
  pub run : String → List String → State → Output × State
  -- `mount.Interface` of k8s.io/mount-utils: source, target, type, options.
  pub is_mount_point : String → State → Reply Bool × State
  pub mount : String → String → String → List String → State → Reply (Unit {0}) × State
  pub unmount : String → State → Reply (Unit {0}) × State
  pub list_mounts : State → Reply (List MountPoint) × State
  -- A connection of go-systemd to the host's systemd.
  pub connect : State → Reply (Unit {0}) × State
  pub reset_failed : String → State → Reply (Unit {0}) × State
  pub start_transient : String → UnitSpec → State → Reply (Unit {0}) × State
  pub stop_unit : String → State → Reply (Unit {0}) × State
  -- The result of the job of a unit, or nothing where the time of the context ran out first.
  pub job_result : String → State → Option String × State
  pub service_property : String → String → State → Reply Variant × State
  -- `%v` of the value of a property
  pub show : Variant → String
  -- package time, in milliseconds
  pub now : State → ℕ
  pub sleep : ℕ → State → State
  -- `uuid.Parse`
  pub parse_uuid : String → Reply Uuid
  -- The UUID that it returns beside an error.
  pub uuid_beside_error : String → Uuid
