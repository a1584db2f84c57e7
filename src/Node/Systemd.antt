-- ===== src/Node/Systemd.antt =====
-- pkg/node/systemd.go: niova-ublk and short commands as transient units of the host's systemd.
use niova_block_csi.Prelude.{
  ℕ, String, ◌<>◌, List, [], ◌∷◌, Option, none, some, nat_eq, ◌==◌, Bool, false, if◌then◌else◌,
}
use niova_block_csi.Go.Error.{wrapped, Error, plain, error_text, dbus_error}
use niova_block_csi.Go.Exec.{ok, Exec, pure, raise, attempt, ◌>>=◌, ◌>>◌}
use niova_block_csi.Go.Filepath.{join}
use niova_block_csi.Node.Host.{uint32, other_value, Host}
use niova_block_csi.Node.Mount.{call}

unfoldable pub ublk_unit_name : String → String
ublk_unit_name volume_id = "niova-ublk-" <> volume_id <> ".service"

-- `%v` of a list of texts, and `%q` of a text. The escapes of `%q` are left out.
pub args_text : List String → String
args_text args = "[" <> join " " args <> "]"

pub quoted : String → String
quoted s = "\"" <> s <> "\""

-- The test of `stopUblkUnit` for a unit that is not there. `errors.As` looks through wrapping.
unfoldable pub is_no_such_unit : Error → Bool
is_no_such_unit (dbus_error name text) = name == "org.freedesktop.systemd1.NoSuchUnit"
is_no_such_unit (wrapped text e) = is_no_such_unit e
is_no_such_unit _ = false

module _ (H : Host) where
  connected : {A : Type 0} → Exec H.State A → Exec H.State A
  connected rest =
      attempt (call H H.connect)
        (λ e. raise (plain ("failed to connect to systemd: " <> error_text e))) (λ _. rest)

  -- The `select` over the result of a job and the end of the context.
  await : String → Exec H.State (Option String)
  await unit h = let (r, h') = H.job_result unit h in (ok r, h')

  abbrev pub ignoring : {A : Type 0} → Exec H.State A → Exec H.State (Unit {0})
  ignoring m = attempt m (λ _. pure tt) (λ _. pure tt)

  -- The process ID that systemd gives for a unit that was started.
  main_pid : String → Exec H.State ℕ
  main_pid unit =
      attempt (call H (H.service_property unit "MainPID"))
        (λ e. raise (plain ("failed to get MainPID for unit " <> unit <> ": " <> error_text e)))
        (λ prop. elim prop [
          | uint32 pid ↦
              if nat_eq pid 0
              then raise (plain ("unit " <> unit <> " has no live MainPID after start"))
              else pure pid
          | other_value v ↦ raise (plain ("unit " <> unit <> " has no live MainPID after start"))
        ])

  unfoldable pub start_ublk_unit :
      String → String → List String → List String → String → Exec H.State ℕ
  unfolding connected await main_pid
  start_ublk_unit volume_id binary args env directory =
      let unit = ublk_unit_name volume_id in
      connected (do
        ignoring (call H (H.reset_failed unit))
        attempt
            (call H (
              H.start_transient unit (record {
                description = "niova-ublk daemon for volume " <> volume_id;
                kind = "simple";
                exec_start = binary ∷ args;
                slice = "niova-ublk.slice";
                environment = env;
                working_directory = directory;
                restart = "on-failure";
                restart_usec = 2000000;
                start_limit_interval_usec = 300000000;
                start_limit_burst = 5;
                collect_mode = "inactive-or-failed";
              })))
            (λ e. raise (plain ("failed to start transient unit " <> unit <> ": " <> error_text e)))
            (λ _. do
              result ← await unit
              elim result [
                | none ↦ raise (plain ("timed out waiting for systemd to start unit " <> unit))
                | some r ↦
                    if r == "done"
                    then main_pid unit
                    else raise (
                        plain
                          ("systemd job for unit " <> unit <> " finished with result " <> quoted r))
              ]))

  -- The text of the exit status, where systemd gives it.
  exit_detail : String → Exec H.State String
  exit_detail unit =
      attempt (call H (H.service_property unit "ExecMainStatus")) (λ _. pure "")
        (λ prop. pure (" (ExecMainStatus=" <> H.show prop <> ")"))

  unfoldable pub run_host_command : String → String → List String → Exec H.State (Unit {0})
  unfolding connected await exit_detail
  run_host_command suffix binary args =
      let unit = "niova-run-" <> suffix <> ".service" in
      connected (
        attempt
          (call H (
            H.start_transient unit (record {
              description = binary <> " " <> args_text args;
              kind = "oneshot";
              exec_start = binary ∷ args;
              slice = "";
              environment = [];
              working_directory = "";
              restart = "";
              restart_usec = 0;
              start_limit_interval_usec = 0;
              start_limit_burst = 0;
              collect_mode = "inactive-or-failed";
            })))
          (λ e. raise (plain ("failed to start transient unit " <> unit <> ": " <> error_text e)))
          (λ _. do
            result ← await unit
            elim result [
              | none ↦ raise (
                  plain (
                    "timed out waiting for "
                    <> unit
                    <> " to run "
                    <> binary
                    <> " "
                    <> args_text args))
              | some r ↦ if r == "done" then pure tt else do
                detail ← exit_detail unit
                ignoring (call H (H.reset_failed unit))
                raise (
                    plain (
                      binary
                      <> " "
                      <> args_text args
                      <> " failed on host: job result "
                      <> quoted r
                      <> detail))
            ]))

  unfoldable pub stop_ublk_unit : String → Exec H.State (Unit {0})
  unfolding connected await
  stop_ublk_unit volume_id =
      let unit = ublk_unit_name volume_id in
      connected (
        attempt (call H (H.stop_unit unit))
          (λ e.
            if is_no_such_unit e
            then pure tt
            else raise (plain ("failed to stop unit " <> unit <> ": " <> error_text e)))
          (λ _. do
            result ← await unit
            elim result [
              | none ↦ raise (plain ("timed out waiting for systemd to stop unit " <> unit))
              | some r ↦
                  if r == "done"
                  then pure tt
                  else raise (
                      plain (
                        "systemd job to stop unit "
                        <> unit
                        <> " finished with result "
                        <> quoted r))
            ]))
