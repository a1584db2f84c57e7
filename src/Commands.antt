-- ===== src/Commands.antt =====
-- The programs cmd/controller/main.go and cmd/node/main.go: from their flags to the end of `Run`.
pub mod Start
use niova_block_csi.Prelude.{String, Bool, true, false, Option, none, some, ◌==◌, if◌then◌else◌}
use niova_block_csi.Go.Error.{Error, plain}
use niova_block_csi.Go.Exec.{
  Reply, Result, ok, err, panic, returned, failed, to_result, Exec, pure, raise, modify, gets,
  attempt, ◌>>=◌, ◌>>◌,
}
use niova_block_csi.Config.Plane.{Plane}
use niova_block_csi.Config.Clients.{
  ConfigManager, Launch, ask, new_config_manager, init_niova_client, start_auth_client,
  new_k8s_controller,
}
use niova_block_csi.Config.Manager.{Manager, user_login}
use niova_block_csi.Node.Host.{Host}
use niova_block_csi.Node.Server.{NodeServer, new_node_server}
use niova_block_csi.Driver.Run.{
  CsiDriver, Runtime, new_csi_driver, setup_controller_server, setup_node_server,
  setup_identity_server, run,
}
use niova_block_csi.Startup.{Plugin, on_manager, on_server, update_node_volume_map}

pub record Flags : Type 0 where
  pub endpoint : String
  pub raft_id : String
  pub node_id : String
  pub config_path : String
  pub driver_name : String
  pub version : String
  pub cp_log : String

-- `klog.Fatalf` and `os.Exit`: the process ends here, and what was deferred does not run.
abbrev exit : {S A : Type 0} → Error → Exec S A
exit = raise

abbrev is_exit : {A : Type 0} → Result A → Bool
is_exit (err e) = true
is_exit _ = false

-- `defer f()` around what is left of `main`: `f` runs where `main` returns or panics, and not where the
-- process exits.
unfoldable pub deferring : {S A : Type 0} → (S → S) → Exec S A → Exec S A
deferring f m s = let (r, s') = m s in (r, if is_exit r then s' else f s')

module _ {S : Type 0} (X : Launch S) (flags : Flags) where
  unfoldable pub node_name : Exec S String
  node_name =
      if flags.node_id == ""
      then attempt (λ s. let (r, s') = X.hostname s in (to_result r, s')) exit pure
      else pure flags.node_id

  -- The clients are handed over, and what is left of `main` follows.
  unfoldable pub hand_over :
      ConfigManager X.CpClient X.UserClient
      → Exec S (Unit {0})
      → Option X.CpClient
      → Option X.UserClient
      → Exec S (Unit {0})
  unfolding deferring
  hand_over manager body c none = exit (plain "Failed to start Authentication client")
  hand_over manager body c (some user) =
      deferring X.teardown (elim (init_niova_client (some manager) c (some user)) [
        | failed e ↦ exit e
        | returned ready ↦ body
      ])

  -- The part of `main` that makes the clients, with what follows it.
  unfoldable pub with_clients :
      ConfigManager X.CpClient X.UserClient → String → Exec S (Unit {0}) → Exec S (Unit {0})
  with_clients manager client_id body = do
    c ← ask (X.init_cli_c_funcs client_id flags.raft_id flags.config_path flags.cp_log)
    u ← start_auth_client X flags.raft_id flags.config_path
    hand_over manager body c u

-- `main` of cmd/controller/main.go, in a state that holds the connection to the control plane.
module _ (P : Plane) {S : Type 0} (X : Launch S) (R : Runtime S)
    (on_plane : Exec (Manager P) (Unit {0}) → Exec S (Unit {0})) (flags : Flags) where
  unfoldable pub controller_driver : String → CsiDriver
  controller_driver node_id = setup_identity_server (
      setup_controller_server
        (new_csi_driver flags.driver_name flags.version node_id "" flags.endpoint))

  unfoldable pub controller_main : Exec S (Unit {0})
  controller_main = do
    node_id ← node_name X flags
    new_k8s_controller X
    client_id ← ask X.new_uuid
    with_clients X flags (record (new_config_manager flags.config_path) { has_k8s_client = true })
        client_id (do on_plane (user_login P); run R (controller_driver node_id))

-- `main` of cmd/node/main.go. Before `SetupNodeServer`, only the machine counts of the server.
module _ (P : Plane) (H : Host) (flags : Flags) where
  unfoldable pub node_driver : String → String → CsiDriver
  node_driver node_id client_id = setup_identity_server (
      setup_node_server
        (new_csi_driver flags.driver_name flags.version node_id client_id flags.endpoint))

  -- From `NewCSIDriver` to `Run`: a failure of `UpdateNodeVolumeMap` is only logged.
  unfoldable pub assemble_node : String → String → Exec (Plugin P H) CsiDriver
  assemble_node node_id client_id = do
    modify (λ s. record s { server = new_node_server H node_id client_id s.server.ublk.host })
    attempt (update_node_volume_map P H) (λ e. pure tt) pure
    pure (node_driver node_id client_id)

  module _ (X : Launch (Plugin P H)) (R : Runtime (Plugin P H)) where
    -- From the login to the end of `main`.
    unfoldable pub serve_node : String → String → Exec (Plugin P H) (Unit {0})
    serve_node node_id client_id = do
      on_manager P H (user_login P)
      d ← assemble_node node_id client_id
      run R d

    unfoldable pub node_main : Exec (Plugin P H) (Unit {0})
    node_main = do
      node_id ← node_name X flags
      client_id ← ask X.new_uuid
      with_clients X flags (new_config_manager flags.config_path) client_id
          (serve_node node_id client_id)
