-- ===== src/Driver/Run.antt =====
-- `CSIDriver` of pkg/driver/driver.go: how a plugin sets up its services and serves them.
use niova_block_csi.Prelude.{
  String, ◌<>◌, Bool, true, false, Option, none, some, ◌==◌, if◌then◌else◌,
}
use niova_block_csi.Go.Error.{plain, error_text, is_not_exist}
use niova_block_csi.Go.Exec.{Reply, returned, failed, to_result, Exec, pure, raise, attempt, ◌>>◌}
use niova_block_csi.Go.Filepath.{dir}
use niova_block_csi.Driver.{parse_endpoint, IdentityServer, new_identity_server}

-- `CSIDriver`. A process has one controller server and one node server at most: of their pointers, the
-- driver only asks whether they are set.
pub record CsiDriver : Type 0 where
  pub name : String
  pub version : String
  pub node_id : String
  pub client_id : String
  pub endpoint : String
  pub has_controller_server : Bool
  pub has_node_server : Bool
  pub identity_server : Option IdentityServer

unfoldable pub new_csi_driver : String → String → String → String → String → CsiDriver
new_csi_driver name version node_id client_id endpoint = record {
  name = name;
  version = version;
  node_id = node_id;
  client_id = client_id;
  endpoint = endpoint;
  has_controller_server = false;
  has_node_server = false;
  identity_server = none;
}

unfoldable pub setup_controller_server : CsiDriver → CsiDriver
setup_controller_server d = record d { has_controller_server = true }

unfoldable pub setup_node_server : CsiDriver → CsiDriver
setup_node_server d = record d { has_node_server = true }

unfoldable pub setup_identity_server : CsiDriver → CsiDriver
unfolding new_identity_server
setup_identity_server d = record d { identity_server = some (new_identity_server d.name d.version) }

-- What is registered with a gRPC server.
pub record Registered : Type 0 where
  pub identity : Option IdentityServer
  pub controller : Bool
  pub node : Bool

-- What `Run` calls and this repository does not hold, for a process in a state of type `S`: package os,
-- `net.Listen`, and `Serve` of a gRPC server, which runs the handlers until a signal ends the context
-- and the server is stopped.
pub record Runtime (S : Type 0) : Type 0 where
  pub remove : String → S → Reply (Unit {0}) × S
  pub mkdir_all : String → S → Reply (Unit {0}) × S
  pub listen : String → String → S → Reply (Unit {0}) × S
  pub serve : Registered → S → Reply (Unit {0}) × S

abbrev call : {S A : Type 0} → (S → Reply A × S) → Exec S A
call f s = let (r, s') = f s in (to_result r, s')

unfoldable pub registered : CsiDriver → Registered
registered d = record {
  identity = d.identity_server;
  controller = d.has_controller_server;
  node = d.has_node_server;
}

module _ {S : Type 0} (R : Runtime S) where
  -- The socket of an earlier run goes, and its directory is made.
  unfoldable pub prepare_socket : String → Exec S (Unit {0})
  prepare_socket addr = do
    attempt (call (R.remove addr))
        (λ e.
          if is_not_exist e
          then pure tt
          else raise (plain ("failed to remove socket file: " <> error_text e)))
        pure
    attempt (call (R.mkdir_all (dir addr)))
        (λ e. raise (plain ("failed to create socket directory: " <> error_text e))) pure

  unfoldable pub open_listener : String → String → Exec S (Unit {0})
  open_listener proto addr =
      attempt (call (R.listen proto addr))
        (λ e.
          raise (plain ("failed to listen on " <> proto <> "://" <> addr <> ": " <> error_text e)))
        pure

  -- The listener, and the services of the driver behind it.
  unfoldable pub serve_at : CsiDriver → String → String → Exec S (Unit {0})
  serve_at d proto addr = do
    open_listener proto addr
    attempt (call (R.serve (registered d)))
        (λ e. raise (plain ("failed to serve: " <> error_text e))) pure

  unfoldable pub run : CsiDriver → Exec S (Unit {0})
  run d = elim (parse_endpoint d.endpoint) [
    | failed e ↦ raise (plain ("failed to parse endpoint: " <> error_text e))
    | returned (proto, addr) ↦ do
      if proto == "unix" then prepare_socket addr else pure tt
      serve_at d proto addr
  ]
