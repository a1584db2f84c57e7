-- ===== src/Config/Clients.antt =====
-- The clients of `ConfigManager` of pkg/config/config.go: how they are made and handed over.
use niova_block_csi.Prelude.{Bool, false, String, ◌<>◌, Option, none, some}
use niova_block_csi.Go.Error.{plain, error_text}
use niova_block_csi.Go.Exec.{
  Reply, returned, failed, Exec, to_result, pure, raise, attempt, ◌>>=◌, ◌>>◌,
}

-- `types.Controller`, for clients of the types `C` and `U`: `none` is nil. The token that it holds too
-- is in Config/Manager.
pub record Controller (C U : Type 0) : Type 0 where
  pub cp_client : Option C
  pub user_client : Option U

-- `ConfigManager`, whose clients are not in use yet. Its mutex is in Config/Manager.
pub record ConfigManager (C U : Type 0) : Type 0 where
  pub cp_config_path : String
  pub controller : Option (Controller C U)
  -- Whether `K8sClient` is set.
  pub has_k8s_client : Bool

abbrev empty_controller : {C U : Type 0} → Controller C U
empty_controller = record { cp_client = none; user_client = none }

unfoldable pub new_config_manager : {C U : Type 0} → String → ConfigManager C U
new_config_manager path = record {
  cp_config_path = path;
  controller = some empty_controller;
  has_k8s_client = false;
}

-- The controller with which `InitNiovaClient` goes on.
abbrev or_new : {C U : Type 0} → Option (Controller C U) → Controller C U
or_new none = empty_controller
or_new (some c) = c

-- `cm.InitNiovaClient(c, u)`: what `cm` points to then.
unfoldable pub init_niova_client :
    {C U : Type 0} → Option (ConfigManager C U) → Option C → Option U → Reply (ConfigManager C U)
init_niova_client none c u = failed (plain "ConfigManager is nil")
init_niova_client (some cm) none u = failed (plain "CP client Cannot be Nil")
init_niova_client (some cm) (some c) none = failed (plain "User client Cannot be Nil")
init_niova_client (some cm) (some c) (some u) = returned (record cm {
  controller = some (record (or_new cm.controller) { cp_client = some c; user_client = some u });
})

-- `userClient.Config`
pub record UserConfig : Type 0 where
  pub app_uuid : String
  pub raft_uuid : String
  pub gossip_config_path : String

-- What the commands call of other code before they serve, on a machine in a state of type `S`.
pub record Launch (S : Type 0) : Type 1 where
  -- `*CliCFuncs` and `*userClient.Client`, where they are not nil.
  pub CpClient : Type 0
  pub UserClient : Type 0
  pub hostname : S → Reply String × S
  -- `uuid.New().String()`
  pub new_uuid : S → String × S
  -- `rest.InClusterConfig` and `kubernetes.NewForConfig`
  pub in_cluster_config : S → Reply (Unit {0}) × S
  pub new_for_config : S → Reply (Unit {0}) × S
  -- `cpClient.InitCliCFuncs`: the client, the Raft group, the configuration and the log.
  pub init_cli_c_funcs : String → String → String → String → S → Option CpClient × S
  -- `userClient.New`, and the function that it returns to stop the client.
  pub new_user_client : UserConfig → S → Option UserClient × S
  pub teardown : S → S

abbrev call : {S A : Type 0} → (S → Reply A × S) → Exec S A
call f s = let (r, s') = f s in (to_result r, s')

-- A call that returns no error.
abbrev pub ask : {S A : Type 0} → (S → A × S) → Exec S A
ask f s = let (a, s') = f s in pure a s'

module _ {S : Type 0} (X : Launch S) where
  unfoldable pub start_auth_client : String → String → Exec S (Option X.UserClient)
  start_auth_client raft_uuid raft_config = do
    id ← ask X.new_uuid
    ask (
        X.new_user_client
          (record { app_uuid = id; raft_uuid = raft_uuid; gossip_config_path = raft_config }))

  unfoldable pub new_k8s_controller : Exec S (Unit {0})
  new_k8s_controller = do
    attempt (call X.in_cluster_config)
        (λ e. raise (plain ("failed to load in-cluster config: " <> error_text e))) pure
    attempt (call X.new_for_config)
        (λ e. raise (plain ("failed to create Kubernetes clientset: " <> error_text e))) pure
