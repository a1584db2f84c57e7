-- ===== src/Tests/Commands.antt =====
-- The programs, and their theorems, on the control plane and the host in memory.
use niova_block_csi.Prelude.{String, ◌≡◌, refl, some, none}
use niova_block_csi.Go.Exec.{ok, err, returned}
use niova_block_csi.Go.Error.{plain}
use niova_block_csi.Config.Clients.{
  Launch, new_k8s_controller, start_auth_client, init_niova_client, new_config_manager,
}
use niova_block_csi.Go.Text.{cut_prefix, split_two}
use niova_block_csi.Config.Manager.{user_login, list_volumes, retry_auth, retry_loop}
use niova_block_csi.Driver.{parse_endpoint}
use niova_block_csi.Driver.Run.{
  CsiDriver, registered, Runtime, setup_identity_server, setup_node_server, setup_controller_server,
  new_csi_driver, run, serve_at, open_listener, prepare_socket,
}
use niova_block_csi.Node.State.{entry}
use niova_block_csi.Node.Service.{IsSound}
use niova_block_csi.Startup.{
  Plugin, on_manager, update_node_volume_map, seed, seed_one, fill_entry, ensure_entry,
}
use niova_block_csi.Startup.Seed.{lists_id, seeded}
use niova_block_csi.Startup.Restart.{all_parse}
use niova_block_csi.Commands.{
  Flags, node_name, node_driver, assemble_node, node_main, controller_main, controller_driver,
  with_clients, hand_over, deferring, serve_node,
}
use niova_block_csi.Commands.Start.{Serving, Named, node_services, assemble_node_lem, node_main-ok}
use niova_block_csi.Tests.Memory.{memory, memory-IsLawful as lawful, memory-LogsIn as logs_in}
use niova_block_csi.Tests.Machine.{disk}
use niova_block_csi.Tests.Startup.{plugin, disk-IsReadOnly}

abbrev flags : Flags
flags = record {
  endpoint = "unix:///csi/csi.sock";
  raft_id = "raft";
  node_id = "";
  config_path = "./gossipNodes";
  driver_name = "niova-block-csi";
  version = "v1.0.0";
  cp_log = "niova_csi.log";
}

-- Both clients are there, and a stopped client shows in the token of the plugin.
abbrev launch : Launch (Plugin memory disk)
launch = record {
  CpClient = Unit {0};
  UserClient = Unit {0};
  hostname = λ s. (returned "host-1", s);
  new_uuid = λ s. ("uuid", s);
  in_cluster_config = λ s. (returned tt, s);
  new_for_config = λ s. (returned tt, s);
  init_cli_c_funcs = λ id raft path log s. (some tt, s);
  new_user_client = λ c s. (some tt, s);
  teardown = λ s. record s { manager = record s.manager { usertoken = "stopped" } };
}

abbrev runtime : Runtime (Plugin memory disk)
runtime = record {
  remove = λ path s. (returned tt, s);
  mkdir_all = λ path s. (returned tt, s);
  listen = λ proto addr s. (returned tt, s);
  serve = λ services s. (returned tt, s);
}

controller_runs :
    (controller_main memory launch runtime (on_manager memory disk) flags plugin).0 ≡ ok tt
unfolding controller_main node_name new_k8s_controller with_clients start_auth_client hand_over
    deferring init_niova_client new_config_manager user_login controller_driver run serve_at
    open_listener prepare_socket parse_endpoint split_two cut_prefix setup_identity_server
    setup_controller_server new_csi_driver
controller_runs = refl

-- Without the client of the authentication service, the process exits, and nothing is served.
controller_exits :
    let none_there : Launch (Plugin memory disk) = record launch {
      UserClient = Unit {0};
      new_user_client = λ c s. (none, s);
    } in
    (controller_main memory none_there runtime (on_manager memory disk) flags plugin).0
    ≡ err (plain "Failed to start Authentication client")
unfolding controller_main node_name new_k8s_controller with_clients start_auth_client hand_over
    new_config_manager
controller_exits = refl

assemble_node_lem_example :
    let after = assemble_node memory disk flags "host-1" "uuid" plugin in
    ((d : CsiDriver) × (after.0 ≡ ok d)
      × (registered d ≡ node_services memory disk flags)
      × (d.endpoint ≡ flags.endpoint))
    × (entry after.1.server.node "vol" ≡ some (seeded disk "vol" none))
    × IsSound disk after.1.server
unfolding all_parse lists_id
assemble_node_lem_example =
    assemble_node_lem memory disk flags lawful logs_in "host-1" "uuid" "vol" plugin disk-IsReadOnly
      refl

node_main-ok_example :
    (node_id client_id : String) × (entered served : Plugin memory disk) × Named memory disk flags
      launch runtime plugin node_id
    × Serving memory disk flags launch runtime node_id client_id entered served
    × ((node_main memory disk flags launch runtime plugin).1 ≡ launch.teardown served)
unfolding node_main node_name with_clients start_auth_client hand_over deferring init_niova_client
    new_config_manager serve_node user_login assemble_node update_node_volume_map list_volumes
    retry_auth retry_loop seed seed_one fill_entry ensure_entry run serve_at open_listener
    prepare_socket parse_endpoint split_two cut_prefix node_driver setup_identity_server
    setup_node_server new_csi_driver
node_main-ok_example = node_main-ok memory disk flags launch runtime plugin refl
