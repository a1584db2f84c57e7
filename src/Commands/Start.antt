-- ===== src/Commands/Start.antt =====
-- What cmd/node/main.go serves, and from when on.
use mathlib.Core.Path.{subst}
use niova_block_csi.Prelude.{
  ◌⊎◌, Bool-cases, false, inl, inr, ◌==◌, String, ◌≡◌, refl, sym, ap, ◌∙◌, true, ◌&&◌, Option, none,
  some, if◌then◌else◌, arith,
}
use niova_block_csi.Prelude.Dict.{lookup}
use niova_block_csi.Go.Exec.{ok, returned, Exec, ◌>>=◌}
use niova_block_csi.Go.Steps.{bind-ok, seq-ok}
use niova_block_csi.Config.Plane.{Plane}
use niova_block_csi.Config.Retry.{reply_cases, login_now}
use niova_block_csi.Config.Clients.{
  ConfigManager, Launch, ask, start_auth_client, init_niova_client, new_config_manager,
}
use niova_block_csi.Config.Manager.{user_login}
use niova_block_csi.Config.Lawful.{IsLawful, LogsIn}
use niova_block_csi.Config.Operations.{vdevs_of}
use niova_block_csi.Node.Host.{Host}
use niova_block_csi.Node.State.{entry}
use niova_block_csi.Node.Service.{IsSound}
use niova_block_csi.Node.Server.{new_node_server}
use niova_block_csi.Driver.{new_identity_server}
use niova_block_csi.Driver.Run.{
  CsiDriver, Runtime, Registered, registered, run, setup_identity_server, setup_node_server,
  new_csi_driver,
}
use niova_block_csi.Driver.Serve.{Served, run-ok}
use niova_block_csi.Startup.{Plugin, on_manager, update_node_volume_map}
use niova_block_csi.Startup.Seed.{is_live, seeded, lists_id, IsReadOnly, seed-node_id}
use niova_block_csi.Startup.Restart.{
  all_parse, update_node_volume_map-IsSound, update_node_volume_map_lem,
}
use niova_block_csi.Commands.{
  Flags, deferring, node_driver, assemble_node, node_main, serve_node, node_name, with_clients,
  hand_over,
}

deferring-ok :
    {S A : Type 0} (f : S → S) (m : Exec S A) (a : A) (s : S)
    → (deferring f m s).0 ≡ ok a
    → ((m s).0 ≡ ok a) × ((deferring f m s).1 ≡ f (m s).1)
unfolding deferring
deferring-ok f m a s h = ground arith

module _ {S : Type 0} (X : Launch S) (flags : Flags)
    (manager : ConfigManager X.CpClient X.UserClient) (body : Exec S (Unit {0})) where
  hand_over-ok :
      (c : Option X.CpClient) (u : Option X.UserClient) (s : S)
      → (hand_over X flags manager body c u s).0 ≡ ok tt
      → ((body s).0 ≡ ok tt) × ((hand_over X flags manager body c u s).1 ≡ X.teardown (body s).1)
  unfolding hand_over init_niova_client
  hand_over-ok c none s h = ground arith
  hand_over-ok none (some user) s h = ground (arith, deferring-ok X.teardown)
  hand_over-ok (some client) (some user) s h = deferring-ok X.teardown body tt s h

  with_clients-ok :
      (client_id : String) (s : S)
      → (with_clients X flags manager client_id body s).0 ≡ ok tt
      → (entered : S) × ((body entered).0 ≡ ok tt)
        × ((with_clients X flags manager client_id body s).1 ≡ X.teardown (body entered).1)
  unfolding with_clients start_auth_client
  with_clients-ok client_id s h =
      let (c, s1) = X.init_cli_c_funcs client_id flags.raft_id flags.config_path flags.cp_log s in
      let (id, s2) = X.new_uuid s1 in
      let (u, s3) =
        X.new_user_client
          (record {
            app_uuid = id;
            raft_uuid = flags.raft_id;
            gossip_config_path = flags.config_path;
          })
          s2 in
      let (runs, stops) = hand_over-ok c u s3 h in (s3, runs, stops)

module _ (P : Plane) (H : Host) (flags : Flags) where
  assemble_node-driver :
      (node_id client_id : String) (d : CsiDriver) (s : Plugin P H)
      → (assemble_node P H flags node_id client_id s).0 ≡ ok d
      → d ≡ node_driver P H flags node_id client_id
  unfolding assemble_node
  assemble_node-driver node_id client_id d s h = ground arith

  assemble_node-name :
      (node_id client_id : String) (s : Plugin P H)
      → (assemble_node P H flags node_id client_id s).1.server.node_id ≡ node_id
  unfolding assemble_node update_node_volume_map new_node_server
  assemble_node-name node_id client_id s = grind (arith, seed-node_id)

  new_node_server-IsSound :
      (node_id client_id : String) (h : H.State) → IsSound H (new_node_server H node_id client_id h)
  unfolding new_node_server lookup
  new_node_server-IsSound node_id client_id h =
      (refl, record { below = λ id p k. ground arith; apart = λ id other p k k'. ground arith })

  -- What the node plugin is to register: its identity and its node service, and no controller.
  abbrev pub node_services : Registered
  node_services = record {
    identity = some (record { name = flags.driver_name; version = flags.version });
    controller = false;
    node = true;
  }

  node_driver-services :
      (node_id client_id : String)
      → (registered (node_driver P H flags node_id client_id) ≡ node_services)
        × ((node_driver P H flags node_id client_id).endpoint ≡ flags.endpoint)
  unfolding registered node_driver setup_identity_server setup_node_server new_csi_driver
      new_identity_server
  node_driver-services node_id client_id = (refl, refl)

  -- On a lawful control plane to which the login succeeds, and a host on which `os.Stat` changes
  -- nothing, where the IDs of the volumes that are listed and have their udev link are UUIDs: the node
  -- plugin sets up a driver for the endpoint of its flags, of which the identity, with the name and the
  -- version of the flags, and the node service are registered, and no controller. Its map has an entry
  -- for exactly those volumes, with the link as the device; the map is well formed, and the mutex is
  -- free.
  pub assemble_node_lem :
      (L : IsLawful P) (logs_in : LogsIn P) (node_id client_id id : String) (s : Plugin P H)
      → IsReadOnly H
      → all_parse H s.server.ublk.host (vdevs_of L s.manager) ≡ true
      → let after = assemble_node P H flags node_id client_id s in
        ((d : CsiDriver) × (after.0 ≡ ok d)
          × (registered d ≡ node_services)
          × (d.endpoint ≡ flags.endpoint))
        × (entry after.1.server.node id ≡ (
            if lists_id id (vdevs_of L s.manager) && is_live H s.server.ublk.host id
            then some (seeded H id none)
            else none))
        × IsSound H after.1.server
  unfolding assemble_node new_node_server entry lookup
  assemble_node_lem L logs_in node_id client_id id s quiet good =
      let fresh : Plugin P H = record s {
        server = new_node_server H node_id client_id s.server.ublk.host;
      } in
      let sound = new_node_server-IsSound node_id client_id s.server.ublk.host in
      let (returns, at) = update_node_volume_map_lem P L logs_in H id fresh quiet sound.1 good in
      let sound' = update_node_volume_map-IsSound P L logs_in H fresh sound in
      let ends : assemble_node P H flags node_id client_id s
          ≡ (ok (node_driver P H flags node_id client_id), (update_node_volume_map P H fresh).1) =
        ground arith in
      let after = assemble_node P H flags node_id client_id s in
      (
        (
          node_driver P H flags node_id client_id,
          ap (λ x. x.0) ends,
          (node_driver-services node_id client_id).0,
          (node_driver-services node_id client_id).1,
        ),
        ap (λ x. entry x.1.server.node id) ends ∙ at,
        subst (λ x. IsSound H x.1.server) (sym ends) sound',
      )

  module _ (X : Launch (Plugin P H)) (R : Runtime (Plugin P H)) where
    -- That a plugin of this name logged in and came to serve, and what it left.
    pub record Serving (node_id client_id : String) (entered after : Plugin P H) : Type 0 where
      pub token : String
      pub logged_in : Plugin P H
      -- In front of the first request.
      pub ready : Plugin P H
      pub login : (login_now P entered.manager.plane).0 ≡ returned token
      pub token_kept : logged_in.manager.usertoken ≡ token
      pub token_set :
          logged_in.manager.plane ≡ P.set_token token (login_now P entered.manager.plane).1
      pub node_named :
          (assemble_node P H flags node_id client_id logged_in).1.server.node_id ≡ node_id
      pub served :
          Served R flags.endpoint (assemble_node P H flags node_id client_id logged_in).1 ready
      pub serves : R.serve node_services ready ≡ (returned tt, after)

    login-ok :
        (s s' : Plugin P H)
        → on_manager P H (user_login P) s ≡ (ok tt, s')
        → (token : String) × ((login_now P s.manager.plane).0 ≡ returned token)
          × (s'.manager.usertoken ≡ token)
          × (s'.manager.plane ≡ P.set_token token (login_now P s.manager.plane).1)
    unfolding user_login
    login-ok s s' e = elim (reply_cases (login_now P s.manager.plane)) [
      | inl (token, x, got) ↦ (token, ground arith, ground arith, ground arith)
      | inr (refused, x, got) ↦ absurd (ground arith)
    ]

    serve_node-ok :
        (node_id client_id : String) (s : Plugin P H)
        → (serve_node P H flags X R node_id client_id s).0 ≡ ok tt
        → Serving node_id client_id s (serve_node P H flags X R node_id client_id s).1
    unfolding serve_node
    serve_node-ok node_id client_id s h =
        let assemble : Exec (Plugin P H) CsiDriver = assemble_node P H flags node_id client_id in
        let (logged_in, login, rest) =
          seq-ok (on_manager P H (user_login P)) (assemble >>= run R) s h in
        let (d, at, made, rest') =
          bind-ok assemble (run R) tt logged_in (ap (λ x. x.0) (sym rest) ∙ h) in
        let named = assemble_node-driver node_id client_id d logged_in (ap (λ x. x.0) made) in
        let (ready, served, serves) = run-ok R d at (ap (λ x. x.0) (sym (rest ∙ rest')) ∙ h) in
        let (token, got, kept, set) = login-ok s logged_in login in
        let (services, endpoint) = node_driver-services node_id client_id in
        record {
          token = token;
          logged_in = logged_in;
          ready = ready;
          login = got;
          token_kept = kept;
          token_set = set;
          node_named = assemble_node-name node_id client_id logged_in;
          served =
              subst (λ x. Served R x (assemble logged_in).1 ready)
                (ap (λ x. x.endpoint) named ∙ endpoint)
                (subst (λ x. Served R d.endpoint x.1 ready) (sym made) served);
          serves =
              subst
                (λ x.
                  R.serve x ready ≡ (returned tt, (serve_node P H flags X R node_id client_id s).1))
                (ap registered named ∙ services)
                (serves ∙ ap (λ x. (returned tt, x.1)) (sym (rest ∙ rest')));
        }

    -- Where the name of the node comes from: the flag, or the host where the flag is empty.
    abbrev pub Named : Plugin P H → String → Type 0
    Named s node_id =
        (((flags.node_id == "") ≡ false) × (node_id ≡ flags.node_id))
        ⊎ (((flags.node_id == "") ≡ true) × ((X.hostname s).0 ≡ returned node_id))

    node_name-Named :
        (node_id : String) (s : Plugin P H) → (node_name X flags s).0 ≡ ok node_id → Named s node_id
    unfolding node_name
    node_name-Named node_id s h = elim (Bool-cases (flags.node_id == "")) [
      | inl empty ↦ elim (reply_cases (X.hostname s)) [
        | inl (name, s', e) ↦ inr (empty, ground arith)
        | inr (refused, s', e) ↦ absurd (ground arith)
      ]
      | inr given ↦ inl (given, ground arith)
    ]

    -- Where `main` of the node plugin returns, the node has the name that its flag gives, or the host
    -- where the flag is empty. The plugin had got a token from the login and gave it to the client of
    -- the control plane, before it looked for its volumes. Then it listened at the endpoint of its
    -- flags, and served its identity, with the name and the version of its flags, and its node service,
    -- which has the name of the node, and no controller, till the gRPC server was stopped without an
    -- error. At last the client of the authentication service is stopped.
    pub node_main-ok :
        (s : Plugin P H)
        → (node_main P H flags X R s).0 ≡ ok tt
        → (node_id client_id : String) × (entered served : Plugin P H) × Named s node_id
          × Serving node_id client_id entered served
          × ((node_main P H flags X R s).1 ≡ X.teardown served)
    unfolding node_main
    node_main-ok s h =
        let launch : String → Exec (Plugin P H) (Unit {0}) = λ node_id.
          ask X.new_uuid >>= λ client_id.
          with_clients X flags (new_config_manager flags.config_path) client_id
            (serve_node P H flags X R node_id client_id) in
        let (node_id, s1, named, rest) = bind-ok (node_name X flags) launch tt s h in
        let client_id = (X.new_uuid s1).0 in
        let manager = new_config_manager flags.config_path in
        let body = serve_node P H flags X R node_id client_id in
        let (entered, runs, ends) =
          with_clients-ok X flags manager body client_id (X.new_uuid s1).1
            (ap (λ x. x.0) (sym rest) ∙ h) in
        (
          node_id,
          client_id,
          entered,
          (body entered).1,
          node_name-Named node_id s (ap (λ x. x.0) named),
          serve_node-ok node_id client_id entered runs,
          ap (λ x. x.1) rest ∙ ends,
        )
