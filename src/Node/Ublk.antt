-- ===== src/Node/Ublk.antt =====
-- `UblkManager` of pkg/node/ublk.go: the ublk device of a volume.
pub mod Wait
use niova_block_csi.Prelude.{
  ℕ, zero, suc, ◌+◌, String, ◌<>◌, Bool, List, [], ◌∷◌, ◌++◌, ltb, ◌==◌, if◌then◌else◌,
}
use niova_block_csi.Go.Error.{plain, error_text, status, internal, deadline_exceeded}
use niova_block_csi.Go.Exec.{
  Exec, pure, raise, crash, still_running, gets, modify, attempt, ◌>>=◌, ◌>>◌,
}
use niova_block_csi.Go.Text.{has_prefix, trim_prefix}
use niova_block_csi.Go.Filepath.{base}
use niova_block_csi.Types.{
  ublk_by_uuid_path, niova_gossip_path, niova_gossip_key, niova_user_name, niova_user_secret,
  niova_ublk_unified, niova_mdsvc_chunk_limit,
}
use niova_block_csi.Node.Host.{Host}
use niova_block_csi.Node.Mount.{call}
use niova_block_csi.Node.Systemd.{start_ublk_unit, stop_ublk_unit, run_host_command, ignoring}

pub record UblkManager : Type 0 where
  pub ublk_binary : String
  pub client_id : String
  pub ld_lib : String

unfoldable pub new_ublk_manager : String → UblkManager
new_ublk_manager client_id = record {
  ublk_binary = "niova-ublk";
  client_id = client_id;
  ld_lib = "/usr/local/lib";
}

unfoldable pub extract_ublk_id : String → String
extract_ublk_id path =
    let name = base path in if has_prefix name "ublk" then trim_prefix name "ublkb" else ""

-- The arguments of niova-ublk.
unfoldable pub ublk_args : String → String → Bool → Bool → List String
ublk_args volume_id client_id recovery read_only =
    "-t"
    ∷ "cp"
    ∷ "-v"
    ∷ volume_id
    ∷ "-u"
    ∷ client_id
    ∷ "-q"
    ∷ "128"
    ∷ "-b"
    ∷ "1048576"
    ∷ "-T"
    ∷ ((if recovery then "-r" ∷ [] else []) ++ (if read_only then "-R" ∷ [] else []))

module _ (H : Host) where
  -- The manager beside the host that it works on.
  pub record Ublk : Type 0 where
    pub manager : UblkManager
    pub host : H.State

  abbrev pub on_host : {A : Type 0} → Exec H.State A → Exec Ublk A
  on_host f u = let (r, h) = f u.host in (r, record u { host = h })

  unfoldable pub get_binary_path : UblkManager → UblkManager
  get_binary_path m =
      let path = H.getenv "NIOVA_BIN_PATH" in
      if path == ""
      then m
      else record m { ublk_binary = path <> "/bin/niova-ublk"; ld_lib = path <> "/lib" }

  unfoldable pub ublk_env : UblkManager → List String
  ublk_env m =
      ("LD_LIBRARY_PATH=" <> m.ld_lib)
      ∷ ("NIOVA_GOSSIP_PATH=" <> H.getenv niova_gossip_path)
      ∷ ("NIOVA_GOSSIP_KEY=" <> H.getenv niova_gossip_key)
      ∷ ("NIOVA_BLOCK_CP_AUTH_USERNAME=" <> H.getenv niova_user_name)
      ∷ ("NIOVA_BLOCK_CP_AUTH_SECRET=" <> H.getenv niova_user_secret)
      ∷ ("NIOVA_BLOCK_UBLK_UNIFIED=" <> H.getenv niova_ublk_unified)
      ∷ ("NIOVA_BLOCK_MDSVC_GET_CHUNKS_LIMIT=" <> H.getenv niova_mdsvc_chunk_limit)
      ∷ []

  -- The loop of `waitForByUUIDLink`, with this many rounds at most.
  unfoldable pub wait_loop : ℕ → ℕ → String → Exec H.State String
  wait_loop zero deadline path h = crash still_running h
  wait_loop (suc rounds) deadline path h =
      let again = wait_loop rounds deadline path in
      if ltb (H.now h) deadline
      then attempt (call H (H.lstat path)) (λ _. do modify (H.sleep 500); again) (λ _. pure path) h
      else raise
          (status deadline_exceeded (
            "timed out waiting for udev symlink " <> path
            <> " (is 61-niova-ublk.rules installed on the node?)"))
          h

  -- 30 seconds, in rounds of half a second.
  abbrev pub wait_rounds : ℕ
  wait_rounds = 61

  unfoldable pub wait_for_by_uuid_link : String → Exec H.State String
  wait_for_by_uuid_link volume_id h =
      wait_loop wait_rounds (H.now h + 30000) (ublk_by_uuid_path volume_id) h

  unfoldable pub create_ublk_device : String → String → Bool → Bool → Exec Ublk (String × ℕ)
  unfolding ublk_env
  create_ublk_device volume_id volume_size recovery read_only = do
    modify (λ u. record u { manager = get_binary_path u.manager })
    m ← gets (λ u. u.manager)
    attempt
        (on_host (
          start_ublk_unit H volume_id m.ublk_binary
            (ublk_args volume_id m.client_id recovery read_only) (ublk_env m) "/var/niova"))
        (λ e. raise (status internal ("failed to start ublk: " <> error_text e)))
        (λ pid.
          attempt (on_host (wait_for_by_uuid_link volume_id))
            (λ e. do on_host (ignoring H (stop_ublk_unit H volume_id)); raise e)
            (λ path. pure (path, pid)))

  unfoldable pub resolve_ublk_id : String → Exec H.State String
  resolve_ublk_id path = do
    resolved ← call H (H.eval_symlinks path)
    if has_prefix (base resolved) "ublkb"
        then pure (trim_prefix (base resolved) "ublkb")
        else raise (
            plain (
              "unexpected ublk device name \""
              <> base resolved
              <> "\" resolved from \""
              <> path
              <> "\""))

  unfoldable pub delete_ublk_device : String → String → Exec Ublk (Unit {0})
  delete_ublk_device volume_id path = do
    id ←
        (if path == ""
          then pure ""
          else attempt (on_host (resolve_ublk_id path))
              (λ e.
                raise (plain ("failed to resolve ublk id for " <> path <> ": " <> error_text e)))
              pure)
    attempt (on_host (stop_ublk_unit H volume_id))
        (λ e. raise (plain ("failed to delete ublk device: " <> error_text e)))
        (λ _.
          if id == ""
          then pure tt
          else attempt (on_host (run_host_command H volume_id "ublk" ("del" ∷ "-n" ∷ id ∷ [])))
              (λ e. raise (plain ("failed to delete ublk " <> path <> ": " <> error_text e))) pure)
