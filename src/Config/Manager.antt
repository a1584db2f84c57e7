-- ===== src/Config/Manager.antt =====
-- `ConfigManager` of pkg/config/config.go: the calls of the control plane, with the login again when
-- a token has expired.
use niova_block_csi.Prelude.{
  ℕ, zero, suc, String, ◌<>◌, Bool, true, false, ◌||◌, List, if◌then◌else◌,
}
use niova_block_csi.Prelude.Int.{ℤ, pos}
use niova_block_csi.Go.Error.{Error, plain, wrapped, error_text, is_token_expired, is_api_not_found}
use niova_block_csi.Go.Exec.{
  Reply, to_result, Exec, pure, raise, modify, attempt, finally, ◌>>=◌, ◌>>◌,
}
use niova_block_csi.Go.Text.{contains, trim_space, lower_equals}
use niova_block_csi.Go.Strconv.{format_int}
use niova_block_csi.Go.Mutex.{RwMutex, r_lock, r_unlock}
use niova_block_csi.Types.{max_retry, niova_user_name, niova_user_secret}
use niova_block_csi.Config.Plane.{
  FailureDomain, fd_any, fd_pdu, fd_rack, fd_hv, fd_device, fd_partition, VdevConfig, Plane,
}

unfoldable pub parse_fd_type : String → FailureDomain
parse_fd_type s =
    let t = trim_space s in
    if lower_equals t "pdu"
    then fd_pdu
    else if lower_equals t "rack"
    then fd_rack
    else if lower_equals t "hv" || lower_equals t "hypervisor"
    then fd_hv
    else if lower_equals t "device"
    then fd_device
    else if lower_equals t "partition"
    then fd_partition
    else fd_any

-- The test of `VerifyTokenExpiryAndReLogin`.
unfoldable pub blames_token : Error → Bool
blames_token e =
    is_token_expired e
    || contains (error_text e) "expired"
    || contains (error_text e) "Invalid Token"

abbrev pub empty_vdev : VdevConfig
empty_vdev = record { id = ""; name = ""; size = pos 0; data_blk_cnt = pos 0; pfs_id = "" }

module _ (P : Plane) where
  -- The part of `ConfigManager` that changes, and the other side that its clients reach.
  pub record Manager : Type 0 where
    pub plane : P.State
    pub usertoken : String
    pub mutex : RwMutex

  -- A call of a client.
  abbrev pub call : {A : Type 0} → (P.State → Reply A × P.State) → Exec Manager A
  call f m = let (r, s) = f m.plane in (to_result r, record m { plane = s })

  abbrev pub on_mutex : Exec RwMutex (Unit {0}) → Exec Manager (Unit {0})
  on_mutex f m = let (r, x) = f m.mutex in (r, record m { mutex = x })

  unfoldable pub node_exists : String → Exec Manager Bool
  node_exists node_id =
      if P.has_k8s_client
      then attempt (call (P.get_node node_id))
          (λ e. if is_api_not_found e then pure false else raise e) (λ _. pure true)
      else raise (plain "k8s client is nil")

  unfoldable pub user_login : Exec Manager (Unit {0})
  user_login = do
    token ← call (P.login (P.getenv niova_user_name) (P.getenv niova_user_secret))
    modify (λ m. record m { usertoken = token; plane = P.set_token token m.plane })

  unfoldable pub verify_token_expiry_and_relogin : Error → Exec Manager (Unit {0})
  unfolding user_login
  verify_token_expiry_and_relogin e = if blames_token e then user_login else raise e

  -- The loop of `RetryAuth` with this many rounds left.
  unfoldable pub retry_loop : {A : Type 0} → ℕ → Exec Manager A → Exec Manager A
  retry_loop zero fn =
      raise (plain ("operation failed after " <> format_int (pos max_retry) <> " retries"))
  retry_loop (suc rounds) fn =
      let again = retry_loop rounds fn in
      attempt fn
        (λ e.
          attempt (verify_token_expiry_and_relogin e) (λ _. raise (wrapped "failed to relogin: " e))
            (λ _. again))
        pure

  unfoldable pub retry_auth : {A : Type 0} → Exec Manager A → Exec Manager A
  unfolding retry_loop
  retry_auth fn = retry_loop max_retry fn

  unfoldable pub alloc_vdev : String → ℤ → String → String → String → Exec Manager String
  alloc_vdev name required_size filter entity_id pfs = do
    on_mutex r_lock
    finally (on_mutex r_unlock) (do
      resp ← retry_auth (
          call (
            P.create_vdev (record {
              vdev = record {
                id = "";
                name = name;
                size = required_size;
                data_blk_cnt = pos 1;
                pfs_id = pfs;
              };
              filter = record { id = entity_id; kind = parse_fd_type filter };
            })))
      pure resp.id)

  unfoldable pub remove_volume : String → Exec Manager String
  remove_volume volume_id = do
    resp ← retry_auth (call (P.delete_vdev (record { id = volume_id })))
    pure resp.id

  unfoldable pub get_volume : String → Exec Manager VdevConfig
  get_volume volume_id =
      retry_auth (call (P.get_vdev_config (record { id = volume_id; get_all = false })))

  unfoldable pub get_volume_by_name : String → Exec Manager VdevConfig
  get_volume_by_name name = get_volume name

  unfoldable pub list_volumes : Exec Manager (List VdevConfig)
  list_volumes = retry_auth (call (P.get_vdev_configs (record { id = ""; get_all = true })))
