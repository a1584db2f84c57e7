-- ===== src/Tests/Config.antt =====
-- The login again after a token has expired, and its theorems, on the control plane in memory.
use niova_block_csi.Prelude.{◌+◌, ◌*◌, ◌≤◌, ◌≡◌, refl, ap, false, [], ◌∷◌, arith}
use niova_block_csi.Prelude.Int.{pos}
use niova_block_csi.Go.Error.{is_token_expired, error_text}
use niova_block_csi.Go.Exec.{Reply, ok, returned, failed}
use niova_block_csi.Go.Text.{contains}
use niova_block_csi.Go.Mutex.{unlocked}
use niova_block_csi.Go.Strconv.{parse_int, format_int}
use niova_block_csi.Go.Strconv.RoundTrip.{parse_int-format_int}
use niova_block_csi.Prelude.Int.{negsuc}
use niova_block_csi.Types.{max_retry}
use niova_block_csi.Config.Plane.{VdevConfig}
use niova_block_csi.Config.Manager.{
  Manager, call, blames_token, user_login, verify_token_expiry_and_relogin, retry_auth, get_volume,
  parse_fd_type,
}
use niova_block_csi.Config.Plane.{ResponseXml, fd_hv, fd_any, fd_rack}
use niova_block_csi.Config.Retry.{retry_auth-ok, retry_auth-bound}
use niova_block_csi.Config.Lawful.{resolve, names, vdev_not_found}
use niova_block_csi.Config.Operations.{get_volume_lem, looked_up, vdevs_of}
use niova_block_csi.Go.Text.{trim_space, lower_equals}
use niova_block_csi.Tests.Memory.{Memory, memory, is_id, memory-IsLawful, memory-LogsIn}

abbrev pub first : VdevConfig
first = record { id = "vdev-0"; name = "pvc-1"; size = pos 4096; data_blk_cnt = pos 1; pfs_id = "" }

-- One volume, and a token that is no longer valid.
abbrev pub stale : Manager memory
stale = record {
  plane = record { vdevs = first ∷ []; token = "old"; valid = "new"; serial = 1 };
  usertoken = "old";
  mutex = unlocked;
}

abbrev pub renewed : Manager memory
renewed = record stale {
  plane = record { vdevs = first ∷ []; token = "new"; valid = "new"; serial = 1 };
  usertoken = "new";
}

lookup_by_name : get_volume memory "pvc-1" stale ≡ (ok first, renewed)
unfolding get_volume retry_auth verify_token_expiry_and_relogin user_login blames_token
    is_token_expired resolve names is_id
lookup_by_name = refl

failure_domains :
    (parse_fd_type " HV\n" ≡ fd_hv)
    × (parse_fd_type "Rack" ≡ fd_rack)
    × (parse_fd_type "zone" ≡ fd_any)
unfolding parse_fd_type trim_space lower_equals
failure_domains = (refl, refl, refl)

abbrev get_first : Memory → Reply VdevConfig × Memory
get_first = memory.get_vdev_config (record { id = "pvc-1"; get_all = false })

retried : retry_auth memory (call memory get_first) stale ≡ (ok first, renewed)
unfolding retry_auth verify_token_expiry_and_relogin user_login blames_token is_token_expired
    resolve names is_id
retried = refl

retry_auth-ok_example :
    (s : Memory) × (get_first s
      ≡ (returned first, (retry_auth memory (call memory get_first) stale).1.plane))
retry_auth-ok_example = retry_auth-ok memory get_first stale first (ap (λ r. r.0) retried)

abbrev get_unknown : Memory → Reply VdevConfig × Memory
get_unknown = memory.get_vdev_config (record { id = "pvc-2"; get_all = false })

unknown_fails : get_unknown renewed.plane ≡ (failed vdev_not_found, renewed.plane)
unfolding resolve names is_id
unknown_fails = refl

not_the_token : blames_token vdev_not_found ≡ false
unfolding blames_token is_token_expired contains error_text
not_the_token = refl

-- A new volume, of which each call that goes through raises the serial number.
abbrev create_one : Memory → Reply ResponseXml × Memory
create_one =
    memory.create_vdev (record { vdev = first; filter = record { id = ""; kind = fd_any } })

raises_by_one : (s : Memory) → (create_one s).1.serial ≤ s.serial + 1
raises_by_one s = grind arith

retry_auth-bound_example :
    (retry_auth memory (call memory create_one) stale).1.plane.serial ≤ 1 + max_retry * (1 + 0)
retry_auth-bound_example =
    retry_auth-bound memory create_one (λ s. s.serial) 1 0 raises_by_one (λ s. omega arith)
      (λ t s. omega arith) stale

get_volume_lem_example :
    ((get_volume memory "pvc-1" stale).0 ≡ looked_up (resolve is_id "pvc-1" (first ∷ [])))
    × (vdevs_of memory-IsLawful (get_volume memory "pvc-1" stale).1 ≡ first ∷ [])
get_volume_lem_example = get_volume_lem memory memory-IsLawful memory-LogsIn "pvc-1" stale

parse_int-format_int_example : parse_int (format_int (negsuc 41)) ≡ returned (negsuc 41)
parse_int-format_int_example = parse_int-format_int (negsuc 41) (omega arith)
