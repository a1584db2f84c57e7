-- ===== src/Tests/Controller.antt =====
-- Runs of the controller service, and its theorems, on the control plane in memory.
use mathlib.Core.Path.{subst}
use mathlib.Core.Option.{some-injective}
use niova_block_csi.Prelude.{
  eq_iff, ◌≡◌, ◌≢◌, refl, String, true, false, [], ◌∷◌, List, arith, some, none, Option,
  if◌then◌else◌,
}
use niova_block_csi.Prelude.Dict.{Dict, get_text, lookup}
use niova_block_csi.Prelude.Int.{pos, IsInt64}
use niova_block_csi.Go.Error.{plain, is_token_expired, error_text}
use niova_block_csi.Go.Exec.{ok, returned, failed}
use niova_block_csi.Go.Text.{contains}
use niova_block_csi.Go.Mutex.{unlocked, lock, unlock, r_lock, r_unlock}
use niova_block_csi.Go.Strconv.{parse_int, format_int, atoi}
use niova_block_csi.Config.Plane.{VdevConfig, Plane}
use niova_block_csi.Config.Manager.{
  Manager, blames_token, user_login, verify_token_expiry_and_relogin, retry_auth, get_volume,
  get_volume_by_name, remove_volume, alloc_vdev, node_exists,
}
use niova_block_csi.Config.Lawful.{resolve, names}
use niova_block_csi.Config.Operations.{vdevs_of}
use niova_block_csi.Config.Retry.{Settles}
use niova_block_csi.Csi
use niova_block_csi.Csi.{
  VolumeCapability, Volume, CreateVolumeRequest, ControllerPublishRequest, ValidateRequest,
  ListVolumesRequest, ListVolumesResponse,
}
use niova_block_csi.Controller.Server
use niova_block_csi.Controller.Server.{
  create_volume, create_new, return_existing, size_or_default, delete_volume,
  controller_publish_volume, validate_volume_capabilities, confirmation, starting_token, entry_of,
}
use niova_block_csi.Controller.Service.{Call, create, delete, serve, serve-Releases}
use niova_block_csi.Controller.Create.{IsValid, Outcome, create_volume-Outcome}
use niova_block_csi.Controller.Idempotent.{create_volume-twice, Answers}
use niova_block_csi.Controller.Delete.{delete_volume-lookup_error, delete_volume_lem}
use niova_block_csi.Controller.Publish.{
  controller_publish_volume_lem, validate_volume_capabilities_lem, any_supported,
  list_volumes-entries, Lists,
}
use niova_block_csi.Controller.Names.{DistinctNames}
use niova_block_csi.Controller.History.{serve_all, serve_all-DistinctNames}
use niova_block_csi.Tests.Config.{first, stale}
use niova_block_csi.Tests.Memory.{
  memory, is_id, memory-IsLawful as lawful, memory-LogsIn as logs_in,
}

abbrev block_writer : VolumeCapability
block_writer = record { access_type = Csi.block; access_mode = some Csi.single_node_writer }

abbrev wants : CreateVolumeRequest
wants = record {
  name = "pvc-2";
  capacity_range = some (record { required_bytes = pos 0; limit_bytes = pos 0 });
  volume_capabilities = block_writer ∷ [];
  parameters = ("ublkrecovery", "true") ∷ [];
}

abbrev made : Volume
made = record {
  volume_id = "vdev-1";
  capacity_bytes = pos 1073741824;
  volume_context = ("ublkrecovery", "true") ∷ [];
}

abbrev wants-IsValid : IsValid wants
wants-IsValid = record {
  named = refl;
  range = record { required_bytes = pos 0; limit_bytes = pos 0 };
  has_range = refl;
  cap = block_writer;
  has_cap = refl;
  supported = refl;
}

creates : (create_volume memory wants stale).0 ≡ ok made
unfolding create_volume create_new get_volume_by_name get_volume alloc_vdev retry_auth
    verify_token_expiry_and_relogin user_login blames_token is_token_expired resolve names is_id
    r_lock r_unlock get_text lookup format_int contains error_text
creates = refl

create_volume-Outcome_example :
    Outcome is_id wants
      (pos 1073741824)
      (first ∷ [])
      (vdevs_of lawful (create_volume memory wants stale).1)
      (create_volume memory wants stale).0
unfolding size_or_default
create_volume-Outcome_example = create_volume-Outcome memory lawful logs_in wants-IsValid stale refl

plain_name : is_id "pvc-2" ≡ false
unfolding is_id
plain_name = refl

-- What the first call left, under a token that has expired since.
abbrev expired_since : Manager memory
expired_since =
    let m1 = (create_volume memory wants stale).1 in
    record m1 { plane = record m1.plane { token = "" }; mutex = unlocked }

create_volume-twice_example :
    (pos 1073741824 ≡ pos 1073741824)
    × Answers (create_volume memory wants expired_since).0 "vdev-1" (pos 1073741824)
    × (vdevs_of lawful (create_volume memory wants expired_since).1 ≡ vdevs_of lawful expired_since)
create_volume-twice_example =
    create_volume-twice memory lawful logs_in wants-IsValid stale expired_since refl refl plain_name
      made creates refl

serve-Releases_example :
    Settles (serve memory (create wants) stale).0
    × ((serve memory (create wants) stale).1.mutex ≡ unlocked)
serve-Releases_example = serve-Releases memory (create wants) stale refl

abbrev calls : List Call
calls = create wants ∷ delete "vdev-0" ∷ []

serve_all-DistinctNames_example :
    DistinctNames (vdevs_of lawful (serve_all memory calls stale))
    × ((serve_all memory calls stale).mutex ≡ unlocked)
serve_all-DistinctNames_example =
    serve_all-DistinctNames memory lawful logs_in calls stale (plain_name, (tt, tt)) refl (tt, tt)

abbrev broken : Plane
broken = record memory { get_vdev_config = λ req s. (failed (plain "connection refused"), s) }

broken_stale : Manager broken
broken_stale = record { plane = stale.plane; usertoken = "old"; mutex = unlocked }

refused_connection : blames_token (plain "connection refused") ≡ false
unfolding blames_token is_token_expired contains error_text
refused_connection = refl

delete_volume-lookup_error_example :
    delete_volume broken "vdev-0" broken_stale
    ≡ (ok tt, record broken_stale { plane = stale.plane })
unfolding broken_stale
delete_volume-lookup_error_example =
    delete_volume-lookup_error broken "vdev-0" broken_stale refl refl (plain "connection refused")
      stale.plane refl refused_connection

deletes : (delete_volume memory "vdev-0" stale).0 ≡ ok tt
unfolding delete_volume get_volume remove_volume retry_auth verify_token_expiry_and_relogin
    user_login blames_token is_token_expired resolve names is_id lock unlock
deletes = refl

id_is_uuid : is_id "vdev-0" ≡ true
unfolding is_id
id_is_uuid = refl

other_is_uuid : is_id "vdev-7" ≡ true
unfolding is_id
other_is_uuid = refl

other_id : ◌≢◌ {A = String} "vdev-7" "vdev-0"
other_id e = ground (arith, (eq_iff "vdev-7" "vdev-0").1 e)

delete_volume_lem_example :
    (resolve is_id "vdev-0" (vdevs_of lawful (delete_volume memory "vdev-0" stale).1) ≡ none)
    × (resolve is_id "vdev-7" (vdevs_of lawful (delete_volume memory "vdev-0" stale).1)
        ≡ resolve is_id "vdev-7" (first ∷ []))
delete_volume_lem_example =
    delete_volume_lem memory lawful logs_in "vdev-0" stale refl refl id_is_uuid deletes "vdev-7"
      other_is_uuid other_id

abbrev pub to_node : ControllerPublishRequest
to_node = record { volume_id = "vdev-0"; node_id = "node-1"; volume_capability = some block_writer }

abbrev pub first_context : Dict String
first_context = ("volumeID", "vdev-0") ∷ ("volumeSize", "4096") ∷ []

pub publishes : (controller_publish_volume memory to_node stale).0 ≡ ok first_context
unfolding controller_publish_volume node_exists get_volume retry_auth
    verify_token_expiry_and_relogin user_login blames_token is_token_expired resolve names is_id
    lock unlock format_int
publishes = refl

pub all_fit : (v : VdevConfig) → resolve is_id "vdev-0" (first ∷ []) ≡ some v → IsInt64 v.size
unfolding resolve names is_id
all_fit v h = subst (λ w. IsInt64 w.size) (some-injective first v h) (omega arith)

controller_publish_volume_lem_example :
    (v : VdevConfig) × (resolve is_id "vdev-0" (first ∷ []) ≡ some v)
    × (get_text "volumeID" first_context ≡ "vdev-0")
    × (parse_int (get_text "volumeSize" first_context) ≡ returned v.size)
controller_publish_volume_lem_example =
    controller_publish_volume_lem memory lawful logs_in stale refl to_node first_context all_fit
      publishes

abbrev asks : ValidateRequest
asks = record { volume_id = "vdev-0"; volume_capabilities = block_writer ∷ [] }

validates : (validate_volume_capabilities memory asks stale).0 ≡ ok none
unfolding validate_volume_capabilities confirmation get_volume retry_auth
    verify_token_expiry_and_relogin user_login blames_token is_token_expired resolve names is_id
    lock unlock
validates = refl

validate_volume_capabilities_lem_example :
    ◌≡◌ {A = Option (List VolumeCapability)} none
      (if any_supported (block_writer ∷ []) then none else some (block_writer ∷ []))
validate_volume_capabilities_lem_example =
    validate_volume_capabilities_lem memory stale asks none validates

second_page : starting_token "1" ≡ returned (pos 1)
unfolding starting_token atoi
second_page = refl

list_volumes-entries_example :
    (answer : ListVolumesResponse) × ((Server.list_volumes memory
        (record { max_entries = pos 1; starting_token = "1" })
        stale).0
      ≡ ok answer)
    × Lists answer.entries (first ∷ [])
    × (answer.next_token ≡ "")
list_volumes-entries_example =
    list_volumes-entries memory lawful logs_in stale refl
      (record { max_entries = pos 1; starting_token = "1" }) (pos 1) second_page
