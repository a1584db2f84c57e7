-- ===== src/Controller/Server.antt =====
-- `ControllerServer` of pkg/controller/controller.go: the handlers of the CSI controller service.
use mathlib.Core.List.{head?}
use niova_block_csi.Prelude.{
  ◌*◌, String, ◌<>◌, ◌&&◌, not, List, [], ◌∷◌, map, Option, none, some, ◌==◌, if◌then◌else◌,
}
use niova_block_csi.Prelude.Dict.{Dict, get_text}
use niova_block_csi.Prelude.Int.{ℤ, pos, eq_ℤ, is_negative}
use niova_block_csi.Go.Error.{
  Error, error_text, status, invalid_argument, not_found, already_exists, resource_exhausted,
  aborted, unimplemented, internal,
}
use niova_block_csi.Go.Exec.{
  Reply, returned, failed, Exec, pure, raise, attempt, finally, reject_if, or_reject, ◌>>=◌, ◌>>◌,
}
use niova_block_csi.Go.Mutex.{lock, unlock}
use niova_block_csi.Go.Strconv.{atoi, format_int}
use niova_block_csi.Types.{failure_domain, entity_id, pfs_id, ublk_recovery}
use niova_block_csi.Config.Plane.{VdevConfig, Plane}
use niova_block_csi.Config.Manager.{
  Manager, on_mutex, node_exists, alloc_vdev, remove_volume, get_volume, get_volume_by_name,
  list_volumes as plane_volumes,
}
use niova_block_csi.Csi
use niova_block_csi.Csi.{
  VolumeCapability, is_block, is_mount, Volume, CreateVolumeRequest, ControllerPublishRequest,
  ValidateRequest, ListVolumesRequest, ListVolumesResponse, ControllerRpc,
}

-- `NewControllerServer`: the capabilities that it lists.
unfoldable pub controller_caps : List ControllerRpc
controller_caps =
    Csi.create_delete_volume ∷ Csi.publish_unpublish_volume ∷ Csi.list_volumes ∷ Csi.get_capacity
    ∷ []

abbrev pub default_size : ℤ
default_size = pos (1024 * 1024 * 1024)

-- The size that a request asks for; 1 GB if it asks for 0.
unfoldable pub size_or_default : ℤ → ℤ
size_or_default n = if eq_ℤ n (pos 0) then default_size else n

invalid : String → Error
invalid text = status invalid_argument text

unsupported : {S A : Type 0} → String → Exec S A
unsupported method = raise (status unimplemented (method <> " is not implemented"))

bad_token : String → Error
bad_token token = status aborted ("invalid starting_token: " <> token)

token_number : String → Reply ℤ → Reply ℤ
unfolding bad_token
token_number token (failed e) = failed (bad_token token)
token_number token (returned n) = if is_negative n then failed (bad_token token) else returned n

-- The start that `ListVolumes` reads from a token.
unfoldable pub starting_token : String → Reply ℤ
unfolding token_number
starting_token token = if token == "" then returned (pos 0) else token_number token (atoi token)

unfoldable pub entry_of : VdevConfig → Volume
entry_of v = record { volume_id = v.id; capacity_bytes = v.size; volume_context = [] }

-- The loop of `ValidateVolumeCapabilities` over the requested capabilities.
unfoldable pub confirmation :
    List VolumeCapability → List VolumeCapability → Option (List VolumeCapability)
confirmation requested [] = some requested
confirmation requested (cap ∷ caps) =
    let rest = confirmation requested caps in
    if is_block cap.access_type then none else if is_mount cap.access_type then none else rest

module _ (P : Plane) where
  -- The end of `CreateVolume`, for a name that the lookup did not find.
  unfoldable pub create_new : CreateVolumeRequest → ℤ → Exec (Manager P) Volume
  create_new req size =
      let p = req.parameters in
      attempt
        (alloc_vdev P req.name size (get_text failure_domain p) (get_text entity_id p)
          (get_text pfs_id p))
        (λ e. raise (status resource_exhausted (error_text e)))
        (λ volume_id. pure (record {
          volume_id = volume_id;
          capacity_bytes = size;
          volume_context = (ublk_recovery, get_text ublk_recovery p) ∷ [];
        }))

  -- The end of `CreateVolume`, for a name that the lookup found.
  unfoldable pub return_existing : String → ℤ → VdevConfig → Exec (Manager P) Volume
  return_existing name size existing =
      if eq_ℤ existing.size size
      then pure
          (record { volume_id = existing.id; capacity_bytes = existing.size; volume_context = [] })
      else raise
          (status already_exists ("volume " <> name <> " already exists with a different capacity"))

  unfoldable pub create_volume : CreateVolumeRequest → Exec (Manager P) Volume
  unfolding invalid size_or_default
  create_volume req = do
    reject_if (req.name == "") (invalid "Volume name cannot be empty")
    range ← or_reject req.capacity_range (invalid "Capacity range cannot be empty")
    cap ← or_reject (head? req.volume_capabilities) (invalid "VolumeCapabilities missing")
    reject_if (not (is_mount cap.access_type) && not (is_block cap.access_type))
        (invalid "Unsupported volume capability")
    attempt (get_volume_by_name P req.name)
        (λ _. create_new req (size_or_default range.required_bytes))
        (return_existing req.name (size_or_default range.required_bytes))

  unfoldable pub delete_volume : String → Exec (Manager P) (Unit {0})
  unfolding invalid
  delete_volume volume_id = do
    on_mutex P lock
    finally (on_mutex P unlock) (do
      reject_if (volume_id == "") (invalid "Volume ID cannot be empty")
      attempt (get_volume P volume_id) (λ _. pure tt)
          (λ vol.
            attempt (remove_volume P volume_id)
              (λ e. raise (status internal ("Failed to delete volume: " <> error_text e)))
              (λ _. pure tt)))

  unfoldable pub controller_publish_volume :
      ControllerPublishRequest → Exec (Manager P) (Dict String)
  unfolding invalid
  controller_publish_volume req = do
    reject_if (req.volume_id == "") (invalid "Volume ID cannot be empty")
    reject_if (req.node_id == "") (invalid "Node ID cannot be empty")
    cap ← or_reject req.volume_capability (invalid "Volume capability cannot be empty")
    attempt (node_exists P req.node_id)
        (λ e.
          raise (status internal ("failed to check node " <> req.node_id <> ": " <> error_text e)))
        (λ exists. do
          reject_if (not exists) (status not_found ("node " <> req.node_id <> " not found"))
          on_mutex P lock
          attempt (get_volume P req.volume_id)
              (λ e. do
                on_mutex P unlock
                raise (status not_found ("Volume " <> req.volume_id <> " not found")))
              (λ vol. do
                on_mutex P unlock
                pure (("volumeID", req.volume_id) ∷ ("volumeSize", format_int vol.size) ∷ [])))

  unfoldable pub controller_unpublish_volume : String → Exec (Manager P) (Unit {0})
  unfolding invalid
  controller_unpublish_volume volume_id = do
    reject_if (volume_id == "") (invalid "Volume ID cannot be empty")
    on_mutex P lock
    attempt (get_volume P volume_id) (λ _. do on_mutex P unlock; pure tt)
        (λ vol. do on_mutex P unlock; pure tt)

  -- The field `Confirmed` of the response, nil where the handler leaves it out.
  unfoldable pub validate_volume_capabilities :
      ValidateRequest → Exec (Manager P) (Option (List VolumeCapability))
  unfolding invalid
  validate_volume_capabilities req = do
    reject_if (req.volume_id == "") (invalid "Volume ID cannot be empty")
    first ←
        or_reject (head? req.volume_capabilities) (invalid "Volume capabilities cannot be empty")
    on_mutex P lock
    attempt (get_volume P req.volume_id)
        (λ e. do
          on_mutex P unlock
          raise (status not_found ("Volume " <> req.volume_id <> " not found")))
        (λ _. do
          on_mutex P unlock
          pure (confirmation req.volume_capabilities req.volume_capabilities))

  unfoldable pub list_volumes : ListVolumesRequest → Exec (Manager P) ListVolumesResponse
  unfolding entry_of
  list_volumes req = elim (starting_token req.starting_token) [
    | failed e ↦ raise e
    | returned start ↦
        attempt (plane_volumes P)
          (λ e. raise (status internal ("Failed to list volumes: " <> error_text e)))
          (λ vols. pure (record { entries = map entry_of vols; next_token = "" }))
  ]

  -- The available capacity.
  unfoldable pub get_capacity : Exec (Manager P) ℤ
  get_capacity = pure (pos 0)

  unfoldable pub controller_get_capabilities : Exec (Manager P) (List ControllerRpc)
  controller_get_capabilities = pure controller_caps

  unfoldable pub create_snapshot : Exec (Manager P) (Unit {0})
  unfolding unsupported
  create_snapshot = unsupported "CreateSnapshot"

  unfoldable pub delete_snapshot : Exec (Manager P) (Unit {0})
  unfolding unsupported
  delete_snapshot = unsupported "DeleteSnapshot"

  unfoldable pub list_snapshots : Exec (Manager P) (Unit {0})
  unfolding unsupported
  list_snapshots = unsupported "ListSnapshots"

  unfoldable pub controller_expand_volume : Exec (Manager P) (Unit {0})
  unfolding unsupported
  controller_expand_volume = unsupported "ControllerExpandVolume"

  unfoldable pub controller_get_volume : Exec (Manager P) (Unit {0})
  unfolding unsupported
  controller_get_volume = unsupported "ControllerGetVolume"
