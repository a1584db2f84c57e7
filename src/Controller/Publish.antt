-- ===== src/Controller/Publish.antt =====
-- `ControllerPublishVolume`, `ValidateVolumeCapabilities` and `ListVolumes` of
-- pkg/controller/controller.go over a lawful control plane.
use niova_block_csi.Prelude.{
  ◌≡◌, refl, String, Bool, true, false, List, Option, none, some, arith, inl, inr, ◌∷◌, [], map,
  ◌||◌, if◌then◌else◌, Option-cases,
}
use niova_block_csi.Prelude.Int.{ℤ, IsInt64}
use niova_block_csi.Prelude.Dict.{Dict, get_text, lookup}
use niova_block_csi.Go.Exec.{ok, returned}
use niova_block_csi.Go.Mutex.{lock, unlock, unlocked}
use niova_block_csi.Go.Strconv.{parse_int, format_int}
use niova_block_csi.Go.Strconv.RoundTrip.{parse_int-format_int}
use niova_block_csi.Config.Plane.{VdevConfig, Plane}
use niova_block_csi.Config.Manager.{Manager, node_exists}
use niova_block_csi.Config.Lawful.{IsLawful, LogsIn, resolve}
use niova_block_csi.Config.Operations.{vdevs_of, get_volume_lem, list_volumes_lem}
use niova_block_csi.Config.Locks.{node_exists-keeps}
use niova_block_csi.Csi.{
  VolumeCapability, is_block, is_mount, ControllerPublishRequest, ValidateRequest,
  ListVolumesRequest, ListVolumesResponse, Volume,
}
use niova_block_csi.Controller.Server
use niova_block_csi.Controller.Server.{
  controller_publish_volume, validate_volume_capabilities, confirmation, starting_token, entry_of,
}

-- `node_exists` leaves the vdevs alone.
pub node_exists-vdevs :
    (P : Plane) (L : IsLawful P) (id : String) (m : Manager P)
    → vdevs_of L (node_exists P id m).1 ≡ vdevs_of L m
unfolding node_exists
node_exists-vdevs P L id m = ground (arith, L.get_node_keeps id m.plane)

-- Some capability of the list asks for a block volume or a mounted one.
abbrev pub any_supported : List VolumeCapability → Bool
any_supported [] = false
any_supported (c ∷ cs) = is_block c.access_type || is_mount c.access_type || any_supported cs

confirmation_lem :
    (requested caps : List VolumeCapability)
    → confirmation requested caps ≡ (if any_supported caps then none else some requested)
unfolding confirmation
confirmation_lem requested [] = refl
confirmation_lem requested (c ∷ cs) = ground (arith, confirmation_lem requested cs)

-- A `ValidateVolumeCapabilities` that succeeds leaves `Confirmed` out exactly when some requested
-- capability is for a block volume or a mounted one, and confirms all of them otherwise.
pub validate_volume_capabilities_lem :
    (P : Plane) (m : Manager P) (req : ValidateRequest) (c : Option (List VolumeCapability))
    → (validate_volume_capabilities P req m).0 ≡ ok c
    → c ≡ (if any_supported req.volume_capabilities then none else some req.volume_capabilities)
unfolding validate_volume_capabilities lock unlock
validate_volume_capabilities_lem P m req c h =
    ground (arith, confirmation_lem req.volume_capabilities req.volume_capabilities)

-- The entries of an answer are the volumes of the control plane, one by one.
abbrev pub Lists : List Volume → List VdevConfig → Type 0
Lists [] [] = Unit
Lists (entry ∷ entries) (v ∷ vs) =
    (entry.volume_id ≡ v.id) × (entry.capacity_bytes ≡ v.size) × Lists entries vs
Lists _ _ = ⊥

entries-Lists : (vs : List VdevConfig) → Lists (map entry_of vs) vs
unfolding entry_of
entries-Lists [] = tt
entries-Lists (v ∷ vs) = (refl, refl, entries-Lists vs)

-- The publish context for a volume of this size.
abbrev context : String → ℤ → Dict String
context id size = ("volumeID", id) ∷ ("volumeSize", format_int size) ∷ []

module _ (P : Plane) (L : IsLawful P) (logs_in : LogsIn P) (m : Manager P)
    (free : m.mutex ≡ unlocked) where
  -- On a lawful control plane to which the login succeeds, and whose sizes fit in 64 bits, with the mutex
  -- free: a `ControllerPublishVolume` that succeeds names a volume that the control plane knows, and its
  -- publish context holds the ID of the request and a size that `ParseInt` reads as the volume's.
  pub controller_publish_volume_lem :
      (req : ControllerPublishRequest) (ctx : Dict String)
      → ((v : VdevConfig)
          → resolve L.is_uuid req.volume_id (vdevs_of L m) ≡ some v
          → IsInt64 v.size)
      → (controller_publish_volume P req m).0 ≡ ok ctx
      → (v : VdevConfig) × (resolve L.is_uuid req.volume_id (vdevs_of L m) ≡ some v)
        × (get_text "volumeID" ctx ≡ req.volume_id)
        × (parse_int (get_text "volumeSize" ctx) ≡ returned v.size)
  unfolding controller_publish_volume lock unlock get_text lookup
  controller_publish_volume_lem req ctx fits h =
      let n = node_exists P req.node_id m in
      let start : Manager P = record n.1 { mutex = record { readers = 0; writing = true } } in
      let quiet = node_exists-keeps P m req.node_id in
      let same = node_exists-vdevs P L req.node_id m in
      let looked = get_volume_lem P L logs_in req.volume_id start in
      elim (Option-cases (resolve L.is_uuid req.volume_id (vdevs_of L m))) [
        | inl gone ↦ absurd (ground arith)
        | inr (v, here) ↦
            let e : ctx ≡ context req.volume_id v.size = ground arith in
            (v, here, rw e, rw e (parse_int-format_int v.size (fits v here)))
      ]

  -- On a lawful control plane to which the login succeeds, and on a free mutex: `ListVolumes` with a
  -- starting token that it accepts gives one entry for each volume, with its ID and its size, in the
  -- order of the control plane, and no next token. The token is checked, and changes nothing in the
  -- answer.
  pub list_volumes-entries :
      (req : ListVolumesRequest) (start : ℤ)
      → starting_token req.starting_token ≡ returned start
      → (answer : ListVolumesResponse) × ((Server.list_volumes P req m).0 ≡ ok answer)
        × Lists answer.entries (vdevs_of L m)
        × (answer.next_token ≡ "")
  unfolding Server.list_volumes
  list_volumes-entries req start h = (
    record { entries = map entry_of (vdevs_of L m); next_token = "" },
    ground (arith, list_volumes_lem P L logs_in m),
    entries-Lists (vdevs_of L m),
    refl,
  )
