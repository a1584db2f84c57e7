-- ===== src/Controller/History.antt =====
-- What holds through any history of calls of the controller service.
use niova_block_csi.Prelude.{◌≡◌, String, false, List, arith, [], ◌∷◌, Bool-cases, inl, inr, ◌==◌}
use niova_block_csi.Go.Mutex.{unlocked, lock, unlock}
use niova_block_csi.Config.Plane.{Plane}
use niova_block_csi.Config.Manager.{Manager}
use niova_block_csi.Config.Lawful.{IsLawful, LogsIn}
use niova_block_csi.Config.Operations.{vdevs_of, get_volume_lem, list_volumes_lem}
use niova_block_csi.Csi.{ControllerPublishRequest, ValidateRequest, ListVolumesRequest}
use niova_block_csi.Controller.Server
use niova_block_csi.Controller.Server.{
  delete_volume, controller_publish_volume, controller_unpublish_volume,
  validate_volume_capabilities,
}
use niova_block_csi.Controller.Service.{
  Call, create, delete, publish_off, publish, validate, list, serve, serve-Releases,
}
use niova_block_csi.Controller.Names.{DistinctNames, DistinctNames-without_id}
use niova_block_csi.Controller.Delete
use niova_block_csi.Controller.Delete.{delete_volume-Outcome}
use niova_block_csi.Controller.Idempotent.{create_volume-DistinctNames}
use niova_block_csi.Controller.Publish.{node_exists-vdevs}

-- The state after the calls, one after the other.
unfoldable pub serve_all : (P : Plane) → List Call → Manager P → Manager P
serve_all P [] m = m
serve_all P (c ∷ cs) m = serve_all P cs (serve P c m).1

module _ (P : Plane) (L : IsLawful P) (logs_in : LogsIn P) where
  -- The names of new volumes are no UUIDs.
  abbrev pub PlainName : Call → Type 0
  PlainName (create req) = L.is_uuid req.name ≡ false
  PlainName _ = Unit

  abbrev pub PlainNames : List Call → Type 0
  PlainNames [] = Unit
  PlainNames (c ∷ cs) = PlainName c × PlainNames cs

  module _ (m : Manager P) (free : m.mutex ≡ unlocked) where
    delete_volume-DistinctNames :
        (id : String)
        → DistinctNames (vdevs_of L m)
        → DistinctNames (vdevs_of L (delete_volume P id m).1)
    unfolding delete_volume lock unlock
    delete_volume-DistinctNames id d = elim (Bool-cases (id == "")) [
      | inl none_given ↦ ground arith
      | inr named ↦ elim (delete_volume-Outcome P L logs_in id m named free) [
        | Delete.absent gone r same ↦ ground arith
        | Delete.removed v here r left ↦
            ground (arith, DistinctNames-without_id id (vdevs_of L m) d)
        | Delete.refused r same ↦ ground arith
      ]
    ]

    publish-vdevs :
        (req : ControllerPublishRequest)
        → vdevs_of L (controller_publish_volume P req m).1 ≡ vdevs_of L m
    unfolding controller_publish_volume lock unlock
    publish-vdevs req = grind (arith, node_exists-vdevs P L, get_volume_lem P L logs_in)

    unpublish-vdevs :
        (id : String) → vdevs_of L (controller_unpublish_volume P id m).1 ≡ vdevs_of L m
    unfolding controller_unpublish_volume lock unlock
    unpublish-vdevs id = grind (arith, get_volume_lem P L logs_in)

    validate-vdevs :
        (req : ValidateRequest) → vdevs_of L (validate_volume_capabilities P req m).1 ≡ vdevs_of L m
    unfolding validate_volume_capabilities lock unlock
    validate-vdevs req = grind (arith, get_volume_lem P L logs_in)

    list-vdevs :
        (req : ListVolumesRequest) → vdevs_of L (Server.list_volumes P req m).1 ≡ vdevs_of L m
    unfolding Server.list_volumes
    list-vdevs req = ground (arith, list_volumes_lem P L logs_in m)

    serve-DistinctNames :
        (c : Call)
        → PlainName c
        → DistinctNames (vdevs_of L m)
        → DistinctNames (vdevs_of L (serve P c m).1)
    unfolding serve Server.get_capacity Server.controller_get_capabilities Server.create_snapshot
        Server.delete_snapshot Server.list_snapshots Server.controller_expand_volume
        Server.controller_get_volume
    serve-DistinctNames (create req) u d =
        ground (arith, create_volume-DistinctNames P L logs_in req m free u d)
    serve-DistinctNames (delete id) u d = delete_volume-DistinctNames id d
    serve-DistinctNames (publish req) u d = ground (arith, publish-vdevs req)
    serve-DistinctNames (publish_off id) u d = ground (arith, unpublish-vdevs id)
    serve-DistinctNames (validate req) u d = ground (arith, validate-vdevs req)
    serve-DistinctNames (list req) u d = ground (arith, list-vdevs req)
    serve-DistinctNames _ u d = d

  -- On a lawful control plane, where a lookup under an accepted token only fails for what the key does
  -- not name, and to which the login succeeds: through any history of calls whose new volumes are not
  -- named by UUIDs, on a mutex that is free before, no two volumes come to have the same name if no two
  -- had it before, and the mutex is free between the calls.
  pub serve_all-DistinctNames :
      (cs : List Call) (m : Manager P)
      → PlainNames cs
      → m.mutex ≡ unlocked
      → DistinctNames (vdevs_of L m)
      → DistinctNames (vdevs_of L (serve_all P cs m)) × ((serve_all P cs m).mutex ≡ unlocked)
  unfolding serve_all
  serve_all-DistinctNames [] m u free d = (d, free)
  serve_all-DistinctNames (c ∷ cs) m u free d =
      serve_all-DistinctNames cs (serve P c m).1 u.1 (serve-Releases P c m free).1
        (serve-DistinctNames m free c u.0 d)
