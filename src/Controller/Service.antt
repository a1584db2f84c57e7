-- ===== src/Controller/Service.antt =====
-- The controller service as its clients meet it: any history of calls, one after the other.
use niova_block_csi.Prelude.{◌≡◌, String, arith}
use niova_block_csi.Prelude.Int.{ℤ}
use niova_block_csi.Go.Exec.{Exec, ◌>>=◌, pure}
use niova_block_csi.Go.Mutex.{unlocked, lock, unlock}
use niova_block_csi.Config.Plane.{Plane}
use niova_block_csi.Config.Manager.{Manager}
use niova_block_csi.Config.Retry.{Settles}
use niova_block_csi.Config.Locks.{
  get_volume-keeps, get_volume_by_name-keeps, list_volumes-keeps, remove_volume-keeps,
  node_exists-keeps, alloc_vdev-keeps,
}
use niova_block_csi.Csi.{
  CreateVolumeRequest, ControllerPublishRequest, ValidateRequest, ListVolumesRequest,
}
use niova_block_csi.Controller.Server
use niova_block_csi.Controller.Server.{
  create_volume, create_new, return_existing, delete_volume, controller_publish_volume,
  controller_unpublish_volume, validate_volume_capabilities,
}

-- The methods of the service.
pub data Call : Type 0 where
  create : CreateVolumeRequest → Call
  delete publish_off : String → Call
  publish : ControllerPublishRequest → Call
  validate : ValidateRequest → Call
  list : ListVolumesRequest → Call
  capacity capabilities : Call
  make_snapshot drop_snapshot show_snapshots expand show : Call

module _ (P : Plane) where
  -- A call, with its answer left out.
  unfoldable pub serve : Call → Exec (Manager P) (Unit {0})
  serve (create req) = create_volume P req >>= λ _. pure tt
  serve (delete id) = delete_volume P id
  serve (publish req) = controller_publish_volume P req >>= λ _. pure tt
  serve (publish_off id) = controller_unpublish_volume P id
  serve (validate req) = validate_volume_capabilities P req >>= λ _. pure tt
  serve (list req) = Server.list_volumes P req >>= λ _. pure tt
  serve capacity = Server.get_capacity P >>= λ _. pure tt
  serve capabilities = Server.controller_get_capabilities P >>= λ _. pure tt
  serve make_snapshot = Server.create_snapshot P
  serve drop_snapshot = Server.delete_snapshot P
  serve show_snapshots = Server.list_snapshots P
  serve expand = Server.controller_expand_volume P
  serve show = Server.controller_get_volume P

  -- From a free mutex the call comes back, and the mutex is free again.
  abbrev pub Releases : {A : Type 0} → Exec (Manager P) A → Type 0
  Releases h = (m : Manager P) → m.mutex ≡ unlocked → Settles (h m).0 × ((h m).1.mutex ≡ unlocked)

  create_new-Releases : (req : CreateVolumeRequest) (size : ℤ) → Releases (create_new P req size)
  unfolding create_new
  create_new-Releases req size m free = grind (arith, alloc_vdev-keeps P m)

  pub create_volume-Releases : (req : CreateVolumeRequest) → Releases (create_volume P req)
  unfolding create_volume return_existing
  create_volume-Releases req m free =
      grind (arith, get_volume_by_name-keeps P m req.name, create_new-Releases req)

  delete_volume-Releases : (id : String) → Releases (delete_volume P id)
  unfolding delete_volume lock unlock
  delete_volume-Releases id m free = grind (arith, get_volume-keeps P, remove_volume-keeps P)

  publish-Releases : (req : ControllerPublishRequest) → Releases (controller_publish_volume P req)
  unfolding controller_publish_volume lock unlock
  publish-Releases req m free = grind (arith, node_exists-keeps P, get_volume-keeps P)

  unpublish-Releases : (id : String) → Releases (controller_unpublish_volume P id)
  unfolding controller_unpublish_volume lock unlock
  unpublish-Releases id m free = grind (arith, get_volume-keeps P)

  validate-Releases : (req : ValidateRequest) → Releases (validate_volume_capabilities P req)
  unfolding validate_volume_capabilities lock unlock
  validate-Releases req m free = grind (arith, get_volume-keeps P)

  list-Releases : (req : ListVolumesRequest) → Releases (Server.list_volumes P req)
  unfolding Server.list_volumes
  list-Releases req m free = grind (arith, list_volumes-keeps P m)

  -- Each method, called while the mutex is free, comes back to its caller, with a value or an error:
  -- it never waits for a lock that it holds itself and never dereferences nil. The mutex is free
  -- again afterwards, on every way out.
  pub serve-Releases :
      (c : Call) (m : Manager P)
      → m.mutex ≡ unlocked
      → Settles (serve c m).0 × ((serve c m).1.mutex ≡ unlocked)
  unfolding serve Server.get_capacity Server.controller_get_capabilities Server.create_snapshot
      Server.delete_snapshot Server.list_snapshots Server.controller_expand_volume
      Server.controller_get_volume
  serve-Releases (create req) m free = ground (arith, create_volume-Releases req m free)
  serve-Releases (delete id) m free = delete_volume-Releases id m free
  serve-Releases (publish req) m free = ground (arith, publish-Releases req m free)
  serve-Releases (publish_off id) m free = unpublish-Releases id m free
  serve-Releases (validate req) m free = ground (arith, validate-Releases req m free)
  serve-Releases (list req) m free = ground (arith, list-Releases req m free)
  serve-Releases _ m free = (tt, free)
