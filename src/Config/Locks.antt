-- ===== src/Config/Locks.antt =====
-- What the operations of the manager do with its mutex.
use niova_block_csi.Prelude.{◌≡◌, String, false, arith}
use niova_block_csi.Prelude.Int.{ℤ}
use niova_block_csi.Go.Mutex.{r_lock, r_unlock}
use niova_block_csi.Config.Plane.{Plane}
use niova_block_csi.Config.Retry.{Settles, retry_auth-keeps}
use niova_block_csi.Config.Manager.{
  Manager, node_exists, alloc_vdev, remove_volume, get_volume, get_volume_by_name, list_volumes,
}

module _ (P : Plane) (m : Manager P) where
  pub get_volume-keeps :
      (id : String) → Settles (get_volume P id m).0 × ((get_volume P id m).1.mutex ≡ m.mutex)
  unfolding get_volume
  get_volume-keeps id = retry_auth-keeps P _ m

  pub get_volume_by_name-keeps :
      (name : String)
      → Settles (get_volume_by_name P name m).0 × ((get_volume_by_name P name m).1.mutex ≡ m.mutex)
  unfolding get_volume_by_name
  get_volume_by_name-keeps name = get_volume-keeps name

  pub list_volumes-keeps : Settles (list_volumes P m).0 × ((list_volumes P m).1.mutex ≡ m.mutex)
  unfolding list_volumes
  list_volumes-keeps = retry_auth-keeps P _ m

  pub remove_volume-keeps :
      (id : String) → Settles (remove_volume P id m).0 × ((remove_volume P id m).1.mutex ≡ m.mutex)
  unfolding remove_volume
  remove_volume-keeps id = ground (arith, retry_auth-keeps P (P.delete_vdev (record { id = id })) m)

  pub node_exists-keeps :
      (id : String) → Settles (node_exists P id m).0 × ((node_exists P id m).1.mutex ≡ m.mutex)
  unfolding node_exists
  node_exists-keeps id = ground arith

-- `AllocVdev` takes the mutex for reading, which succeeds unless a writer holds it, and gives it back.
pub alloc_vdev-keeps :
    (P : Plane) (m : Manager P) (name : String) (size : ℤ) (filter entity pfs : String)
    → m.mutex.writing ≡ false
    → Settles (alloc_vdev P name size filter entity pfs m).0
      × ((alloc_vdev P name size filter entity pfs m).1.mutex ≡ m.mutex)
unfolding alloc_vdev r_lock r_unlock
alloc_vdev-keeps P m name size filter entity pfs free = grind (arith, retry_auth-keeps P)
