-- ===== src/Startup.antt =====
-- The start of the node plugin: `UpdateNodeVolumeMap` of pkg/config/config.go, which meets the control
-- plane on one side and the machine on the other.
pub mod Seed
pub mod Restart
use niova_block_csi.Prelude.{ℕ, String, List, [], ◌∷◌, Option, none, some}
use niova_block_csi.Prelude.Dict.{lookup}
use niova_block_csi.Go.Exec.{Exec, returned, failed, pure, raise, gets, attempt, ◌>>=◌, ◌>>◌}
use niova_block_csi.Types.{Uuid, NodeVolume, Node, empty_volume, ublk_by_uuid_path}
use niova_block_csi.Config.Plane.{VdevConfig, Plane}
use niova_block_csi.Config.Manager.{Manager, list_volumes}
use niova_block_csi.Node.Host.{Host}
use niova_block_csi.Node.Mount.{call}
use niova_block_csi.Node.State.{write, put_new}
use niova_block_csi.Node.Server.{NodeServer, on_host, on_node}

-- `nv, exists := node.VolMap[volID]; if !exists { … }`: the pointer `nv`, and the map behind it.
unfoldable pub ensure_entry : String → Node → ℕ × Node
ensure_entry id n = elim (lookup id n.vol_map) [
  | none ↦ (n.next, put_new id empty_volume n)
  | some p ↦ (p, n)
]

unfoldable pub set_vol_id : ℕ → Uuid → Node → Node
unfolding write
set_vol_id p uuid n = write p (record (n.heap p) { vol_id = uuid }) n

unfoldable pub set_ublk_path : ℕ → String → Node → Node
unfolding write
set_ublk_path p path n = write p (record (n.heap p) { ublk_path = path }) n

module _ (H : Host) where
  -- The two assignments to the fields of `nv`, with the return between them.
  unfoldable pub fill_entry : String → ℕ → Exec (NodeServer H) (Unit {0})
  unfolding set_vol_id set_ublk_path
  fill_entry id p = elim (H.parse_uuid id) [
    | failed e ↦ do on_node H (set_vol_id p (H.uuid_beside_error id)); raise e
    | returned uuid ↦ do
      on_node H (set_vol_id p uuid)
      on_node H (set_ublk_path p (ublk_by_uuid_path id))
  ]

  -- The body of the loop of `UpdateNodeVolumeMap`.
  unfoldable pub seed_one : VdevConfig → Exec (NodeServer H) (Unit {0})
  unfolding ensure_entry
  seed_one v =
      attempt (on_host H (call H (H.stat (ublk_by_uuid_path v.id)))) (λ e. pure tt)
        (λ is_dir. do
          p ← gets (λ s. (ensure_entry v.id s.node).0)
          on_node H (λ n. (ensure_entry v.id n).1)
          fill_entry v.id p)

  unfoldable pub seed : List VdevConfig → Exec (NodeServer H) (Unit {0})
  seed [] = pure tt
  seed (v ∷ more) = let rest = seed more in seed_one v >> rest

module _ (P : Plane) (H : Host) where
  -- The node plugin: its connection to the control plane, and its service.
  pub record Plugin : Type 0 where
    pub manager : Manager P
    pub server : NodeServer H

  abbrev pub on_manager : {A : Type 0} → Exec (Manager P) A → Exec Plugin A
  on_manager f s = let (r, m) = f s.manager in (r, record s { manager = m })

  abbrev pub on_server : {A : Type 0} → Exec (NodeServer H) A → Exec Plugin A
  on_server f s = let (r, n) = f s.server in (r, record s { server = n })

  unfoldable pub update_node_volume_map : Exec Plugin (Unit {0})
  update_node_volume_map = do vdevs ← on_manager (list_volumes P); on_server (seed H vdevs)
