-- ===== src/Startup/Restart.antt =====
-- The node plugin after a restart: what `UpdateNodeVolumeMap` of pkg/config/config.go makes of a machine
-- on which devices run already, and how pkg/node/node.go goes on from there.
use mathlib.Core.Path.{subst}
use niova_block_csi.Prelude.{
  String, ◌≡◌, refl, sym, ◌∙◌, Bool, true, false, List, [], ◌∷◌, ◌&&◌, ◌||◌, not, none, some, ◌==◌,
  arith, eq_refl, if◌then◌else◌,
}
use niova_block_csi.Prelude.Dict.{get_text}
use niova_block_csi.Prelude.Int.{ℤ}
use niova_block_csi.Go.Error.{Error}
use niova_block_csi.Go.Exec.{Reply, ok, err, returned, failed}
use niova_block_csi.Go.Mutex.{unlocked}
use niova_block_csi.Go.Strconv.{parse_int}
use niova_block_csi.Types.{empty_volume}
use niova_block_csi.Csi.{AccessMode, VolumeCapability, NodeStageRequest}
use niova_block_csi.Config.Plane.{VdevConfig, Plane}
use niova_block_csi.Config.Lawful.{IsLawful, LogsIn}
use niova_block_csi.Config.Operations.{vdevs_of, list_volumes_lem}
use niova_block_csi.Node.Host.{Host}
use niova_block_csi.Node.State.{entry, is_staged}
use niova_block_csi.Node.State.Laws.{IsWf}
use niova_block_csi.Node.Server.{NodeServer}
use niova_block_csi.Node.Service.{IsSound}
use niova_block_csi.Node.Stage.{node_stage_volume}
use niova_block_csi.Node.Stage.Outcome.{node_stage_volume-again}
use niova_block_csi.Node.Lifecycle.{link_named}
use niova_block_csi.Startup.{
  Plugin, seed, seed_one, fill_entry, ensure_entry, set_vol_id, update_node_volume_map,
}
use niova_block_csi.Startup.Seed.{
  is_live, seeded, lists_id, IsReadOnly, seed-ok, seed-IsWf, seed-mutex, seed_one-host, entry_at,
  ensure_entry-IsWf, ensure_entry-lookup, ensure_entry-entry, entry-write,
}

abbrev pub parses : {A : Type 0} → Reply A → Bool
parses (returned _) = true
parses (failed _) = false

module _ (H : Host) where
  -- Whether the ID of every volume that is listed and live is a UUID.
  unfoldable pub all_parse : H.State → List VdevConfig → Bool
  all_parse h [] = true
  all_parse h (v ∷ vs) = (not (is_live H h v.id) || parses (H.parse_uuid v.id)) && all_parse h vs

  seed_one-returns :
      (v : VdevConfig) (s : NodeServer H)
      → (not (is_live H s.ublk.host v.id) || parses (H.parse_uuid v.id)) ≡ true
      → (seed_one H v s).0 ≡ ok tt
  unfolding seed_one fill_entry
  seed_one-returns v s good = grind arith

  seed-returns :
      (vs : List VdevConfig) (s : NodeServer H)
      → IsReadOnly H
      → all_parse s.ublk.host vs ≡ true
      → (seed H vs s).0 ≡ ok tt
  unfolding seed all_parse
  seed-returns [] s quiet good = refl
  seed-returns (v ∷ vs) s quiet good =
      let one = seed_one-returns v s in
      let same = seed_one-host H quiet v s in
      let more = seed-returns vs (seed_one H v s).1 quiet in ground arith

module _ (P : Plane) (L : IsLawful P) (logs_in : LogsIn P) (H : Host) where
  -- The volumes of the control plane, for a plugin.
  abbrev pub listed : Plugin P H → List VdevConfig
  listed s = vdevs_of L s.manager

  update-seeds :
      (s : Plugin P H)
      → ((update_node_volume_map P H s).0 ≡ (seed H (listed s) s.server).0)
        × ((update_node_volume_map P H s).1.server ≡ (seed H (listed s) s.server).1)
  unfolding update_node_volume_map
  update-seeds s = ground (arith, list_volumes_lem P L logs_in s.manager)

  pub update_node_volume_map-IsSound :
      (s : Plugin P H) → IsSound H s.server → IsSound H (update_node_volume_map P H s).1.server
  update_node_volume_map-IsSound s sound =
      let (r, same) = update-seeds s in
      subst (IsSound H) (sym same)
        (seed-mutex H (listed s) s.server ∙ sound.0, seed-IsWf H (listed s) s.server sound.1)

  -- On a lawful control plane to which the login succeeds, a host on which `os.Stat` changes nothing,
  -- and a well-formed map: where the IDs of the volumes that are listed and have their udev link are
  -- UUIDs, `UpdateNodeVolumeMap` succeeds. Exactly those volumes then have an entry with the link as
  -- their device, on top of what was known of them, and the entry of every other volume is as before.
  pub update_node_volume_map_lem :
      (id : String) (s : Plugin P H)
      → IsReadOnly H
      → IsWf s.server.node
      → all_parse H s.server.ublk.host (listed s) ≡ true
      → ((update_node_volume_map P H s).0 ≡ ok tt)
        × (entry (update_node_volume_map P H s).1.server.node id ≡ (
            if lists_id id (listed s) && is_live H s.server.ublk.host id
            then some (seeded H id (entry s.server.node id))
            else entry s.server.node id))
  update_node_volume_map_lem id s quiet wf good =
      let (r, e) = update-seeds s in
      let k = seed-returns H (listed s) s.server quiet good in
      let at = seed-ok H (listed s) id s.server quiet wf k in (ground arith, ground arith)

  -- A volume whose device runs when the plugin restarts is taken for staged. On a lawful control
  -- plane to which the login succeeds, a host on which `os.Stat` changes nothing, a well-formed map
  -- and a free mutex, where the IDs of the volumes that are listed and have their udev link are
  -- UUIDs: after `UpdateNodeVolumeMap`, a well-formed `NodeStageVolume` for a volume that is listed
  -- and has its link succeeds at once and changes nothing, so its daemon is not started a second time
  -- and its file system is not touched.
  pub restart-stage :
      (req : NodeStageRequest) (asked : VolumeCapability) (mode : AccessMode) (size : ℤ)
      (s : Plugin P H)
      → IsReadOnly H
      → IsWf s.server.node
      → s.server.mutex ≡ unlocked
      → all_parse H s.server.ublk.host (listed s) ≡ true
      → lists_id req.volume_id (listed s) ≡ true
      → is_live H s.server.ublk.host req.volume_id ≡ true
      → (req.volume_id == "") ≡ false
      → (req.staging_target_path == "") ≡ false
      → req.volume_capability ≡ some asked
      → asked.access_mode ≡ some mode
      → parse_int (get_text "volumeSize" req.publish_context) ≡ returned size
      → node_stage_volume H req (update_node_volume_map P H s).1.server
        ≡ (ok tt, (update_node_volume_map P H s).1.server)
  unfolding is_staged
  restart-stage req asked mode size s quiet wf free good known live a b c d e =
      let (r, same) = update-seeds s in
      let (k, at) = update_node_volume_map_lem req.volume_id s quiet wf good in
      let m = seed-mutex H (listed s) s.server in
      let named = link_named req.volume_id in
      node_stage_volume-again H req asked mode size (update_node_volume_map P H s).1.server
        (ground arith) a b c d e (ground arith)

module _ (H : Host) where
  -- On a well-formed map, where a volume that is listed, has its link and has no entry yet has an ID
  -- that is no UUID, the loop of `UpdateNodeVolumeMap` ends with an error at this volume. It leaves
  -- an entry for the volume that has no device path, and the volumes behind it in the list are not
  -- looked at.
  pub seed-parse_failure :
      (v : VdevConfig) (vs : List VdevConfig) (e : Error) (s : NodeServer H)
      → IsWf s.node
      → is_live H s.ublk.host v.id ≡ true
      → H.parse_uuid v.id ≡ failed e
      → entry s.node v.id ≡ none
      → ((seed H (v ∷ vs) s).0 ≡ err e)
        × (seed H (v ∷ vs) s ≡ seed H (v ∷ []) s)
        × (entry (seed H (v ∷ vs) s).1.node v.id
            ≡ some (record empty_volume { vol_id = H.uuid_beside_error v.id }))
  unfolding seed seed_one fill_entry set_vol_id
  seed-parse_failure v vs e s wf live bad new =
      let n = (ensure_entry v.id s.node).1 in
      let p = (ensure_entry v.id s.node).0 in
      let x = record (n.heap p) { vol_id = H.uuid_beside_error v.id } in
      let made = ensure_entry-entry v.id v.id s.node wf in
      let at = ensure_entry-lookup v.id s.node in
      let written = entry-write v.id v.id p x n (ensure_entry-IsWf v.id s.node wf) at in
      let found = entry_at v.id p n at in (ground arith, ground arith, ground (arith, eq_refl v.id))
