-- ===== src/Node/Returns.antt =====
-- That the calls of the node service come back to their caller.
use niova_block_csi.Prelude.{
  ℕ, String, ◌≡◌, Bool, true, false, List, none, some, Option-cases, inl, inr, is_some, arith, ◌==◌,
}
use niova_block_csi.Prelude.Dict.{get_text, lookup}
use niova_block_csi.Go.Exec.{ok}
use niova_block_csi.Go.Mutex.{unlocked, lock, unlock, r_lock, r_unlock}
use niova_block_csi.Csi.{AccessType, NodeStageRequest, NodePublishRequest}
use niova_block_csi.Config.Retry.{Settles}
use niova_block_csi.Node.Host.{Host}
use niova_block_csi.Node.Mount.{bind_raw_block, bind_mount, unmount}
use niova_block_csi.Node.Mount.Settles.{
  mount_once-Settles, format_and_mount_device-Settles, unmount-Settles, cleanup_mount_point-Settles,
}
use niova_block_csi.Node.Systemd.{start_ublk_unit}
use niova_block_csi.Node.Ublk.{Ublk, create_ublk_device}
use niova_block_csi.Node.Ublk.Wait.{
  IsClocked, wait_for_by_uuid_link-Settles, delete_ublk_device-Settles, stop_ublk_unit-Settles,
}
use niova_block_csi.Node.State.{recovery_of, is_reader_only, drop}
use niova_block_csi.Node.Server.{NodeServer}
use niova_block_csi.Node.Stage.{
  record_staged, stage_checked, unstage_mapped, node_stage_volume, node_unstage_volume,
}
use niova_block_csi.Node.Stage.Unstage.{unstage_cases}
use niova_block_csi.Node.Publish.{
  publish_at, node_publish_volume, remove_target, node_unpublish_volume, node_get_volume_stats,
  node_expand_volume, node_get_capabilities, node_get_info,
}
use niova_block_csi.Node.Publish.Outcome.{publish_at-keeps, remove_target-keeps}
use niova_block_csi.Node.Service.{
  NodeCall, stage, unstage, publish, unpublish, stats, expand, capabilities, info, serve,
}

-- Whether the capability of a call, if it has one, has an access mode. Only `NodeStageVolume` reads it.
unfoldable pub has_mode : NodeCall → Bool
has_mode (stage req) = elim req.volume_capability [
  | none ↦ true
  | some asked ↦ is_some asked.access_mode
]
has_mode _ = true

module _ (H : Host) where
  pub publish_at-Settles :
      (block : Bool) (device staging target : String) (s : NodeServer H)
      → Settles (publish_at H block device staging target s).0
  unfolding publish_at bind_raw_block bind_mount
  publish_at-Settles true device staging target s = grind (arith, mount_once-Settles)
  publish_at-Settles false device staging target s = grind (arith, mount_once-Settles)

  pub remove_target-Settles :
      (target : String) (s : NodeServer H) → Settles (remove_target H target s).0
  unfolding remove_target
  remove_target-Settles target s = grind (arith, cleanup_mount_point-Settles)

  pub record_staged-Settles :
      (id staging mode path : String) (pid : ℕ) (s : NodeServer H)
      → s.mutex ≡ unlocked
      → Settles (record_staged H id staging mode path pid s).0
  unfolding record_staged lock unlock
  record_staged-Settles id staging mode path pid s free =
      grind (arith, delete_ublk_device-Settles H id path)

  unstage_mapped-Settles :
      (id staging : String) (p : ℕ) (s : NodeServer H)
      → s.mutex ≡ unlocked
      → Settles (unstage_mapped H id staging p s).0
  unfolding unstage_mapped lock unlock
  unstage_mapped-Settles id staging p s free =
      grind (arith, unmount-Settles, delete_ublk_device-Settles H, cleanup_mount_point-Settles)

  -- A volume with an entry is unstaged with a success as soon as its staging path could be unmounted,
  -- whatever the deletion of its device returned: the entry is gone, and with it the way to delete
  -- the device by a later call.
  pub node_unstage_volume-forgets :
      (id staging : String) (p : ℕ) (s : NodeServer H)
      → s.mutex ≡ unlocked
      → (id == "") ≡ false
      → (staging == "") ≡ false
      → lookup id s.node.vol_map ≡ some p
      → (unmount H staging s.ublk.host).0 ≡ ok tt
      → ((node_unstage_volume H id staging s).0 ≡ ok tt)
        × ((node_unstage_volume H id staging s).1.node ≡ drop id s.node)
  unfolding node_unstage_volume unstage_mapped r_lock r_unlock lock unlock
  node_unstage_volume-forgets id staging p s free a b c k =
      grind (arith, delete_ublk_device-Settles H, cleanup_mount_point-Settles)

  unstage-Settles :
      (id staging : String) (s : NodeServer H)
      → s.mutex ≡ unlocked
      → Settles (node_unstage_volume H id staging s).0
  unstage-Settles id staging s free = elim (unstage_cases H id staging s free) [
    | inl (e, x) ↦ ground arith
    | inr (inl (c, x)) ↦ ground arith
    | inr (inr (p, x)) ↦ ground (arith, unstage_mapped-Settles id staging p s free)
  ]

  publish-Settles :
      (req : NodePublishRequest) (s : NodeServer H)
      → s.mutex ≡ unlocked
      → Settles (node_publish_volume H req s).0
  unfolding node_publish_volume r_lock r_unlock lock unlock
  publish-Settles req s free = grind (arith, publish_at-Settles, publish_at-keeps)

  unpublish-Settles :
      (id target : String) (s : NodeServer H)
      → s.mutex ≡ unlocked
      → Settles (node_unpublish_volume H id target s).0
  unfolding node_unpublish_volume r_lock r_unlock lock unlock
  unpublish-Settles id target s free =
      grind (arith, unmount-Settles, remove_target-Settles, remove_target-keeps)

  stats-Settles :
      (id path : String) (s : NodeServer H)
      → s.mutex ≡ unlocked
      → Settles (node_get_volume_stats H id path s).0
  unfolding node_get_volume_stats r_lock r_unlock
  stats-Settles id path s free = grind arith

  module _ (clock : IsClocked H) where
    start-Settles :
        (id binary : String) (args env : List String) (directory : String) (h : H.State)
        → Settles (start_ublk_unit H id binary args env directory h).0
    unfolding start_ublk_unit
    start-Settles id binary args env directory h = ground arith

    pub create_ublk_device-Settles :
        (id size : String) (recovery read_only : Bool) (u : Ublk H)
        → Settles (create_ublk_device H id size recovery read_only u).0
    unfolding create_ublk_device
    create_ublk_device-Settles id size recovery read_only u =
        grind
          (arith, start-Settles, wait_for_by_uuid_link-Settles H clock id, stop_ublk_unit-Settles H)

    stage_checked-Settles :
        (id staging : String) (access : AccessType) (size : String) (recovery read_only : Bool)
        (s : NodeServer H)
        → s.mutex ≡ unlocked
        → Settles (stage_checked H id staging access size recovery read_only s).0
    unfolding stage_checked r_lock r_unlock
    stage_checked-Settles id staging access size recovery read_only s free = grind (
      arith,
      create_ublk_device-Settles id size,
      format_and_mount_device-Settles,
      delete_ublk_device-Settles H id,
      record_staged-Settles id staging,
    )

    stage-Settles :
        (req : NodeStageRequest) (s : NodeServer H)
        → s.mutex ≡ unlocked
        → has_mode (stage req) ≡ true
        → Settles (node_stage_volume H req s).0
    unfolding node_stage_volume has_mode
    stage-Settles req s free moded = elim (Option-cases req.volume_capability) [
      | inl none_ ↦ ground arith
      | inr (asked, x) ↦ elim (Option-cases asked.access_mode) [
        | inl none_ ↦ ground arith
        | inr (mode, y) ↦
            let checked =
              stage_checked-Settles req.volume_id req.staging_target_path asked.access_type
                (get_text "volumeSize" req.publish_context) (recovery_of req.volume_context)
                (is_reader_only mode) s free in
            ground arith
      ]
    ]

    -- On a host whose clock goes forward, each method, called while the mutex is free, comes back to
    -- its caller with a value or an error: it never waits for a lock that it holds, never loops for
    -- ever and never dereferences nil. For `NodeStageVolume` this needs a capability, if there is
    -- one, with an access mode.
    pub serve-Settles :
        (c : NodeCall) (s : NodeServer H)
        → s.mutex ≡ unlocked
        → has_mode c ≡ true
        → Settles (serve H c s).0
    unfolding serve node_expand_volume node_get_capabilities node_get_info
    serve-Settles (stage req) s free moded = stage-Settles req s free moded
    serve-Settles (unstage id path) s free moded = unstage-Settles id path s free
    serve-Settles (publish req) s free moded = publish-Settles req s free
    serve-Settles (unpublish id path) s free moded = unpublish-Settles id path s free
    serve-Settles (stats id path) s free moded = ground (arith, stats-Settles id path s free)
    serve-Settles expand s free moded = tt
    serve-Settles capabilities s free moded = tt
    serve-Settles info s free moded = tt
