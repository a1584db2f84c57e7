-- ===== src/Node/Atomic.antt =====
-- What a call of the node service that fails leaves in the volume map.
use niova_block_csi.Prelude.{String, ◌≡◌, refl, arith}
use niova_block_csi.Go.Mutex.{unlocked, r_lock, r_unlock}
use niova_block_csi.Node.Host.{Host}
use niova_block_csi.Node.Server.{NodeServer}
use niova_block_csi.Node.Stage.Outcome.{Failing, node_stage_volume-Failing}
use niova_block_csi.Node.Stage.Unstage.{node_unstage_volume-Failing}
use niova_block_csi.Node.Publish.{
  node_get_volume_stats, node_expand_volume, node_get_capabilities, node_get_info,
}
use niova_block_csi.Node.Publish.Outcome.{
  node_publish_volume-Failing, node_unpublish_volume-Failing,
}
use niova_block_csi.Node.Service.{
  NodeCall, stage, unstage, publish, unpublish, stats, expand, capabilities, info, serve,
}

module _ (H : Host) where
  stats-keeps :
      (id path : String) (s : NodeServer H) → (node_get_volume_stats H id path s).1.node ≡ s.node
  unfolding node_get_volume_stats r_lock r_unlock
  stats-keeps id path s = grind arith

  -- A method that is called while the mutex is free and does not end with a success, on whatever way
  -- it ends, leaves the volume map and all that it points to as they were: a failed call has
  -- recorded nothing and forgotten nothing.
  pub serve-Failing :
      (c : NodeCall) (s : NodeServer H)
      → s.mutex ≡ unlocked
      → Failing (serve H c s).0 s.node (serve H c s).1.node
  unfolding serve node_expand_volume node_get_capabilities node_get_info
  serve-Failing (stage req) s free = node_stage_volume-Failing H req s free
  serve-Failing (unstage id path) s free = node_unstage_volume-Failing H id path s free
  serve-Failing (publish req) s free = node_publish_volume-Failing H req s free
  serve-Failing (unpublish id path) s free = node_unpublish_volume-Failing H id path s free
  serve-Failing (stats id path) s free = ground (arith, stats-keeps id path s)
  serve-Failing expand s free = refl
  serve-Failing capabilities s free = tt
  serve-Failing info s free = tt
