-- ===== src/Node/Service.antt =====
-- The node service as its clients meet it: any history of calls of pkg/node/node.go, one after the
-- other.
use niova_block_csi.Node.Stage.Unstage.{unstage_cases}
use niova_block_csi.Prelude.Dict.{get_text}
use niova_block_csi.Prelude.{Option-cases, inl, inr, ℕ, Bool, String, ◌≡◌, List, [], ◌∷◌, arith}
use niova_block_csi.Go.Exec.{Exec, pure, ◌>>=◌}
use niova_block_csi.Go.Mutex.{unlocked, lock, unlock, r_lock, r_unlock}
use niova_block_csi.Csi.{AccessType, NodeStageRequest, NodePublishRequest}
use niova_block_csi.Node.Host.{Host}
use niova_block_csi.Node.State.{recovery_of, is_reader_only}
use niova_block_csi.Node.State.Laws.{IsWf, put_new-IsWf, drop-IsWf, set_target-IsWf}
use niova_block_csi.Node.Server.{NodeServer}
use niova_block_csi.Node.Stage.{
  record_staged, stage_checked, unstage_mapped, node_stage_volume, node_unstage_volume,
}
use niova_block_csi.Node.Publish.{
  node_publish_volume, node_unpublish_volume, node_get_volume_stats, node_expand_volume,
  node_get_capabilities, node_get_info,
}
use niova_block_csi.Node.Publish.Outcome.{publish_at-keeps, remove_target-keeps}

-- The methods of the service.
pub data NodeCall : Type 0 where
  stage : NodeStageRequest → NodeCall
  unstage : String → String → NodeCall
  publish : NodePublishRequest → NodeCall
  unpublish : String → String → NodeCall
  stats : String → String → NodeCall
  expand capabilities info : NodeCall

module _ (H : Host) where
  -- A call, with its answer left out.
  unfoldable pub serve : NodeCall → Exec (NodeServer H) (Unit {0})
  serve (stage req) = node_stage_volume H req
  serve (unstage id path) = node_unstage_volume H id path
  serve (publish req) = node_publish_volume H req
  serve (unpublish id path) = node_unpublish_volume H id path
  serve (stats id path) = node_get_volume_stats H id path >>= λ _. pure tt
  serve expand = node_expand_volume H
  serve capabilities = node_get_capabilities H >>= λ _. pure tt
  serve info = node_get_info H >>= λ _. pure tt

  -- The server after the calls, whatever they returned.
  unfoldable pub serve_all : List NodeCall → NodeServer H → NodeServer H
  serve_all [] s = s
  serve_all (c ∷ calls) s = serve_all calls (serve c s).1

  -- What holds between two calls: the mutex is free, and the map is well formed.
  abbrev pub IsSound : NodeServer H → Type 0
  IsSound s = (s.mutex ≡ unlocked) × IsWf s.node

  record_staged-mutex :
      (id staging mode path : String) (pid : ℕ) (s : NodeServer H)
      → s.mutex ≡ unlocked
      → (record_staged H id staging mode path pid s).1.mutex ≡ unlocked
  unfolding record_staged r_lock r_unlock lock unlock
  record_staged-mutex id staging mode path pid s free = grind arith

  record_staged-IsWf :
      (id staging mode path : String) (pid : ℕ) (s : NodeServer H)
      → s.mutex ≡ unlocked
      → IsWf s.node
      → IsWf (record_staged H id staging mode path pid s).1.node
  unfolding record_staged r_lock r_unlock lock unlock
  record_staged-IsWf id staging mode path pid s free wf = grind (arith, put_new-IsWf)

  stage_checked-mutex :
      (id staging : String) (access : AccessType) (size : String) (recovery read_only : Bool)
      (s : NodeServer H)
      → s.mutex ≡ unlocked
      → (stage_checked H id staging access size recovery read_only s).1.mutex ≡ unlocked
  unfolding stage_checked r_lock r_unlock
  stage_checked-mutex id staging access size recovery read_only s free =
      grind (arith, record_staged-mutex)

  stage_checked-IsWf :
      (id staging : String) (access : AccessType) (size : String) (recovery read_only : Bool)
      (s : NodeServer H)
      → s.mutex ≡ unlocked
      → IsWf s.node
      → IsWf (stage_checked H id staging access size recovery read_only s).1.node
  unfolding stage_checked r_lock r_unlock
  stage_checked-IsWf id staging access size recovery read_only s free wf =
      grind (arith, record_staged-IsWf)

  pub stage-mutex :
      (req : NodeStageRequest) (s : NodeServer H)
      → s.mutex ≡ unlocked
      → (node_stage_volume H req s).1.mutex ≡ unlocked
  unfolding node_stage_volume
  stage-mutex req s free = elim (Option-cases req.volume_capability) [
    | inl none_ ↦ ground arith
    | inr (asked, x) ↦ elim (Option-cases asked.access_mode) [
      | inl none_ ↦ ground arith
      | inr (mode, y) ↦
          let checked =
            stage_checked-mutex req.volume_id req.staging_target_path asked.access_type
              (get_text "volumeSize" req.publish_context) (recovery_of req.volume_context)
              (is_reader_only mode) s free in
          ground arith
    ]
  ]

  pub stage-IsWf :
      (req : NodeStageRequest) (s : NodeServer H)
      → s.mutex ≡ unlocked
      → IsWf s.node
      → IsWf (node_stage_volume H req s).1.node
  unfolding node_stage_volume
  stage-IsWf req s free wf = grind (arith, stage_checked-IsWf)

  unstage_mapped-mutex :
      (id staging : String) (p : ℕ) (s : NodeServer H)
      → s.mutex ≡ unlocked
      → (unstage_mapped H id staging p s).1.mutex ≡ unlocked
  unfolding unstage_mapped r_lock r_unlock lock unlock
  unstage_mapped-mutex id staging p s free = grind arith

  unstage_mapped-IsWf :
      (id staging : String) (p : ℕ) (s : NodeServer H)
      → s.mutex ≡ unlocked
      → IsWf s.node
      → IsWf (unstage_mapped H id staging p s).1.node
  unfolding unstage_mapped r_lock r_unlock lock unlock
  unstage_mapped-IsWf id staging p s free wf = grind (arith, drop-IsWf)

  unstage-mutex :
      (id staging : String) (s : NodeServer H)
      → s.mutex ≡ unlocked
      → (node_unstage_volume H id staging s).1.mutex ≡ unlocked
  unstage-mutex id staging s free = elim (unstage_cases H id staging s free) [
    | inl (e, x) ↦ ground arith
    | inr (inl (c, x)) ↦ ground arith
    | inr (inr (p, x)) ↦ ground (arith, unstage_mapped-mutex id staging p s free)
  ]

  unstage-IsWf :
      (id staging : String) (s : NodeServer H)
      → s.mutex ≡ unlocked
      → IsWf s.node
      → IsWf (node_unstage_volume H id staging s).1.node
  unfolding node_unstage_volume r_lock r_unlock
  unstage-IsWf id staging s free wf = grind (arith, unstage_mapped-IsWf)

  pub publish-mutex :
      (req : NodePublishRequest) (s : NodeServer H)
      → s.mutex ≡ unlocked
      → (node_publish_volume H req s).1.mutex ≡ unlocked
  unfolding node_publish_volume r_lock r_unlock lock unlock
  publish-mutex req s free = grind (arith, publish_at-keeps)

  pub publish-IsWf :
      (req : NodePublishRequest) (s : NodeServer H)
      → s.mutex ≡ unlocked
      → IsWf s.node
      → IsWf (node_publish_volume H req s).1.node
  unfolding node_publish_volume r_lock r_unlock lock unlock
  publish-IsWf req s free wf = grind (arith, publish_at-keeps, set_target-IsWf)

  pub unpublish-mutex :
      (id target : String) (s : NodeServer H)
      → s.mutex ≡ unlocked
      → (node_unpublish_volume H id target s).1.mutex ≡ unlocked
  unfolding node_unpublish_volume r_lock r_unlock lock unlock
  unpublish-mutex id target s free = grind (arith, remove_target-keeps)

  unpublish-IsWf :
      (id target : String) (s : NodeServer H)
      → s.mutex ≡ unlocked
      → IsWf s.node
      → IsWf (node_unpublish_volume H id target s).1.node
  unfolding node_unpublish_volume r_lock r_unlock lock unlock
  unpublish-IsWf id target s free wf = grind (arith, remove_target-keeps, set_target-IsWf)

  stats-mutex :
      (id path : String) (s : NodeServer H)
      → s.mutex ≡ unlocked
      → (node_get_volume_stats H id path s).1.mutex ≡ unlocked
  unfolding node_get_volume_stats r_lock r_unlock
  stats-mutex id path s free = grind arith

  stats-IsWf :
      (id path : String) (s : NodeServer H)
      → s.mutex ≡ unlocked
      → IsWf s.node
      → IsWf (node_get_volume_stats H id path s).1.node
  unfolding node_get_volume_stats r_lock r_unlock
  stats-IsWf id path s free wf = grind arith

  serve-IsSound : (c : NodeCall) (s : NodeServer H) → IsSound s → IsSound (serve c s).1
  unfolding serve node_expand_volume node_get_capabilities node_get_info
  serve-IsSound (stage req) s (free, wf) = (stage-mutex req s free, stage-IsWf req s free wf)
  serve-IsSound (unstage id path) s (free, wf) =
      (unstage-mutex id path s free, unstage-IsWf id path s free wf)
  serve-IsSound (publish req) s (free, wf) = (publish-mutex req s free, publish-IsWf req s free wf)
  serve-IsSound (unpublish id path) s (free, wf) =
      (unpublish-mutex id path s free, unpublish-IsWf id path s free wf)
  serve-IsSound (stats id path) s (free, wf) =
      let m = stats-mutex id path s free in
      let w = stats-IsWf id path s free wf in (ground arith, grind arith)
  serve-IsSound expand s sound = sound
  serve-IsSound capabilities s sound = sound
  serve-IsSound info s sound = sound

  -- After any history of calls, whatever each of them returned and however it went on, the mutex is
  -- free and the volume map is well formed if this was so before: every pointer in it has been
  -- handed out, and no two volumes share one, so a write for one volume never reaches another.
  pub serve_all-IsSound :
      (calls : List NodeCall) (s : NodeServer H) → IsSound s → IsSound (serve_all calls s)
  unfolding serve_all
  serve_all-IsSound [] s sound = sound
  serve_all-IsSound (c ∷ calls) s sound =
      serve_all-IsSound calls (serve c s).1 (serve-IsSound c s sound)
