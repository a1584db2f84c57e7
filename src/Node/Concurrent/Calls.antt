-- ===== src/Node/Concurrent/Calls.antt =====
-- The sections of pkg/node/node.go, one by one: which leave the volume map as it is, and what the others
-- write to it.
use niova_block_csi.Prelude.{ℕ, String, ◌≡◌, Bool, ◌⊎◌, inl, inr, arith}
use niova_block_csi.Go.Exec.{ok}
use niova_block_csi.Go.Mutex.{unlocked, lock, unlock, r_lock, r_unlock}
use niova_block_csi.Csi.{AccessType, NodeStageRequest, NodePublishRequest}
use niova_block_csi.Types.{Node}
use niova_block_csi.Node.Host.{Host}
use niova_block_csi.Node.State.{put_new, set_target}
use niova_block_csi.Node.Server.{NodeServer, reading, writing}
use niova_block_csi.Node.Stage.{record_staged}
use niova_block_csi.Node.Publish.{remove_target, node_get_volume_stats}
use niova_block_csi.Node.Publish.Outcome.{publish_at-keeps, remove_target-keeps}
use niova_block_csi.Node.Service.{IsSound}
use niova_block_csi.Node.Concurrent.{
  last, stage_inputs, stage_create, stage_mount, unstage_inputs, unstage_unmount, unstage_device,
  publish_inputs, publish_bind, unpublish_inputs, unpublish_unmount,
}
use niova_block_csi.Node.Concurrent.Later.{
  Owns, Owns-Later, Keeps, same-Keeps, put_new-Keeps, set_target-Keeps,
}
use niova_block_csi.Node.Concurrent.Safe.{Safe, Quiet, last-Safe}

module _ (H : Host) (id : String) where
  pub stage_inputs-Quiet : (req : NodeStageRequest) → Quiet H id (stage_inputs H req)
  unfolding stage_inputs
  stage_inputs-Quiet req s free = grind arith

  pub reading-free :
      {A : Type 0} (f : Node → A) (s : NodeServer H)
      → s.mutex ≡ unlocked
      → reading H f s ≡ (ok (f s.node), s)
  unfolding r_lock r_unlock
  reading-free f s free = ground arith

  pub reading-Quiet : {A : Type 0} (f : Node → A) → Quiet H id (reading H f)
  unfolding r_lock r_unlock
  reading-Quiet f s free = grind arith

  pub stage_create-Quiet :
      (vol size : String) (recovery read_only : Bool)
      → Quiet H id (stage_create H vol size recovery read_only)
  unfolding stage_create
  stage_create-Quiet vol size recovery read_only s free = grind arith

  pub stage_mount-Quiet :
      (vol staging : String) (access : AccessType) (path : String)
      → Quiet H id (stage_mount H vol staging access path)
  unfolding stage_mount
  stage_mount-Quiet vol staging access path s free = grind arith

  record_staged-cases :
      (staging mode path : String) (pid : ℕ) (s : NodeServer H)
      → s.mutex ≡ unlocked
      → ((record_staged H id staging mode path pid s).1.mutex ≡ unlocked)
        × (((record_staged H id staging mode path pid s).1.node ≡ s.node)
            ⊎ ((record_staged H id staging mode path pid s).1.node
                ≡ put_new id
                    ((record_staged H id staging mode path pid s).1.node.heap s.node.next)
                    s.node))
  unfolding record_staged lock unlock put_new
  record_staged-cases staging mode path pid s free = grind (arith, inl, inr)

  pub record_staged-Keeps :
      (staging mode path : String) (pid : ℕ) (s : NodeServer H)
      → IsSound H s
      → Keeps H id s (record_staged H id staging mode path pid s).1
  record_staged-Keeps staging mode path pid s sound =
      let s' = (record_staged H id staging mode path pid s).1 in
      let (free, made) = record_staged-cases staging mode path pid s sound.0 in
      elim made [
        | inl same ↦ same-Keeps H id s s' sound free same
        | inr e ↦ put_new-Keeps H id s s' sound free _ e
      ]

  pub writing-lem :
      (f : Node → Node) (s : NodeServer H)
      → s.mutex ≡ unlocked
      → ((writing H f s).1.mutex ≡ unlocked) × ((writing H f s).1.node ≡ f s.node)
  unfolding lock unlock
  writing-lem f s free = grind arith

  pub set_target-last-Safe :
      (p : ℕ) (target : String) (n : Node)
      → Owns id p n
      → Safe H id (last H (writing H (set_target p target))) n
  set_target-last-Safe p target n owns =
      last-Safe H id (writing H (set_target p target)) n (λ s later sound.
        let (free, e) = writing-lem (set_target p target) s sound.0 in
        set_target-Keeps H id s _ sound free p target (Owns-Later id p n s.node later owns) e)

  pub unstage_unmount-Quiet : (staging : String) → Quiet H id (unstage_unmount H staging)
  unfolding unstage_unmount
  unstage_unmount-Quiet staging s free = grind arith

  pub unstage_device-Quiet :
      (vol staging : String) (p : ℕ) → Quiet H id (unstage_device H vol staging p)
  unfolding unstage_device
  unstage_device-Quiet vol staging p s free = grind arith

  pub unstage_inputs-Quiet : (vol staging : String) → Quiet H id (unstage_inputs H vol staging)
  unfolding unstage_inputs r_lock r_unlock
  unstage_inputs-Quiet vol staging s free = grind arith

  pub unpublish_inputs-Quiet : (vol target : String) → Quiet H id (unpublish_inputs H vol target)
  unfolding unpublish_inputs r_lock r_unlock
  unpublish_inputs-Quiet vol target s free = grind arith

  pub unpublish_unmount-Quiet : (target : String) → Quiet H id (unpublish_unmount H target)
  unfolding unpublish_unmount
  unpublish_unmount-Quiet target s free = grind arith

  pub publish_inputs-Quiet : (req : NodePublishRequest) → Quiet H id (publish_inputs H req)
  unfolding publish_inputs r_lock r_unlock
  publish_inputs-Quiet req s free = grind arith

  pub publish_bind-Quiet : (req : NodePublishRequest) (p : ℕ) → Quiet H id (publish_bind H req p)
  unfolding publish_bind
  publish_bind-Quiet req p s free = grind (arith, publish_at-keeps)

  pub remove_target-Quiet : (target : String) → Quiet H id (remove_target H target)
  remove_target-Quiet target s free = grind (arith, remove_target-keeps)

  pub stats-Quiet : (vol path : String) → Quiet H id (node_get_volume_stats H vol path)
  unfolding node_get_volume_stats r_lock r_unlock
  stats-Quiet vol path s free = grind arith
