-- ===== src/Node/Concurrent/Isolation.antt =====
-- Each call of pkg/node/node.go is safe for the volumes that it is not for, among any other calls.
use niova_block_csi.Prelude.{
  ◌<>◌, ◌==◌, ℕ, String, ◌≡◌, refl, Bool, true, false, Option, none, some, arith, if◌then◌else◌,
}
use niova_block_csi.Prelude.Dict.{lookup}
use niova_block_csi.Go.Steps.{reject_if-ok, value-ok}
use niova_block_csi.Go.Error.{status, failed_precondition}
use niova_block_csi.Go.Exec.{Exec, pure, raise, reject_if, ◌>>=◌, ◌>>◌, ok}
use niova_block_csi.Go.Mutex.{r_lock, r_unlock}
use niova_block_csi.Csi.{AccessType, NodeStageRequest, NodePublishRequest}
use niova_block_csi.Types.{Node}
use niova_block_csi.Node.Host.{Host}
use niova_block_csi.Node.State.{is_staged, drop, invalid}
use niova_block_csi.Node.Server.{NodeServer, reading, writing}
use niova_block_csi.Node.Stage.{record_staged}
use niova_block_csi.Node.Publish.{
  remove_target, node_expand_volume, node_get_capabilities, node_get_info,
}
use niova_block_csi.Node.Service.{
  NodeCall, stage, unstage, publish, unpublish, stats, expand, capabilities, info, serve, IsSound,
}
use niova_block_csi.Node.Concurrent.{
  finished, last, stage_inputs, stage_create, stage_mount, stage_rest, stage_steps, unstage_inputs,
  unstage_unmount, unstage_device, unstage_rest, unstage_steps, publish_inputs, publish_bind,
  publish_steps, unpublish_inputs, unpublish_unmount, unpublish_rest, unpublish_steps, steps_of,
}
use niova_block_csi.Node.Concurrent.Later.{
  Later, Owns, Owns-Later, lookup-Owns, same-Keeps, drop-Keeps,
}
use niova_block_csi.Node.Concurrent.Safe.{Safe, Quiet, last-Safe, Quiet-Safe}
use niova_block_csi.Node.State.{mode_of}
use niova_block_csi.Node.Concurrent.Calls.{
  stage_inputs-Quiet, reading-free, reading-Quiet, stage_create-Quiet, stage_mount-Quiet,
  record_staged-Keeps, writing-lem, set_target-last-Safe, unstage_unmount-Quiet,
  unstage_device-Quiet, unstage_inputs-Quiet, unpublish_inputs-Quiet, unpublish_unmount-Quiet,
  publish_inputs-Quiet, publish_bind-Quiet, remove_target-Quiet, stats-Quiet,
}

-- The volume that a call is for. Calls that are for none get the empty text.
unfoldable pub volume_of : NodeCall → String
volume_of (stage req) = req.volume_id
volume_of (unstage id staging) = id
volume_of (publish req) = req.volume_id
volume_of (unpublish id target) = id
volume_of (stats id path) = id
volume_of _ = ""

module _ (H : Host) where
  stage_rest-Safe :
      (id staging : String) (access : AccessType) (size : String) (recovery read_only : Bool)
      (n : Node)
      → Safe H id (stage_rest H id staging access size recovery read_only) n
  unfolding stage_rest
  stage_rest-Safe id staging access size recovery read_only n =
      Quiet-Safe H id (stage_create H id size recovery read_only) _ n
        (stage_create-Quiet H id id size recovery read_only)
        (λ s (path, pid) later sound e.
          Quiet-Safe H id (stage_mount H id staging access path) _ s.node
            (stage_mount-Quiet H id id staging access path)
            (λ s' a later' sound' e'.
              last-Safe H id (record_staged H id staging (mode_of access) path pid) s'.node
                (λ t later'' sound''.
                  record_staged-Keeps H id staging (mode_of access) path pid t sound'')))

  stage-Safe : (req : NodeStageRequest) (n : Node) → Safe H req.volume_id (stage_steps H req) n
  unfolding stage_steps
  stage-Safe req n =
      Quiet-Safe H req.volume_id (stage_inputs H req) _ n (stage_inputs-Quiet H req.volume_id req)
        (λ s (access, size, recovery, read_only) later sound e.
          Quiet-Safe H req.volume_id (reading H (λ m. is_staged m req.volume_id)) _ s.node
            (reading-Quiet H req.volume_id (λ m. is_staged m req.volume_id))
            (λ s' staged later' sound' e'. if_staged staged access size recovery read_only s'.node))
    where
      if_staged :
          (staged : Bool) (access : AccessType) (size : String) (recovery read_only : Bool)
          (m : Node)
          → Safe H req.volume_id
              (if staged
                then finished (ok tt)
                else stage_rest H req.volume_id req.staging_target_path access size recovery
                    read_only)
              m
      if_staged true access size recovery read_only m = unfold Safe in tt
      if_staged false access size recovery read_only m =
          stage_rest-Safe req.volume_id req.staging_target_path access size recovery read_only m

  unstage_rest-Safe :
      (id staging : String) (pointer : Option ℕ) (n : Node)
      → Safe H id (unstage_rest H id staging pointer) n
  unfolding unstage_rest Safe
  unstage_rest-Safe id staging none n = tt
  unstage_rest-Safe id staging (some p) n =
      Quiet-Safe H id (unstage_unmount H staging) _ n (unstage_unmount-Quiet H id staging)
        (λ s a later sound e.
          Quiet-Safe H id (unstage_device H id staging p) _ s.node
            (unstage_device-Quiet H id id staging p)
            (λ s' a' later' sound' e'.
              last-Safe H id (writing H (drop id)) s'.node (λ t later'' sound''.
                let (free, same) = writing-lem H id (drop id) t sound''.0 in
                drop-Keeps H id t _ sound'' free same)))

  unstage-Safe : (id staging : String) (n : Node) → Safe H id (unstage_steps H id staging) n
  unfolding unstage_steps
  unstage-Safe id staging n =
      Quiet-Safe H id (unstage_inputs H id staging) (unstage_rest H id staging) n
        (unstage_inputs-Quiet H id id staging)
        (λ s pointer later sound e. unstage_rest-Safe id staging pointer s.node)

  publish_inputs-Owns :
      (req : NodePublishRequest) (s : NodeServer H) (p : ℕ)
      → IsSound H s
      → (publish_inputs H req s).0 ≡ ok p
      → lookup req.volume_id s.node.vol_map ≡ some p
  unfolding publish_inputs
  publish_inputs-Owns req s p (free, wf) e =
      let look : Node → Option ℕ = λ n. lookup req.volume_id n.vol_map in
      let found : Option ℕ → Exec (NodeServer H) ℕ = λ pointer. elim pointer [
        | none ↦ raise (status failed_precondition ("Volume " <> req.volume_id <> " not staged"))
        | some q ↦ pure q
      ] in
      let after2 = reading H look >>= found in
      let after1 =
        reject_if (req.staging_target_path == "") (invalid "Staging target path cannot be empty")
        >> after2 in
      let after0 =
        reject_if (req.target_path == "") (invalid "Target path cannot be empty") >> after1 in
      let e0 =
        reject_if-ok (req.volume_id == "") (invalid "Volume ID cannot be empty") after0 p s e in
      let e1 =
        reject_if-ok (req.target_path == "") (invalid "Target path cannot be empty") after1 p s
          e0 in
      let e2 =
        reject_if-ok (req.staging_target_path == "") (invalid "Staging target path cannot be empty")
          after2 p s e1 in
      pointer_found (look s.node) (
        value-ok (reading H look) found (look s.node) p s (reading-free H req.volume_id look s free)
          e2)
    where
      pointer_found :
          (pointer : Option ℕ)
          → ((elim pointer as (λ x. Exec (NodeServer H) ℕ) [
            | none ↦
                raise (status failed_precondition ("Volume " <> req.volume_id <> " not staged"))
            | some q ↦ pure q
          ])
              s).0
            ≡ ok p
          → pointer ≡ some p
      pointer_found none h = ground arith
      pointer_found (some q) h = ground arith

  publish-Safe :
      (req : NodePublishRequest) (n : Node) → Safe H req.volume_id (publish_steps H req) n
  unfolding publish_steps
  publish-Safe req n =
      Quiet-Safe H req.volume_id (publish_inputs H req) _ n
        (publish_inputs-Quiet H req.volume_id req)
        (λ s p later sound e.
          let owns =
            lookup-Owns req.volume_id p s.node sound.1 (publish_inputs-Owns req s p sound e) in
          Quiet-Safe H req.volume_id (publish_bind H req p) _ s.node
            (publish_bind-Quiet H req.volume_id req p)
            (λ s' a later' sound' e'.
              set_target-last-Safe H req.volume_id p req.target_path s'.node
                (Owns-Later req.volume_id p s.node s'.node later' owns)))

  unpublish_inputs-Owns :
      (id target : String) (s : NodeServer H) (p : ℕ)
      → IsSound H s
      → (unpublish_inputs H id target s).0 ≡ ok (some p)
      → lookup id s.node.vol_map ≡ some p
  unfolding unpublish_inputs r_lock r_unlock
  unpublish_inputs-Owns id target s p (free, wf) e = grind arith

  unpublish_rest-Safe :
      (id target : String) (p : ℕ) (n : Node)
      → Owns id p n
      → Safe H id (unpublish_rest H target (some p)) n
  unfolding unpublish_rest
  unpublish_rest-Safe id target p n owns =
      Quiet-Safe H id (remove_target H target) _ n (remove_target-Quiet H id target)
        (λ s a later sound e.
          set_target-last-Safe H id p "" s.node (Owns-Later id p n s.node later owns))

  unpublish-Safe : (id target : String) (n : Node) → Safe H id (unpublish_steps H id target) n
  unfolding unpublish_steps
  unpublish-Safe id target n =
      Quiet-Safe H id (unpublish_inputs H id target) _ n (unpublish_inputs-Quiet H id id target)
        (λ s pointer later sound e.
          Quiet-Safe H id (unpublish_unmount H target) _ s.node
            (unpublish_unmount-Quiet H id target)
            (λ s' a later' sound' e'. found pointer s s' later' sound e))
    where
      found :
          (pointer : Option ℕ) (s s' : NodeServer H)
          → Later s.node s'.node
          → IsSound H s
          → (unpublish_inputs H id target s).0 ≡ ok pointer
          → Safe H id (unpublish_rest H target pointer) s'.node
      found none s s' later sound e = unfold unpublish_rest Safe in tt
      found (some p) s s' later sound e = unpublish_rest-Safe id target p s'.node (
          Owns-Later id p s.node s'.node later
            (lookup-Owns id p s.node sound.1 (unpublish_inputs-Owns id target s p sound e)))

  serve-Safe :
      (c : NodeCall) (n : Node)
      → Quiet H (volume_of c) (serve H c)
      → Safe H (volume_of c) (last H (serve H c)) n
  serve-Safe c n quiet = last-Safe H (volume_of c) (serve H c) n (λ s later sound.
      let (free, same) = quiet s sound.0 in same-Keeps H (volume_of c) s _ sound free same)

  serve_stats-Quiet : (id path : String) → Quiet H id (serve H (stats id path))
  unfolding serve
  serve_stats-Quiet id path s free = ground (arith, stats-Quiet H id id path s free)

  -- Every call is safe for the other volumes from any map on.
  pub steps_of-Safe : (c : NodeCall) (n : Node) → Safe H (volume_of c) (steps_of H c) n
  unfolding steps_of volume_of
  steps_of-Safe (stage req) n = stage-Safe req n
  steps_of-Safe (unstage id staging) n = unstage-Safe id staging n
  steps_of-Safe (publish req) n = publish-Safe req n
  steps_of-Safe (unpublish id target) n = unpublish-Safe id target n
  steps_of-Safe (stats id path) n = serve-Safe (stats id path) n (serve_stats-Quiet id path)
  steps_of-Safe expand n =
      serve-Safe expand n (unfold serve node_expand_volume in λ s free. (free, refl))
  steps_of-Safe capabilities n =
      serve-Safe capabilities n (unfold serve node_get_capabilities in λ s free. (free, refl))
  steps_of-Safe info n = serve-Safe info n (unfold serve node_get_info in λ s free. (free, refl))
