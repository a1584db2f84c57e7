-- ===== src/Node/Concurrent.antt =====
-- The handlers of pkg/node/node.go as gRPC runs them: each call in a goroutine of its own, all on one
-- `NodeServer`. A call is a chain of sections. A section is what the mutex covers, or what lies between
-- two of them: it changes the volume map under the lock only.
pub mod Alone
pub mod Later
pub mod Safe
pub mod Calls
pub mod Isolation
pub mod Settles
pub mod Schedule
pub mod Progress
pub mod Race
pub mod Orphan
use niova_block_csi.Prelude.{
  ℕ, String, ◌<>◌, Bool, true, false, List, [], ◌∷◌, Option, none, some, nat_eq, ◌==◌,
  if◌then◌else◌,
}
use niova_block_csi.Prelude.Dict.{get_text, lookup}
use niova_block_csi.Go.Error.{
  Error, error_text, is_not_exist, status, failed_precondition, internal,
}
use niova_block_csi.Go.Exec.{
  Result, ok, err, panic, returned, failed, nil_dereference, Exec, pure, raise, crash, gets,
  attempt, reject_if, or_reject, ◌>>=◌, ◌>>◌,
}
use niova_block_csi.Go.Strconv.{parse_int}
use niova_block_csi.Types.{mount_mode}
use niova_block_csi.Csi.{AccessType, NodeStageRequest, NodePublishRequest}
use niova_block_csi.Node.Host.{Host}
use niova_block_csi.Node.Mount.{format_and_mount_device, unmount, cleanup_mount_point}
use niova_block_csi.Node.Ublk.{create_ublk_device, delete_ublk_device}
use niova_block_csi.Node.State.{
  invalid, drop, is_staged, mode_of, fs_type_of, is_reader_only, recovery_of, device_path,
  wants_block, set_target,
}
use niova_block_csi.Node.Server.{NodeServer, on_ublk, on_host, reading, writing, ignoring}
use niova_block_csi.Node.Stage.{record_staged}
use niova_block_csi.Node.Publish.{publish_at, remove_target, node_get_volume_stats}
use niova_block_csi.Node.Service.{
  NodeCall, stage, unstage, publish, unpublish, stats, expand, capabilities, info, serve,
}

module _ (H : Host) where
  -- A call on its way: it has returned, or its next section changes the server and goes on by what
  -- the server was.
  pub data Goroutine : Type 0 where
    finished : Result (Unit {0}) → Goroutine
    running : (NodeServer H → NodeServer H) → (NodeServer H → Goroutine) → Goroutine

  abbrev after : {A : Type 0} → (A → Goroutine) → Result A → Goroutine
  after k (ok a) = k a
  after k (err e) = finished (err e)
  after k (panic f) = finished (panic f)

  -- A section, and what comes behind it where it returns no error.
  abbrev pub section : {A : Type 0} → Exec (NodeServer H) A → (A → Goroutine) → Goroutine
  section m k = running (λ s. (m s).1) (λ s. after k (m s).0)

  abbrev pub last : Exec (NodeServer H) (Unit {0}) → Goroutine
  last m = section m (λ _. finished (ok tt))

  -- The checks of a request to stage, and what the rest reads of it.
  unfoldable pub stage_inputs :
      NodeStageRequest → Exec (NodeServer H) (AccessType × String × Bool × Bool)
  unfolding invalid
  stage_inputs req = do
    reject_if (req.volume_id == "") (invalid "Volume ID cannot be empty")
    reject_if (req.staging_target_path == "") (invalid "Staging target path cannot be empty")
    cap ← or_reject req.volume_capability (invalid "Volume capabilities cannot be empty")
    elim cap.access_mode [
      | none ↦ crash nil_dereference
      | some access_mode ↦
          let size = get_text "volumeSize" req.publish_context in
          elim (parse_int size) [
            | failed e ↦ raise (invalid ("Invalid volume size: " <> error_text e))
            | returned n ↦
                pure (
                  cap.access_type,
                  size,
                  recovery_of req.volume_context,
                  is_reader_only access_mode,
                )
          ]
    ]

  unfoldable pub stage_create : String → String → Bool → Bool → Exec (NodeServer H) (String × ℕ)
  stage_create id size recovery read_only =
      attempt (on_ublk H (create_ublk_device H id size recovery read_only))
        (λ e. raise (status internal ("Failed to create ublk device: " <> error_text e))) pure

  unfoldable pub stage_mount :
      String → String → AccessType → String → Exec (NodeServer H) (Unit {0})
  stage_mount id staging access path =
      attempt
        (if mode_of access == mount_mode
          then on_host H (format_and_mount_device H path staging (fs_type_of access))
          else pure tt)
        (λ e. do
          ignoring H (on_ublk H (delete_ublk_device H id path))
          raise (status internal ("Failed to mount device: " <> error_text e)))
        pure

  -- `NodeStageVolume` behind its test for a volume that is staged.
  unfoldable pub stage_rest : String → String → AccessType → String → Bool → Bool → Goroutine
  stage_rest id staging access size recovery read_only =
      section (stage_create id size recovery read_only) (λ (path, pid).
        section (stage_mount id staging access path)
          (λ _. last (record_staged H id staging (mode_of access) path pid)))

  unfoldable pub stage_steps : NodeStageRequest → Goroutine
  stage_steps req = section (stage_inputs req) (λ (access, size, recovery, read_only).
      section (reading H (λ n. is_staged n req.volume_id)) (λ staged.
        if staged
        then finished (ok tt)
        else stage_rest req.volume_id req.staging_target_path access size recovery read_only))

  unfoldable pub unstage_inputs : String → String → Exec (NodeServer H) (Option ℕ)
  unfolding invalid
  unstage_inputs id staging = do
    reject_if (id == "") (invalid "Volume ID cannot be empty")
    reject_if (staging == "") (invalid "Staging target path cannot be empty")
    reading H (λ n. lookup id n.vol_map)

  unfoldable pub unstage_unmount : String → Exec (NodeServer H) (Unit {0})
  unstage_unmount staging =
      attempt (on_host H (unmount H staging))
        (λ e. raise (status internal ("Failed to unmount staging path: " <> error_text e))) pure

  unfoldable pub unstage_device : String → String → ℕ → Exec (NodeServer H) (Unit {0})
  unstage_device id staging p = do
    vol ← gets (λ s. s.node.heap p)
    ignoring H (on_ublk H (delete_ublk_device H id (device_path id vol.ublk_path)))
    ignoring H (on_host H (cleanup_mount_point H staging))

  unfoldable pub unstage_rest : String → String → Option ℕ → Goroutine
  unstage_rest id staging none = finished (ok tt)
  unstage_rest id staging (some p) =
      section (unstage_unmount staging)
        (λ _. section (unstage_device id staging p) (λ _. last (writing H (drop id))))

  unfoldable pub unstage_steps : String → String → Goroutine
  unstage_steps id staging = section (unstage_inputs id staging) (unstage_rest id staging)

  unfoldable pub publish_inputs : NodePublishRequest → Exec (NodeServer H) ℕ
  unfolding invalid
  publish_inputs req = do
    reject_if (req.volume_id == "") (invalid "Volume ID cannot be empty")
    reject_if (req.target_path == "") (invalid "Target path cannot be empty")
    reject_if (req.staging_target_path == "") (invalid "Staging target path cannot be empty")
    pointer ← reading H (λ n. lookup req.volume_id n.vol_map)
    elim pointer [
      | none ↦ raise (status failed_precondition ("Volume " <> req.volume_id <> " not staged"))
      | some p ↦ pure p
    ]

  -- The path of the device is read at the beginning: no section changes it in an entry that is there.
  unfoldable pub publish_bind : NodePublishRequest → ℕ → Exec (NodeServer H) (Unit {0})
  publish_bind req p = do
    vol ← gets (λ s. s.node.heap p)
    publish_at H (wants_block req.volume_capability) vol.ublk_path req.staging_target_path
        req.target_path

  unfoldable pub publish_steps : NodePublishRequest → Goroutine
  publish_steps req =
      section (publish_inputs req)
        (λ p. section (publish_bind req p) (λ _. last (writing H (set_target p req.target_path))))

  unfoldable pub unpublish_inputs : String → String → Exec (NodeServer H) (Option ℕ)
  unfolding invalid
  unpublish_inputs id target = do
    reject_if (id == "") (invalid "Volume ID cannot be empty")
    reject_if (target == "") (invalid "Target path cannot be empty")
    reading H (λ n. lookup id n.vol_map)

  unfoldable pub unpublish_unmount : String → Exec (NodeServer H) (Unit {0})
  unpublish_unmount target =
      attempt (on_host H (unmount H target))
        (λ e.
          if is_not_exist e
          then pure tt
          else raise (status internal ("Failed to unmount target path: " <> error_text e)))
        pure

  unfoldable pub unpublish_rest : String → Option ℕ → Goroutine
  unpublish_rest target none = finished (ok tt)
  unpublish_rest target (some p) =
      section (remove_target H target) (λ _. last (writing H (set_target p "")))

  unfoldable pub unpublish_steps : String → String → Goroutine
  unpublish_steps id target =
      section (unpublish_inputs id target)
        (λ pointer. section (unpublish_unmount target) (λ _. unpublish_rest target pointer))

  -- The sections of a call. The calls that do not write the map are one section.
  unfoldable pub steps_of : NodeCall → Goroutine
  steps_of (stage req) = stage_steps req
  steps_of (unstage id staging) = unstage_steps id staging
  steps_of (publish req) = publish_steps req
  steps_of (unpublish id target) = unpublish_steps id target
  steps_of c = last (serve H c)

  -- A goroutine that runs with no other beside it.
  unfoldable pub run_alone : Goroutine → Exec (NodeServer H) (Unit {0})
  run_alone (finished r) s = (r, s)
  run_alone (running f k) s = run_alone (k s) (f s)

  -- The goroutines by their numbers, and the server.
  pub record Pool : Type 0 where
    pub threads : ℕ → Goroutine
    pub server : NodeServer H

  abbrev advance : Goroutine → ℕ → Pool → Pool
  advance (finished r) i c = c
  advance (running f k) i c = record {
    threads = λ j. if nat_eq i j then k c.server else c.threads j;
    server = f c.server;
  }

  -- The scheduler lets goroutine `i` run its next section.
  unfoldable pub step : ℕ → Pool → Pool
  step i c = advance (c.threads i) i c

  unfoldable pub run_all : List ℕ → Pool → Pool
  run_all [] c = c
  run_all (i ∷ schedule) c = run_all schedule (step i c)
