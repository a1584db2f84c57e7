-- ===== src/Node/Stage/Outcome.antt =====
-- What `NodeStageVolume` and `NodeUnstageVolume` of pkg/node/node.go leave in the volume map.
use niova_block_csi.Prelude.{
  ℕ, zero, suc, ◌⊎◌, String, ◌≡◌, ◌+◌, refl, Bool, true, false, some, ◌==◌, arith, inl, inr,
}
use niova_block_csi.Prelude.Dict.{get_text}
use niova_block_csi.Prelude.Int.{ℤ}
use niova_block_csi.Go.Exec.{Result, ok, err, panic, returned}
use niova_block_csi.Go.Mutex.{unlocked, lock, unlock, r_lock, r_unlock}
use niova_block_csi.Go.Strconv.{parse_int}
use niova_block_csi.Types.{Node, ublk_by_uuid_path}
use niova_block_csi.Node.Ublk.{
  Ublk, wait_loop, wait_rounds, ublk_args, ublk_env, get_binary_path, wait_for_by_uuid_link,
  create_ublk_device,
}
use niova_block_csi.Csi
use niova_block_csi.Csi.{AccessType, VolumeCapability, NodeStageRequest}
use niova_block_csi.Node.Host.{Host}
use niova_block_csi.Node.Systemd.{start_ublk_unit}
use niova_block_csi.Node.State.{is_staged, put_new, mode_of}
use niova_block_csi.Node.Server.{NodeServer}
use niova_block_csi.Node.Stage.{record_staged, stage_checked, node_stage_volume}

abbrev pub Failing : Result (Unit {0}) → Node → Node → Type 0
Failing (ok _) n n' = Unit
Failing _ n n' = n' ≡ n

abbrev NotOk : {A : Type 0} → Result A → Type 0
NotOk (ok a) = ⊥
NotOk _ = Unit

-- A call that returned a pair, or not.
success_cases :
    {A B S : Type 0} (r : Result (A × B) × S)
    → ((a : A) × (b : B) × (s : S) × (r ≡ (ok (a, b), s))) ⊎ NotOk r.0
success_cases (ok (a, b), s) = inl (a, b, s, refl)
success_cases (err e, s) = inr tt
success_cases (panic f, s) = inr tt

-- The mode that a volume is to have by the kind of its capability.
abbrev pub named_mode : AccessType → String
named_mode Csi.block = "block"
named_mode (Csi.mount fs) = "mount"
named_mode Csi.unset = "mount"

mode_of-named_mode : (access : AccessType) → mode_of access ≡ named_mode access
unfolding mode_of
mode_of-named_mode Csi.block = refl
mode_of-named_mode (Csi.mount fs) = refl
mode_of-named_mode Csi.unset = refl

module _ (H : Host) where
  record_staged-Failing :
      (id staging mode path : String) (pid : ℕ) (s : NodeServer H)
      → s.mutex ≡ unlocked
      → Failing
          (record_staged H id staging mode path pid s).0
          s.node
          (record_staged H id staging mode path pid s).1.node
  unfolding record_staged lock unlock
  record_staged-Failing id staging mode path pid s free = ground arith

  stage_checked-Failing :
      (id staging : String) (access : AccessType) (size : String) (recovery read_only : Bool)
      (s : NodeServer H)
      → s.mutex ≡ unlocked
      → Failing
          (stage_checked H id staging access size recovery read_only s).0
          s.node
          (stage_checked H id staging access size recovery read_only s).1.node
  unfolding stage_checked r_lock r_unlock
  stage_checked-Failing id staging access size recovery read_only s free =
      grind (arith, record_staged-Failing)

  -- Where `NodeStageVolume` is called on a free mutex and does not end with a success, on whatever
  -- way it ends, the volume map and all that it points to are as before.
  pub node_stage_volume-Failing :
      (req : NodeStageRequest) (s : NodeServer H)
      → s.mutex ≡ unlocked
      → Failing (node_stage_volume H req s).0 s.node (node_stage_volume H req s).1.node
  unfolding node_stage_volume
  node_stage_volume-Failing req s free = grind (arith, stage_checked-Failing)

  -- Staging a volume that is staged is a success that changes nothing at all, neither the volume map
  -- nor the host: no device is created, formatted or mounted a second time.
  pub node_stage_volume-again :
      (req : NodeStageRequest) (cap : VolumeCapability) (mode : Csi.AccessMode) (size : ℤ)
      (s : NodeServer H)
      → s.mutex ≡ unlocked
      → (req.volume_id == "") ≡ false
      → (req.staging_target_path == "") ≡ false
      → req.volume_capability ≡ some cap
      → cap.access_mode ≡ some mode
      → parse_int (get_text "volumeSize" req.publish_context) ≡ returned size
      → is_staged s.node req.volume_id ≡ true
      → node_stage_volume H req s ≡ (ok tt, s)
  unfolding node_stage_volume stage_checked r_lock r_unlock
  node_stage_volume-again req cap mode size s free a b c d e f = ground arith

  -- The two ends of a successful `NodeStageVolume`, of a volume that was not staged: a new pointer,
  -- and what it points to.
  abbrev pub Stages : String → String → AccessType → Node → Node → Type 0
  Stages id staging access n n' =
      let v = n'.heap n.next in
      (n' ≡ put_new id v n)
      × (H.parse_uuid id ≡ returned v.vol_id)
      × (v.ublk_path ≡ ublk_by_uuid_path id)
      × (v.volume_mode ≡ named_mode access)
      × (v.staging_path ≡ staging)
      × (v.target_path ≡ "")

  record_staged-ok :
      (id staging path : String) (access : AccessType) (pid : ℕ) (s : NodeServer H)
      → s.mutex ≡ unlocked
      → path ≡ ublk_by_uuid_path id
      → (record_staged H id staging (mode_of access) path pid s).0 ≡ ok tt
      → Stages id staging access s.node
          (record_staged H id staging (mode_of access) path pid s).1.node
  unfolding record_staged lock unlock put_new
  record_staged-ok id staging path access pid s free p k =
      let m = mode_of-named_mode access in grind arith

  wait_loop-path :
      (rounds deadline : ℕ) (path found : String) (h : H.State)
      → (wait_loop H rounds deadline path h).0 ≡ ok found
      → found ≡ path
  unfolding wait_loop
  wait_loop-path zero deadline path found h k = grind arith
  wait_loop-path (suc rounds) deadline path found h k =
      grind (arith, wait_loop-path rounds deadline path found)

  create_ublk_device-path :
      (id size path : String) (recovery read_only : Bool) (pid : ℕ) (u : Ublk H)
      → (create_ublk_device H id size recovery read_only u).0 ≡ ok (path, pid)
      → path ≡ ublk_by_uuid_path id
  unfolding create_ublk_device wait_for_by_uuid_link
  create_ublk_device-path id size path recovery read_only pid u k =
      let m = get_binary_path H u.manager in
      let h =
        (start_ublk_unit H id m.ublk_binary (ublk_args id m.client_id recovery read_only)
          (ublk_env H m) "/var/niova" u.host).1 in
      grind (arith, wait_loop-path (wait_rounds H) (H.now h + 30000) (ublk_by_uuid_path id) path h)

  stage_checked-ok :
      (id staging : String) (access : AccessType) (size : String) (recovery read_only : Bool)
      (s : NodeServer H)
      → s.mutex ≡ unlocked
      → is_staged s.node id ≡ false
      → (stage_checked H id staging access size recovery read_only s).0 ≡ ok tt
      → Stages id staging access s.node
          (stage_checked H id staging access size recovery read_only s).1.node
  unfolding stage_checked r_lock r_unlock
  stage_checked-ok id staging access size recovery read_only s free new k =
      let path = create_ublk_device-path id size in
      elim (success_cases (create_ublk_device H id size recovery read_only s.ublk)) [
        | inr e ↦ grind arith
        | inl (link, pid, u, created) ↦
            let link_path = path link recovery read_only pid s.ublk in
            grind (arith, record_staged-ok id staging link access pid)
      ]

  -- Where `NodeStageVolume`, called on a free mutex for a volume that is not staged, ends with a
  -- success, the ID is a UUID, and the one change of the volume map is a new entry for the volume:
  -- it has the udev link of the volume as its device, the mode "block" where the capability is for a
  -- block volume and "mount" otherwise, the requested staging path and no target path.
  pub node_stage_volume-ok :
      (req : NodeStageRequest) (cap : VolumeCapability) (s : NodeServer H)
      → s.mutex ≡ unlocked
      → req.volume_capability ≡ some cap
      → is_staged s.node req.volume_id ≡ false
      → (node_stage_volume H req s).0 ≡ ok tt
      → Stages req.volume_id req.staging_target_path cap.access_type s.node
          (node_stage_volume H req s).1.node
  unfolding node_stage_volume
  node_stage_volume-ok req cap s free c new k =
      grind (arith, stage_checked-ok req.volume_id req.staging_target_path cap.access_type)
