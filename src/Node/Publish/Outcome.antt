-- ===== src/Node/Publish/Outcome.antt =====
-- What `NodePublishVolume` and `NodeUnpublishVolume` of pkg/node/node.go leave in the volume map.
use niova_block_csi.Prelude.{
  ℕ, String, ◌≡◌, Bool, true, false, none, some, ◌==◌, Option-cases, inl, inr, arith, if◌then◌else◌,
}
use text.Mathlib.TextEquality.{eq_iff}
use niova_block_csi.Prelude.Dict.{lookup}
use niova_block_csi.Go.Exec.{ok}
use niova_block_csi.Go.Mutex.{unlocked, lock, unlock, r_lock, r_unlock}
use niova_block_csi.Csi.{NodePublishRequest}
use niova_block_csi.Node.Host.{Host}
use niova_block_csi.Node.State.{entry, set_target}
use niova_block_csi.Node.State.Laws.{IsWf, retarget, entry-set_target}
use niova_block_csi.Node.Server.{NodeServer}
use niova_block_csi.Node.Publish.{
  publish_at, node_publish_volume, remove_target, node_unpublish_volume,
}
use niova_block_csi.Node.Stage.Outcome.{Failing}

module _ (H : Host) where
  pub publish_at-keeps :
      (block : Bool) (device staging target : String) (s : NodeServer H)
      → ((publish_at H block device staging target s).1.node ≡ s.node)
        × ((publish_at H block device staging target s).1.mutex ≡ s.mutex)
  unfolding publish_at
  publish_at-keeps true device staging target s = grind arith
  publish_at-keeps false device staging target s = grind arith

  pub remove_target-keeps :
      (target : String) (s : NodeServer H)
      → ((remove_target H target s).1.node ≡ s.node)
        × ((remove_target H target s).1.mutex ≡ s.mutex)
  unfolding remove_target
  remove_target-keeps target s = grind arith

  -- Where `NodePublishVolume` is called on a free mutex and does not end with a success, the volume
  -- map and all that it points to are as before.
  pub node_publish_volume-Failing :
      (req : NodePublishRequest) (s : NodeServer H)
      → s.mutex ≡ unlocked
      → Failing (node_publish_volume H req s).0 s.node (node_publish_volume H req s).1.node
  unfolding node_publish_volume r_lock r_unlock lock unlock
  node_publish_volume-Failing req s free = grind (arith, publish_at-keeps)

  publish-known :
      (req : NodePublishRequest) (s : NodeServer H)
      → s.mutex ≡ unlocked
      → (node_publish_volume H req s).0 ≡ ok tt
      → lookup req.volume_id s.node.vol_map ≡ none
      → ⊥
  unfolding node_publish_volume r_lock r_unlock
  publish-known req s free k none_ = ground arith

  publish-writes :
      (req : NodePublishRequest) (p : ℕ) (s : NodeServer H)
      → s.mutex ≡ unlocked
      → (node_publish_volume H req s).0 ≡ ok tt
      → lookup req.volume_id s.node.vol_map ≡ some p
      → (node_publish_volume H req s).1.node ≡ set_target p req.target_path s.node
  unfolding node_publish_volume r_lock r_unlock lock unlock
  publish-writes req p s free k known = grind (arith, publish_at-keeps)

  -- Where `NodePublishVolume`, called on a free mutex and a well-formed map, ends with a success, the
  -- volume was staged, its target path is now the requested one, the rest of its entry is as before,
  -- and so are the entries of all other volumes.
  pub node_publish_volume-ok :
      (req : NodePublishRequest) (other : String) (s : NodeServer H)
      → s.mutex ≡ unlocked
      → IsWf s.node
      → (node_publish_volume H req s).0 ≡ ok tt
      → ((entry s.node req.volume_id ≡ none) → ⊥)
        × (entry (node_publish_volume H req s).1.node other ≡ (
            if req.volume_id == other
            then retarget req.target_path (entry s.node other)
            else entry s.node other))
  unfolding entry
  node_publish_volume-ok req other s free wf k =
      elim (Option-cases (lookup req.volume_id s.node.vol_map)) [
        | inl c ↦ absurd (publish-known req s free k c)
        | inr (p, c) ↦
            let after = publish-writes req p s free k c in
            let at = entry-set_target req.volume_id other req.target_path p s.node wf c in
            ground arith
      ]

  -- Where `NodeUnpublishVolume` is called on a free mutex and does not end with a success, the volume
  -- map and all that it points to are as before.
  pub node_unpublish_volume-Failing :
      (id target : String) (s : NodeServer H)
      → s.mutex ≡ unlocked
      → Failing
          (node_unpublish_volume H id target s).0
          s.node
          (node_unpublish_volume H id target s).1.node
  unfolding node_unpublish_volume r_lock r_unlock lock unlock
  node_unpublish_volume-Failing id target s free = grind (arith, remove_target-keeps)

  unpublish-unknown :
      (id target : String) (s : NodeServer H)
      → s.mutex ≡ unlocked
      → lookup id s.node.vol_map ≡ none
      → (node_unpublish_volume H id target s).1.node ≡ s.node
  unfolding node_unpublish_volume r_lock r_unlock
  unpublish-unknown id target s free none_ = grind arith

  unpublish-writes :
      (id target : String) (p : ℕ) (s : NodeServer H)
      → s.mutex ≡ unlocked
      → (node_unpublish_volume H id target s).0 ≡ ok tt
      → lookup id s.node.vol_map ≡ some p
      → (node_unpublish_volume H id target s).1.node ≡ set_target p "" s.node
  unfolding node_unpublish_volume r_lock r_unlock lock unlock
  unpublish-writes id target p s free k known = grind (arith, remove_target-keeps)

  -- Where `NodeUnpublishVolume`, called on a free mutex and a well-formed map, ends with a success,
  -- the volume has no target path any more if it has an entry, and all else is as before.
  pub node_unpublish_volume-ok :
      (id target other : String) (s : NodeServer H)
      → s.mutex ≡ unlocked
      → IsWf s.node
      → (node_unpublish_volume H id target s).0 ≡ ok tt
      → entry (node_unpublish_volume H id target s).1.node other
        ≡ (if id == other then retarget "" (entry s.node other) else entry s.node other)
  unfolding entry
  node_unpublish_volume-ok id target other s free wf k =
      elim (Option-cases (lookup id s.node.vol_map)) [
        | inl c ↦
            let after = unpublish-unknown id target s free c in ground (arith, eq_iff id other)
        | inr (p, c) ↦
            let after = unpublish-writes id target p s free k c in
            let at = entry-set_target id other "" p s.node wf c in ground arith
      ]
