-- ===== src/Node/Stage/Unstage.antt =====
-- What `NodeUnstageVolume` of pkg/node/node.go leaves in the volume map, and what it does to the host.
use mathlib.Core.Path.{ap, sym}
use niova_block_csi.Prelude.{
  ℕ, String, ◌≡◌, none, ◌==◌, Option-cases, Bool-cases, ◌⊎◌, inl, inr, arith, if◌then◌else◌,
}
use text.Mathlib.TextEquality.{eq_iff}
use niova_block_csi.Prelude.Dict.{lookup}
use niova_block_csi.Go.Error.{Error}
use niova_block_csi.Go.Exec.{Result, ok, err}
use niova_block_csi.Go.Mutex.{unlocked, lock, unlock, r_lock, r_unlock}
use niova_block_csi.Types.{Node}
use niova_block_csi.Node.Host.{Host}
use niova_block_csi.Node.State.{entry, drop, invalid}
use niova_block_csi.Node.State.Laws.{entry-drop}
use niova_block_csi.Node.Server.{NodeServer}
use niova_block_csi.Node.Stage.{unstage_mapped, node_unstage_volume}
use niova_block_csi.Node.Stage.Outcome.{Failing}

module _ (H : Host) where
  -- What `unstage_mapped` makes of the volume map, by the way it ends.
  abbrev Unmaps : String → Result (Unit {0}) → Node → Node → Type 0
  Unmaps id (ok _) n n' = n' ≡ drop id n
  Unmaps id _ n n' = n' ≡ n

  unstage_mapped-Unmaps :
      (id staging : String) (p : ℕ) (s : NodeServer H)
      → s.mutex ≡ unlocked
      → Unmaps id
          (unstage_mapped H id staging p s).0
          s.node
          (unstage_mapped H id staging p s).1.node
  unfolding unstage_mapped lock unlock
  unstage_mapped-Unmaps id staging p s free = ground arith

  -- The branches of `NodeUnstageVolume` on a free mutex: a bad request, a volume without an entry,
  -- or one with an entry.
  pub unstage_cases :
      (id staging : String) (s : NodeServer H)
      → s.mutex ≡ unlocked
      → ((e : Error) × (node_unstage_volume H id staging s ≡ (err e, s)))
        ⊎ ((lookup id s.node.vol_map ≡ none) × (node_unstage_volume H id staging s ≡ (ok tt, s)))
        ⊎ ((p : ℕ) × (node_unstage_volume H id staging s ≡ unstage_mapped H id staging p s))
  unfolding node_unstage_volume r_lock r_unlock
  unstage_cases id staging s free = elim (Bool-cases (id == "")) [
    | inl a ↦ inl (invalid "Volume ID cannot be empty", ground arith)
    | inr a ↦ elim (Bool-cases (staging == "")) [
      | inl b ↦ inl (invalid "Staging target path cannot be empty", ground arith)
      | inr b ↦ elim (Option-cases (lookup id s.node.vol_map)) [
        | inl c ↦ inr (inl (c, ground arith))
        | inr (p, c) ↦ inr (
            inr (
              p,
              simp (a, b, c, free)
                  (ap (λ x. unstage_mapped H id staging p (record s { mutex = x })) (sym free)),
            ))
      ]
    ]
  ]

  -- Where `NodeUnstageVolume` is called on a free mutex and does not end with a success, the volume
  -- map and all that it points to are as before, so that the caller can try again.
  pub node_unstage_volume-Failing :
      (id staging : String) (s : NodeServer H)
      → s.mutex ≡ unlocked
      → Failing
          (node_unstage_volume H id staging s).0
          s.node
          (node_unstage_volume H id staging s).1.node
  node_unstage_volume-Failing id staging s free = elim (unstage_cases id staging s free) [
    | inl (e, x) ↦ ground arith
    | inr (inl (c, x)) ↦ ground arith
    | inr (inr (p, x)) ↦ ground (arith, unstage_mapped-Unmaps id staging p s free)
  ]

  -- Where `NodeUnstageVolume`, called on a free mutex, ends with a success, the volume has no entry
  -- any more, and the entries of all other volumes are as before.
  pub node_unstage_volume-ok :
      (id staging other : String) (s : NodeServer H)
      → s.mutex ≡ unlocked
      → (node_unstage_volume H id staging s).0 ≡ ok tt
      → entry (node_unstage_volume H id staging s).1.node other
        ≡ (if id == other then none else entry s.node other)
  unfolding entry
  node_unstage_volume-ok id staging other s free k = elim (unstage_cases id staging s free) [
    | inl (e, x) ↦ ground arith
    | inr (inl (c, x)) ↦ ground (arith, eq_iff id other)
    | inr (inr (p, x)) ↦
        ground (arith, unstage_mapped-Unmaps id staging p s free, entry-drop id other s.node)
  ]
