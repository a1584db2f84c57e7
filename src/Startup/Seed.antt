-- ===== src/Startup/Seed.antt =====
-- Which volumes the node plugin remembers after a start: `UpdateNodeVolumeMap` of pkg/config/config.go.
use niova_block_csi.Prelude.{
  ℕ, String, ◌≡◌, refl, Bool, true, false, List, [], ◌∷◌, ◌&&◌, ◌||◌, Option, none, some, ◌==◌,
  arith, eq_iff, if◌then◌else◌, Option-cases, inl, inr,
}
use niova_block_csi.Prelude.Dict.{lookup, lookup-insert}
use niova_block_csi.Go.Exec.{ok, returned, failed}
use niova_block_csi.Types.{Uuid, NodeVolume, Node, empty_volume, ublk_by_uuid_path}
use niova_block_csi.Config.Plane.{VdevConfig}
use niova_block_csi.Node.Host.{Host}
use niova_block_csi.Node.State.{entry, write, put_new}
use niova_block_csi.Node.State.Laws.{IsWf, put_new-IsWf, entry-put_new}
use niova_block_csi.Node.Server.{NodeServer}
use niova_block_csi.Startup.{ensure_entry, set_vol_id, set_ublk_path, fill_entry, seed_one, seed}

pub ensure_entry-IsWf : (id : String) (n : Node) → IsWf n → IsWf (ensure_entry id n).1
unfolding ensure_entry
ensure_entry-IsWf id n wf = elim (Option-cases (lookup id n.vol_map)) [
  | inl none_ ↦ grind (arith, put_new-IsWf)
  | inr (p, known) ↦ grind arith
]

write-IsWf : (p : ℕ) (v : NodeVolume) (n : Node) → IsWf n → IsWf (write p v n)
unfolding write
write-IsWf p v n wf = record { below = wf.below; apart = wf.apart }

-- The pointer of a volume, after the entry was made.
pub ensure_entry-lookup :
    (id : String) (n : Node) → lookup id (ensure_entry id n).1.vol_map ≡ some (ensure_entry id n).0
unfolding ensure_entry put_new
ensure_entry-lookup id n = ground (arith, lookup-insert id id n.next n.vol_map, eq_iff id id)

abbrev pub or_empty : Option NodeVolume → NodeVolume
or_empty none = empty_volume
or_empty (some v) = v

pub ensure_entry-entry :
    (id other : String) (n : Node)
    → IsWf n
    → entry (ensure_entry id n).1 other
      ≡ (if id == other then some (or_empty (entry n other)) else entry n other)
unfolding ensure_entry entry
ensure_entry-entry id other n wf = elim (Option-cases (lookup id n.vol_map)) [
  | inl x ↦ ground (arith, entry-put_new id other empty_volume n wf, eq_iff id other)
  | inr (p, x) ↦ ground (arith, eq_iff id other)
]

pub entry-write :
    (id other : String) (p : ℕ) (v : NodeVolume) (n : Node)
    → IsWf n
    → lookup id n.vol_map ≡ some p
    → entry (write p v n) other ≡ (if id == other then some v else entry n other)
unfolding entry write
entry-write id other p v n wf x = grind (arith, eq_iff id other, wf.apart id other p)

pub entry_at :
    (id : String) (p : ℕ) (n : Node) → lookup id n.vol_map ≡ some p → entry n id ≡ some (n.heap p)
unfolding entry
entry_at id p n x = ground arith

module _ (H : Host) where
  -- Whether a path answers to `os.Stat`.
  abbrev pub is_live : H.State → String → Bool
  is_live h id = elim (H.stat (ublk_by_uuid_path id) h).0 [ returned _ ↦ true | failed _ ↦ false ]

  -- The value of `uuid.Parse`, with an error or without.
  abbrev pub uuid_of : String → Uuid
  uuid_of id = elim (H.parse_uuid id) [ returned u ↦ u | failed _ ↦ H.uuid_beside_error id ]

  -- The entry of a volume whose device is there.
  abbrev pub seeded : String → Option NodeVolume → NodeVolume
  seeded id old = record (or_empty old) { vol_id = uuid_of id; ublk_path = ublk_by_uuid_path id }

  fill_entry-IsWf :
      (id : String) (p : ℕ) (s : NodeServer H) → IsWf s.node → IsWf (fill_entry H id p s).1.node
  unfolding fill_entry
  fill_entry-IsWf id p s wf = grind (arith, write-IsWf)

  seed_one-IsWf : (v : VdevConfig) (s : NodeServer H) → IsWf s.node → IsWf (seed_one H v s).1.node
  unfolding seed_one
  seed_one-IsWf v s wf = grind (arith, fill_entry-IsWf, ensure_entry-IsWf)

  fill_entry-ok :
      (id other : String) (p : ℕ) (s : NodeServer H)
      → IsWf s.node
      → lookup id s.node.vol_map ≡ some p
      → (fill_entry H id p s).0 ≡ ok tt
      → entry (fill_entry H id p s).1.node other
        ≡ (if id == other then some (seeded id (entry s.node other)) else entry s.node other)
  unfolding fill_entry set_vol_id set_ublk_path write entry
  fill_entry-ok id other p s wf known k = grind (arith, eq_iff id other, wf.apart id other p)

  -- One round of the loop, where it goes on to the next.
  seed_one-ok :
      (v : VdevConfig) (other : String) (s : NodeServer H)
      → IsWf s.node
      → (seed_one H v s).0 ≡ ok tt
      → entry (seed_one H v s).1.node other ≡ (
          if is_live s.ublk.host v.id && v.id == other
          then some (seeded v.id (entry s.node other))
          else entry s.node other)
  unfolding seed_one
  seed_one-ok v other s wf k =
      let n = (ensure_entry v.id s.node).1 in
      let p = (ensure_entry v.id s.node).0 in
      let wf' = ensure_entry-IsWf v.id s.node wf in
      let at = ensure_entry-lookup v.id s.node in
      let made = ensure_entry-entry v.id other s.node wf in
      let h = (H.stat (ublk_by_uuid_path v.id) s.ublk.host).1 in
      let s' : NodeServer H = record s { node = n; ublk = record s.ublk { host = h } } in
      let filled = fill_entry-ok v.id other p s' wf' at in ground (arith, eq_iff v.id other)

  -- `os.Stat` looks at the host and changes nothing.
  pub record IsReadOnly : Type 0 where
    pub stat_keeps : (path : String) (h : H.State) → (H.stat path h).1 ≡ h

  pub seed_one-host :
      IsReadOnly → (v : VdevConfig) (s : NodeServer H) → (seed_one H v s).1.ublk.host ≡ s.ublk.host
  unfolding seed_one fill_entry
  seed_one-host quiet v s = grind (arith, quiet.stat_keeps)

  seed_one-node_id : (v : VdevConfig) (s : NodeServer H) → (seed_one H v s).1.node_id ≡ s.node_id
  unfolding seed_one fill_entry
  seed_one-node_id v s = grind arith

  seed_one-mutex : (v : VdevConfig) (s : NodeServer H) → (seed_one H v s).1.mutex ≡ s.mutex
  unfolding seed_one fill_entry
  seed_one-mutex v s = grind arith

-- Whether a listing has a volume with this ID.
unfoldable pub lists_id : String → List VdevConfig → Bool
lists_id id [] = false
lists_id id (v ∷ vs) = v.id == id || lists_id id vs

module _ (H : Host) where
  seed-cons :
      (v : VdevConfig) (vs : List VdevConfig) (s : NodeServer H)
      → (seed H (v ∷ vs) s).0 ≡ ok tt
      → ((seed_one H v s).0 ≡ ok tt) × (seed H (v ∷ vs) s ≡ seed H vs (seed_one H v s).1)
  unfolding seed
  seed-cons v vs s k = grind arith

  pub seed-IsWf :
      (vs : List VdevConfig) (s : NodeServer H) → IsWf s.node → IsWf (seed H vs s).1.node
  unfolding seed
  seed-IsWf [] s wf = wf
  seed-IsWf (v ∷ vs) s wf =
      let wf' = seed_one-IsWf H v s wf in
      let more = seed-IsWf vs (seed_one H v s).1 wf' in grind arith

  pub seed-host :
      IsReadOnly H
      → (vs : List VdevConfig) (s : NodeServer H) → (seed H vs s).1.ublk.host ≡ s.ublk.host
  unfolding seed
  seed-host quiet [] s = refl
  seed-host quiet (v ∷ vs) s =
      let here = seed_one-host H quiet v s in
      let more = seed-host quiet vs (seed_one H v s).1 in ground arith

  pub seed-node_id : (vs : List VdevConfig) (s : NodeServer H) → (seed H vs s).1.node_id ≡ s.node_id
  unfolding seed
  seed-node_id [] s = refl
  seed-node_id (v ∷ vs) s =
      let here = seed_one-node_id H v s in
      let more = seed-node_id vs (seed_one H v s).1 in ground arith

  pub seed-mutex : (vs : List VdevConfig) (s : NodeServer H) → (seed H vs s).1.mutex ≡ s.mutex
  unfolding seed
  seed-mutex [] s = refl
  seed-mutex (v ∷ vs) s =
      let here = seed_one-mutex H v s in let more = seed-mutex vs (seed_one H v s).1 in ground arith

  pub seed-ok :
      (vs : List VdevConfig) (other : String) (s : NodeServer H)
      → IsReadOnly H
      → IsWf s.node
      → (seed H vs s).0 ≡ ok tt
      → entry (seed H vs s).1.node other ≡ (
          if lists_id other vs && is_live H s.ublk.host other
          then some (seeded H other (entry s.node other))
          else entry s.node other)
  unfolding lists_id
  seed-ok [] other s quiet wf k = unfold seed in refl
  seed-ok (v ∷ vs) other s quiet wf k =
      let (k1, e) = seed-cons v vs s k in
      let s' = (seed_one H v s).1 in
      let k2 : (seed H vs s').0 ≡ ok tt = ground (arith, e) in
      let wf' = seed_one-IsWf H v s wf in
      let first = seed_one-ok H v other s wf k1 in
      let same = seed_one-host H quiet v s in
      let more = seed-ok vs other s' quiet wf' k2 in ground (arith, eq_iff v.id other)
