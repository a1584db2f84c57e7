-- ===== src/Node/State/Laws.antt =====
-- The volume map of the node plugin, with its pointers: what each write of pkg/node/node.go does to
-- the entry of every volume.
use niova_block_csi.Prelude.{ℕ, String, ◌≡◌, ◌<◌, Option, none, some, ◌==◌, arith, if◌then◌else◌}
use niova_block_csi.Prelude.Dict.{lookup, lookup-insert, lookup-delete}
use text.Mathlib.TextEquality.{eq_iff}
use niova_block_csi.Types.{NodeVolume, Node}
use niova_block_csi.Node.State.{entry, write, put_new, drop, set_target}

-- Every pointer in the map has been handed out, and no two volumes share one.
pub record IsWf (n : Node) : Type 0 where
  pub below : (id : String) (p : ℕ) → lookup id n.vol_map ≡ some p → p < n.next
  pub apart :
      (id other : String) (p : ℕ)
      → lookup id n.vol_map ≡ some p
      → lookup other n.vol_map ≡ some p
      → id ≡ other

pub put_new-IsWf : (id : String) (v : NodeVolume) (n : Node) → IsWf n → IsWf (put_new id v n)
unfolding put_new
put_new-IsWf id v n wf = record {
  below = λ a p x. grind (arith, lookup-insert id a n.next n.vol_map, wf.below a p);
  apart = λ a b p x y. grind (
    arith,
    eq_iff id a,
    eq_iff id b,
    lookup-insert id a n.next n.vol_map,
    lookup-insert id b n.next n.vol_map,
    wf.below a p,
    wf.below b p,
    wf.apart a b p,
  );
}

pub drop-IsWf : (id : String) (n : Node) → IsWf n → IsWf (drop id n)
unfolding drop
drop-IsWf id n wf = record {
  below = λ a p x. grind (arith, lookup-delete id a n.vol_map, wf.below a p);
  apart = λ a b p x y.
      grind (arith, lookup-delete id a n.vol_map, lookup-delete id b n.vol_map, wf.apart a b p);
}

pub set_target-IsWf : (p : ℕ) (target : String) (n : Node) → IsWf n → IsWf (set_target p target n)
unfolding set_target write
set_target-IsWf p target n wf = record { below = wf.below; apart = wf.apart }

pub entry-put_new :
    (id other : String) (v : NodeVolume) (n : Node)
    → IsWf n
    → entry (put_new id v n) other ≡ (if id == other then some v else entry n other)
unfolding entry put_new
entry-put_new id other v n wf =
    grind (arith, lookup-insert id other n.next n.vol_map, wf.below other)

pub entry-drop :
    (id other : String) (n : Node)
    → entry (drop id n) other ≡ (if id == other then none else entry n other)
unfolding entry drop
entry-drop id other n = grind (arith, lookup-delete id other n.vol_map)

-- An entry with another target path.
abbrev pub retarget : String → Option NodeVolume → Option NodeVolume
retarget target none = none
retarget target (some v) = some (record v { target_path = target })

pub entry-set_target :
    (id other target : String) (p : ℕ) (n : Node)
    → IsWf n
    → lookup id n.vol_map ≡ some p
    → entry (set_target p target n) other
      ≡ (if id == other then retarget target (entry n other) else entry n other)
unfolding entry set_target write
entry-set_target id other target p n wf x = grind (arith, eq_iff id other, wf.apart id other p)
