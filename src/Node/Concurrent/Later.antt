-- ===== src/Node/Concurrent/Later.antt =====
-- What a goroutine of pkg/node/node.go may rely on in the volume map while others write it, and what
-- each write to the map guarantees to the others.
use mathlib.Core.Path.{subst}
use niova_block_csi.Prelude.{
  ℕ, String, ◌≡◌, ◌≤◌, ◌<◌, sym, ap, ◌∙◌, false, some, ◌==◌, arith, eq_iff,
}
use niova_block_csi.Prelude.Dict.{lookup, lookup-insert, lookup-delete}
use niova_block_csi.Types.{NodeVolume, Node}
use niova_block_csi.Go.Mutex.{unlocked}
use niova_block_csi.Node.Host.{Host}
use niova_block_csi.Node.State.{entry, write, put_new, drop, set_target}
use niova_block_csi.Node.State.Laws.{
  IsWf, put_new-IsWf, drop-IsWf, set_target-IsWf, entry-put_new, entry-drop,
}
use niova_block_csi.Node.Server.{NodeServer}
use niova_block_csi.Node.Service.{IsSound}

-- A later map: no pointer is taken back, and an old pointer is found only where it was found before.
pub record Later (n n' : Node) : Type 0 where
  pub grows : n.next ≤ n'.next
  pub old :
      (id : String) (p : ℕ)
      → p < n.next
      → lookup id n'.vol_map ≡ some p
      → lookup id n.vol_map ≡ some p

pub Later-refl : (n : Node) → Later n n
Later-refl n = record { grows = omega arith; old = λ id p b x. x }

pub Later-trans : (a b c : Node) → Later a b → Later b c → Later a c
Later-trans a b c ab bc = record {
  grows = omega arith;
  old = λ id p lt x. ab.old id p lt (bc.old id p (omega (arith, ab.grows)) x);
}

-- A pointer that the map gives for this volume or for none.
pub record Owns (id : String) (p : ℕ) (n : Node) : Type 0 where
  pub handed_out : p < n.next
  pub mine : (other : String) → lookup other n.vol_map ≡ some p → other ≡ id

pub Owns-Later : (id : String) (p : ℕ) (n n' : Node) → Later n n' → Owns id p n → Owns id p n'
Owns-Later id p n n' later owns = record {
  handed_out = omega (arith, later.grows, owns.handed_out);
  mine = λ other x. owns.mine other (later.old other p owns.handed_out x);
}

pub lookup-Owns :
    (id : String) (p : ℕ) (n : Node) → IsWf n → lookup id n.vol_map ≡ some p → Owns id p n
lookup-Owns id p n wf x = record {
  handed_out = wf.below id p x;
  mine = λ other y. wf.apart other id p y x;
}

put_new-Later : (id : String) (v : NodeVolume) (n : Node) → Later n (put_new id v n)
unfolding put_new
put_new-Later id v n = record {
  grows = omega arith;
  old = λ other p lt x. ground (arith, lookup-insert id other n.next n.vol_map);
}

drop-Later : (id : String) (n : Node) → Later n (drop id n)
unfolding drop
drop-Later id n = record {
  grows = omega arith;
  old = λ other p lt x. ground (arith, lookup-delete id other n.vol_map);
}

set_target-Later : (p : ℕ) (target : String) (n : Node) → Later n (set_target p target n)
unfolding set_target write
set_target-Later p target n = record { grows = omega arith; old = λ other q lt x. x }

entry-set_target_other :
    (id other target : String) (p : ℕ) (n : Node)
    → Owns id p n
    → (id == other) ≡ false
    → entry (set_target p target n) other ≡ entry n other
unfolding entry set_target write
entry-set_target_other id other target p n owns apart =
    grind (arith, owns.mine other, eq_iff id other)

module _ (H : Host) where
  -- What a section of a call for one volume leaves to all others.
  pub record Keeps (id : String) (s s' : NodeServer H) : Type 0 where
    pub sound : IsSound H s'
    pub later : Later s.node s'.node
    pub others : (other : String) → (id == other) ≡ false → entry s'.node other ≡ entry s.node other

  module _ (id : String) (s s' : NodeServer H) (sound : IsSound H s)
      (free : s'.mutex ≡ unlocked) where
    pub same-Keeps : s'.node ≡ s.node → Keeps id s s'
    same-Keeps e = record {
      sound = (free, subst IsWf (sym e) sound.1);
      later = subst (λ n. Later s.node n) (sym e) (Later-refl s.node);
      others = λ other apart. ap (λ n. entry n other) e;
    }

    pub put_new-Keeps : (v : NodeVolume) → s'.node ≡ put_new id v s.node → Keeps id s s'
    put_new-Keeps v e = record {
      sound = (free, subst IsWf (sym e) (put_new-IsWf id v s.node sound.1));
      later = subst (λ n. Later s.node n) (sym e) (put_new-Later id v s.node);
      others = λ other apart. ground (arith, e, entry-put_new id other v s.node sound.1);
    }

    pub drop-Keeps : s'.node ≡ drop id s.node → Keeps id s s'
    drop-Keeps e = record {
      sound = (free, subst IsWf (sym e) (drop-IsWf id s.node sound.1));
      later = subst (λ n. Later s.node n) (sym e) (drop-Later id s.node);
      others = λ other apart. ground (arith, e, entry-drop id other s.node);
    }

    pub set_target-Keeps :
        (p : ℕ) (target : String)
        → Owns id p s.node
        → s'.node ≡ set_target p target s.node
        → Keeps id s s'
    set_target-Keeps p target owns e = record {
      sound = (free, subst IsWf (sym e) (set_target-IsWf p target s.node sound.1));
      later = subst (λ n. Later s.node n) (sym e) (set_target-Later p target s.node);
      others = λ other apart.
          ap (λ n. entry n other) e ∙ entry-set_target_other id other target p s.node owns apart;
    }
