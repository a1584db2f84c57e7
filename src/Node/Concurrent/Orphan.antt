-- ===== src/Node/Concurrent/Orphan.antt =====
-- What a publish of pkg/node/node.go does through a pointer whose volume was unstaged meanwhile.
use mathlib.Core.Path.{subst}
use niova_block_csi.Prelude.{
  ℕ, String, ◌≡◌, refl, sym, ap, ◌∙◌, [], none, some, ◌∷◌, nat_eq, arith, eq_refl, if◌then◌else◌,
}
use niova_block_csi.Prelude.Dict.{lookup-delete}
use niova_block_csi.Go.Exec.{ok}
use niova_block_csi.Go.Mutex.{unlocked, r_lock, r_unlock}
use niova_block_csi.Csi.{NodePublishRequest}
use niova_block_csi.Types.{Node}
use niova_block_csi.Node.Host.{Host}
use niova_block_csi.Node.State.{entry, drop, set_target}
use niova_block_csi.Node.Server.{NodeServer, writing}
use niova_block_csi.Node.Service.{NodeCall, unstage, publish}
use niova_block_csi.Node.Concurrent.{
  Goroutine, finished, section, last, Pool, step, run_all, steps_of, publish_inputs, publish_bind,
  publish_steps, unstage_inputs, unstage_unmount, unstage_device, unstage_rest, unstage_steps,
}
use niova_block_csi.Node.Concurrent.Calls.{
  unstage_unmount-Quiet, unstage_device-Quiet, publish_bind-Quiet,
}
use niova_block_csi.Node.Concurrent.Settles.{unstage_device-ok, writing-free}
use niova_block_csi.Node.Concurrent.Race.{Turned, turn}
use niova_block_csi.Node.Concurrent.Schedule.{start}

-- Goroutine 0 publishes a volume, and the others unstage it.
abbrev pub publish_and_unstage : NodePublishRequest → ℕ → NodeCall
publish_and_unstage req i =
    if nat_eq i 0 then publish req else unstage req.volume_id req.staging_target_path

module _ (H : Host) where
  -- The server behind the unstage of a volume with this pointer.
  abbrev pub unstaged : String → String → ℕ → NodeServer H → NodeServer H
  unstaged id staging p s =
      let t = (unstage_device H id staging p (unstage_unmount H staging s).1).1 in
      record t { node = drop id t.node }

  passes_both :
      (req : NodePublishRequest) (p : ℕ) (s : NodeServer H)
      → s.mutex ≡ unlocked
      → publish_inputs H req s ≡ (ok p, s)
      → unstage_inputs H req.volume_id req.staging_target_path s ≡ (ok (some p), s)
  unfolding publish_inputs unstage_inputs r_lock r_unlock
  passes_both req p s free passes = ground arith

  -- The four turns of an unstage that goes through.
  unstage_turns :
      (id staging : String) (p : ℕ) (c : Pool H) (s : NodeServer H)
      → c.threads 1 ≡ unstage_steps H id staging
      → c.server ≡ s
      → s.mutex ≡ unlocked
      → unstage_inputs H id staging s ≡ (ok (some p), s)
      → (unstage_unmount H staging s).0 ≡ ok tt
      → Turned H 1 c (run_all H (1 ∷ 1 ∷ 1 ∷ 1 ∷ []) c) (finished (ok tt)) (unstaged id staging p s)
  unfolding run_all unstage_steps unstage_rest
  unstage_turns id staging p c s own at free passes unmounts =
      let s1 = (unstage_unmount H staging s).1 in
      let s2 = (unstage_device H id staging p s1).1 in
      let s3 = unstaged id staging p s in
      let (free1, same1) = unstage_unmount-Quiet H id staging s free in
      let (free2, same2) = unstage_device-Quiet H id id staging p s1 free1 in
      let done : Unit {0} → Goroutine H = λ x. finished (ok tt) in
      let to_drop : Unit {0} → Goroutine H = λ x. last H (writing H (drop id)) in
      let to_delete : Unit {0} → Goroutine H =
        λ x. section H (unstage_device H id staging p) to_drop in
      let c1 = step H 1 c in
      let c2 = step H 1 c1 in
      let c3 = step H 1 c2 in
      let t1 =
        turn H 1 c (unstage_inputs H id staging) (unstage_rest H id staging) (some p) s own
          (ap (unstage_inputs H id staging) at ∙ passes) in
      let t2 =
        turn H 1 c1 (unstage_unmount H staging) to_delete tt s1 t1.own
          (ap (unstage_unmount H staging) t1.server ∙ ap (λ r. (r, s1)) unmounts) in
      let t3 = turn H 1 c2 (unstage_device H id staging p) to_drop tt s2 t2.own (
        ap (unstage_device H id staging p) t2.server
        ∙ ap (λ r. (r, s2)) (unstage_device-ok H id staging p s1)) in
      let t4 =
        turn H 1 c3 (writing H (drop id)) done tt s3 t3.own
          (ap (writing H (drop id)) t3.server ∙ writing-free H (drop id) s2 free2) in
      record {
        own = t4.own;
        server = t4.server;
        other =
            λ j apart. t4.other j apart ∙ t3.other j apart ∙ t2.other j apart ∙ t1.other j apart;
      }

  -- A write through the pointer of a volume that was dropped.
  entry-gone :
      (id target : String) (p : ℕ) (n n' : Node)
      → n' ≡ drop id n
      → entry (set_target p target n') id ≡ none
  unfolding entry set_target drop
  entry-gone id target p n n' e =
      let gone = lookup-delete id id n.vol_map in
      let here = eq_refl id in
      subst (λ x. entry (set_target p target x) id ≡ none) (sym e) (ground arith)

  -- A publish, on a free mutex, that takes its pointer before an unstage of its volume and binds behind
  -- it: where the unmount of the unstage and the bind mount of the publish go through, both calls may
  -- return a success, and the volume has no entry then. The bind mount comes after the staging path was
  -- unmounted and the device deleted.
  pub publish_races :
      (req : NodePublishRequest) (p : ℕ) (s : NodeServer H)
      → s.mutex ≡ unlocked
      → publish_inputs H req s ≡ (ok p, s)
      → (unstage_unmount H req.staging_target_path s).0 ≡ ok tt
      → (publish_bind H req p (unstaged req.volume_id req.staging_target_path p s)).0 ≡ ok tt
      → let c = run_all H (0 ∷ 1 ∷ 1 ∷ 1 ∷ 1 ∷ 0 ∷ 0 ∷ []) (start H (publish_and_unstage req) s) in
        (c.threads 0 ≡ finished (ok tt))
        × (c.threads 1 ≡ finished (ok tt))
        × (entry c.server.node req.volume_id ≡ none)
  unfolding run_all steps_of publish_steps
  publish_races req p s free passes unmounts binds =
      let id = req.volume_id in
      let staging = req.staging_target_path in
      let c0 = start H (publish_and_unstage req) s in
      let c1 = step H 0 c0 in
      let c5 = run_all H (1 ∷ 1 ∷ 1 ∷ 1 ∷ []) c1 in
      let s3 = unstaged id staging p s in
      let s4 = (publish_bind H req p s3).1 in
      let (free1, same1) = unstage_unmount-Quiet H id staging s free in
      let (free2, same2) =
        unstage_device-Quiet H id id staging p (unstage_unmount H staging s).1 free1 in
      let (free4, same4) = publish_bind-Quiet H id req p s3 free2 in
      let done : Unit {0} → Goroutine H = λ x. finished (ok tt) in
      let to_bind : ℕ → Goroutine H = λ q.
        section H (publish_bind H req q) (λ x. last H (writing H (set_target q req.target_path))) in
      let end : NodeServer H = record s4 { node = set_target p req.target_path s4.node } in
      let t1 = turn H 0 c0 (publish_inputs H req) to_bind p s refl passes in
      let t5 =
        unstage_turns id staging p c1 s (t1.other 1 refl) t1.server free
          (passes_both req p s free passes) unmounts in
      let t6 =
        turn H 0 c5 (publish_bind H req p) (λ x. last H (writing H (set_target p req.target_path)))
          tt s4 (t5.other 0 refl ∙ t1.own)
          (ap (publish_bind H req p) t5.server ∙ ap (λ r. (r, s4)) binds) in
      let t7 =
        turn H 0 (step H 0 c5) (writing H (set_target p req.target_path)) done tt end t6.own (
          ap (writing H (set_target p req.target_path)) t6.server
          ∙ writing-free H (set_target p req.target_path) s4 free4) in
      (
        t7.own,
        t7.other 1 refl ∙ t6.other 1 refl ∙ t5.own,
        ap (λ t. entry t.node id) t7.server ∙ entry-gone id req.target_path p _ s4.node same4,
      )
