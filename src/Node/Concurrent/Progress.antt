-- ===== src/Node/Concurrent/Progress.antt =====
-- That a call of pkg/node/node.go comes back among others.
use mathlib.Core.Path.{subst}
use niova_block_csi.Prelude.{
  ℕ, zero, suc, ◌+◌, ◌≤◌, String, ◌≡◌, refl, sym, Bool, true, false, List, [], ◌∷◌, Option, none,
  some, nat_eq, inl, inr, Bool-cases, arith, if◌then◌else◌,
}
use niova_block_csi.Go.Exec.{Result, ok, err, panic, Exec}
use niova_block_csi.Csi.{AccessType, NodeStageRequest}
use niova_block_csi.Node.Host.{Host}
use niova_block_csi.Node.Server.{NodeServer, writing}
use niova_block_csi.Node.Service.{
  NodeCall, stage, unstage, publish, unpublish, stats, expand, capabilities, info, IsSound,
}
use niova_block_csi.Node.Concurrent.{
  Goroutine, finished, running, after, section, last, stage_rest, stage_steps, unstage_rest,
  unstage_steps, publish_steps, unpublish_rest, unpublish_steps, Pool, advance, step, run_all,
  steps_of,
}
use niova_block_csi.Node.Concurrent.Schedule.{start, ids, PoolSafe, step-PoolSafe, start-PoolSafe}
use niova_block_csi.Go.Mutex.{unlocked}
use niova_block_csi.Types.{Node}
use niova_block_csi.Config.Retry.{Settles}
use niova_block_csi.Node.State.{mode_of, is_staged}
use niova_block_csi.Node.Ublk.Wait.{IsClocked}
use niova_block_csi.Node.Returns.{
  has_mode, serve-Settles, record_staged-Settles, remove_target-Settles,
}
use niova_block_csi.Node.Concurrent.Settles.{
  unstage_device-ok, writing-free, stage_inputs-Settles, reading-Settles, stage_create-Settles,
  stage_mount-Settles, unstage_inputs-Settles, unstage_unmount-Settles, publish_inputs-Settles,
  publish_bind-Settles, unpublish_inputs-Settles, unpublish_unmount-Settles,
}

-- How often a schedule lets a goroutine run.
unfoldable pub turns : ℕ → List ℕ → ℕ
turns i [] = 0
turns i (j ∷ schedule) = (if nat_eq j i then 1 else 0) + turns i schedule

module _ (H : Host) where
  -- A call that came back with a value or an error.
  abbrev pub IsFinished : Goroutine H → Type 0
  IsFinished (finished r) = Settles r
  IsFinished (running f k) = ⊥

  -- A goroutine that comes back within this many sections, whatever the others do between them, as long
  -- as each of its sections begins on a free mutex.
  unfoldable pub Within : ℕ → Goroutine H → Type 0
  Within n (finished r) = Settles r
  Within zero (running f k) = ⊥
  Within (suc n) (running f k) = (s : NodeServer H) → s.mutex ≡ unlocked → Within n (k s)

  section-Within :
      {A : Type 0} (n : ℕ) (m : Exec (NodeServer H) A) (k : A → Goroutine H)
      → ((s : NodeServer H) → s.mutex ≡ unlocked → Settles (m s).0)
      → ((a : A) → Within n (k a))
      → Within (suc n) (section H m k)
  unfolding Within
  section-Within {A} n m k settles h s free = rest (m s).0 (settles s free)
    where
      rest : (r : Result A) → Settles r → Within n (after H k r)
      rest (ok a) back = h a
      rest (err e) back = tt
      rest (panic f) back = absurd back

  last-Within :
      (n : ℕ) (m : Exec (NodeServer H) (Unit {0}))
      → ((s : NodeServer H) → s.mutex ≡ unlocked → Settles (m s).0)
      → Within (suc n) (last H m)
  last-Within n m settles =
      section-Within n m (λ _. finished (ok tt)) settles (λ _. unfold Within in tt)

  writing-Within : (n : ℕ) (f : Node → Node) → Within (suc n) (last H (writing H f))
  writing-Within n f = last-Within n (writing H f) (λ s free. rw (writing-free H f s free) tt)

  unstage_rest-Within :
      (id staging : String) (pointer : Option ℕ) → Within 4 (unstage_rest H id staging pointer)
  unfolding unstage_rest
  unstage_rest-Within id staging none = unfold Within in tt
  unstage_rest-Within id staging (some p) =
      section-Within 3 _ _ (λ s free. unstage_unmount-Settles H staging s)
        (λ _.
          section-Within 2 _ _ (λ s free. rw (unstage_device-ok H id staging p s) tt)
            (λ _. writing-Within 1 _))

  unpublish_rest-Within :
      (target : String) (pointer : Option ℕ) → Within 3 (unpublish_rest H target pointer)
  unfolding unpublish_rest
  unpublish_rest-Within target none = unfold Within in tt
  unpublish_rest-Within target (some p) =
      section-Within 2 _ _ (λ s free. remove_target-Settles H target s) (λ _. writing-Within 1 _)

  module _ (clock : IsClocked H) where
    stage_rest-Within :
        (id staging : String) (access : AccessType) (size : String) (recovery read_only : Bool)
        → Within 3 (stage_rest H id staging access size recovery read_only)
    unfolding stage_rest
    stage_rest-Within id staging access size recovery read_only =
        section-Within 2 _ _ (λ s free. stage_create-Settles H clock id size recovery read_only s)
          (λ (path, pid).
            section-Within 1 _ _ (λ s free. stage_mount-Settles H id staging access path s)
              (λ _.
                last-Within 0 _
                  (λ s free. record_staged-Settles H id staging (mode_of access) path pid s free)))

    stage-Within :
        (req : NodeStageRequest) → has_mode (stage req) ≡ true → Within 5 (stage_steps H req)
    unfolding stage_steps
    stage-Within req moded =
        section-Within 4 _ _ (λ s free. stage_inputs-Settles H req s moded)
          (λ (access, size, recovery, read_only).
            section-Within 3 _ _
              (λ s free. reading-Settles H (λ n. is_staged n req.volume_id) s free)
              (λ staged. if_staged staged access size recovery read_only))
      where
        if_staged :
            (staged : Bool) (access : AccessType) (size : String) (recovery read_only : Bool)
            → Within 3 (
                if staged
                then finished (ok tt)
                else stage_rest H req.volume_id req.staging_target_path access size recovery
                    read_only)
        if_staged true access size recovery read_only = unfold Within in tt
        if_staged false access size recovery read_only =
            stage_rest-Within req.volume_id req.staging_target_path access size recovery read_only

    steps_of-Within : (c : NodeCall) → has_mode c ≡ true → Within 5 (steps_of H c)
    unfolding steps_of unstage_steps publish_steps unpublish_steps has_mode
    steps_of-Within (stage req) moded = stage-Within req moded
    steps_of-Within (unstage id staging) moded =
        section-Within 4 _ _ (λ s free. unstage_inputs-Settles H id staging s free)
          (unstage_rest-Within id staging)
    steps_of-Within (publish req) moded =
        section-Within 4 _ _ (λ s free. publish_inputs-Settles H req s free)
          (λ p.
            section-Within 3 _ _ (λ s free. publish_bind-Settles H req p s)
              (λ _. writing-Within 2 _))
    steps_of-Within (unpublish id target) moded =
        section-Within 4 _ _ (λ s free. unpublish_inputs-Settles H id target s free)
          (λ pointer.
            section-Within 3 _ _ (λ s free. unpublish_unmount-Settles H target s)
              (λ _. unpublish_rest-Within target pointer))
    steps_of-Within (stats id path) moded =
        last-Within 4 _ (λ s free. serve-Settles H clock (stats id path) s free refl)
    steps_of-Within expand moded =
        last-Within 4 _ (λ s free. serve-Settles H clock expand s free refl)
    steps_of-Within capabilities moded =
        last-Within 4 _ (λ s free. serve-Settles H clock capabilities s free refl)
    steps_of-Within info moded = last-Within 4 _ (λ s free. serve-Settles H clock info s free refl)

  same_number : (j i : ℕ) → nat_eq j i ≡ true → j ≡ i
  same_number j i e = ground arith

  IsFinished-Within : (g : Goroutine H) → Within 0 g → IsFinished g
  unfolding Within
  IsFinished-Within (finished r) h = h
  IsFinished-Within (running f k) h = h

  module _ (i : ℕ) where
    own-turn :
        (n : ℕ) (g : Goroutine H) (c : Pool H)
        → c.threads i ≡ g
        → c.server.mutex ≡ unlocked
        → Within (suc n) g
        → Within n ((advance H g i c).threads i)
    unfolding Within
    own-turn n (finished r) c e free h = subst (λ g. Within n g) (sym e) (settled n r h)
      where
        settled : (n : ℕ) (r : Result (Unit {0})) → Settles r → Within n (finished r)
        settled zero r h = h
        settled (suc n) r h = h
    own-turn n (running f k) c e free h =
        let same : nat_eq i i ≡ true = ground arith in rw same (h c.server free)

    stays :
        (j : ℕ) (g : Goroutine H) (c : Pool H)
        → nat_eq j i ≡ true
        → c.threads j ≡ g
        → Within 0 (c.threads i)
        → Within 0 ((advance H g j c).threads i)
    unfolding Within
    stays j (finished r) c same e h = h
    stays j (running f k) c same e h =
        let at : c.threads i ≡ running f k =
          subst (λ x. c.threads x ≡ running f k) (same_number j i same) e in
        absurd (subst (λ g. Within 0 g) at h)

    other-turn :
        (j : ℕ) (g : Goroutine H) (c : Pool H)
        → nat_eq j i ≡ false
        → (advance H g j c).threads i ≡ c.threads i
    other-turn j (finished r) c apart = refl
    other-turn j (running f k) c apart = rw apart refl

    turn-Within :
        (n j : ℕ) (c : Pool H)
        → nat_eq j i ≡ true
        → c.server.mutex ≡ unlocked
        → Within (suc n) (c.threads i)
        → Within n ((step H j c).threads i)
    unfolding step
    turn-Within n j c same free h =
        let e = same_number j i same in
        subst (λ x. Within n ((advance H (c.threads x) x c).threads i)) (sym e)
          (own-turn n (c.threads i) c refl free h)

    idle-Within :
        (n j : ℕ) (c : Pool H)
        → nat_eq j i ≡ false
        → Within n (c.threads i)
        → Within n ((step H j c).threads i)
    unfolding step
    idle-Within n j c apart h = subst (λ g. Within n g) (sym (other-turn j (c.threads j) c apart)) h

    rest-Within : (j : ℕ) (c : Pool H) → Within 0 (c.threads i) → Within 0 ((step H j c).threads i)
    rest-Within j c h = elim (Bool-cases (nat_eq j i)) [
      | inl same ↦ unfold step in stays j (c.threads j) c same refl h
      | inr apart ↦ idle-Within 0 j c apart h
    ]

    run_all-Within :
        (ids : ℕ → String) (n : ℕ) (schedule : List ℕ) (c : Pool H)
        → PoolSafe H ids c
        → n ≤ turns i schedule
        → Within n (c.threads i)
        → Within 0 ((run_all H schedule c).threads i)
    unfolding run_all turns
    run_all-Within ids zero [] c safe enough h = h
    run_all-Within ids (suc n) [] c safe enough h = absurd (omega arith)
    run_all-Within ids zero (j ∷ schedule) c safe enough h =
        run_all-Within ids zero schedule (step H j c) (step-PoolSafe H ids j c safe).0 (omega arith)
          (rest-Within j c h)
    run_all-Within ids (suc n) (j ∷ schedule) c safe enough h =
        let safe' = (step-PoolSafe H ids j c safe).0 in
        elim (Bool-cases (nat_eq j i)) [
          | inl same ↦
              run_all-Within ids n schedule (step H j c) safe' (ground arith)
                (turn-Within n j c same safe.sound.0 h)
          | inr apart ↦
              run_all-Within ids (suc n) schedule (step H j c) safe' (ground arith)
                (idle-Within (suc n) j c apart h)
        ]

  -- On a host whose clock goes forward, begun on a free mutex and a well-formed map, any calls run side by
  -- side: a call comes back with a value or an error once the schedule has given its goroutine five turns,
  -- whatever the others do in between, and also if they stop half way between two sections. It never
  -- meets a lock that is held or one to free that is not, never loops for ever, and never dereferences
  -- nil. For `NodeStageVolume` this needs a capability, if there is one, with an access mode.
  pub run_all-IsFinished :
      (clock : IsClocked H) (calls : ℕ → NodeCall) (i : ℕ) (schedule : List ℕ) (s : NodeServer H)
      → IsSound H s
      → has_mode (calls i) ≡ true
      → 5 ≤ turns i schedule
      → IsFinished ((run_all H schedule (start H calls s)).threads i)
  run_all-IsFinished clock calls i schedule s sound moded enough =
      IsFinished-Within ((run_all H schedule (start H calls s)).threads i) (
        run_all-Within i (ids H calls) 5 schedule (start H calls s) (start-PoolSafe H calls s sound)
          enough (steps_of-Within clock (calls i) moded))
