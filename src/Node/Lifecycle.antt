-- ===== src/Node/Lifecycle.antt =====
-- The life of a volume on a node: the calls of pkg/node/node.go in the order in which they are meant.
use text.Mathlib.TextLemmas.{length-append}
use Prim.Native.String.{count}
use niova_block_csi.Prelude.{
  refl, sym, ap, ◌∙◌, eq_iff, eq_refl, ◌⊎◌, String, ◌≡◌, true, false, none, some, ◌==◌, Bool-cases,
  inl, inr, arith,
}
use niova_block_csi.Prelude.Dict.{get_text}
use niova_block_csi.Go.Error.{Error}
use niova_block_csi.Go.Exec.{Reply, ok, returned, failed}
use niova_block_csi.Go.Mutex.{unlocked}
use niova_block_csi.Go.Strconv.{parse_int}
use niova_block_csi.Types.{ublk_by_uuid_path}
use niova_block_csi.Csi.{AccessMode, VolumeCapability, NodeStageRequest, NodePublishRequest}
use niova_block_csi.Node.Host.{Host}
use niova_block_csi.Node.State.{entry, is_staged, put_new}
use niova_block_csi.Node.State.Laws.{entry-put_new}
use niova_block_csi.Node.Server.{NodeServer}
use niova_block_csi.Node.Stage.{node_stage_volume, node_unstage_volume}
use niova_block_csi.Node.Stage.Outcome.{node_stage_volume-ok, node_stage_volume-again}
use niova_block_csi.Node.Stage.Unstage.{node_unstage_volume-ok}
use niova_block_csi.Node.Publish.{node_publish_volume, node_unpublish_volume}
use niova_block_csi.Node.Publish.Outcome.{node_publish_volume-ok, node_unpublish_volume-ok}
use niova_block_csi.Node.Service.{
  IsSound, stage-mutex, stage-IsWf, publish-mutex, publish-IsWf, unpublish-mutex,
}

reply_inputs :
    {A : Type 0} (r : Reply A) → ((a : A) × (r ≡ returned a)) ⊎ ((e : Error) × (r ≡ failed e))
reply_inputs (returned a) = inl (a, refl)
reply_inputs (failed e) = inr (e, refl)

pub link_named : (id : String) → (ublk_by_uuid_path id == "") ≡ false
unfolding ublk_by_uuid_path
link_named id = elim (Bool-cases (ublk_by_uuid_path id == "")) [
  | inl empty ↦
      let sizes = ap count ((eq_iff (ublk_by_uuid_path id) "").0 empty) in
      let parts = length-append "/dev/disk/by-uuid/" id in absurd (ground arith)
  | inr named ↦ named
]

module _ (H : Host) where
  -- What a staged volume was asked for with.
  stage_inputs :
      (req : NodeStageRequest) (s : NodeServer H)
      → (node_stage_volume H req s).0 ≡ ok tt
      → ((req.volume_id == "") ≡ false) × ((req.staging_target_path == "") ≡ false)
  unfolding node_stage_volume
  stage_inputs req s k = ground arith

  stage_refused :
      (req : NodeStageRequest) (e : Error) (s : NodeServer H)
      → (node_stage_volume H req s).0 ≡ ok tt
      → parse_int (get_text "volumeSize" req.publish_context) ≡ failed e
      → ⊥
  unfolding node_stage_volume
  stage_refused req e s k x = ground arith

  staged_is_staged :
      (req : NodeStageRequest) (asked : VolumeCapability) (s : NodeServer H)
      → IsSound H s
      → req.volume_capability ≡ some asked
      → is_staged s.node req.volume_id ≡ false
      → (node_stage_volume H req s).0 ≡ ok tt
      → is_staged (node_stage_volume H req s).1.node req.volume_id ≡ true
  unfolding is_staged entry put_new
  staged_is_staged req asked s (free, wf) c new k =
      let st = node_stage_volume-ok H req asked s free c new k in
      let v = (node_stage_volume H req s).1.node.heap s.node.next in
      let at = entry-put_new req.volume_id req.volume_id v s.node wf in
      let named = link_named req.volume_id in let self = eq_refl req.volume_id in ground arith

  again :
      (req : NodeStageRequest) (asked : VolumeCapability) (mode : AccessMode) (s s' : NodeServer H)
      → s'.mutex ≡ unlocked
      → req.volume_capability ≡ some asked
      → asked.access_mode ≡ some mode
      → (node_stage_volume H req s).0 ≡ ok tt
      → is_staged s'.node req.volume_id ≡ true
      → node_stage_volume H req s' ≡ (ok tt, s')
  again req asked mode s s' free c a k staged =
      let (named, placed) = stage_inputs req s k in
      elim (reply_inputs (parse_int (get_text "volumeSize" req.publish_context))) [
        | inl (size, x) ↦
            node_stage_volume-again H req asked mode size s' free named placed c a x staged
        | inr (e, x) ↦ absurd (stage_refused req e s k x)
      ]

  -- A `NodeStageVolume` that succeeded, called on a free mutex and a well-formed map with a
  -- capability that has an access mode, can be repeated: the same call again is a success and changes
  -- nothing, neither the volume map nor the host, so the device is neither started, formatted nor
  -- mounted twice.
  pub node_stage_volume-twice :
      (req : NodeStageRequest) (asked : VolumeCapability) (mode : AccessMode) (s : NodeServer H)
      → IsSound H s
      → req.volume_capability ≡ some asked
      → asked.access_mode ≡ some mode
      → (node_stage_volume H req s).0 ≡ ok tt
      → node_stage_volume H req (node_stage_volume H req s).1
        ≡ (ok tt, (node_stage_volume H req s).1)
  node_stage_volume-twice req asked mode s (free, wf) c a k =
      elim (Bool-cases (is_staged s.node req.volume_id)) [
        | inl staged ↦
            let same = again req asked mode s s free c a k staged in
            let first = ap (λ r. r.1) same in
            ap (node_stage_volume H req) first ∙ same ∙ ap (λ x. (ok tt, x)) (sym first)
        | inr new ↦
            again req asked mode s (node_stage_volume H req s).1 (stage-mutex H req s free) c a k
              (staged_is_staged req asked s (free, wf) c new k)
      ]

  not_staged :
      (req : NodeStageRequest) (s : NodeServer H)
      → entry s.node req.volume_id ≡ none
      → is_staged s.node req.volume_id ≡ false
  unfolding is_staged entry
  not_staged req s new = ground arith

  module _ (st : NodeStageRequest) (pb : NodePublishRequest) (s : NodeServer H) where
    -- The server after each of the four calls of a volume's life.
    abbrev staged : NodeServer H
    staged = (node_stage_volume H st s).1

    abbrev published : NodeServer H
    published = (node_publish_volume H pb staged).1

    abbrev unpublished : NodeServer H
    unpublished = (node_unpublish_volume H st.volume_id pb.target_path published).1

    abbrev unstaged : NodeServer H
    unstaged = (node_unstage_volume H st.volume_id st.staging_target_path unpublished).1

    -- The life of a volume: stage, publish, unpublish and unstage, each called on what the one before
    -- it left. Where all four succeed, on a free mutex and a well-formed map in which the volume had
    -- no entry, the entries of all volumes are as before the first call.
    pub life_of_volume :
        (asked : VolumeCapability) (other : String)
        → IsSound H s
        → st.volume_capability ≡ some asked
        → pb.volume_id ≡ st.volume_id
        → entry s.node st.volume_id ≡ none
        → (node_stage_volume H st s).0 ≡ ok tt
        → (node_publish_volume H pb staged).0 ≡ ok tt
        → (node_unpublish_volume H st.volume_id pb.target_path published).0 ≡ ok tt
        → (node_unstage_volume H st.volume_id st.staging_target_path unpublished).0 ≡ ok tt
        → entry unstaged.node other ≡ entry s.node other
    life_of_volume asked other (free, wf) c same new k1 k2 k3 k4 =
        let fresh : is_staged s.node st.volume_id ≡ false = not_staged st s new in
        let stages = node_stage_volume-ok H st asked s free c fresh k1 in
        let first = entry-put_new st.volume_id other (staged.node.heap s.node.next) s.node wf in
        let f1 = stage-mutex H st s free in
        let w1 = stage-IsWf H st s free wf in
        let second = (node_publish_volume-ok H pb other staged f1 w1 k2).1 in
        let f2 = publish-mutex H pb staged f1 in
        let w2 = publish-IsWf H pb staged f1 w1 in
        let third =
          node_unpublish_volume-ok H st.volume_id pb.target_path other published f2 w2 k3 in
        let f3 = unpublish-mutex H st.volume_id pb.target_path published f2 in
        let fourth =
          node_unstage_volume-ok H st.volume_id st.staging_target_path other unpublished f3 k4 in
        ground (arith, eq_iff st.volume_id other)
