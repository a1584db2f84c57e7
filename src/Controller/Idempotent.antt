-- ===== src/Controller/Idempotent.antt =====
-- Repeated calls of `CreateVolume`, and the names of volumes through any history of calls.
use niova_block_csi.Prelude.{
  ◌∙◌, sym, ◌≡◌, refl, ap, String, Bool, false, List, some, arith, inl, inr,
}
use niova_block_csi.Prelude.Int.{ℤ}
use niova_block_csi.Prelude.Dict.{get_text}
use niova_block_csi.Types.{pfs_id}
use niova_block_csi.Go.Exec.{Result, ok}
use niova_block_csi.Go.Mutex.{unlocked}
use niova_block_csi.Config.Plane.{VdevConfig, Plane}
use niova_block_csi.Config.Manager.{Manager}
use niova_block_csi.Config.Lawful.{IsLawful, LogsIn, resolve}
use niova_block_csi.Config.Operations.{vdevs_of, wanted}
use niova_block_csi.Csi.{Volume, CreateVolumeRequest}
use niova_block_csi.Controller.Server.{create_volume}
use niova_block_csi.Controller.Create.{
  IsValid, size_of, Outcome, existing, other_size, created, refused, create_volume-checks,
  create_volume-Outcome,
}
use niova_block_csi.Controller.Names.{
  DistinctNames, DistinctNames-append, resolve-append, resolve-none-NotNamed,
}

-- The answer that names this volume.
abbrev pub Answers : Result Volume → String → ℤ → Type 0
Answers r id size =
    (vol : Volume) × (r ≡ ok vol) × (vol.volume_id ≡ id) × (vol.capacity_bytes ≡ size)

-- A known name of the right size is answered with its volume.
Outcome-known :
    {is_uuid : String → Bool} {req : CreateVolumeRequest} {size : ℤ}
    {before after : List VdevConfig} {r : Result Volume}
    → Outcome is_uuid req size before after r
    → (w : VdevConfig) → resolve is_uuid req.name before ≡ some w
    → w.size ≡ size
    → Answers r w.id size × (after ≡ before)
Outcome-known (existing v vol f z r i c same) w h s = ((vol, r, ground arith, c), same)
Outcome-known (other_size v f z r same) w h s = absurd (ground arith)
Outcome-known (created vol f n r c added) w h s = cc
Outcome-known (refused f r same) w h s = cc

-- A successful call leaves the name known.
Outcome-ok :
    {is_uuid : String → Bool} {req : CreateVolumeRequest} {size : ℤ}
    {before after : List VdevConfig} {r : Result Volume}
    → Outcome is_uuid req size before after r
    → is_uuid req.name ≡ false
    → (vol : Volume) → r ≡ ok vol
    → (w : VdevConfig) × (resolve is_uuid req.name after ≡ some w)
      × (w.size ≡ size)
      × (vol.capacity_bytes ≡ size)
      × (w.id ≡ vol.volume_id)
Outcome-ok (existing v vol' f z r i c same) u vol h =
    (v, ground arith, z, ground arith, ground arith)
Outcome-ok (other_size v f z r same) u vol h = absurd (ground arith)
Outcome-ok {is_uuid} {req} {size} {before} (created vol' f n r c added) u vol h =
    let w : VdevConfig = record (wanted req.name size (get_text pfs_id req.parameters)) {
      id = vol'.volume_id;
    } in
    (w, rw added (resolve-append is_uuid w before u f), refl, ground arith, ground arith)
Outcome-ok (refused f r same) u vol h = absurd (ground arith)

Outcome-DistinctNames :
    {is_uuid : String → Bool} {req : CreateVolumeRequest} {size : ℤ}
    {before after : List VdevConfig} {r : Result Volume}
    → Outcome is_uuid req size before after r
    → is_uuid req.name ≡ false
    → DistinctNames before
    → DistinctNames after
Outcome-DistinctNames (existing v vol' f z r i c same) u d = rw same d
Outcome-DistinctNames (other_size v f z r same) u d = rw same d
Outcome-DistinctNames {is_uuid} {req} (created vol' f n r c added) u d =
    rw added (DistinctNames-append _ _ (resolve-none-NotNamed is_uuid req.name _ u f) d)
Outcome-DistinctNames (refused f r same) u d = rw same d

module _ (P : Plane) (L : IsLawful P) (logs_in : LogsIn P) where
  -- On a lawful control plane to which the login succeeds, and on a free mutex: a `CreateVolume` that
  -- succeeded answered with the bytes that its range requires, or 1 GiB where it requires 0. Where the
  -- same call comes again on a free mutex while the volumes are those that the first call left, whatever
  -- became of the token in between, it answers with the same ID and the same capacity, and adds nothing.
  -- The name is no UUID.
  pub create_volume-twice :
      {req : CreateVolumeRequest} (v : IsValid req) (m m2 : Manager P)
      → m.mutex ≡ unlocked
      → m2.mutex ≡ unlocked
      → L.is_uuid req.name ≡ false
      → (vol : Volume) → (create_volume P req m).0 ≡ ok vol
      → vdevs_of L m2 ≡ vdevs_of L (create_volume P req m).1
      → (vol.capacity_bytes ≡ size_of v)
        × Answers (create_volume P req m2).0 vol.volume_id vol.capacity_bytes
        × (vdevs_of L (create_volume P req m2).1 ≡ vdevs_of L m2)
  create_volume-twice {req} v m m2 free free2 u vol h same =
      let (w, known, same_size, told, same_id) =
        Outcome-ok (create_volume-Outcome P L logs_in v m (ap (λ x. x.writing) free)) u vol h in
      let again =
        Outcome-known (create_volume-Outcome P L logs_in v m2 (ap (λ x. x.writing) free2)) w
          (ap (resolve L.is_uuid req.name) same ∙ known) same_size in
      let (vol2, answered, id2, bytes2) = again.0 in
      (told, (vol2, answered, id2 ∙ same_id, bytes2 ∙ sym told), again.1)

  pub create_volume-DistinctNames :
      (req : CreateVolumeRequest) (m : Manager P)
      → m.mutex ≡ unlocked
      → L.is_uuid req.name ≡ false
      → DistinctNames (vdevs_of L m)
      → DistinctNames (vdevs_of L (create_volume P req m).1)
  create_volume-DistinctNames req m free u d = elim (create_volume-checks P req m) [
    | inl v ↦
        Outcome-DistinctNames (create_volume-Outcome P L logs_in v m (ap (λ x. x.writing) free)) u d
    | inr (bad, same) ↦ rw same d
  ]
