-- ===== src/Controller/Create.antt =====
-- `CreateVolume` of pkg/controller/controller.go over a lawful control plane.
use mathlib.Core.List.{head?}
use niova_block_csi.Prelude.{
  zero, suc, ◌≡◌, ◌≢◌, refl, String, Bool, false, List, none, some, arith, ◌⊎◌, inl, inr, ◌∷◌, [],
  ◌++◌, ◌==◌, not, ◌&&◌, Option-cases, Bool-cases,
}
use niova_block_csi.Prelude.Int.{ℤ, pos, negsuc, eq_ℤ, eq_ℤ_iff}
use niova_block_csi.Prelude.Dict.{get_text}
use niova_block_csi.Go.Error.{Code, status, invalid_argument, already_exists, resource_exhausted}
use niova_block_csi.Go.Exec.{Result, ok, err, attempt}
use niova_block_csi.Types.{failure_domain, entity_id, pfs_id, ublk_recovery}
use niova_block_csi.Config.Plane.{VdevConfig, Plane}
use niova_block_csi.Config.Manager.{Manager, get_volume_by_name}
use niova_block_csi.Config.Lawful.{IsLawful, LogsIn, resolve}
use niova_block_csi.Config.Operations.{vdevs_of, wanted, get_volume_by_name_lem, alloc_vdev_lem}
use niova_block_csi.Config.Locks.{get_volume_by_name-keeps}
use niova_block_csi.Csi.{
  VolumeCapability, is_block, is_mount, Volume, CapacityRange, CreateVolumeRequest,
}
use niova_block_csi.Controller.Server.{create_volume, create_new, return_existing, size_or_default}

-- The requests that pass the checks at the head of the handler.
pub record IsValid (req : CreateVolumeRequest) : Type 0 where
  pub named : (req.name == "") ≡ false
  pub range : CapacityRange
  pub has_range : req.capacity_range ≡ some range
  pub cap : VolumeCapability
  pub has_cap : head? req.volume_capabilities ≡ some cap
  pub supported : (not (is_mount cap.access_type) && not (is_block cap.access_type)) ≡ false

abbrev pub FailsWith : {A : Type 0} → Code → Result A → Type 0
FailsWith c (err (status d text)) = d ≡ c
FailsWith c _ = ⊥

-- A request is refused as invalid, with nothing changed and nothing called, or it is valid.
pub create_volume-checks :
    (P : Plane) (req : CreateVolumeRequest) (m : Manager P)
    → IsValid req
      ⊎ (FailsWith invalid_argument (create_volume P req m).0 × ((create_volume P req m).1 ≡ m))
unfolding create_volume
create_volume-checks P req m = elim (Bool-cases (req.name == "")) [
  | inl e ↦ inr (ground arith, ground arith)
  | inr n ↦ elim (Option-cases req.capacity_range) [
    | inl e ↦ inr (ground arith, ground arith)
    | inr (r, hr) ↦ elim (Option-cases (head? req.volume_capabilities)) [
      | inl e ↦ inr (ground arith, ground arith)
      | inr (c, hc) ↦
          elim (Bool-cases (not (is_mount c.access_type) && not (is_block c.access_type))) [
            | inl e ↦ inr (ground arith, ground arith)
            | inr s ↦ inl (record {
              named = n;
              range = r;
              has_range = hr;
              cap = c;
              has_cap = hc;
              supported = s;
            })
          ]
    ]
  ]
]

-- What a valid `CreateVolume` may do: the request, the size, the vdevs before and after, the result.
pub data Outcome (is_uuid : String → Bool) (req : CreateVolumeRequest) (size : ℤ)
    (before after : List VdevConfig) (r : Result Volume) : Type 0 where
  existing :
      (v : VdevConfig) (vol : Volume)
      → resolve is_uuid req.name before ≡ some v
      → v.size ≡ size
      → r ≡ ok vol
      → vol.volume_id ≡ v.id
      → vol.capacity_bytes ≡ size
      → after ≡ before
      → Outcome is_uuid req size before after r
  other_size :
      (v : VdevConfig)
      → resolve is_uuid req.name before ≡ some v
      → v.size ≢ size
      → FailsWith already_exists r
      → after ≡ before
      → Outcome is_uuid req size before after r
  created :
      (vol : Volume)
      → resolve is_uuid req.name before ≡ none
      → resolve is_uuid vol.volume_id before ≡ none
      → r ≡ ok vol
      → vol.capacity_bytes ≡ size
      → after
        ≡ before
          ++ record (wanted req.name size (get_text pfs_id req.parameters)) { id = vol.volume_id }
            ∷ []
      → Outcome is_uuid req size before after r
  refused :
      resolve is_uuid req.name before ≡ none
      → FailsWith resource_exhausted r
      → after ≡ before
      → Outcome is_uuid req size before after r

-- The bytes of a new volume: those that the range requires, and 1 GiB where it requires none.
abbrev pub bytes_of : ℤ → ℤ
bytes_of (pos zero) = pos 1073741824
bytes_of (pos (suc n)) = pos (suc n)
bytes_of (negsuc n) = negsuc n

abbrev pub size_of : {req : CreateVolumeRequest} → IsValid req → ℤ
size_of v = bytes_of v.range.required_bytes

size_or_default-bytes_of : (n : ℤ) → size_or_default n ≡ bytes_of n
unfolding size_or_default
size_or_default-bytes_of (pos zero) = refl
size_or_default-bytes_of (pos (suc n)) = ground arith
size_or_default-bytes_of (negsuc n) = refl

-- A valid request goes on to the lookup.
valid_steps :
    (P : Plane) {req : CreateVolumeRequest} (v : IsValid req) (m : Manager P)
    → create_volume P req m
      ≡ attempt
          (get_volume_by_name P req.name)
          (λ _. create_new P req (size_of v))
          (return_existing P req.name (size_of v))
          m
unfolding create_volume
valid_steps P v m = ground (arith, size_or_default-bytes_of v.range.required_bytes)

module _ (P : Plane) (L : IsLawful P) (logs_in : LogsIn P) where
  module _ {req : CreateVolumeRequest} (v : IsValid req) (m : Manager P) where
    on_existing :
        (w : VdevConfig)
        → resolve L.is_uuid req.name (vdevs_of L m) ≡ some w
        → Outcome L.is_uuid req
            (size_of v)
            (vdevs_of L m)
            (vdevs_of L (create_volume P req m).1)
            (create_volume P req m).0
    unfolding return_existing
    on_existing w h =
        let found = get_volume_by_name_lem P L logs_in req.name m in
        rw (valid_steps P v m) (elim (Bool-cases (eq_ℤ w.size (size_of v))) [
          | inl same ↦
              existing w (record { volume_id = w.id; capacity_bytes = w.size; volume_context = [] })
                h ((eq_ℤ_iff _ _).0 same) (ground arith) refl ((eq_ℤ_iff _ _).0 same) (ground arith)
          | inr other ↦
              other_size w h (λ e. ground (arith, (eq_ℤ_iff w.size (size_of v)).1 e)) (ground arith)
                (ground arith)
        ])

    on_new :
        m.mutex.writing ≡ false
        → resolve L.is_uuid req.name (vdevs_of L m) ≡ none
        → Outcome L.is_uuid req
            (size_of v)
            (vdevs_of L m)
            (vdevs_of L (create_volume P req m).1)
            (create_volume P req m).0
    unfolding create_new
    on_new free h =
        let p = req.parameters in
        let m1 = (get_volume_by_name P req.name m).1 in
        let missed = get_volume_by_name_lem P L logs_in req.name m in
        let kept = get_volume_by_name-keeps P m req.name in
        rw (valid_steps P v m)
          (elim (alloc_vdev_lem P L logs_in req.name (size_of v) (get_text failure_domain p)
            (get_text entity_id p) (get_text pfs_id p) m1 (ground arith)) [
              | inl (id, r, added, new) ↦
                  created
                    (record {
                      volume_id = id;
                      capacity_bytes = size_of v;
                      volume_context = (ublk_recovery, get_text ublk_recovery p) ∷ [];
                    })
                    h (ground arith) (ground arith) refl (ground arith)
              | inr (e, r, same) ↦ refused h (ground arith) (ground arith)
            ])

    -- On a lawful control plane to which the login succeeds, with no writer on the mutex: a valid
    -- `CreateVolume` does one of four things. Its size is the bytes that its range requires, or 1 GiB
    -- where it requires 0. If the name is known, it returns that volume when the sizes agree, and fails
    -- with AlreadyExists when they do not, and changes nothing. If the name is not known, a volume of
    -- the requested name and this size stands at the end of the list under an ID that named nothing
    -- before, or it fails with ResourceExhausted and nothing has changed.
    pub create_volume-Outcome :
        m.mutex.writing ≡ false
        → Outcome L.is_uuid req
            (size_of v)
            (vdevs_of L m)
            (vdevs_of L (create_volume P req m).1)
            (create_volume P req m).0
    create_volume-Outcome free = elim (Option-cases (resolve L.is_uuid req.name (vdevs_of L m))) [
      | inl new ↦ on_new free new
      | inr (w, old) ↦ on_existing w old
    ]
