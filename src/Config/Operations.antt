-- ===== src/Config/Operations.antt =====
-- What the operations of the manager return and change, over a lawful control plane to which the
-- login succeeds.
use niova_block_csi.Prelude.{
  ◌≡◌, refl, ◌+◌, String, true, false, List, Option, none, arith, ◌⊎◌, inl, inr, ◌∷◌, [], ◌++◌,
}
use niova_block_csi.Prelude.Int.{ℤ, pos}
use niova_block_csi.Go.Error.{Error, wrapped, error_text, is_token_expired}
use niova_block_csi.Go.Exec.{Result, ok, err}
use niova_block_csi.Go.Text.{contains}
use niova_block_csi.Go.Mutex.{r_lock, r_unlock}
use niova_block_csi.Config.Plane.{VdevConfig, VdevReq, DeleteVdevReq, Plane}
use niova_block_csi.Config.Manager.{
  Manager, blames_token, get_volume, get_volume_by_name, list_volumes, remove_volume, alloc_vdev,
  parse_fd_type,
}
use niova_block_csi.Config.Retry.{reply_cases}
use niova_block_csi.Config.Lawful.{
  IsLawful, LogsIn, vdev_not_found, found_or_not, resolve, without_id,
}
use niova_block_csi.Config.Refresh.{
  Guarded, retry_result, answered, accepted-answered, vdevs-answered, retry_auth-answered,
}

not_found_is_no_token_error : blames_token vdev_not_found ≡ false
unfolding blames_token is_token_expired contains error_text
not_found_is_no_token_error = refl

-- What a lookup returns to the handlers.
abbrev pub looked_up : Option VdevConfig → Result VdevConfig
looked_up o = retry_result (found_or_not o)

-- The vdev that `AllocVdev` asks for.
abbrev pub wanted : String → ℤ → String → VdevConfig
wanted name size pfs = record {
  id = "";
  name = name;
  size = size;
  data_blk_cnt = pos 1;
  pfs_id = pfs;
}

abbrev pub vdevs_of : {P : Plane} → IsLawful P → Manager P → List VdevConfig
vdevs_of L m = L.vdevs m.plane

module _ (P : Plane) (L : IsLawful P) (logs_in : LogsIn P) where
  get-Guarded :
      (key : String)
      → Guarded P L logs_in (P.get_vdev_config (record { id = key; get_all = false }))
  get-Guarded key = record {
    rejected = λ s bad. L.get_rejected _ s bad;
    other_reason = λ s e good h. ground (arith, L.get_lem key s good, not_found_is_no_token_error);
  }

  -- On a lawful control plane to which the login succeeds, a lookup gives the vdev that the key names, or
  -- the wrapped error of the control plane where it names none, and changes no vdev, whether or not the
  -- token was accepted when it began.
  pub get_volume_lem :
      (key : String) (m : Manager P)
      → ((get_volume P key m).0 ≡ looked_up (resolve L.is_uuid key (vdevs_of L m)))
        × (vdevs_of L (get_volume P key m).1 ≡ vdevs_of L m)
  unfolding get_volume
  get_volume_lem key m = ground (
    arith,
    retry_auth-answered P L logs_in _ (get-Guarded key) m,
    L.get_lem key (answered P L logs_in m.plane) (accepted-answered P L logs_in m.plane),
    vdevs-answered P L logs_in m.plane,
  )

  pub get_volume_by_name_lem :
      (name : String) (m : Manager P)
      → ((get_volume_by_name P name m).0 ≡ looked_up (resolve L.is_uuid name (vdevs_of L m)))
        × (vdevs_of L (get_volume_by_name P name m).1 ≡ vdevs_of L m)
  unfolding get_volume_by_name
  get_volume_by_name_lem name m = get_volume_lem name m

  list-Guarded : Guarded P L logs_in (P.get_vdev_configs (record { id = ""; get_all = true }))
  list-Guarded = record {
    rejected = λ s bad. L.list_rejected _ s bad;
    other_reason = λ s e good h. ground (arith, L.list_lem s good);
  }

  pub list_volumes_lem :
      (m : Manager P)
      → ((list_volumes P m).0 ≡ ok (vdevs_of L m))
        × (vdevs_of L (list_volumes P m).1 ≡ vdevs_of L m)
  unfolding list_volumes
  list_volumes_lem m = ground (
    arith,
    retry_auth-answered P L logs_in _ list-Guarded m,
    L.list_lem (answered P L logs_in m.plane) (accepted-answered P L logs_in m.plane),
    vdevs-answered P L logs_in m.plane,
  )

  delete-Guarded : (req : DeleteVdevReq) → Guarded P L logs_in (P.delete_vdev req)
  delete-Guarded req = record {
    rejected = λ s bad. L.delete_rejected req s bad;
    other_reason = λ s e good h. ground (arith, L.delete_lem req s good);
  }

  -- The volume is gone, or an error came back and nothing changed.
  pub remove_volume_lem :
      (id : String) (m : Manager P)
      → ((removed : String) × ((remove_volume P id m).0 ≡ ok removed)
          × (vdevs_of L (remove_volume P id m).1 ≡ without_id id (vdevs_of L m)))
        ⊎ ((e : Error) × ((remove_volume P id m).0 ≡ err e)
            × (vdevs_of L (remove_volume P id m).1 ≡ vdevs_of L m))
  unfolding remove_volume
  remove_volume_lem id m =
      let req : DeleteVdevReq = record { id = id } in
      let s = answered P L logs_in m.plane in
      let retry = retry_auth-answered P L logs_in _ (delete-Guarded req) m in
      let law = L.delete_lem req s (accepted-answered P L logs_in m.plane) in
      elim (reply_cases (P.delete_vdev req s)) [
        | inl (r, s', e) ↦ inl (
          r.id,
          ground (arith, vdevs-answered P L logs_in m.plane),
          ground (arith, vdevs-answered P L logs_in m.plane),
        )
        | inr (x, s', e) ↦ inr (
          wrapped "failed to relogin: " x,
          ground (arith, vdevs-answered P L logs_in m.plane),
          ground (arith, vdevs-answered P L logs_in m.plane),
        )
      ]

  create-Guarded : (req : VdevReq) → Guarded P L logs_in (P.create_vdev req)
  create-Guarded req = record {
    rejected = λ s bad. L.create_rejected req s bad;
    other_reason = λ s e good h. ground (arith, L.create_lem req s good);
  }

  -- A new volume stands at the end, or an error came back and nothing changed.
  pub alloc_vdev_lem :
      (name : String) (size : ℤ) (filter entity pfs : String) (m : Manager P)
      → m.mutex.writing ≡ false
      → ((id : String) × ((alloc_vdev P name size filter entity pfs m).0 ≡ ok id)
          × (vdevs_of L (alloc_vdev P name size filter entity pfs m).1
              ≡ vdevs_of L m ++ record (wanted name size pfs) { id = id } ∷ [])
          × (resolve L.is_uuid id (vdevs_of L m) ≡ none))
        ⊎ ((e : Error) × ((alloc_vdev P name size filter entity pfs m).0 ≡ err e)
            × (vdevs_of L (alloc_vdev P name size filter entity pfs m).1 ≡ vdevs_of L m))
  unfolding alloc_vdev r_lock r_unlock
  alloc_vdev_lem name size filter entity pfs m free =
      let req : VdevReq = record {
        vdev = wanted name size pfs;
        filter = record { id = entity; kind = parse_fd_type filter };
      } in
      let m' : Manager P = record m { mutex = record m.mutex { readers = m.mutex.readers + 1 } } in
      let s = answered P L logs_in m.plane in
      let same = vdevs-answered P L logs_in m.plane in
      let retry = retry_auth-answered P L logs_in _ (create-Guarded req) m' in
      let law = L.create_lem req s (accepted-answered P L logs_in m.plane) in
      elim (reply_cases (P.create_vdev req s)) [
        | inl (r, s', e) ↦ inl (r.id, ground arith, ground arith, ground arith)
        | inr (x, s', e) ↦ inr (wrapped "failed to relogin: " x, ground arith, ground arith)
      ]
