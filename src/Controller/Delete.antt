-- ===== src/Controller/Delete.antt =====
-- `DeleteVolume` of pkg/controller/controller.go.
use niova_block_csi.Prelude.{
  ◌≡◌, ◌≢◌, String, Bool, true, false, List, none, some, arith, inl, inr, ◌==◌, Option-cases,
}
use niova_block_csi.Go.Error.{Error, internal}
use niova_block_csi.Go.Exec.{Result, ok, failed}
use niova_block_csi.Go.Mutex.{lock, unlock, unlocked}
use niova_block_csi.Config.Plane.{VdevConfig, Plane}
use niova_block_csi.Config.Manager.{Manager, get_volume, blames_token}
use niova_block_csi.Config.Lawful.{IsLawful, LogsIn, resolve, without_id}
use niova_block_csi.Config.Operations.{vdevs_of, get_volume_lem, remove_volume_lem}
use niova_block_csi.Config.Retry.{retry_auth-other_error}
use niova_block_csi.Controller.Server.{delete_volume}
use niova_block_csi.Controller.Create.{FailsWith}
use niova_block_csi.Controller.Names.{resolve-without_id_self, resolve-without_id}

module _ (P : Plane) (id : String) (m : Manager P) (named : (id == "") ≡ false)
    (free : m.mutex ≡ unlocked) where
  abbrev locked : Manager P
  locked = record m { mutex = record { readers = 0; writing = true } }

  -- Whatever error the lookup ends in, as long as it does not blame the token, `DeleteVolume` answers
  -- that the volume is deleted; it calls nothing after the lookup, so nothing is deleted.
  pub delete_volume-lookup_error :
      (e : Error) (s : P.State)
      → P.get_vdev_config (record { id = id; get_all = false }) m.plane ≡ (failed e, s)
      → blames_token e ≡ false
      → delete_volume P id m ≡ (ok tt, record m { plane = s })
  unfolding delete_volume lock unlock get_volume
  delete_volume-lookup_error e s h b = ground (
    arith,
    retry_auth-other_error P (P.get_vdev_config (record { id = id; get_all = false })) locked e s h
        b,
  )

-- What `DeleteVolume` may do.
pub data Outcome (is_uuid : String → Bool) (id : String) (before after : List VdevConfig)
    (r : Result (Unit {0})) : Type 0 where
  absent :
      resolve is_uuid id before ≡ none
      → r ≡ ok tt
      → after ≡ before
      → Outcome is_uuid id before after r
  removed :
      (v : VdevConfig)
      → resolve is_uuid id before ≡ some v
      → r ≡ ok tt
      → after ≡ without_id id before
      → Outcome is_uuid id before after r
  refused : FailsWith internal r → after ≡ before → Outcome is_uuid id before after r

module _ (P : Plane) (L : IsLawful P) (logs_in : LogsIn P) (id : String) (m : Manager P)
    (named : (id == "") ≡ false) (free : m.mutex ≡ unlocked) where
  pub delete_volume-Outcome :
      Outcome L.is_uuid id
        (vdevs_of L m)
        (vdevs_of L (delete_volume P id m).1)
        (delete_volume P id m).0
  unfolding delete_volume lock unlock
  delete_volume-Outcome =
      let start = locked P id m named free in
      let looked = get_volume_lem P L logs_in id start in
      elim (Option-cases (resolve L.is_uuid id (vdevs_of L m))) [
        | inl gone ↦ absent gone (ground arith) (ground arith)
        | inr (v, here) ↦ elim (remove_volume_lem P L logs_in id (get_volume P id start).1) [
          | inl (x, r, e) ↦ removed v here (ground arith) (ground arith)
          | inr (x, r, e) ↦ refused (ground arith) (ground arith)
        ]
      ]

  -- On a lawful control plane, where a lookup under an accepted token only fails for what the ID does not
  -- name, and to which the login succeeds: after a `DeleteVolume` of a UUID, on a free mutex, that
  -- succeeds, the ID names no volume, and every other UUID names what it named before.
  pub delete_volume_lem :
      L.is_uuid id ≡ true
      → (delete_volume P id m).0 ≡ ok tt
      → (key : String) → L.is_uuid key ≡ true
      → key ≢ id
      → (resolve L.is_uuid id (vdevs_of L (delete_volume P id m).1) ≡ none)
        × (resolve L.is_uuid key (vdevs_of L (delete_volume P id m).1)
            ≡ resolve L.is_uuid key (vdevs_of L m))
  delete_volume_lem u h key k n = elim delete_volume-Outcome [
    | absent gone r same ↦ (rw same gone, rw same)
    | removed v here r left ↦ (
      rw left (resolve-without_id_self L.is_uuid id (vdevs_of L m) u),
      rw left (resolve-without_id L.is_uuid id key (vdevs_of L m) k n),
    )
    | refused r same ↦ absurd (ground arith)
  ]
