-- ===== src/Config/Lawful.antt =====
-- What the program relies on in the control plane, as the comments of pkg/config/config.go give it:
-- the calls act on one list of vdevs; a key that is a UUID is looked up as an ID, and any other as a
-- name; a call under a token that is no longer accepted changes nothing and says so; a login gives a
-- token that is accepted.
use niova_block_csi.Prelude.{
  ◌≡◌, String, Bool, true, false, List, [], ◌∷◌, ◌++◌, Option, none, some, ◌==◌, if◌then◌else◌,
}
use niova_block_csi.Go.Error.{Error, plain}
use niova_block_csi.Go.Exec.{Reply, returned, failed}
use niova_block_csi.Config.Plane.{VdevConfig, VdevReq, DeleteVdevReq, GetReq, ResponseXml, Plane}
use niova_block_csi.Config.Manager.{blames_token}
use niova_block_csi.Config.Retry.{login_now}

module _ (is_uuid : String → Bool) where
  unfoldable pub names : String → VdevConfig → Bool
  names key v = if is_uuid key then v.id == key else v.name == key

  -- The vdev that a key names.
  unfoldable pub resolve : String → List VdevConfig → Option VdevConfig
  resolve key [] = none
  resolve key (v ∷ vs) = if names key v then some v else resolve key vs

-- The vdevs that are left when the one with this ID is deleted.
unfoldable pub without_id : String → List VdevConfig → List VdevConfig
without_id id [] = []
without_id id (v ∷ vs) = let rest = without_id id vs in if v.id == id then rest else v ∷ rest

abbrev pub vdev_not_found : Error
vdev_not_found = plain "vdev not found"

abbrev pub found_or_not : Option VdevConfig → Reply VdevConfig
found_or_not none = failed vdev_not_found
found_or_not (some v) = returned v

module _ (before after : List VdevConfig) where
  -- An error of a call that changed nothing and that has nothing to do with the token.
  pub record Refused (e : Error) : Type 0 where
    pub unchanged : after ≡ before
    pub other_reason : blames_token e ≡ false

  -- The new vdev stands at the end, under an ID that named nothing.
  pub record Added (is_uuid : String → Bool) (v : VdevConfig) (r : ResponseXml) : Type 0 where
    pub at_end : after ≡ before ++ record v { id = r.id } ∷ []
    pub id_is_uuid : is_uuid r.id ≡ true
    pub fresh : resolve is_uuid r.id before ≡ none

  abbrev pub CreateLaw : (String → Bool) → VdevConfig → Reply ResponseXml → Type 0
  CreateLaw is_uuid v (returned r) = Added is_uuid v r
  CreateLaw is_uuid v (failed e) = Refused e

  abbrev pub DeleteLaw : String → Reply ResponseXml → Type 0
  DeleteLaw id (returned r) = after ≡ without_id id before
  DeleteLaw id (failed e) = Refused e

-- The answer under a token that is not accepted.
abbrev pub Rejected : {A S : Type 0} → S → Reply A × S → Type 0
Rejected s r = (e : Error) × (r ≡ (failed e, s)) × (blames_token e ≡ true)

pub record IsLawful (P : Plane) : Type 0 where
  pub is_uuid : String → Bool
  pub vdevs : P.State → List VdevConfig
  pub accepted : P.State → Bool
  pub get_lem :
      (key : String) (s : P.State)
      → accepted s ≡ true
      → P.get_vdev_config (record { id = key; get_all = false }) s
        ≡ (found_or_not (resolve is_uuid key (vdevs s)), s)
  pub list_lem :
      (s : P.State)
      → accepted s ≡ true
      → P.get_vdev_configs (record { id = ""; get_all = true }) s ≡ (returned (vdevs s), s)
  pub create_lem :
      (req : VdevReq) (s : P.State)
      → accepted s ≡ true
      → CreateLaw (vdevs s) (vdevs (P.create_vdev req s).1) is_uuid req.vdev (P.create_vdev req s).0
  pub delete_lem :
      (req : DeleteVdevReq) (s : P.State)
      → accepted s ≡ true
      → DeleteLaw (vdevs s) (vdevs (P.delete_vdev req s).1) req.id (P.delete_vdev req s).0
  pub get_rejected :
      (req : GetReq) (s : P.State) → accepted s ≡ false → Rejected s (P.get_vdev_config req s)
  pub list_rejected :
      (req : GetReq) (s : P.State) → accepted s ≡ false → Rejected s (P.get_vdev_configs req s)
  pub create_rejected :
      (req : VdevReq) (s : P.State) → accepted s ≡ false → Rejected s (P.create_vdev req s)
  pub delete_rejected :
      (req : DeleteVdevReq) (s : P.State) → accepted s ≡ false → Rejected s (P.delete_vdev req s)
  pub login_keeps : (user secret : String) (s : P.State) → vdevs (P.login user secret s).1 ≡ vdevs s
  pub get_node_keeps : (id : String) (s : P.State) → vdevs (P.get_node id s).1 ≡ vdevs s
  pub set_token_keeps : (t : String) (s : P.State) → vdevs (P.set_token t s) ≡ vdevs s
  pub login_accepted :
      (user secret : String) (s : P.State) (t : String)
      → (P.login user secret s).0 ≡ returned t
      → accepted (P.set_token t (P.login user secret s).1) ≡ true

-- The login succeeds, whatever the state of the other side.
abbrev pub LogsIn : Plane → Type 0
LogsIn P = (s : P.State) → (t : String) × ((login_now P s).0 ≡ returned t)
