-- ===== src/Tests/Memory.antt =====
-- A control plane in memory, which meets the assumptions on the real one.
use niova_block_csi.Prelude.{
  ℕ, ◌+◌, ◌≡◌, refl, String, ◌<>◌, Bool, true, false, ◌&&◌, not, List, [], ◌∷◌, ◌++◌, arith, ◌==◌,
  eq_iff, if◌then◌else◌, is_some, Bool-cases, inl, inr,
}
use niova_block_csi.Prelude.Int.{pos}
use niova_block_csi.Go.Error.{
  Error, plain, token_expired, api_not_found, is_token_expired, error_text,
}
use niova_block_csi.Go.Exec.{Reply, returned, failed}
use niova_block_csi.Go.Text.{has_prefix, contains}
use niova_block_csi.Go.Strconv.{format_int}
use niova_block_csi.Config.Plane.{VdevConfig, ResponseXml, Plane}
use niova_block_csi.Config.Manager.{blames_token}
use niova_block_csi.Config.Lawful.{IsLawful, LogsIn, CreateLaw, resolve, without_id, found_or_not}

pub record Memory : Type 0 where
  pub vdevs : List VdevConfig
  pub token : String
  pub valid : String
  pub serial : ℕ

abbrev pub expired_error : Error
expired_error = token_expired "token is expired"

unfoldable pub is_id : String → Bool
unfolding has_prefix
is_id s = has_prefix s "vdev-"

-- A call under the token that is valid now.
abbrev pub guarded : {A : Type 0} → (Memory → Reply A × Memory) → Memory → Reply A × Memory
guarded f s = if s.token == s.valid then f s else (failed expired_error, s)

abbrev pub add : VdevConfig → String → Memory → Reply ResponseXml × Memory
add v id s =
    if is_id id && not (is_some (resolve is_id id s.vdevs))
    then (
      returned (record { id = id }),
      record s { vdevs = s.vdevs ++ record v { id = id } ∷ []; serial = s.serial + 1 },
    )
    else (failed (plain "no ID is left"), s)

abbrev pub memory : Plane
memory = record {
  State = Memory;
  login = λ user secret s. (returned s.valid, s);
  set_token = λ t s. record s { token = t };
  create_vdev = λ req. guarded (λ s. add req.vdev ("vdev-" <> format_int (pos s.serial)) s);
  delete_vdev = λ req.
      guarded
        (λ s. (returned (record { id = req.id }), record s { vdevs = without_id req.id s.vdevs }));
  get_vdev_config = λ req. guarded (λ s. (found_or_not (resolve is_id req.id s.vdevs), s));
  get_vdev_configs = λ req. guarded (λ s. (returned s.vdevs, s));
  has_k8s_client = true;
  get_node =
      λ id s. if id == "node-1" then (returned tt, s) else (failed (api_not_found "no node"), s);
  getenv = λ name. name;
}

pub expired-blames : blames_token expired_error ≡ true
unfolding blames_token is_token_expired
expired-blames = refl

full-blames : blames_token (plain "no ID is left") ≡ false
unfolding blames_token is_token_expired contains error_text
full-blames = refl

pub add-law :
    (v : VdevConfig) (id : String) (s : Memory)
    → CreateLaw s.vdevs (add v id s).1.vdevs is_id v (add v id s).0
add-law v id s = elim (Bool-cases (is_id id && not (is_some (resolve is_id id s.vdevs)))) [
  | inl free ↦ rw free (record { at_end = refl; id_is_uuid = ground arith; fresh = ground arith })
  | inr used ↦ rw used (record { unchanged = refl; other_reason = full-blames })
]

pub get_node-keeps : (id : String) (s : Memory) → (memory.get_node id s).1.vdevs ≡ s.vdevs
get_node-keeps id s = ground arith

pub valid-accepted :
    (s : Memory) (t : String)
    → ◌≡◌ {A = Reply String} (returned s.valid) (returned t)
    → (t == s.valid) ≡ true
valid-accepted s t h = ground (arith, eq_iff t s.valid)

abbrev pub memory-IsLawful : IsLawful memory
memory-IsLawful = record {
  is_uuid = is_id;
  vdevs = λ s. s.vdevs;
  accepted = λ s. s.token == s.valid;
  get_lem = λ key s h. rw h refl;
  list_lem = λ s h. rw h refl;
  create_lem = λ req s h. rw h (add-law req.vdev _ s);
  delete_lem = λ req s h. rw h refl;
  get_rejected = λ req s h. (expired_error, rw h refl, expired-blames);
  list_rejected = λ req s h. (expired_error, rw h refl, expired-blames);
  create_rejected = λ req s h. (expired_error, rw h refl, expired-blames);
  delete_rejected = λ req s h. (expired_error, rw h refl, expired-blames);
  login_keeps = λ user secret s. refl;
  get_node_keeps = get_node-keeps;
  set_token_keeps = λ t s. refl;
  login_accepted = λ user secret s t h. valid-accepted s t h;
}

abbrev pub memory-LogsIn : LogsIn memory
memory-LogsIn s = (s.valid, refl)
