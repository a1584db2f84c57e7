-- ===== src/Types.antt =====
-- pkg/types/types.go: the constants, and what the node plugin remembers of its volumes.
use niova_block_csi.Prelude.{ℕ, String, ◌<>◌, List, [], ◌∷◌}
use niova_block_csi.Prelude.Dict.{Dict}
use niova_block_csi.Prelude.Int.{ℤ, pos}

abbrev pub block_mode : String
block_mode = "block"

abbrev pub mount_mode : String
mount_mode = "mount"

abbrev pub niova_user_name : String
niova_user_name = "NIOVA_BLOCK_CP_AUTH_USERNAME"

abbrev pub niova_user_secret : String
niova_user_secret = "NIOVA_BLOCK_CP_AUTH_SECRET"

abbrev pub niova_gossip_key : String
niova_gossip_key = "NIOVA_GOSSIP_KEY"

abbrev pub niova_gossip_path : String
niova_gossip_path = "NIOVA_GOSSIP_PATH"

abbrev pub niova_ublk_unified : String
niova_ublk_unified = "NIOVA_BLOCK_UBLK_UNIFIED"

abbrev pub niova_mdsvc_chunk_limit : String
niova_mdsvc_chunk_limit = "NIOVA_BLOCK_MDSVC_GET_CHUNKS_LIMIT"

abbrev pub failure_domain : String
failure_domain = "failuredomain"

abbrev pub entity_id : String
entity_id = "entityID"

abbrev pub pfs_id : String
pfs_id = "pfsId"

abbrev pub ublk_recovery : String
ublk_recovery = "ublkrecovery"

abbrev pub max_retry : ℕ
max_retry = 2

-- A `uuid.UUID`: sixteen bytes, all 0 in the zero value.
abbrev pub Uuid : Type 0
Uuid = List ℕ

abbrev pub nil_uuid : Uuid
nil_uuid = 0 ∷ 0 ∷ 0 ∷ 0 ∷ 0 ∷ 0 ∷ 0 ∷ 0 ∷ 0 ∷ 0 ∷ 0 ∷ 0 ∷ 0 ∷ 0 ∷ 0 ∷ 0 ∷ []

pub record NodeVolume : Type 0 where
  pub vol_id : Uuid
  pub ublk_path : String
  pub ublk_pid : ℤ
  pub volume_mode : String
  pub staging_path : String
  pub target_path : String

-- `&types.NodeVolume{}`
abbrev pub empty_volume : NodeVolume
empty_volume = record {
  vol_id = nil_uuid;
  ublk_path = "";
  ublk_pid = pos 0;
  volume_mode = "";
  staging_path = "";
  target_path = "";
}

-- `types.Node`. `vol_map` holds pointers, as in Go: `heap` is what they point to, and no pointer at
-- or above `next` has been handed out.
pub record Node : Type 0 where
  pub vol_map : Dict ℕ
  pub heap : ℕ → NodeVolume
  pub next : ℕ

unfoldable pub ublk_by_uuid_path : String → String
ublk_by_uuid_path volume_id = "/dev/disk/by-uuid/" <> volume_id
