-- ===== src/Node/State.antt =====
-- What the node plugin remembers, and how it reads requests: the parts of pkg/node/node.go that do
-- not touch the host.
pub mod Laws
use niova_block_csi.Prelude.{
  ℕ, ◌+◌, String, Bool, true, false, not, List, [], ◌∷◌, Option, none, some, nat_eq, ◌==◌,
  if◌then◌else◌,
}
use niova_block_csi.Prelude.Dict.{Dict, lookup, insert, delete, get_text}
use niova_block_csi.Go.Error.{Error, status, invalid_argument}
use niova_block_csi.Go.Exec.{returned, failed}
use niova_block_csi.Go.Strconv.{parse_bool}
use niova_block_csi.Types.{
  NodeVolume, Node, block_mode, mount_mode, ublk_recovery, ublk_by_uuid_path,
}
use niova_block_csi.Csi
use niova_block_csi.Csi.{AccessMode, AccessType, VolumeCapability, is_block, NodeRpc}

-- `NewNodeServer`: the capabilities that it lists.
unfoldable pub node_caps : List NodeRpc
node_caps = Csi.stage_unstage_volume ∷ Csi.get_volume_stats ∷ []

unfoldable pub invalid : String → Error
invalid text = status invalid_argument text

-- What `VolMap[id]` points to.
unfoldable pub entry : Node → String → Option NodeVolume
entry n id = elim (lookup id n.vol_map) [ none ↦ none | some p ↦ some (n.heap p) ]

-- `*p = v`
unfoldable pub write : ℕ → NodeVolume → Node → Node
write p v n = record n { heap = λ q. if nat_eq p q then v else n.heap q }

-- `VolMap[id] = &v`, for a new pointer.
unfoldable pub put_new : String → NodeVolume → Node → Node
put_new id v n = record {
  vol_map = insert id n.next n.vol_map;
  heap = λ q. if nat_eq n.next q then v else n.heap q;
  next = n.next + 1;
}

-- `delete(VolMap, id)`
unfoldable pub drop : String → Node → Node
drop id n = record n { vol_map = delete id n.vol_map }

-- Whether `NodeStageVolume` takes the volume for staged.
unfoldable pub is_staged : Node → String → Bool
unfolding entry
is_staged n id = elim (entry n id) [ none ↦ false | some v ↦ not (v.ublk_path == "") ]

-- The mode of a volume by its capability.
unfoldable pub mode_of : AccessType → String
mode_of access = if is_block access then block_mode else mount_mode

-- The file system that a capability asks for.
unfoldable pub fs_type_of : AccessType → String
fs_type_of (Csi.mount fs) = if fs == "" then "ext4" else fs
fs_type_of _ = "ext4"

unfoldable pub is_reader_only : AccessMode → Bool
is_reader_only Csi.multi_node_reader_only = true
is_reader_only _ = false

-- `ParseBool` of the flag, false where it is no Boolean.
unfoldable pub recovery_of : Dict String → Bool
recovery_of ctx = elim (parse_bool (get_text ublk_recovery ctx)) [
  | returned b ↦ b
  | failed e ↦ false
]

-- The path by which the device of an entry is deleted.
unfoldable pub device_path : String → String → String
device_path id path = if path == "" then ublk_by_uuid_path id else path

-- `req.GetVolumeCapability().GetBlock() != nil`
unfoldable pub wants_block : Option VolumeCapability → Bool
wants_block none = false
wants_block (some cap) = is_block cap.access_type

unfoldable pub set_target : ℕ → String → Node → Node
unfolding write
set_target p target n = write p (record (n.heap p) { target_path = target }) n

unfoldable pub is_block_volume : Option NodeVolume → Bool
is_block_volume none = false
is_block_volume (some v) = v.volume_mode == block_mode
