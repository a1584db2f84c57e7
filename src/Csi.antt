-- ===== src/Csi.antt =====
-- The messages of the Container Storage Interface that the handlers read and return (the generated
-- types of container-storage-interface/spec), with the fields that the program uses. A list is nil
-- in Go when it is empty, as it is after decoding.
use niova_block_csi.Prelude.{String, Bool, true, false, List, Option}
use niova_block_csi.Prelude.Dict.{Dict}
use niova_block_csi.Prelude.Int.{ℤ}

pub data AccessMode : Type 0 where
  unknown single_node_writer single_node_reader_only multi_node_reader_only : AccessMode
  multi_node_single_writer multi_node_multi_writer : AccessMode
  single_node_single_writer single_node_multi_writer : AccessMode

-- The `oneof` of a capability. A mount names its file system.
pub data AccessType : Type 0 where
  unset block : AccessType
  mount : String → AccessType

pub record VolumeCapability : Type 0 where
  pub access_type : AccessType
  -- nil where the message has no access mode.
  pub access_mode : Option AccessMode

-- `cap.GetBlock() != nil` and `cap.GetMount() != nil`
abbrev pub is_block : AccessType → Bool
is_block block = true
is_block _ = false

abbrev pub is_mount : AccessType → Bool
is_mount (mount fs) = true
is_mount _ = false

pub record Volume : Type 0 where
  pub volume_id : String
  pub capacity_bytes : ℤ
  pub volume_context : Dict String

pub record CapacityRange : Type 0 where
  pub required_bytes : ℤ
  pub limit_bytes : ℤ

pub record CreateVolumeRequest : Type 0 where
  pub name : String
  pub capacity_range : Option CapacityRange
  pub volume_capabilities : List VolumeCapability
  pub parameters : Dict String

pub record ControllerPublishRequest : Type 0 where
  pub volume_id : String
  pub node_id : String
  pub volume_capability : Option VolumeCapability

pub record ValidateRequest : Type 0 where
  pub volume_id : String
  pub volume_capabilities : List VolumeCapability

pub record ListVolumesRequest : Type 0 where
  pub max_entries : ℤ
  pub starting_token : String

pub record ListVolumesResponse : Type 0 where
  pub entries : List Volume
  pub next_token : String

pub data ControllerRpc : Type 0 where
  create_delete_volume publish_unpublish_volume list_volumes get_capacity : ControllerRpc

pub record NodeStageRequest : Type 0 where
  pub volume_id : String
  pub publish_context : Dict String
  pub staging_target_path : String
  pub volume_capability : Option VolumeCapability
  pub volume_context : Dict String

pub record NodePublishRequest : Type 0 where
  pub volume_id : String
  pub staging_target_path : String
  pub target_path : String
  pub volume_capability : Option VolumeCapability

pub data NodeRpc : Type 0 where
  stage_unstage_volume get_volume_stats : NodeRpc
