-- ===== src/Config/Plane.antt =====
-- What pkg/config calls and this repository does not hold: the clients of the Niova control plane
-- (niova-mdsvc), the Kubernetes API and the environment.
use niova_block_csi.Prelude.{String, Bool, List}
use niova_block_csi.Prelude.Int.{ℤ}
use niova_block_csi.Go.Exec.{Reply}

-- `ctlplfl.FD`
pub data FailureDomain : Type 0 where
  fd_any fd_pdu fd_rack fd_hv fd_device fd_partition : FailureDomain

pub record Filter : Type 0 where
  pub id : String
  pub kind : FailureDomain

-- The fields of `ctlplfl.VdevConfig` that the program reads or writes.
pub record VdevConfig : Type 0 where
  pub id : String
  pub name : String
  pub size : ℤ
  pub data_blk_cnt : ℤ
  pub pfs_id : String

pub record VdevReq : Type 0 where
  pub vdev : VdevConfig
  pub filter : Filter

pub record DeleteVdevReq : Type 0 where
  pub id : String

pub record GetReq : Type 0 where
  pub id : String
  pub get_all : Bool

pub record ResponseXml : Type 0 where
  pub id : String

-- A call may change the state of the other side, and returns a value or an error. A pointer that comes
-- without an error is not nil.
pub record Plane : Type 1 where
  pub State : Type 0
  -- `userClient.Client.Login`: the access token.
  pub login : String → String → State → Reply String × State
  -- `cpClient.CliCFuncs`
  pub set_token : String → State → State
  pub create_vdev : VdevReq → State → Reply ResponseXml × State
  pub delete_vdev : DeleteVdevReq → State → Reply ResponseXml × State
  pub get_vdev_config : GetReq → State → Reply VdevConfig × State
  pub get_vdev_configs : GetReq → State → Reply (List VdevConfig) × State
  -- Whether there is a Kubernetes client, and `CoreV1().Nodes().Get`.
  pub has_k8s_client : Bool
  pub get_node : String → State → Reply (Unit {0}) × State
  -- `os.Getenv`
  pub getenv : String → String
