-- ===== src/Node/Server.antt =====
-- `NodeServer` of pkg/node/node.go, and what its handlers are made of.
use niova_block_csi.Prelude.{String, []}
use niova_block_csi.Go.Error.{}
use niova_block_csi.Go.Exec.{Exec, pure, gets, modify, attempt, ◌>>=◌, ◌>>◌}
use niova_block_csi.Go.Mutex.{RwMutex, unlocked, lock, unlock, r_lock, r_unlock}
use niova_block_csi.Types.{Node, empty_volume}
use niova_block_csi.Csi.{}
use niova_block_csi.Node.Host.{Host}
use niova_block_csi.Node.Mount.{}
use niova_block_csi.Node.Ublk.{Ublk, new_ublk_manager}

module _ (H : Host) where
  pub record NodeServer : Type 0 where
    pub node_id : String
    pub node : Node
    pub ublk : Ublk H
    pub mutex : RwMutex

  -- `NewNodeServer`, on a machine in this state. The first pointer that it hands out is 0.
  unfoldable pub new_node_server : String → String → H.State → NodeServer
  new_node_server node_id client_id host = record {
    node_id = node_id;
    node = record { vol_map = []; heap = λ p. empty_volume; next = 0 };
    ublk = record { manager = new_ublk_manager client_id; host = host };
    mutex = unlocked;
  }

  abbrev pub on_mutex : Exec RwMutex (Unit {0}) → Exec NodeServer (Unit {0})
  on_mutex f s = let (r, x) = f s.mutex in (r, record s { mutex = x })

  abbrev pub on_ublk : {A : Type 0} → Exec (Ublk H) A → Exec NodeServer A
  on_ublk f s = let (r, u) = f s.ublk in (r, record s { ublk = u })

  abbrev pub on_host : {A : Type 0} → Exec H.State A → Exec NodeServer A
  on_host f s = let (r, h) = f s.ublk.host in (r, record s { ublk = record s.ublk { host = h } })

  abbrev pub on_node : (Node → Node) → Exec NodeServer (Unit {0})
  on_node f = modify (λ s. record s { node = f s.node })

  -- A read of the map under the lock for reading.
  abbrev pub reading : {A : Type 0} → (Node → A) → Exec NodeServer A
  reading f = do on_mutex r_lock; a ← gets (λ s. f s.node); on_mutex r_unlock; pure a

  -- A write under the lock for writing.
  abbrev pub writing : (Node → Node) → Exec NodeServer (Unit {0})
  writing f = do on_mutex lock; on_node f; on_mutex unlock

  abbrev pub ignoring : {A : Type 0} → Exec NodeServer A → Exec NodeServer (Unit {0})
  ignoring m = attempt m (λ _. pure tt) (λ _. pure tt)
