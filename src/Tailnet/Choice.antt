-- ===== src/Tailnet/Choice.antt =====
-- What a random choice of devices returns.
use peertopeer.Prelude.{List, length, All}
use peertopeer.Prelude.{◌≡◌}
use peertopeer.Peer.{Peer}

-- An order that a shuffle may leave: as many devices, and those that there were.
pub record IsShuffle (shuffle : List Peer → List Peer) : Type 1 where
  pub size : (peers : List Peer) → length (shuffle peers) ≡ length peers
  pub same : (P : Peer → Type 0) (peers : List Peer) → All P peers → All P (shuffle peers)
