-- ===== src/Forwarder/Run.antt =====
-- The two tasks of `UdpForwarder::run` in src/upstream.rs, over what arrives at their sockets. Each
-- arrival is handled by a task of its own: what comes of them is listed in the order of the arrivals.
pub mod Amplification
use dns_ligase.Blocklist.Rules.{External}
use dns_ligase.Forwarder.Handler.{handle_udp_query}
use dns_ligase.Forwarder.Scene.{Scene, Outcome}
use dns_ligase.Forwarder.Stream.{ClientStream, handle_tcp_query}
use dns_ligase.Prelude.{ℕ, suc, Bool, if◌then◌else◌, List, [], ◌∷◌, Bytes, take}

-- `udp_socket.recv_from`
pub data Received : Type 0 where
  datagram : Bytes → Received
  recv_failed : Received

-- `listener.accept`
pub data Accepted (c : ClientStream) : Type 0 where
  accepted : c.Input → c.Output → Accepted c
  accept_failed : Accepted c

pub data TcpTask : Type 0 where
  -- `std::process::exit(1)`
  exits : TcpTask
  serves : List Outcome → TcpTask

module _ (x : External) where
  -- A datagram is read into 4096 bytes, and what is longer is cut off; after an error the loop goes on.
  unfoldable pub udp_task : (scene : ℕ → Scene x) → ℕ → List Received → List Outcome
  unfolding handle_udp_query
  udp_task scene n [] = []
  udp_task scene n (datagram packet ∷ rest) =
      handle_udp_query x (scene n) (take 4096 packet) ∷ udp_task scene (suc n) rest
  udp_task scene n (recv_failed ∷ rest) = udp_task scene n rest

  module _ (c : ClientStream) (scene : ℕ → ℕ → Scene x) (fuel : ℕ) where
    connections : ℕ → List (Accepted c) → List Outcome
    unfolding handle_tcp_query
    connections n [] = []
    connections n (accepted inp out ∷ rest) =
        handle_tcp_query c x (scene n) fuel 0 inp out ∷ connections (suc n) rest
    connections n (accept_failed ∷ rest) = connections n rest

    unfoldable pub tcp_task : (bound : Bool) → List (Accepted c) → TcpTask
    unfolding connections
    tcp_task bound arrivals = if bound then serves (connections 0 arrivals) else exits
