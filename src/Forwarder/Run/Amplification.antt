-- ===== src/Forwarder/Run/Amplification.antt =====
-- How much the UDP task of `UdpForwarder::run` in src/upstream.rs sends.
use dns_ligase.Blocklist.Rules.{External}
use dns_ligase.Forwarder.Handler.Udp.{handle_udp_query-Once}
use dns_ligase.Forwarder.Run.{Received, datagram, recv_failed, udp_task}
use dns_ligase.Forwarder.Scene.{Scene, Outcome, sent}
use dns_ligase.Io.{ok}
use dns_ligase.Prelude.{ℕ, suc, ◌+◌, ◌≤◌, ◌≡◌, List, [], ◌∷◌, length, All, arith, take}

-- The datagrams among what arrives.
abbrev pub datagrams : List Received → ℕ
datagrams [] = 0
datagrams (datagram packet ∷ rest) = suc (datagrams rest)
datagrams (recv_failed ∷ rest) = datagrams rest

abbrev pub messages_sent : List Outcome → ℕ
messages_sent [] = 0
messages_sent (o ∷ os) = length (sent o.did) + messages_sent os

-- The handlers that succeed.
abbrev pub AllAnswered : List Outcome → Type 0
AllAnswered os = All (λ o. o.result ≡ ok tt) os

-- Whatever arrives, each datagram gets a handler of its own, also after errors; all of them together
-- send at most one message for each datagram, and exactly one for each if all of them succeed.
pub udp_task-messages :
    (x : External) (scene : ℕ → Scene x) (n : ℕ) (arrivals : List Received)
    → (length (udp_task x scene n arrivals) ≡ datagrams arrivals)
      × (messages_sent (udp_task x scene n arrivals) ≤ datagrams arrivals)
      × (AllAnswered (udp_task x scene n arrivals)
          → messages_sent (udp_task x scene n arrivals) ≡ datagrams arrivals)
unfolding udp_task
udp_task-messages x scene n [] = ground arith
udp_task-messages x scene n (datagram packet ∷ rest) =
    let (handled, most, exact) = udp_task-messages x scene (suc n) rest in
    let (once, answered) = handle_udp_query-Once x (scene n) (take 4096 packet) in
    (omega (arith, handled), omega (arith, once, most), λ h. omega (arith, answered h.0, exact h.1))
udp_task-messages x scene n (recv_failed ∷ rest) = udp_task-messages x scene n rest
