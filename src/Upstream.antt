-- ===== src/Upstream.antt =====
-- `Upstream::udp_query`, `tcp_query`, `return_tcp`, `tcp_query_on` and `resolve_a` in
-- src/upstream.rs. A pool is a list with its back first, so that `pop_back` and `push_back` are at
-- the head. The lock is not held while a query runs: what other tasks make of the pool in between is
-- the argument `others`.
pub mod Kept
pub mod Replies
use dns_ligase.Dns.Message.{new_query, serialize, parse, a_records, Ipv4Addr}
use dns_ligase.Forwarder.Response.{edns_buffer_size}
use dns_ligase.Io.{
  Error, Result, ok, err, fault, and_then, udp_timeout, id_mismatch, connect_timeout, write_timeout,
  read_timeout,
}
use dns_ligase.Prelude.{
  ℕ, Bool, List, [], ◌∷◌, Option, none, some, ◌==◌, ltb, leb, if◌then◌else◌, Bytes, length, take,
  u16, be16, u16_at,
}

abbrev pub udp_pool_cap : ℕ
udp_pool_cap = 16

abbrev pub tcp_pool_cap : ℕ
tcp_pool_cap = 8

-- The operating system. A socket is a value of `Socket`, and an operation on it returns the socket
-- as it is afterwards; `none` is a timeout of `tokio::time::timeout`.
pub record Net {ℓ} (Socket : Type ℓ) : Type ℓ where
  pub bind_connect : Result Socket
  pub send : Bytes → Socket → Result Socket
  -- the next datagram whole; `recv` keeps what fits its buffer
  pub recv : Socket → Option (Result (Bytes × Socket))
  pub tcp_connect : Option (Result Socket)
  pub write_all : Bytes → Socket → Option (Result Socket)
  pub flush : Socket → Result Socket
  pub read_exact : ℕ → Socket → Option (Result (Bytes × Socket))

-- `timeout(..).await.map_err(..)??`
abbrev pub within {ℓ} : {A : Type ℓ} → Error → Option (Result A) → Result A
within e none = err e
within e (some r) = r

-- The ID of a message, its first two bytes.
unfoldable pub message_id : Bytes → ℕ
unfolding u16_at
message_id m = if leb 2 (length m) then u16_at m 0 else 0

module _ {ℓ} {Socket : Type ℓ} (net : Net Socket) (others : List Socket → List Socket) where
  -- The answer, and the pool that is left.
  abbrev pub Query : Type ℓ
  Query = Result Bytes × List Socket

  -- `if pool.len() < CAP { pool.push_back(socket) }`
  give_back : ℕ → Socket → List Socket → List Socket
  give_back cap socket pool = if ltb (length pool) cap then socket ∷ pool else pool

  -- One query on a socket: its answer, and the socket if it is good for another query.
  udp_query_on : Bytes → Socket → Result (Bytes × Socket)
  unfolding message_id
  udp_query_on query socket = and_then (net.send query socket) (λ socket.
      and_then (within udp_timeout (net.recv socket)) (λ (datagram, socket).
        let buf = take edns_buffer_size datagram in
        if message_id buf == message_id query then ok (buf, socket) else err id_mismatch))

  checkout_udp : List Socket → Result Socket × List Socket
  checkout_udp [] = (net.bind_connect, [])
  checkout_udp (socket ∷ pool) = (ok socket, pool)

  finish : ℕ → Result (Bytes × Socket) → List Socket → Query
  unfolding give_back
  finish cap (ok (bytes, socket)) pool = (ok bytes, give_back cap socket (others pool))
  finish cap (err e) pool = (err e, others pool)
  finish cap (fault e) pool = (fault e, others pool)

  unfoldable pub udp_query : Bytes → List Socket → Query
  unfolding checkout_udp udp_query_on finish
  udp_query query pool =
      let (socket, rest) = checkout_udp pool in
      finish udp_pool_cap (and_then socket (udp_query_on query)) rest

  -- The query behind its length, then the answer behind its.
  tcp_query_on : Bytes → Socket → Result (Bytes × Socket)
  unfolding be16 u16_at
  tcp_query_on query stream =
      and_then (within write_timeout (net.write_all (be16 (u16 (length query))) stream)) (λ stream.
        and_then (within write_timeout (net.write_all query stream)) (λ stream.
          and_then (net.flush stream) (λ stream.
            and_then (within read_timeout (net.read_exact 2 stream))
              (λ (len, stream). within read_timeout (net.read_exact (u16_at len 0) stream)))))

  tcp_fresh : Bytes → List Socket → Query
  unfolding tcp_query_on finish
  tcp_fresh query rest =
      finish tcp_pool_cap (and_then (within connect_timeout net.tcp_connect) (tcp_query_on query))
        rest

  unfoldable pub tcp_query : Bytes → List Socket → Query
  unfolding tcp_fresh tcp_query_on finish
  tcp_query query [] = tcp_fresh query []
  tcp_query query (pooled ∷ rest) = elim (tcp_query_on query pooled) [
    | ok answered ↦ finish tcp_pool_cap (ok answered) rest
    | err e ↦ tcp_fresh query rest
    | fault e ↦ (fault e, others rest)
  ]

  -- `id` is the counter `INTERNAL_QUERY_ID` before the call.
  unfoldable pub resolve_a : ℕ → Bytes → List Socket → Result (List Ipv4Addr) × List Socket
  unfolding udp_query new_query serialize parse a_records
  resolve_a id host pool =
      let (answer, rest) = udp_query (serialize (new_query id host 1)) pool in
      (and_then answer (λ bytes. and_then (parse bytes) (λ m. ok (a_records m))), rest)
