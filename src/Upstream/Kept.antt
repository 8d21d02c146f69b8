-- ===== src/Upstream/Kept.antt =====
-- The pools of src/upstream.rs after a query, and the answers that a query takes.
use dns_ligase.Forwarder.Response.{edns_buffer_size}
use dns_ligase.Io.{Error, Result, ok, err, fault, and_then}
use dns_ligase.Prelude.{
  leb, leb→le, false, u16_at, ◌<◌, ◌⊎◌, ◌≤◌, ◌≡◌, ℕ, List, [], ◌∷◌, Bytes, length, arith, Option,
  ◌==◌, Bool-cases, inl, inr, ==_iff, some, none, zero, suc, if◌then◌else◌, take, refl, sym, ◌∙◌,
}
use dns_ligase.Upstream.{
  Net, udp_pool_cap, tcp_pool_cap, message_id, udp_query, tcp_query, give_back, finish,
  udp_query_on, tcp_query_on, checkout_udp, tcp_fresh, within,
}

pub message_id_long : (m : Bytes) → 2 ≤ length m → message_id m ≡ u16_at m 0
unfolding message_id
message_id_long m two = ground (arith, two)

message_id_short : (m : Bytes) → leb 2 (length m) ≡ false → message_id m ≡ 0
unfolding message_id
message_id_short m short = rw short refl

module _ {ℓ} {Socket : Type ℓ} (net : Net Socket) (others : List Socket → List Socket) where
  length-take : (n : ℕ) (xs : Bytes) → length (take n xs) ≤ n
  length-take zero xs = omega arith
  length-take (suc n) [] = omega arith
  length-take (suc n) (x ∷ xs) = omega (arith, length-take n xs)

  -- An answer of one query.
  abbrev pub IsAnswer : Bytes → Result (Bytes × Socket) → Type 0
  IsAnswer query (ok (bytes, s)) =
      (message_id bytes ≡ message_id query) × (length bytes ≤ edns_buffer_size)
  IsAnswer query (err e) = Unit
  IsAnswer query (fault e) = Unit

  received :
      (query : Bytes) (datagram : Bytes) (s : Socket)
      → IsAnswer query (
          if message_id (take edns_buffer_size datagram) == message_id query
          then ok (take edns_buffer_size datagram, s)
          else err Error.id_mismatch)
  received query datagram s =
      elim (Bool-cases (message_id (take edns_buffer_size datagram) == message_id query)) [
        | inl e ↦ rw e (
          (==_iff (message_id (take edns_buffer_size datagram)) (message_id query)).0 e,
          length-take edns_buffer_size datagram,
        )
        | inr e ↦ rw e tt
      ]

  udp_query_on-IsAnswer :
      (query : Bytes) (s : Socket) → IsAnswer query (udp_query_on net others query s)
  unfolding udp_query_on
  udp_query_on-IsAnswer query s = sent (net.send query s)
    where
      answered :
          (r : Option (Result (Bytes × Socket)))
          → IsAnswer query (
              and_then (within Error.udp_timeout r) (λ (datagram, socket).
                let buf = take edns_buffer_size datagram in
                if message_id buf == message_id query
                then ok (buf, socket)
                else err Error.id_mismatch))
      answered none = tt
      answered (some (ok (datagram, t))) = received query datagram t
      answered (some (err e)) = tt
      answered (some (fault e)) = tt

      sent :
          (r : Result Socket)
          → IsAnswer query (
              and_then r (λ socket.
                and_then (within Error.udp_timeout (net.recv socket)) (λ (datagram, socket).
                  let buf = take edns_buffer_size datagram in
                  if message_id buf == message_id query
                  then ok (buf, socket)
                  else err Error.id_mismatch)))
      sent (ok t) = answered (net.recv t)
      sent (err e) = tt
      sent (fault e) = tt

  checked_out :
      (query : Bytes) (r : Result Socket)
      → IsAnswer query (and_then r (udp_query_on net others query))
  checked_out query (ok s) = udp_query_on-IsAnswer query s
  checked_out query (err e) = tt
  checked_out query (fault e) = tt

  finish-IsAnswer :
      (query bytes : Bytes) (cap : ℕ) (r : Result (Bytes × Socket)) (pool : List Socket)
      → IsAnswer query r
      → (finish net others cap r pool).0 ≡ ok bytes
      → (message_id bytes ≡ message_id query) × (length bytes ≤ edns_buffer_size)
  unfolding finish
  finish-IsAnswer query bytes cap (ok (b, t)) pool k e = ground (arith, k)
  finish-IsAnswer query bytes cap (err x) pool k e = ground arith
  finish-IsAnswer query bytes cap (fault x) pool k e = ground arith

  udp_query-IsAnswer_ids :
      (query bytes : Bytes) (pool : List Socket)
      → (udp_query net others query pool).0 ≡ ok bytes
      → (message_id bytes ≡ message_id query) × (length bytes ≤ edns_buffer_size)
  unfolding udp_query checkout_udp
  udp_query-IsAnswer_ids query bytes [] h =
      finish-IsAnswer query bytes udp_pool_cap
        (and_then net.bind_connect (udp_query_on net others query)) []
        (checked_out query net.bind_connect) h
  udp_query-IsAnswer_ids query bytes (s ∷ pool) h =
      finish-IsAnswer query bytes udp_pool_cap (udp_query_on net others query s) pool
        (udp_query_on-IsAnswer query s) h

  -- An answer that `udp_query` returns to a query of two bytes or more fits the buffer of 1232 bytes,
  -- and either it has two bytes or more and the first two are the ID of the query, or it has fewer and
  -- the ID of the query is 0.
  pub udp_query-IsAnswer :
      (query bytes : Bytes) (pool : List Socket)
      → 2 ≤ length query
      → (udp_query net others query pool).0 ≡ ok bytes
      → (length bytes ≤ edns_buffer_size)
        × ((2 ≤ length bytes) × (u16_at bytes 0 ≡ u16_at query 0)
            ⊎ (length bytes < 2) × (u16_at query 0 ≡ 0))
  udp_query-IsAnswer query bytes pool two h = (ids.1, carried)
    where
      ids : (message_id bytes ≡ message_id query) × (length bytes ≤ edns_buffer_size)
      ids = udp_query-IsAnswer_ids query bytes pool h

      carried :
          (2 ≤ length bytes) × (u16_at bytes 0 ≡ u16_at query 0)
          ⊎ (length bytes < 2) × (u16_at query 0 ≡ 0)
      carried = elim (Bool-cases (leb 2 (length bytes))) [
        | inl long ↦ inl (
          leb→le 2 (length bytes) long,
          sym (message_id_long bytes (leb→le 2 (length bytes) long))
              ∙ (ids.0 ∙ message_id_long query two),
        )
        | inr short ↦ inr (
          ground (arith, short),
          sym (message_id_long query two) ∙ (sym ids.0 ∙ message_id_short bytes short),
        )
      ]

  finish-length :
      (cap : ℕ) (r : Result (Bytes × Socket)) (pool : List Socket)
      → length (others pool) ≤ cap
      → length (finish net others cap r pool).1 ≤ cap
  unfolding finish give_back
  finish-length cap (ok (b, s)) pool h = ground arith
  finish-length cap (err e) pool h = h
  finish-length cap (fault e) pool h = h

  tcp_fresh-length :
      (query : Bytes) (rest : List Socket)
      → length (others rest) ≤ tcp_pool_cap
      → length (tcp_fresh net others query rest).1 ≤ tcp_pool_cap
  unfolding tcp_fresh
  tcp_fresh-length query rest h =
      finish-length tcp_pool_cap
        (and_then (within Error.connect_timeout net.tcp_connect) (tcp_query_on net others query))
        rest h

  tcp_pooled-length :
      (query : Bytes) (r : Result (Bytes × Socket)) (rest : List Socket)
      → length (others rest) ≤ tcp_pool_cap
      → length
          (elim r as (λ _. Result Bytes × List Socket) [
            | ok answered ↦ finish net others tcp_pool_cap (ok answered) rest
            | err e ↦ tcp_fresh net others query rest
            | fault e ↦ (fault e, others rest)
          ]).1
        ≤ tcp_pool_cap
  tcp_pooled-length query (ok answered) rest h = finish-length tcp_pool_cap (ok answered) rest h
  tcp_pooled-length query (err e) rest h = tcp_fresh-length query rest h
  tcp_pooled-length query (fault e) rest h = h

  -- A pool that held at most 16 sockets for UDP, or 8 for TCP, holds no more after a query, whatever
  -- the query met, if the other tasks keep to the bound as well.
  pub query-length :
      (query : Bytes) (udp_pool tcp_pool : List Socket)
      → ((p : List Socket) → length p ≤ udp_pool_cap → length (others p) ≤ udp_pool_cap)
      → ((p : List Socket) → length p ≤ tcp_pool_cap → length (others p) ≤ tcp_pool_cap)
      → length udp_pool ≤ udp_pool_cap
      → length tcp_pool ≤ tcp_pool_cap
      → (length (udp_query net others query udp_pool).1 ≤ udp_pool_cap)
        × (length (tcp_query net others query tcp_pool).1 ≤ tcp_pool_cap)
  unfolding udp_query tcp_query checkout_udp
  query-length query udp_pool tcp_pool u t hu ht = (udp udp_pool hu, tcp tcp_pool ht)
    where
      udp :
          (pool : List Socket)
          → length pool ≤ udp_pool_cap
          → length (udp_query net others query pool).1 ≤ udp_pool_cap
      udp [] h =
          finish-length udp_pool_cap (and_then net.bind_connect (udp_query_on net others query)) []
            (u [] (omega arith))
      udp (s ∷ pool) h =
          finish-length udp_pool_cap (udp_query_on net others query s) pool (u pool (omega arith))

      tcp :
          (pool : List Socket)
          → length pool ≤ tcp_pool_cap
          → length (tcp_query net others query pool).1 ≤ tcp_pool_cap
      tcp [] h = tcp_fresh-length query [] (t [] (omega arith))
      tcp (s ∷ pool) h =
          tcp_pooled-length query (tcp_query_on net others query s) pool (t pool (omega arith))

  fresh_result :
      (query : Bytes) (rest : List Socket)
      → (tcp_fresh net others query rest).0 ≡ (tcp_fresh net others query []).0
  unfolding tcp_fresh finish
  fresh_result query rest =
      same (and_then (within Error.connect_timeout net.tcp_connect) (tcp_query_on net others query))
    where
      same :
          (r : Result (Bytes × Socket))
          → (finish net others tcp_pool_cap r rest).0 ≡ (finish net others tcp_pool_cap r []).0
      same (ok (b, s)) = refl
      same (err e) = refl
      same (fault e) = refl

  -- A TCP query fails only if it fails on a fresh connection: a pooled one that died costs nothing.
  pub tcp_query-retries :
      (query : Bytes) (pool : List Socket) (e : Error)
      → (tcp_query net others query pool).0 ≡ err e
      → (tcp_query net others query []).0 ≡ err e
  unfolding tcp_query finish
  tcp_query-retries query [] e h = h
  tcp_query-retries query (pooled ∷ rest) e h = again (tcp_query_on net others query pooled) h
    where
      again :
          (r : Result (Bytes × Socket))
          → (elim r as (λ _. Result Bytes × List Socket) [
            | ok answered ↦ finish net others tcp_pool_cap (ok answered) rest
            | err e ↦ tcp_fresh net others query rest
            | fault e ↦ (fault e, others rest)
          ]).0
            ≡ err e
          → (tcp_fresh net others query []).0 ≡ err e
      again (ok (b, s)) k = ground arith
      again (err e') k = sym (fresh_result query rest) ∙ k
      again (fault f) k = ground arith
