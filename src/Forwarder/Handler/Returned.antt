-- ===== src/Forwarder/Handler/Returned.antt =====
-- How the handlers of src/upstream.rs return.
use dns_ligase.Blocklist.Rules.{External}
use dns_ligase.Dns.Message.{DnsMessage, parse, serialize}
use dns_ligase.Dns.Message.Safety.{parse-Returns}
use dns_ligase.Dns.Records.{DnsQuestion}
use dns_ligase.Forwarder.Handler.{
  handle_udp_query, udp_send, udp_nxdomain, udp_fit, udp_reply, udp_retry, udp_forward, udp_message,
  handle_tcp_packet, tcp_send, tcp_nxdomain, tcp_reply, tcp_forward, tcp_message, returns,
}
use dns_ligase.Forwarder.Response.{
  outgoing, build_nxdomain, truncate_response, truncated, tc_bit_set, client_udp_size,
}
use dns_ligase.Forwarder.Scene.{Scene, Outcome}
use dns_ligase.Io.{Result, ok, err, fault, Returns}
use dns_ligase.Prelude.{List, [], ◌∷◌, Bytes, arith, Bool-cases, inl, inr, ltb, length}

truncate_response-Returns : (resp : Bytes) → Returns (truncate_response resp)
unfolding truncate_response
truncate_response-Returns resp = parsed (parse resp) (parse-Returns resp)
  where
    parsed :
        (r : Result DnsMessage)
        → Returns r
        → Returns (elim r as (λ _. Result Bytes) [
          | ok m ↦ ok (serialize (truncated m))
          | err e ↦ err e
          | fault x ↦ fault x
        ])
    parsed (ok m) h = tt
    parsed (err e) h = tt
    parsed (fault e) h = h

module _ (x : External) (s : Scene x) (answers : (b : Bytes) → Returns (s.tcp_answer b))
    (writes : (b : Bytes) → Returns (s.client_write b)) where
  tcp_send-Returns : (m : DnsMessage) (b : Bytes) → Returns (tcp_send x s m b).result
  unfolding tcp_send
  tcp_send-Returns m b = ground (arith, writes b)

  tcp_reply-Returns :
      (m : DnsMessage) (qs : List DnsQuestion) (resp : Bytes)
      → Returns (tcp_reply x s m qs resp).result
  unfolding tcp_reply
  tcp_reply-Returns m [] resp = tcp_send-Returns m resp
  tcp_reply-Returns m (q ∷ qs) resp =
      ground (arith, tcp_send-Returns m resp, writes (build_nxdomain m))

  tcp_forward-Returns : (m : DnsMessage) → Returns (tcp_forward x s m).result
  unfolding tcp_forward
  tcp_forward-Returns m = over_tcp (s.tcp_answer (serialize (outgoing m))) (answers _)
    where
      over_tcp :
          (r : Result Bytes)
          → Returns r
          → Returns
              (elim r as (λ _. Outcome) [
                | ok resp ↦ tcp_reply x s m m.questions resp
                | err e ↦ returns (err e)
                | fault e ↦ returns (fault e)
              ]).result
      over_tcp (ok resp) h = tcp_reply-Returns m m.questions resp
      over_tcp (err y) h = tt
      over_tcp (fault y) h = h

  tcp_message-Returns :
      (m : DnsMessage) (qs : List DnsQuestion) → Returns (tcp_message x s m qs).result
  unfolding tcp_message tcp_nxdomain
  tcp_message-Returns m [] = tcp_forward-Returns m
  tcp_message-Returns m (q ∷ qs) = ground (arith, tcp_forward-Returns m, writes (build_nxdomain m))

  pub handle_tcp_packet-Returns : (packet : Bytes) → Returns (handle_tcp_packet x s packet).result
  unfolding handle_tcp_packet
  handle_tcp_packet-Returns packet = parsed (parse packet) (parse-Returns packet)
    where
      parsed :
          (r : Result DnsMessage)
          → Returns r
          → Returns
              (elim r as (λ _. Outcome) [
                | ok m ↦ tcp_message x s m m.questions
                | err e ↦ returns (err e)
                | fault e ↦ returns (fault e)
              ]).result
      parsed (ok m) h = tcp_message-Returns m m.questions
      parsed (err e) h = tt
      parsed (fault e) h = h

  udp_send-Returns : (m : DnsMessage) (b : Bytes) → Returns (udp_send x s m b).result
  unfolding udp_send
  udp_send-Returns m b = ground (arith, writes b)

  udp_nxdomain-Returns : (m : DnsMessage) → Returns (udp_nxdomain x s m).result
  unfolding udp_nxdomain
  udp_nxdomain-Returns m = ground (arith, writes (build_nxdomain m))

  udp_fit-Returns : (m : DnsMessage) (resp : Bytes) → Returns (udp_fit x s m resp).result
  unfolding udp_fit
  udp_fit-Returns m resp = elim (Bool-cases (ltb (client_udp_size m.additionals) (length resp))) [
    | inl over ↦ rw over (shortened (truncate_response resp) (truncate_response-Returns resp))
    | inr within ↦ rw within (udp_send-Returns m resp)
  ]
    where
      shortened :
          (r : Result Bytes)
          → Returns r
          → Returns
              (elim r as (λ _. Outcome) [
                | ok short ↦ udp_send x s m short
                | err e ↦ returns (err e)
                | fault e ↦ returns (fault e)
              ]).result
      shortened (ok short) h = udp_send-Returns m short
      shortened (err e) h = tt
      shortened (fault e) h = h

  udp_reply-Returns :
      (m : DnsMessage) (qs : List DnsQuestion) (resp : Bytes)
      → Returns (udp_reply x s m qs resp).result
  unfolding udp_reply
  udp_reply-Returns m [] resp = udp_fit-Returns m resp
  udp_reply-Returns m (q ∷ qs) resp = ground (arith, udp_fit-Returns m resp, udp_nxdomain-Returns m)

  udp_retry-Returns : (m : DnsMessage) (resp : Bytes) → Returns (udp_retry x s m resp).result
  unfolding udp_retry
  udp_retry-Returns m resp = elim (Bool-cases (tc_bit_set resp)) [
    | inl tc ↦ rw tc (over_tcp (s.tcp_answer (serialize (outgoing m))) (answers _))
    | inr no_tc ↦ rw no_tc (udp_reply-Returns m m.questions resp)
  ]
    where
      over_tcp :
          (r : Result Bytes)
          → Returns r
          → Returns
              (elim r as (λ _. Outcome) [
                | ok full ↦ udp_reply x s m m.questions full
                | err e ↦ returns (err e)
                | fault e ↦ returns (fault e)
              ]).result
      over_tcp (ok full) h = udp_reply-Returns m m.questions full
      over_tcp (err e) h = tt
      over_tcp (fault e) h = h

  module _ (udp_answers : (b : Bytes) → Returns (s.udp_answer b)) where
    udp_forward-Returns : (m : DnsMessage) → Returns (udp_forward x s m).result
    unfolding udp_forward
    udp_forward-Returns m = over_udp (s.udp_answer (serialize (outgoing m))) (udp_answers _)
      where
        over_udp :
            (r : Result Bytes)
            → Returns r
            → Returns
                (elim r as (λ _. Outcome) [
                  | ok resp ↦ udp_retry x s m resp
                  | err e ↦ returns (err e)
                  | fault e ↦ returns (fault e)
                ]).result
        over_udp (ok resp) h = udp_retry-Returns m resp
        over_udp (err e) h = tt
        over_udp (fault e) h = h

    udp_message-Returns :
        (m : DnsMessage) (qs : List DnsQuestion) → Returns (udp_message x s m qs).result
    unfolding udp_message
    udp_message-Returns m [] = udp_forward-Returns m
    udp_message-Returns m (q ∷ qs) = ground (arith, udp_forward-Returns m, udp_nxdomain-Returns m)

    -- Whatever a client sends, `handle_udp_query` does not panic: it returns `Ok` or an error, if
    -- the queries to the upstream resolver and the write to the client do.
    pub handle_udp_query-Returns : (packet : Bytes) → Returns (handle_udp_query x s packet).result
    unfolding handle_udp_query
    handle_udp_query-Returns packet = parsed (parse packet) (parse-Returns packet)
      where
        parsed :
            (r : Result DnsMessage)
            → Returns r
            → Returns
                (elim r as (λ _. Outcome) [
                  | ok m ↦ udp_message x s m m.questions
                  | err e ↦ returns (err e)
                  | fault e ↦ returns (fault e)
                ]).result
        parsed (ok m) h = udp_message-Returns m m.questions
        parsed (err e) h = tt
        parsed (fault e) h = h
