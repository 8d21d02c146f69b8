-- ===== src/Forwarder/Handler/Udp.antt =====
-- The effects of `handle_udp_query` of src/upstream.rs.
use dns_ligase.Blocklist.Check.{check}
use dns_ligase.Blocklist.Rules.{External, blocked, forwarded}
use dns_ligase.Dns.Message.{DnsMessage, parse, serialize}
use dns_ligase.Dns.Records.{DnsQuestion}
use dns_ligase.Forwarder.Handler.{
  handle_udp_query, udp_send, udp_nxdomain, udp_fit, udp_reply, udp_retry, udp_forward, udp_message,
  after, ask_tcp, ask_udp, returns,
}
use dns_ligase.Forwarder.Response.{build_nxdomain, outgoing, tc_bit_set}
use dns_ligase.Forwarder.Scene.{Scene, Outcome, sent, asked}
use dns_ligase.Io.{ok, Result, err, fault}
use dns_ligase.Prelude.{◌≤◌, ◌≡◌, List, [], ◌∷◌, Bytes, length, arith, Bool-cases, inl, inr, take}

module _ (x : External) (s : Scene x) where
  -- A query that parses and whose first name is blocked is answered with NXDOMAIN alone: nothing goes upstream.
  pub blocked_stays_here :
      (packet : Bytes) (m : DnsMessage) (q : DnsQuestion) (qs : List DnsQuestion) (rule : Bytes)
      → parse packet ≡ ok m
      → m.questions ≡ q ∷ qs
      → check x s.question_rules q.name ≡ blocked rule
      → (asked (handle_udp_query x s packet).did ≡ [])
        × (sent (handle_udp_query x s packet).did ≡ build_nxdomain m ∷ [])
  unfolding handle_udp_query
  blocked_stays_here packet m q qs rule p one b = ground arith

  -- A query whose first name no rule matches goes upstream first of all.
  pub forwarded_goes_out :
      (packet : Bytes) (m : DnsMessage) (q : DnsQuestion) (qs : List DnsQuestion)
      → parse packet ≡ ok m
      → m.questions ≡ q ∷ qs
      → check x s.question_rules q.name ≡ forwarded
      → take 1 (asked (handle_udp_query x s packet).did) ≡ serialize (outgoing m) ∷ []
  unfolding handle_udp_query
  forwarded_goes_out packet m q qs p one f = ground arith

  -- At most one message goes to the client, and exactly one if the handler succeeds.
  abbrev pub Once : Outcome → Type 0
  Once o = (length (sent o.did) ≤ 1) × (o.result ≡ ok tt → length (sent o.did) ≡ 1)

  udp_send-Once : (m : DnsMessage) (resp : Bytes) → Once (udp_send x s m resp)
  unfolding udp_send
  udp_send-Once m resp = ground arith

  udp_nxdomain-Once : (m : DnsMessage) → Once (udp_nxdomain x s m)
  unfolding udp_nxdomain
  udp_nxdomain-Once m = ground arith

  udp_fit-Once : (m : DnsMessage) (resp : Bytes) → Once (udp_fit x s m resp)
  unfolding udp_fit
  udp_fit-Once m resp = ground arith

  udp_reply-Once :
      (m : DnsMessage) (qs : List DnsQuestion) (resp : Bytes) → Once (udp_reply x s m qs resp)
  unfolding udp_reply
  udp_reply-Once m [] resp = udp_fit-Once m resp
  udp_reply-Once m (q ∷ qs) resp = ground (arith, udp_fit-Once m resp, udp_nxdomain-Once m)

  udp_retry-Once : (m : DnsMessage) (resp : Bytes) → Once (udp_retry x s m resp)
  unfolding udp_retry
  udp_retry-Once m resp = elim (Bool-cases (tc_bit_set resp)) [
    | inl tc ↦ rw tc (over_tcp (s.tcp_answer (serialize (outgoing m))))
    | inr no_tc ↦ rw no_tc (udp_reply-Once m m.questions resp)
  ]
    where
      over_tcp :
          (r : Result Bytes)
          → Once (
              after (ask_tcp (serialize (outgoing m))) (elim r [
                | ok full ↦ udp_reply x s m m.questions full
                | err e ↦ returns (err e)
                | fault e ↦ returns (fault e)
              ]))
      over_tcp (ok full) = udp_reply-Once m m.questions full
      over_tcp (err e) = ground arith
      over_tcp (fault e) = ground arith

  udp_forward-Once : (m : DnsMessage) → Once (udp_forward x s m)
  unfolding udp_forward
  udp_forward-Once m = over_udp (s.udp_answer (serialize (outgoing m)))
    where
      over_udp :
          (r : Result Bytes)
          → Once (
              after (ask_udp (serialize (outgoing m))) (elim r [
                | ok resp ↦ udp_retry x s m resp
                | err e ↦ returns (err e)
                | fault e ↦ returns (fault e)
              ]))
      over_udp (ok resp) = udp_retry-Once m resp
      over_udp (err e) = ground arith
      over_udp (fault e) = ground arith

  udp_message-Once : (m : DnsMessage) (qs : List DnsQuestion) → Once (udp_message x s m qs)
  unfolding udp_message
  udp_message-Once m [] = udp_forward-Once m
  udp_message-Once m (q ∷ qs) = ground (arith, udp_forward-Once m, udp_nxdomain-Once m)

  -- Whatever the packet, the upstream answers and the writes do, a client gets at most one message,
  -- and exactly one if the handler returns `Ok`.
  pub handle_udp_query-Once : (packet : Bytes) → Once (handle_udp_query x s packet)
  unfolding handle_udp_query
  handle_udp_query-Once packet = parsed (parse packet)
    where
      parsed :
          (r : Result DnsMessage)
          → Once (elim r [
            | ok m ↦ udp_message x s m m.questions
            | err e ↦ returns (err e)
            | fault e ↦ returns (fault e)
          ])
      parsed (ok m) = udp_message-Once m m.questions
      parsed (err e) = ground arith
      parsed (fault e) = ground arith
