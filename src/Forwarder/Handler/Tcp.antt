-- ===== src/Forwarder/Handler/Tcp.antt =====
-- The effects of one turn of the loop of `handle_tcp_query` in src/upstream.rs.
use dns_ligase.Blocklist.Check.{check}
use dns_ligase.Blocklist.Rules.{External, blocked}
use dns_ligase.Dns.Message.{DnsMessage, parse, serialize}
use dns_ligase.Dns.Records.{DnsQuestion}
use dns_ligase.Forwarder.Handler.{
  handle_tcp_packet, cloaked, tcp_send, tcp_nxdomain, tcp_reply, tcp_forward, tcp_message, after,
  ask_tcp, returns, try, logged, was_blocked, cname_rule, send,
}
use dns_ligase.Forwarder.Handler.Relay.{CleanReply, cloaked-none}
use dns_ligase.Forwarder.Handler.Udp.{Once}
use dns_ligase.Forwarder.Response.{build_nxdomain, outgoing}
use dns_ligase.Forwarder.Scene.{Scene, Outcome, sent, asked}
use dns_ligase.Io.{ok, Result, err, fault}
use dns_ligase.Prelude.{
  ◌≤◌, ◌≡◌, ◌≢◌, ◌⊎◌, refl, List, [], ◌∷◌, Bytes, length, arith, inr, All, Option, some, none,
}

module _ (x : External) (s : Scene x) where
  -- A query that parses and whose first name is blocked is answered with NXDOMAIN alone: nothing goes
  -- upstream.
  pub blocked_stays_here_on_tcp :
      (packet : Bytes) (m : DnsMessage) (q : DnsQuestion) (qs : List DnsQuestion) (rule : Bytes)
      → parse packet ≡ ok m
      → m.questions ≡ q ∷ qs
      → check x s.question_rules q.name ≡ blocked rule
      → (asked (handle_tcp_packet x s packet).did ≡ [])
        × (sent (handle_tcp_packet x s packet).did ≡ build_nxdomain m ∷ [])
  unfolding handle_tcp_packet tcp_nxdomain
  blocked_stays_here_on_tcp packet m q qs rule p one b = ground arith

  -- What a client gets over TCP: NXDOMAIN, or the answer of the upstream resolver as it is, which
  -- none of the blocklists in force objects to.
  abbrev pub MaySendTcp : DnsMessage → Bytes → Type 0
  MaySendTcp m b =
      (b ≡ build_nxdomain m) ⊎ ((s.tcp_answer (serialize (outgoing m)) ≡ ok b) × CleanReply x s b)

  abbrev Sends : DnsMessage → Outcome → Type 0
  Sends m o = All (MaySendTcp m) (sent o.did)

  -- Both properties of the effects of a turn, for a query with a question; `Once` for any query.
  abbrev Turn : DnsMessage → Outcome → Type 0
  Turn m o = Once x s o × (m.questions ≢ [] → Sends m o)

  tcp_send-Turn :
      (m : DnsMessage) (b : Bytes) → (m.questions ≢ [] → MaySendTcp m b) → Turn m (tcp_send x s m b)
  unfolding tcp_send
  tcp_send-Turn m b h = ground arith

  tcp_nxdomain-Turn :
      (m : DnsMessage) (q : DnsQuestion) (rule : Bytes) → Turn m (tcp_nxdomain x s m q rule)
  unfolding tcp_nxdomain
  tcp_nxdomain-Turn m q rule = ground arith

  tcp_reply-Turn :
      (m : DnsMessage) (qs : List DnsQuestion) (resp : Bytes)
      → (m.questions ≢ [] → qs ≢ [])
      → s.tcp_answer (serialize (outgoing m)) ≡ ok resp
      → Turn m (tcp_reply x s m qs resp)
  unfolding tcp_reply
  tcp_reply-Turn m [] resp same answered =
      tcp_send-Turn m resp (λ some_question. absurd (same some_question refl))
  tcp_reply-Turn m (q ∷ qs) resp same answered = checked (cloaked x s resp) refl
    where
      checked :
          (hit : Option (Bytes × Bytes))
          → cloaked x s resp ≡ hit
          → Turn m (elim hit [
            | some hit ↦ logged x s q was_blocked (cname_rule x s hit) (
                try (send (build_nxdomain m)) (s.client_write (build_nxdomain m)) (returns (ok tt)))
            | none ↦ tcp_send x s m resp
          ])
      checked (some hit) e = ground arith
      checked none e =
          tcp_send-Turn m resp (λ some_question. inr (answered, cloaked-none x s resp e))

  tcp_forward-Turn : (m : DnsMessage) → Turn m (tcp_forward x s m)
  unfolding tcp_forward
  tcp_forward-Turn m = over_tcp (s.tcp_answer (serialize (outgoing m))) refl
    where
      over_tcp :
          (r : Result Bytes)
          → s.tcp_answer (serialize (outgoing m)) ≡ r
          → Turn m (
              after (ask_tcp (serialize (outgoing m))) (elim r [
                | ok resp ↦ tcp_reply x s m m.questions resp
                | err e ↦ returns (err e)
                | fault e ↦ returns (fault e)
              ]))
      over_tcp (ok resp) e = tcp_reply-Turn m m.questions resp (λ h. h) e
      over_tcp (err y) e = ground arith
      over_tcp (fault y) e = ground arith

  tcp_message-Turn : (m : DnsMessage) (qs : List DnsQuestion) → Turn m (tcp_message x s m qs)
  unfolding tcp_message
  tcp_message-Turn m [] = tcp_forward-Turn m
  tcp_message-Turn m (q ∷ qs) = ground (arith, tcp_forward-Turn m, tcp_nxdomain-Turn m)

  handle_tcp_packet-Once : (packet : Bytes) → Once x s (handle_tcp_packet x s packet)
  unfolding handle_tcp_packet
  handle_tcp_packet-Once packet = parsed (parse packet)
    where
      parsed :
          (r : Result DnsMessage)
          → Once x s (elim r [
            | ok m ↦ tcp_message x s m m.questions
            | err e ↦ returns (err e)
            | fault e ↦ returns (fault e)
          ])
      parsed (ok m) = (tcp_message-Turn m m.questions).0
      parsed (err e) = ground arith
      parsed (fault e) = ground arith

  -- For a query with a question, a turn of the TCP loop writes at most one message to the client, and
  -- that is NXDOMAIN or the untouched answer of the upstream resolver to the forwarded query, none of
  -- whose CNAME targets is blocked; a turn that succeeds writes exactly one.
  pub handle_tcp_packet-MaySend :
      (packet : Bytes) (m : DnsMessage)
      → parse packet ≡ ok m
      → m.questions ≢ []
      → All (MaySendTcp m) (sent (handle_tcp_packet x s packet).did)
        × (length (sent (handle_tcp_packet x s packet).did) ≤ 1)
        × ((handle_tcp_packet x s packet).result ≡ ok tt
            → length (sent (handle_tcp_packet x s packet).did) ≡ 1)
  unfolding handle_tcp_packet
  handle_tcp_packet-MaySend packet m p some_question =
      let (once, sends) = tcp_message-Turn m m.questions in
      rw (p, handle_tcp_packet) (sends some_question, once.0, once.1)
