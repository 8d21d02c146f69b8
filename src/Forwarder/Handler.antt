-- ===== src/Forwarder/Handler.antt =====
-- `handle_udp_query` and one turn of the loop of `handle_tcp_query` in src/upstream.rs.
pub mod Returned
pub mod Tcp
pub mod Udp
pub mod Relay
use dns_ligase.Blocklist.Check.{check}
use dns_ligase.Forwarder.Scene.{
  Action, was_blocked, was_allowed, was_forwarded, Effect, send, ask_udp, ask_tcp, log_query,
  Outcome, returns, after, try, Scene,
}
use dns_ligase.Blocklist.Rules.{External, Blocklist, MatchOutcome, blocked, allowed, forwarded}
use dns_ligase.Dns.Message.{DnsMessage, parse, serialize}
use dns_ligase.Dns.Records.{DnsQuestion, DnsResourceRecord, cname_type}
use dns_ligase.Forwarder.Response.{
  build_nxdomain, tc_bit_set, truncate_response, client_udp_size, outgoing, qtype_str,
}
use dns_ligase.Io.{Result, ok, err, fault}
use dns_ligase.Prelude.{
  ℕ, suc, Bool, true, false, List, [], ◌∷◌, ◌++◌, Option, none, some, ◌==◌, ltb, if◌then◌else◌,
  Bytes, length,
}
use dns_ligase.Text.Search.{codes}

module _ (x : External) (s : Scene x) where
  abbrev logged : DnsQuestion → Action → Bytes → Outcome → Outcome
  logged q action rule next =
      if s.logs_queries then after (log_query q.name (qtype_str q.qtype) action rule) next else next

  -- The first CNAME target in the answers that is blocked, with its rule.
  blocked_target : ℕ → List DnsResourceRecord → Option (Bytes × Bytes)
  blocked_target i [] = none
  blocked_target i (r ∷ rs) =
      let rest = blocked_target (suc i) rs in
      if r.rtype == cname_type
      then elim r.cname_target [
        | none ↦ rest
        | some target ↦ elim (check x (s.target_rules i) target) [
          | blocked rule ↦ some (target, rule)
          | _ ↦ rest
        ]
      ]
      else rest

  -- The same for a response that may not parse.
  pub cloaked : Bytes → Option (Bytes × Bytes)
  unfolding blocked_target
  cloaked resp = elim (parse resp) [
    | ok m ↦ blocked_target 0 m.answers
    | err e ↦ none
    | fault e ↦ none
  ]

  abbrev cname_rule : Bytes × Bytes → Bytes
  cname_rule (target, rule) = codes "cname:" ++ (target ++ (codes " " ++ rule))

  module _ (m : DnsMessage) where
    -- The last log entry of a query that was forwarded.
    udp_done : List DnsQuestion → Outcome
    udp_done [] = returns (ok tt)
    udp_done (q ∷ qs) = logged q was_forwarded [] (returns (ok tt))

    udp_send : Bytes → Outcome
    unfolding udp_done
    udp_send resp = try (send resp) (s.client_write resp) (udp_done m.questions)

    -- Truncates the response if it exceeds what the client takes, and sends it.
    udp_fit : Bytes → Outcome
    unfolding udp_send
    udp_fit resp =
        if ltb (client_udp_size m.additionals) (length resp)
        then elim (truncate_response resp) [
          | ok short ↦ udp_send short
          | err e ↦ returns (err e)
          | fault e ↦ returns (fault e)
        ]
        else udp_send resp

    udp_nxdomain : Outcome
    udp_nxdomain =
        try (send (build_nxdomain m)) (s.client_write (build_nxdomain m)) (returns (ok tt))

    -- The check of the reply's CNAME targets, made only for a query that has a question.
    udp_reply : List DnsQuestion → Bytes → Outcome
    unfolding cloaked udp_nxdomain udp_fit
    udp_reply [] resp = udp_fit resp
    udp_reply (q ∷ qs) resp = elim (cloaked resp) [
      | some hit ↦ logged q was_blocked (cname_rule hit) udp_nxdomain
      | none ↦ udp_fit resp
    ]

    -- A truncated answer is fetched again over TCP.
    udp_retry : Bytes → Outcome
    unfolding udp_reply
    udp_retry resp =
        let query = serialize (outgoing m) in
        if tc_bit_set resp
        then after (ask_tcp query) (elim (s.tcp_answer query) [
          | ok full ↦ udp_reply m.questions full
          | err e ↦ returns (err e)
          | fault e ↦ returns (fault e)
        ])
        else udp_reply m.questions resp

    udp_forward : Outcome
    unfolding udp_retry
    udp_forward =
        let query = serialize (outgoing m) in
        after (ask_udp query) (elim (s.udp_answer query) [
          | ok resp ↦ udp_retry resp
          | err e ↦ returns (err e)
          | fault e ↦ returns (fault e)
        ])

    udp_message : List DnsQuestion → Outcome
    unfolding udp_forward udp_nxdomain
    udp_message [] = udp_forward
    udp_message (q ∷ qs) = elim (check x s.question_rules q.name) [
      | blocked rule ↦ logged q was_blocked rule udp_nxdomain
      | allowed rule ↦ logged q was_allowed rule udp_forward
      | forwarded ↦ udp_forward
    ]

  unfoldable pub handle_udp_query : Bytes → Outcome
  unfolding udp_message
  handle_udp_query packet = elim (parse packet) [
    | ok m ↦ udp_message m m.questions
    | err e ↦ returns (err e)
    | fault e ↦ returns (fault e)
  ]

  module _ (m : DnsMessage) where
    -- On TCP the answer is written first and logged after; the turn ends with `continue`.
    tcp_nxdomain : DnsQuestion → Bytes → Outcome
    tcp_nxdomain q rule =
        try (send (build_nxdomain m)) (s.client_write (build_nxdomain m))
          (logged q was_blocked rule (returns (ok tt)))

    tcp_done : List DnsQuestion → Outcome
    tcp_done [] = returns (ok tt)
    tcp_done (q ∷ qs) = logged q was_forwarded [] (returns (ok tt))

    tcp_send : Bytes → Outcome
    unfolding tcp_done
    tcp_send resp = try (send resp) (s.client_write resp) (tcp_done m.questions)

    -- Here the log entry of a blocked target comes before the write.
    tcp_reply : List DnsQuestion → Bytes → Outcome
    unfolding cloaked tcp_send
    tcp_reply [] resp = tcp_send resp
    tcp_reply (q ∷ qs) resp = elim (cloaked resp) [
      | some hit ↦
          logged q was_blocked (cname_rule hit)
            (try (send (build_nxdomain m)) (s.client_write (build_nxdomain m)) (returns (ok tt)))
      | none ↦ tcp_send resp
    ]

    tcp_forward : Outcome
    unfolding tcp_reply
    tcp_forward =
        let query = serialize (outgoing m) in
        after (ask_tcp query) (elim (s.tcp_answer query) [
          | ok resp ↦ tcp_reply m.questions resp
          | err e ↦ returns (err e)
          | fault e ↦ returns (fault e)
        ])

    tcp_message : List DnsQuestion → Outcome
    unfolding tcp_forward tcp_nxdomain
    tcp_message [] = tcp_forward
    tcp_message (q ∷ qs) = elim (check x s.question_rules q.name) [
      | blocked rule ↦ tcp_nxdomain q rule
      | allowed rule ↦ logged q was_allowed rule tcp_forward
      | forwarded ↦ tcp_forward
    ]

  -- One query of a TCP connection, from its packet; `ok` goes on to the next one.
  unfoldable pub handle_tcp_packet : Bytes → Outcome
  unfolding tcp_message
  handle_tcp_packet packet = elim (parse packet) [
    | ok m ↦ tcp_message m m.questions
    | err e ↦ returns (err e)
    | fault e ↦ returns (fault e)
  ]
