-- ===== src/Forwarder/Handler/Relay.antt =====
-- What `handle_udp_query` of src/upstream.rs passes on to a client from the upstream resolver.
use dns_ligase.Blocklist.Check.{check}
use dns_ligase.Blocklist.Rules.{External, blocked}
use dns_ligase.Dns.Message.{DnsMessage, parse, serialize}
use dns_ligase.Dns.Records.{DnsQuestion, DnsResourceRecord, cname_type}
use dns_ligase.Forwarder.Handler.{
  handle_udp_query, blocked_target, cloaked, udp_send, udp_nxdomain, udp_fit, udp_reply, udp_retry,
  udp_forward, udp_message, logged, returns, was_blocked, cname_rule,
}
use dns_ligase.Forwarder.Response.{
  build_nxdomain, outgoing, tc_bit_set, client_udp_size, truncate_response,
}
use dns_ligase.Forwarder.Scene.{Scene, Outcome, sent}
use dns_ligase.Io.{ok, Result, err, fault}
use dns_ligase.Prelude.{
  refl, ◌≤◌, ◌≡◌, List, [], ◌∷◌, Bytes, length, arith, Bool-cases, inl, inr, ℕ, ◌⊎◌, All, some,
  none, ◌<◌, Option, ◌≢◌, suc, ltb, ltb→lt,
}

module _ (x : External) (s : Scene x) where
  -- No CNAME target among the answers is blocked by the rules in force when it is checked.
  abbrev pub CleanFrom : ℕ → List DnsResourceRecord → Type 0
  CleanFrom i [] = Unit
  CleanFrom i (r ∷ rs) =
      ((target rule : Bytes)
        → r.rtype ≡ cname_type
        → r.cname_target ≡ some target
        → check x (s.target_rules i) target ≢ blocked rule)
      × CleanFrom (suc i) rs

  blocked_target-none :
      (i : ℕ) (rs : List DnsResourceRecord) → blocked_target x s i rs ≡ none → CleanFrom i rs
  unfolding blocked_target
  blocked_target-none i [] h = tt
  blocked_target-none i (r ∷ rs) h = (
    (λ target rule is_cname known hit. ground arith),
    blocked_target-none (suc i) rs (ground arith),
  )

  abbrev pub CleanReply : Bytes → Type 0
  CleanReply resp = (m : DnsMessage) → parse resp ≡ ok m → CleanFrom 0 m.answers

  pub cloaked-none : (resp : Bytes) → cloaked x s resp ≡ none → CleanReply resp
  unfolding cloaked
  cloaked-none resp h m p = blocked_target-none 0 m.answers (ground arith)

  -- What goes to the client stems from a whole answer of the upstream resolver to the query sent
  -- there: an answer without blocked targets, passed on as it is if it fits the size that the
  -- client takes, and else truncated.
  pub record Relayed (m : DnsMessage) (b : Bytes) : Type 0 where
    pub full : Bytes
    pub asked_for :
        (s.udp_answer (serialize (outgoing m)) ≡ ok full)
        ⊎ (s.tcp_answer (serialize (outgoing m)) ≡ ok full)
    pub clean : CleanReply full
    pub fits :
        ((b ≡ full) × (length full ≤ client_udp_size m.additionals))
        ⊎ ((client_udp_size m.additionals < length full) × (truncate_response full ≡ ok b))

  abbrev pub MaySend : DnsMessage → Bytes → Type 0
  MaySend m b = (b ≡ build_nxdomain m) ⊎ Relayed m b

  abbrev Sends : DnsMessage → Outcome → Type 0
  Sends m o = All (MaySend m) (sent o.did)

  udp_send-Sends : (m : DnsMessage) (b : Bytes) → MaySend m b → Sends m (udp_send x s m b)
  unfolding udp_send
  udp_send-Sends m b h = ground arith

  udp_nxdomain-Sends : (m : DnsMessage) → Sends m (udp_nxdomain x s m)
  unfolding udp_nxdomain
  udp_nxdomain-Sends m = ground arith

  -- A response that the upstream resolver gave.
  abbrev FromUpstream : DnsMessage → Bytes → Type 0
  FromUpstream m resp =
      (s.udp_answer (serialize (outgoing m)) ≡ ok resp)
      ⊎ (s.tcp_answer (serialize (outgoing m)) ≡ ok resp)

  udp_fit-Sends :
      (m : DnsMessage) (resp : Bytes)
      → FromUpstream m resp
      → CleanReply resp
      → Sends m (udp_fit x s m resp)
  unfolding udp_fit
  udp_fit-Sends m resp from clean =
      elim (Bool-cases (ltb (client_udp_size m.additionals) (length resp))) [
        | inl over ↦ rw over (shortened (truncate_response resp) refl (ltb→lt _ _ over))
        | inr within ↦ rw within (
            udp_send-Sends m resp (
              inr (record {
                full = resp;
                asked_for = from;
                clean = clean;
                fits = inl (refl, ground arith);
              })))
      ]
    where
      shortened :
          (r : Result Bytes)
          → truncate_response resp ≡ r
          → client_udp_size m.additionals < length resp
          → Sends m (elim r [
            | ok short ↦ udp_send x s m short
            | err e ↦ returns (err e)
            | fault e ↦ returns (fault e)
          ])
      shortened (ok short) e over =
          udp_send-Sends m short
            (inr (record { full = resp; asked_for = from; clean = clean; fits = inr (over, e) }))
      shortened (err y) e over = tt
      shortened (fault y) e over = tt

  udp_reply-Sends :
      (m : DnsMessage) (qs : List DnsQuestion) (resp : Bytes)
      → qs ≢ []
      → FromUpstream m resp
      → Sends m (udp_reply x s m qs resp)
  unfolding udp_reply
  udp_reply-Sends m [] resp some_question from = absurd (some_question refl)
  udp_reply-Sends m (q ∷ qs) resp some_question from = checked (cloaked x s resp) refl
    where
      checked :
          (hit : Option (Bytes × Bytes))
          → cloaked x s resp ≡ hit
          → Sends m (elim hit [
            | some hit ↦ logged x s q was_blocked (cname_rule x s hit) (udp_nxdomain x s m)
            | none ↦ udp_fit x s m resp
          ])
      checked (some hit) e = ground (arith, udp_nxdomain-Sends m)
      checked none e = udp_fit-Sends m resp from (cloaked-none resp e)

  module _ (m : DnsMessage) (some_question : m.questions ≢ []) where
    udp_retry-Sends : (resp : Bytes) → FromUpstream m resp → Sends m (udp_retry x s m resp)
    unfolding udp_retry
    udp_retry-Sends resp from = elim (Bool-cases (tc_bit_set resp)) [
      | inl tc ↦ rw tc (over_tcp (s.tcp_answer (serialize (outgoing m))) refl)
      | inr no_tc ↦ rw no_tc (udp_reply-Sends m m.questions resp some_question from)
    ]
      where
        over_tcp :
            (r : Result Bytes)
            → s.tcp_answer (serialize (outgoing m)) ≡ r
            → Sends m (elim r [
              | ok full ↦ udp_reply x s m m.questions full
              | err e ↦ returns (err e)
              | fault e ↦ returns (fault e)
            ])
        over_tcp (ok full) e = udp_reply-Sends m m.questions full some_question (inr e)
        over_tcp (err y) e = tt
        over_tcp (fault y) e = tt

    udp_forward-Sends : Sends m (udp_forward x s m)
    unfolding udp_forward
    udp_forward-Sends = over_udp (s.udp_answer (serialize (outgoing m))) refl
      where
        over_udp :
            (r : Result Bytes)
            → s.udp_answer (serialize (outgoing m)) ≡ r
            → Sends m (elim r [
              | ok resp ↦ udp_retry x s m resp
              | err e ↦ returns (err e)
              | fault e ↦ returns (fault e)
            ])
        over_udp (ok resp) e = udp_retry-Sends resp (inl e)
        over_udp (err y) e = tt
        over_udp (fault y) e = tt

    udp_message-Sends : (qs : List DnsQuestion) → Sends m (udp_message x s m qs)
    unfolding udp_message
    udp_message-Sends [] = udp_forward-Sends
    udp_message-Sends (q ∷ qs) = ground (arith, udp_forward-Sends, udp_nxdomain-Sends m)

  -- For a query with a question, all that a client gets is NXDOMAIN or stems from an answer of
  -- the upstream resolver to the forwarded query, none of whose CNAME targets is blocked, whole if
  -- the client's size allows and truncated if not.
  pub handle_udp_query-MaySend :
      (packet : Bytes) (m : DnsMessage)
      → parse packet ≡ ok m
      → m.questions ≢ []
      → All (MaySend m) (sent (handle_udp_query x s packet).did)
  unfolding handle_udp_query
  handle_udp_query-MaySend packet m p some_question =
      rw (p, handle_udp_query) (udp_message-Sends m some_question m.questions)
