-- ===== src/Upstream/Replies.antt =====
-- That a late reply in src/upstream.rs does not answer a later query.
use dns_ligase.Forwarder.Response.{edns_buffer_size}
use dns_ligase.Io.{Error, Result, ok, err, fault, and_then}
use dns_ligase.Prelude.{
  ◌≡◌, ◌==◌, ==_iff, List, [], ◌∷◌, Bytes, ℕ, All, Option, some, none, take, if◌then◌else◌,
  Bool-cases, inl, inr, refl, sym, ◌∙◌, ltb, length, ◌⊎◌, arith, u16_at,
}
use dns_ligase.Upstream.{
  Net, udp_pool_cap, message_id, udp_query, give_back, finish, udp_query_on, checkout_udp, within,
}
use dns_ligase.Upstream.Kept.{message_id_long}
use mathlib.Core.Path.{subst}

u16_at-pair : (x y : ℕ) (b c : Bytes) → u16_at (x ∷ y ∷ b) 0 ≡ u16_at (x ∷ y ∷ c) 0
unfolding u16_at
u16_at-pair x y b c = refl

message_id-pair : (x y : ℕ) (b c : Bytes) → message_id (x ∷ y ∷ b) ≡ message_id (x ∷ y ∷ c)
message_id-pair x y b c =
    message_id_long (x ∷ y ∷ b) (omega arith)
    ∙ (u16_at-pair x y b c ∙ sym (message_id_long (x ∷ y ∷ c) (omega arith)))

message_id-take : (b : Bytes) → message_id (take edns_buffer_size b) ≡ message_id b
unfolding message_id
message_id-take [] = refl
message_id-take (x ∷ []) = refl
message_id-take (x ∷ y ∷ b) = message_id-pair x y (take 1230 b) b

-- The bytes are the reply, as far as it fits the buffer, to one of the program's queries, which has
-- the ID of `q`.
pub record AnswerTo (IsQuery : Bytes → Type 0) (IsReply : Bytes → Bytes → Type 0) (q bytes : Bytes)
    : Type 0 where
  pub query : Bytes
  pub reply : Bytes
  pub asked : IsQuery query
  pub same_id : message_id query ≡ message_id q
  pub replied : IsReply query reply
  pub cut : bytes ≡ take edns_buffer_size reply

abbrev pub Answered : (Bytes → Type 0) → (Bytes → Bytes → Type 0) → Bytes → Result Bytes → Type 0
Answered IsQuery IsReply q (ok bytes) = AnswerTo IsQuery IsReply q bytes
Answered IsQuery IsReply q (err e) = Unit
Answered IsQuery IsReply q (fault f) = Unit

-- `IsQuery` holds of the queries that the program sends, `SentOn q s` says that `q` was sent on a
-- socket, and `IsReply q b` that the datagram is a reply to `q`.
module _ {ℓ} {Socket : Type ℓ} (net : Net Socket) (others : List Socket → List Socket)
    (IsQuery : Bytes → Type 0) (SentOn : Bytes → Socket → Type 0)
    (IsReply : Bytes → Bytes → Type 0) where
  -- Only the program's queries were sent on the socket.
  abbrev pub Known : Socket → Type 0
  Known s = (q : Bytes) → SentOn q s → IsQuery q

  -- What the datagram sockets and the resolver do. A socket is connected to the resolver, so that what
  -- it receives are the resolver's replies to what was sent on it: late, more than once or never.
  pub record IsDatagramNet : Type ℓ where
    pub nothing_sent : (q : Bytes) (s : Socket) → net.bind_connect ≡ ok s → SentOn q s → ⊥
    pub send_sends :
        (p q : Bytes) (s s' : Socket) → net.send q s ≡ ok s' → SentOn p s' → (p ≡ q) ⊎ SentOn p s
    pub recv_sends_nothing :
        (p b : Bytes) (s s' : Socket) → net.recv s ≡ some (ok (b, s')) → SentOn p s' → SentOn p s
    pub recv_replies :
        (b : Bytes) (s s' : Socket)
        → net.recv s ≡ some (ok (b, s'))
        → (q : Bytes) × (SentOn q s × IsReply q b)
    pub reply_has_id : (q b : Bytes) → IsReply q b → message_id b ≡ message_id q

  abbrev AnsweredOn : Bytes → Result (Bytes × Socket) → Type 0
  AnsweredOn q (ok (bytes, s)) = AnswerTo IsQuery IsReply q bytes × Known s
  AnsweredOn q (err e) = Unit
  AnsweredOn q (fault f) = Unit

  module _ (w : IsDatagramNet)
      (others_know : (pool : List Socket) → All Known pool → All Known (others pool)) where
    received :
        (q datagram : Bytes) (s s' : Socket)
        → Known s
        → net.recv s ≡ some (ok (datagram, s'))
        → AnsweredOn q (
            if message_id (take edns_buffer_size datagram) == message_id q
            then ok (take edns_buffer_size datagram, s')
            else err Error.id_mismatch)
    received q datagram s s' known e =
        elim (Bool-cases (message_id (take edns_buffer_size datagram) == message_id q)) [
          | inl same ↦
              let (p, (sent, replied)) = w.recv_replies datagram s s' e in
              rw same (
                record {
                  query = p;
                  reply = datagram;
                  asked = known p sent;
                  same_id =
                      sym (w.reply_has_id p datagram replied)
                      ∙ (sym (message_id-take datagram) ∙ (==_iff _ _).0 same);
                  replied = replied;
                  cut = refl;
                },
                λ p' h. known p' (w.recv_sends_nothing p' datagram s s' e h),
              )
          | inr other ↦ rw other tt
        ]

    udp_query_on-Answered :
        (q : Bytes) (s : Socket) → IsQuery q → Known s → AnsweredOn q (udp_query_on net others q s)
    unfolding udp_query_on
    udp_query_on-Answered q s mine known = sent (net.send q s) sent_known
      where
        sent_known : (s' : Socket) → net.send q s ≡ ok s' → Known s'
        sent_known s' e p h = elim (w.send_sends p q s s' e h) [
          | inl new ↦ subst IsQuery (sym new) mine
          | inr old ↦ known p old
        ]

        answered :
            (s : Socket) (r : Option (Result (Bytes × Socket)))
            → Known s
            → net.recv s ≡ r
            → AnsweredOn q (
                and_then (within Error.udp_timeout r) (λ (datagram, socket).
                  let buf = take edns_buffer_size datagram in
                  if message_id buf == message_id q
                  then ok (buf, socket)
                  else err Error.id_mismatch))
        answered s none k e = tt
        answered s (some (ok (datagram, s'))) k e = received q datagram s s' k e
        answered s (some (err x)) k e = tt
        answered s (some (fault f)) k e = tt

        sent :
            (r : Result Socket)
            → ((s' : Socket) → r ≡ ok s' → Known s')
            → AnsweredOn q (
                and_then r (λ socket.
                  and_then (within Error.udp_timeout (net.recv socket)) (λ (datagram, socket).
                    let buf = take edns_buffer_size datagram in
                    if message_id buf == message_id q
                    then ok (buf, socket)
                    else err Error.id_mismatch)))
        sent (ok s') k = answered s' (net.recv s') (k s' refl) refl
        sent (err e) k = tt
        sent (fault f) k = tt

    give_back-Known :
        (cap : ℕ) (s : Socket) (pool : List Socket)
        → Known s
        → All Known pool
        → All Known (give_back net others cap s pool)
    unfolding give_back
    give_back-Known cap s pool known all = elim (Bool-cases (ltb (length pool) cap)) [
      | inl room ↦ rw (room, give_back) (known, all)
      | inr full ↦ rw (full, give_back) all
    ]

    finish-Known :
        (q : Bytes) (r : Result (Bytes × Socket)) (rest : List Socket)
        → AnsweredOn q r
        → All Known rest
        → Answered IsQuery IsReply q (finish net others udp_pool_cap r rest).0
          × All Known (finish net others udp_pool_cap r rest).1
    unfolding finish
    finish-Known q (ok (bytes, s)) rest h all =
        (h.0, give_back-Known udp_pool_cap s (others rest) h.1 (others_know rest all))
    finish-Known q (err e) rest h all = (tt, others_know rest all)
    finish-Known q (fault f) rest h all = (tt, others_know rest all)

    bound :
        (q : Bytes) (r : Result Socket)
        → IsQuery q
        → ((s : Socket) → r ≡ ok s → Known s)
        → AnsweredOn q (and_then r (udp_query_on net others q))
    bound q (ok s) mine h = udp_query_on-Answered q s mine (h s refl)
    bound q (err e) mine h = tt
    bound q (fault f) mine h = tt

    -- Where a reply carries the ID of its query, where a socket receives nothing but replies to what
    -- was sent on it, each as late and as often as it may be, and where a socket that is new has
    -- nothing sent on it and one that sends has just that query more: if nothing but the program's
    -- queries was sent on the pooled sockets, and the other tasks keep to that, then an answer that
    -- `udp_query` returns to a query of the program is, as far as it fits the buffer, a reply to one of
    -- the program's queries with the ID of this one, so that a late reply to a query with another ID is
    -- never taken; and nothing but the program's queries was sent on the sockets pooled after the
    -- query, whatever it met.
    pub udp_query-Answered :
        (q : Bytes) (pool : List Socket)
        → IsQuery q
        → All Known pool
        → Answered IsQuery IsReply q (udp_query net others q pool).0
          × All Known (udp_query net others q pool).1
    unfolding udp_query checkout_udp
    udp_query-Answered q [] mine all =
        finish-Known q (and_then net.bind_connect (udp_query_on net others q)) []
          (bound q net.bind_connect mine (λ s e p h. absurd (w.nothing_sent p s e h))) tt
    udp_query-Answered q (s ∷ pool) mine all =
        finish-Known q (udp_query_on net others q s) pool (udp_query_on-Answered q s mine all.0)
          all.1
