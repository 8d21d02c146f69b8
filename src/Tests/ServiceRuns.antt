-- ===== src/Tests/ServiceRuns.antt =====
-- Lists, the pools, the log, the calendar and the cache on concrete inputs.
use dns_ligase.Blocklist.Lines.Routing.{slash_line_panics}
use dns_ligase.Blocklist.Lines.{parse_lines_into_allow, parse_each}
use dns_ligase.Blocklist.Pieces.{clean_domain_static, is_local_name}
use dns_ligase.Blocklist.Rules.{Blocklist, new}
use dns_ligase.Io.{Result, ok, err, connect_timeout}
use dns_ligase.Journal.Framing.{log_entry-fields}
use dns_ligase.Journal.{log_entry, sanitize_field, priority, message}
use dns_ligase.Prelude.{
  u16_at, ◌<◌, ◌⊎◌, ◌≤◌, ◌≡◌, ◌≢◌, refl, false, List, [], ◌∷◌, Option, none, some, Bytes, length,
  All, arith, ap, inl, inr,
}
use dns_ligase.Stats.Calendar.Days.{days_to_ymd-next_day}
use dns_ligase.Stats.Calendar.{days_to_ymd, next_day}
use dns_ligase.Tests.Samples.{literal_patterns, ads, ads_rules}
use dns_ligase.Text.Search.{codes}
use dns_ligase.Text.Split.{split}
use dns_ligase.Text.Trim.{trim}
use dns_ligase.Upstream.Kept.{udp_query-IsAnswer, query-length}
use dns_ligase.Upstream.{Net, udp_query, tcp_query, udp_pool_cap, tcp_pool_cap, message_id}
use dns_ligase.Upstream.Replies.{Answered, Known, IsDatagramNet, udp_query-Answered}
use mathlib.Core.Path.{subst}

hosts_line : clean_domain_static (codes "0.0.0.0 ads.com # ads") ≡ some ads
unfolding clean_domain_static is_local_name
hosts_line = refl

-- A list that allows ads.com.
abbrev allow_body : Bytes
allow_body = codes "||ads.com^\n"

abbrev allow_rules : Blocklist Bytes
allow_rules = record new { allow_suffixes = ads ∷ [] }

allow_body_read : parse_lines_into_allow literal_patterns new allow_body ≡ ok allow_rules
unfolding parse_lines_into_allow
allow_body_read = refl

slash_line_panics_example :
    parse_each literal_patterns false (ads ∷ codes "/" ∷ []) new ≢ ok ads_rules
unfolding trim
slash_line_panics_example =
    slash_line_panics literal_patterns (ads ∷ []) [] (codes "/") false new ads_rules refl

-- A resolver that answers with the query, and one that is not there.
abbrev echo : Net Bytes
echo = record {
  bind_connect = ok [];
  send = λ b s. ok b;
  recv = λ s. some (ok (s, []));
  tcp_connect = none;
  write_all = λ b s. none;
  flush = λ s. ok s;
  read_exact = λ n s. none;
}

abbrev idle : List Bytes → List Bytes
idle pool = pool

echoed : (udp_query echo idle (codes "id and more") []).0 ≡ ok (codes "id and more")
unfolding udp_query
echoed = refl

udp_query-IsAnswer_example :
    (length (codes "id and more") ≤ 1232)
    × ((2 ≤ length (codes "id and more"))
          × (u16_at (codes "id and more") 0 ≡ u16_at (codes "id and more") 0)
        ⊎ (length (codes "id and more") < 2) × (u16_at (codes "id and more") 0 ≡ 0))
udp_query-IsAnswer_example =
    udp_query-IsAnswer echo idle (codes "id and more") (codes "id and more") [] (omega arith) echoed

-- The hole in the check: an empty datagram answers a query with the ID 0.
abbrev empty_datagrams : Net Bytes
empty_datagrams = record echo { recv = λ s. some (ok ([], [])) }

empty_accepted : (udp_query empty_datagrams idle (0 ∷ 0 ∷ 1 ∷ []) []).0 ≡ ok []
unfolding udp_query
empty_accepted = refl

query-length_example :
    (length (udp_query echo idle ads []).1 ≤ udp_pool_cap)
    × (length (tcp_query echo idle ads (ads ∷ [])).1 ≤ tcp_pool_cap)
query-length_example =
    query-length echo idle ads [] (ads ∷ []) (λ p h. h) (λ p h. h) (omega arith) (omega arith)

no_tcp : (tcp_query echo idle ads (ads ∷ [])).0 ≡ err connect_timeout
unfolding tcp_query
no_tcp = refl

days_to_ymd-next_day_example :
    (days_to_ymd 0 ≡ (1970, 1, 1)) × (days_to_ymd 11017 ≡ next_day (days_to_ymd 11016))
days_to_ymd-next_day_example = days_to_ymd-next_day 11016

leap_day : days_to_ymd 11016 ≡ (2000, 2, 29)
unfolding days_to_ymd
leap_day = refl

-- A name with a newline in it does not add a field to the log.
log_entry-fields_example :
    split b'\n'
      (log_entry (codes "10.0.0.1") (codes "a\nQUERY_RULE=b") (codes "A") (codes "allowed") ads)
    ≡ codes "PRIORITY=7"
      ∷ codes "SYSLOG_IDENTIFIER=dns-ligase"
      ∷ codes "MESSAGE=query allowed a_QUERY_RULE=b (A) from 10.0.0.1 [ads.com]"
      ∷ codes "QUERY_SOURCE=10.0.0.1"
      ∷ codes "QUERY_DOMAIN=a_QUERY_RULE=b"
      ∷ codes "QUERY_QTYPE=A"
      ∷ codes "QUERY_ACTION=allowed"
      ∷ codes "QUERY_RULE=ads.com"
      ∷ []
      ∷ []
unfolding sanitize_field priority message
log_entry-fields_example =
    log_entry-fields (codes "10.0.0.1") (codes "a\nQUERY_RULE=b") (codes "A") (codes "allowed") ads

-- What was sent on a socket, the last one first.
abbrev WasSent : Bytes → List Bytes → Type 0
WasSent q [] = ⊥
WasSent q (p ∷ sent) = (q ≡ p) ⊎ WasSent q sent

abbrev newest : List Bytes → Option (Result (Bytes × List Bytes))
newest [] = none
newest (p ∷ sent) = some (ok (p, p ∷ sent))

-- A network that answers the last query with itself, again and again.
abbrev repeating : Net (List Bytes)
repeating = record {
  bind_connect = ok [];
  send = λ q s. ok (q ∷ s);
  recv = newest;
  tcp_connect = none;
  write_all = λ b s. none;
  flush = λ s. ok s;
  read_exact = λ n s. none;
}

abbrev OurQuery : Bytes → Type 0
OurQuery q = (q ≡ codes "query") ⊎ (q ≡ codes "older query")

bound_empty : (q : Bytes) (s : List Bytes) → repeating.bind_connect ≡ ok s → WasSent q s → ⊥
bound_empty q [] e h = h
bound_empty q (p ∷ s) e h = ground arith

sent_one :
    (p q : Bytes) (s s' : List Bytes)
    → repeating.send q s ≡ ok s'
    → WasSent p s'
    → (p ≡ q) ⊎ WasSent p s
sent_one p q s [] e h = inr (absurd h)
sent_one p q s (r ∷ s') e (inl h) = inl (ground arith)
sent_one p q s (r ∷ s') e (inr h) = inr (subst (λ t. WasSent p t) same h)
  where
    same : s' ≡ s
    same = cc

repeating-IsDatagramNet :
    IsDatagramNet repeating (λ sockets. sockets) OurQuery WasSent (λ q b. b ≡ q)
repeating-IsDatagramNet = record {
  nothing_sent = bound_empty;
  send_sends = sent_one;
  recv_sends_nothing = unchanged;
  recv_replies = replied;
  reply_has_id = λ q b e. ap message_id e;
}
  where
    unchanged :
        (p b : Bytes) (s s' : List Bytes)
        → newest s ≡ some (ok (b, s'))
        → WasSent p s'
        → WasSent p s
    unchanged p b [] s' e h = ground arith
    unchanged p b (q ∷ s) s' e h = subst (λ t. WasSent p t) same h
      where
        same : s' ≡ q ∷ s
        same = cc

    replied :
        (b : Bytes) (s s' : List Bytes)
        → newest s ≡ some (ok (b, s'))
        → (q : Bytes) × (WasSent q s × (b ≡ q))
    replied b [] s' e = ground arith
    replied b (q ∷ s) s' e = (q, (inl refl, same))
      where
        same : b ≡ q
        same = cc

-- A pooled socket, on which an older query was sent.
abbrev used : List Bytes
used = codes "older query" ∷ []

used_known : (q : Bytes) → WasSent q used → OurQuery q
used_known q (inl h) = inr h
used_known q (inr h) = absurd h

udp_query-Answered_example :
    Answered OurQuery
      (λ q b. b ≡ q)
      (codes "query")
      (udp_query repeating (λ sockets. sockets) (codes "query") (used ∷ [])).0
    × All
        (Known repeating (λ sockets. sockets) OurQuery WasSent (λ q b. b ≡ q))
        (udp_query repeating (λ sockets. sockets) (codes "query") (used ∷ [])).1
udp_query-Answered_example =
    udp_query-Answered repeating (λ sockets. sockets) OurQuery WasSent (λ q b. b ≡ q)
      repeating-IsDatagramNet (λ pool all. all) (codes "query") (used ∷ []) (inl refl)
      (used_known, tt)

answered_anew :
    (udp_query repeating (λ sockets. sockets) (codes "query") (used ∷ [])).0 ≡ ok (codes "query")
unfolding udp_query
answered_anew = refl
