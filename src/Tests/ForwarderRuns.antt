-- ===== src/Tests/ForwarderRuns.antt =====
-- What the handlers answer.
use dns_ligase.Blocklist.Check.{check}
use dns_ligase.Blocklist.Rules.{contains, blocked}
use dns_ligase.Dns.Message.RoundTrip.{parse-serialize}
use dns_ligase.Dns.Message.{parse, serialize, DnsMessage}
use dns_ligase.Forwarder.Handler.Relay.{MaySend, handle_udp_query-MaySend}
use dns_ligase.Forwarder.Handler.{handle_udp_query}
use dns_ligase.Forwarder.Response.Nxdomain.{
  nxdomain_answer, parse-build_nxdomain, build_nxdomain-append,
}
use dns_ligase.Forwarder.Response.Outgoing.{parse-outgoing, Forwards}
use dns_ligase.Forwarder.Response.{build_nxdomain, outgoing, client_udp_size, edns_buffer_size}
use dns_ligase.Forwarder.Run.{Received, datagram, recv_failed, udp_task}
use dns_ligase.Forwarder.Run.Amplification.{messages_sent, AllAnswered, udp_task-messages}
use dns_ligase.Forwarder.Scene.{sent, asked}
use dns_ligase.Prelude.{
  List, ◌≤◌, length, ap, ◌∙◌, ℕ, true, [], ◌∷◌, ◌++◌, ◌≡◌, ◌≢◌, refl, arith, Bytes,
}
use dns_ligase.Io.{ok}
use dns_ligase.Dns.Reader.{concat_with, read_exact, repeat}
use dns_ligase.Dns.Records.{
  serialize_question, serialize_header, parse_header, header_of, parse_question, question_of,
}
use dns_ligase.Dns.Name.{parse_name, serialize_label}
use dns_ligase.Dns.Message.{DnsMessage, find_do, parse, serialize}
use dns_ligase.Text.Split.{join}
use dns_ligase.Text.Utf8.{is_utf8}
use mathlib.Core.Bool.{false≢true}
use dns_ligase.Forwarder.Bypass.{dotted, Trimmed, asking, DotBlind, dotted_query_bypass}
use dns_ligase.Io.{Returns}
use dns_ligase.Prelude.{
  ◌≡◌, refl, [], ◌∷◌, All, arith, true, ◌++◌, Bytes, take, ℕ, get_or, ◌≢◌, length, ◌-◌, ap,
  length-append, ◌∙◌,
}
use dns_ligase.Tests.Samples.{
  literal_patterns, ads_question, ads_query, ads_question-IsQuestion, ads_query-IsMessage,
  ads_scene, ads_rules, ads,
}
use dns_ligase.Text.Search.{codes, bytes_eq_iff}
use dns_ligase.Forwarder.Handler.Returned.{handle_udp_query-Returns}

-- A receive fails between two queries.
abbrev three_arrivals : List Received
three_arrivals = datagram (serialize ads_query) ∷ recv_failed ∷ datagram (serialize ads_query) ∷ []

udp_task-messages_example :
    (length (udp_task literal_patterns (λ n. ads_scene) 0 three_arrivals) ≡ 2)
    × (messages_sent (udp_task literal_patterns (λ n. ads_scene) 0 three_arrivals) ≤ 2)
    × (AllAnswered (udp_task literal_patterns (λ n. ads_scene) 0 three_arrivals)
        → messages_sent (udp_task literal_patterns (λ n. ads_scene) 0 three_arrivals) ≡ 2)
udp_task-messages_example = udp_task-messages literal_patterns (λ n. ads_scene) 0 three_arrivals

handle_udp_query-MaySend_example :
    All
      (MaySend literal_patterns ads_scene ads_query)
      (sent (handle_udp_query literal_patterns ads_scene (serialize ads_query)).did)
handle_udp_query-MaySend_example =
    handle_udp_query-MaySend literal_patterns ads_scene (serialize ads_query) ads_query
      (parse-serialize ads_query ads_query-IsMessage) (λ e. cc)

parse-build_nxdomain_example :
    parse (build_nxdomain ads_query) ≡ ok (nxdomain_answer 0x1234 ads_question)
parse-build_nxdomain_example =
    parse-build_nxdomain ads_query ads_question refl (omega arith) ads_question-IsQuestion

parse-outgoing_example :
    (parse (serialize (outgoing ads_query)) ≡ ok (outgoing ads_query))
    × ((outgoing ads_query).edns_do ≡ true)
    × (client_udp_size (outgoing ads_query).additionals ≡ edns_buffer_size)
    × Forwards ads_query (outgoing ads_query)
parse-outgoing_example = parse-outgoing ads_query ads_query-IsMessage (omega arith)

-- Two questions: the second one trails the answer.
abbrev two_questions : DnsMessage
two_questions = record ads_query { questions = ads_question ∷ ads_question ∷ [] }

build_nxdomain-append_example :
    build_nxdomain two_questions
    ≡ serialize (nxdomain_answer 0x1234 ads_question)
      ++ concat_with serialize_question (ads_question ∷ [])
build_nxdomain-append_example =
    build_nxdomain-append two_questions ads_question (ads_question ∷ []) refl

get_or-concat : (p : Bytes) (b : ℕ) → get_or (p ++ b ∷ []) (length p) 0 ≡ b
get_or-concat [] b = refl
get_or-concat (x ∷ p) b = get_or-concat p b

no_dot_end : (s p : Bytes) → get_or s (length s - 1) 0 ≢ b'.' → s ≢ dotted p
no_dot_end s p last e = last (ap (λ t. get_or t (length t - 1) 0) e ∙ at_end)
  where
    at_end : get_or (dotted p) (length (dotted p) - 1) 0 ≡ b'.'
    at_end =
        ap (λ (i : ℕ). get_or (dotted p) i 0) (omega (arith, length-append p (b'.' ∷ [])))
        ∙ get_or-concat p b'.'

one-Trimmed : (a : Bytes) → a ≢ [] → get_or a (length a - 1) 0 ≢ b'.' → Trimmed (a ∷ [])
unfolding contains
one-Trimmed a nonempty last s c =
    let same : a ≡ s = (bytes_eq_iff a s).0 (ground arith) in
    rw (← same) (nonempty, λ p. no_dot_end a p last)

none-Trimmed : Trimmed []
unfolding contains
none-Trimmed s c = absurd (false≢true c)

ads-DotBlind : DotBlind literal_patterns ads_rules ads
ads-DotBlind = record {
  allow_domains = none-Trimmed;
  block_domains = none-Trimmed;
  allow_suffixes = one-Trimmed (codes "safe.ads.com") (λ e. cc) (λ e. cc);
  block_suffixes = one-Trimmed ads (λ e. cc) (λ e. cc);
  allow_regex = refl;
  block_regex = refl;
}

-- The query whose only label is the eight bytes of "ads.com.".
abbrev dotted_query : DnsMessage
dotted_query = asking literal_patterns ads_query ads_question (dotted ads)

abbrev dotted_packet : Bytes
dotted_packet =
    serialize_header ads_query.header ++ serialize_label (dotted ads) ++ (0 ∷ 0 ∷ 1 ∷ 0 ∷ 1 ∷ [])

dotted_packet_parses : parse dotted_packet ≡ ok dotted_query
unfolding serialize_header parse parse_header read_exact repeat header_of parse_question question_of
    parse_name is_utf8 join find_do
dotted_packet_parses = refl

ads_blocked : check literal_patterns ads_rules ads ≡ blocked (codes "block_suffix:ads.com")
unfolding check contains
ads_blocked = refl

dotted_query_bypass_example :
    (asked (handle_udp_query literal_patterns ads_scene (serialize ads_query)).did ≡ [])
    × (take 1 (asked (handle_udp_query literal_patterns ads_scene dotted_packet).did)
        ≡ serialize (outgoing ads_query) ∷ [])
dotted_query_bypass_example =
    dotted_query_bypass literal_patterns ads_scene (serialize ads_query) dotted_packet ads_query
      ads_question ads (codes "block_suffix:ads.com")
      (parse-serialize ads_query ads_query-IsMessage) dotted_packet_parses ads_blocked refl
      ads-DotBlind

handle_udp_query-Returns_example :
    Returns (handle_udp_query literal_patterns ads_scene (0 ∷ 1 ∷ 2 ∷ [])).result
handle_udp_query-Returns_example =
    handle_udp_query-Returns literal_patterns ads_scene (λ b. tt) (λ b. tt) (λ b. tt)
      (0 ∷ 1 ∷ 2 ∷ [])
