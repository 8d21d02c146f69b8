-- ===== src/Tests/DnsRuns.antt =====
-- Reading and writing messages.
use dns_ligase.Dns.Message.RoundTrip.{parse-serialize}
use dns_ligase.Dns.Message.Safety.{parse-Returns}
use dns_ligase.Dns.Message.{parse, serialize}
use dns_ligase.Dns.Name.{parse_name}
use dns_ligase.Dns.Reader.{read_exact, repeat}
use dns_ligase.Dns.Records.{parse_header, header_of, parse_question}
use dns_ligase.Io.{err, ok, too_many_jumps, Returns}
use dns_ligase.Prelude.{◌≡◌, refl, [], ◌∷◌, Bytes}
use dns_ligase.Tests.Samples.{ads_query, ads_query-IsMessage}

-- A pointer to itself behind a header that announces one question.
abbrev looping_packet : Bytes
looping_packet = 0x12 ∷ 0x34 ∷ 1 ∷ 0 ∷ 0 ∷ 1 ∷ 0 ∷ 0 ∷ 0 ∷ 0 ∷ 0 ∷ 0 ∷ 0xc0 ∷ 12 ∷ []

looping_packet_refused : parse looping_packet ≡ err too_many_jumps
unfolding parse parse_header read_exact repeat header_of parse_question parse_name
looping_packet_refused = refl

parse-Returns_example : Returns (parse looping_packet)
parse-Returns_example = parse-Returns looping_packet

parse-serialize_example : parse (serialize ads_query) ≡ ok ads_query
parse-serialize_example = parse-serialize ads_query ads_query-IsMessage
