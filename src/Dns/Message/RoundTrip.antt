-- ===== src/Dns/Message/RoundTrip.antt =====
-- `DnsMessage::parse` after `DnsMessage::serialize` in src/dns.rs.
use dns_ligase.Dns.Message.{
  DnsMessage, parse_message, parse, find_do, result_of, serialize, written_header,
}
use dns_ligase.Dns.Reader.{Reads, repeat, bind-Reads, map-Reads, repeat-Reads, concat_with, advance}
use dns_ligase.Dns.Records.RoundTrip.{
  IsHeader, header-Reads, IsQuestion, question-Reads, IsRecord, record-Reads,
}
use dns_ligase.Dns.Records.{
  DnsQuestion, DnsResourceRecord, parse_question, parse_record, serialize_question,
  serialize_record,
}
use dns_ligase.Io.{ok}
use dns_ligase.Prelude.{
  ℕ, ◌≡◌, sym, ap, ◌∙◌, false, List, [], ◌∷◌, arith, All, length, u16, append-nil,
}

-- A message whose counts are those of its sections and whose parts fit their wire formats.
pub record IsMessage (m : DnsMessage) : Type 0 where
  pub header_fits : IsHeader m.header
  pub qdcount_is : m.header.qdcount ≡ length m.questions
  pub ancount_is : m.header.ancount ≡ length m.answers
  pub nscount_is : m.header.nscount ≡ length m.authorities
  pub arcount_is : m.header.arcount ≡ length m.additionals
  pub questions_fit : All IsQuestion m.questions
  pub answers_fit : All IsRecord m.answers
  pub authorities_fit : All IsRecord m.authorities
  pub additionals_fit : All IsRecord m.additionals
  pub do_is : m.edns_do ≡ find_do false m.additionals

questions-Reads :
    (qs : List DnsQuestion)
    → All IsQuestion qs
    → All (λ q. Reads parse_question (serialize_question q) q) qs
questions-Reads [] h = tt
questions-Reads (q ∷ qs) h = (question-Reads q h.0, questions-Reads qs h.1)

records-Reads :
    (rs : List DnsResourceRecord)
    → All IsRecord rs
    → All (λ r. Reads parse_record (serialize_record r) r) rs
records-Reads [] h = tt
records-Reads (r ∷ rs) h = (record-Reads r h.0, records-Reads rs h.1)

section_records :
    (n : ℕ) (rs : List DnsResourceRecord)
    → n ≡ length rs
    → All IsRecord rs
    → Reads (repeat n parse_record) (concat_with serialize_record rs) rs
section_records n rs e h = rw e (repeat-Reads parse_record serialize_record rs (records-Reads rs h))

section_questions :
    (n : ℕ) (qs : List DnsQuestion)
    → n ≡ length qs
    → All IsQuestion qs
    → Reads (repeat n parse_question) (concat_with serialize_question qs) qs
section_questions n qs e h =
    rw e (repeat-Reads parse_question serialize_question qs (questions-Reads qs h))

module _ (m : DnsMessage) (w : IsMessage m) where
  written_header_same : written_header m ≡ m.header
  written_header_same = ap (λ n. record m.header { arcount = n }) same
    where
      same : u16 (length m.additionals) ≡ m.header.arcount
      same = omega (arith, w.arcount_is, w.header_fits.arcount_fits)

  message-Reads :
      Reads parse_message (serialize m) (record m { edns_do = find_do false m.additionals })
  unfolding parse_message serialize
  message-Reads = rw written_header_same (
      bind-Reads _ (header-Reads m.header w.header_fits) (
        bind-Reads _ (section_questions m.header.qdcount m.questions w.qdcount_is w.questions_fit) (
          bind-Reads _ (section_records m.header.ancount m.answers w.ancount_is w.answers_fit) (
            bind-Reads _
              (section_records m.header.nscount m.authorities w.nscount_is w.authorities_fit)
              (map-Reads _
                (section_records m.header.arcount m.additionals w.arcount_is w.additionals_fit))))))

  -- A message whose counts, fields and names are well formed is parsed from its serialized bytes as it
  -- was.
  pub parse-serialize : parse (serialize m) ≡ ok m
  unfolding parse
  parse-serialize = ap result_of read ∙ ap (λ b. ok (record m { edns_do = b })) (sym w.do_is)
    where
      read :
          parse_message (record { bytes = serialize m; pos = 0 })
          ≡ ok (
            record m { edns_do = find_do false m.additionals },
            advance (length (serialize m)) (record { bytes = serialize m; pos = 0 }),
          )
      read =
          message-Reads.run (record { bytes = serialize m; pos = 0 }) []
            (sym (append-nil (serialize m)))
