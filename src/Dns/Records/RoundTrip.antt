-- ===== src/Dns/Records/RoundTrip.antt =====
-- The readers of src/dns.rs on what the parts of a message wrote.
use dns_ligase.Dns.Name.RoundTrip.{IsName, IsCanonical, canonical-Reads}
use dns_ligase.Dns.Name.{serialize_name}
use dns_ligase.Dns.Reader.{
  Cursor, Reader, Reads, ◌>>=◌, pure, read_exact, bind-Reads, map-Reads, read_exact-Reads,
}
use dns_ligase.Dns.Records.{
  DnsHeader, DnsQuestion, DnsResourceRecord, header_of, parse_header, serialize_header, question_of,
  parse_question, serialize_question, peek_name, cname_type, read_target, record_of, parse_record,
  record_meta, serialize_record,
}
use dns_ligase.Io.{ok}
use dns_ligase.Prelude.{
  ◌^◌, ◌<◌, ◌≡◌, ◌≢◌, ◌⊎◌, inl, inr, ap, ◌∙◌, ◌++◌, Option, none, some, arith, Bytes, length, be16,
  u16_at, be16_split, be32_split, drop, ne→==_false,
}

pub record IsHeader (h : DnsHeader) : Type 0 where
  pub id_fits : h.id < 65536
  pub flags_fits : h.flags < 65536
  pub qdcount_fits : h.qdcount < 65536
  pub ancount_fits : h.ancount < 65536
  pub nscount_fits : h.nscount < 65536
  pub arcount_fits : h.arcount < 65536

header_of-serialize_header : (h : DnsHeader) → IsHeader h → header_of (serialize_header h) ≡ h
unfolding header_of serialize_header
header_of-serialize_header h w = ground (
  arith,
  be16_split h.id w.id_fits,
  be16_split h.flags w.flags_fits,
  be16_split h.qdcount w.qdcount_fits,
  be16_split h.ancount w.ancount_fits,
  be16_split h.nscount w.nscount_fits,
  be16_split h.arcount w.arcount_fits,
)

pub header-Reads : (h : DnsHeader) → IsHeader h → Reads parse_header (serialize_header h) h
header-Reads h w = rw (header_of-serialize_header h w) at (twelve h)
  where
    twelve :
        (h : DnsHeader) → Reads parse_header (serialize_header h) (header_of (serialize_header h))
    twelve h =
        unfold parse_header serialize_header in
        map-Reads header_of (read_exact-Reads (serialize_header h))

pub record IsQuestion (q : DnsQuestion) : Type 0 where
  pub name_fits : IsName q.name
  pub canonical : IsCanonical q.name
  pub qtype_fits : q.qtype < 65536
  pub qclass_fits : q.qclass < 65536

question_of-be16 :
    (q : DnsQuestion) → IsQuestion q → question_of q.name (be16 q.qtype ++ be16 q.qclass) ≡ q
unfolding question_of be16
question_of-be16 q w =
    ground (arith, be16_split q.qtype w.qtype_fits, be16_split q.qclass w.qclass_fits)

pub question-Reads :
    (q : DnsQuestion) → IsQuestion q → Reads parse_question (serialize_question q) q
question-Reads q w = rw (question_of-be16 q w) at read
  where
    read :
        Reads parse_question
          (serialize_question q)
          (question_of q.name (be16 q.qtype ++ be16 q.qclass))
    read =
        unfold parse_question serialize_question in
        bind-Reads (λ name. read_exact 4 >>= λ buf. pure (question_of name buf))
          (canonical-Reads q.name w.name_fits w.canonical)
          (map-Reads (question_of q.name) (read_exact-Reads (be16 q.qtype ++ be16 q.qclass)))

-- A CNAME record carries its target written out; no other record has one.
abbrev pub IsTarget : DnsResourceRecord → Type 0
IsTarget r =
    ((r.rtype ≢ cname_type) × (r.cname_target ≡ none))
    ⊎ ((target : Bytes) × (r.rtype ≡ cname_type)
        × (r.cname_target ≡ some target)
        × (r.rdata ≡ serialize_name target)
        × IsName target
        × IsCanonical target)

pub record IsRecord (r : DnsResourceRecord) : Type 0 where
  pub name_fits : IsName r.name
  pub canonical : IsCanonical r.name
  pub rtype_fits : r.rtype < 65536
  pub rclass_fits : r.rclass < 65536
  pub ttl_fits : r.ttl < 2 ^ 32
  pub rdata_fits : length r.rdata < 65536
  pub target : IsTarget r

module _ (r : DnsResourceRecord) (w : IsRecord r) where
  abbrev meta : Bytes
  meta = record_meta r

  meta_rtype : u16_at meta 0 ≡ r.rtype
  unfolding u16_at record_meta
  meta_rtype = be16_split r.rtype w.rtype_fits

  meta_rdlength : u16_at meta 8 ≡ length r.rdata
  unfolding u16_at record_meta
  meta_rdlength = omega (arith, w.rdata_fits)

  record_of-meta : record_of r.name meta r.cname_target r.rdata ≡ r
  unfolding record_of record_meta
  record_of-meta = ground (
    arith,
    be16_split r.rtype w.rtype_fits,
    be16_split r.rclass w.rclass_fits,
    be32_split r.ttl w.ttl_fits,
  )

  -- With the record's data ahead, the target is read and the position stays.
  target_run :
      (c : Cursor) (rest : Bytes)
      → drop c.pos c.bytes ≡ r.rdata ++ rest
      → read_target r.rtype c ≡ ok (r.cname_target, c)
  unfolding read_target peek_name
  target_run c rest h = elim w.target [
    | inl t ↦ rw (ne→==_false r.rtype cname_type t.0, t.1)
    | inr (target, is_cname, known, written, fits, canonical) ↦
        let named =
          (canonical-Reads target fits canonical).run c rest (h ∙ ap (λ d. d ++ rest) written) in
        rw (is_cname, known, named, peek_name)
  ]

  data_read : Option Bytes → Reader DnsResourceRecord
  data_read target =
      read_exact (length r.rdata) >>= λ rdata. pure (record_of r.name meta target rdata)

  data_read-Reads : Reads (data_read r.cname_target) r.rdata r
  unfolding data_read
  data_read-Reads =
      rw record_of-meta at
        (map-Reads (record_of r.name meta r.cname_target) (read_exact-Reads r.rdata))

  target-Reads : Reads (read_target r.rtype >>= data_read) r.rdata r
  target-Reads = record {
    run = λ c rest h. rw (target_run c rest h, ◌>>=◌) (data_read-Reads.run c rest h);
  }

  after_meta :
      Reads
        (read_target (u16_at meta 0) >>= λ target.
          read_exact (u16_at meta 8) >>= λ rdata. pure (record_of r.name meta target rdata))
        r.rdata
        r
  unfolding data_read
  after_meta = rw (meta_rtype, meta_rdlength) target-Reads

  meta-Reads : Reads (read_exact 10) meta meta
  unfolding record_meta
  meta-Reads = read_exact-Reads meta

  pub record-Reads : Reads parse_record (serialize_record r) r
  unfolding parse_record serialize_record
  record-Reads =
      bind-Reads _ (canonical-Reads r.name w.name_fits w.canonical)
        (bind-Reads _ meta-Reads after_meta)
