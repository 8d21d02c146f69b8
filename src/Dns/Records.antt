-- ===== src/Dns/Records.antt =====
-- The parts of a message in src/dns.rs: `DnsHeader`, `DnsQuestion` and `DnsResourceRecord`, with
-- their `parse` and `serialize`.
pub mod Safety
pub mod RoundTrip
use dns_ligase.Dns.Name.{parse_name, serialize_name}
use dns_ligase.Dns.Reader.{Reader, ◌>>=◌, pure, read_exact}
use dns_ligase.Io.{ok, err, fault}
use dns_ligase.Prelude.{
  ℕ, ◌+◌, ◌++◌, Option, none, some, ◌==◌, if◌then◌else◌, Bytes, length, u16, be16, be32, u16_at,
  u32_at,
}

pub record DnsHeader : Type 0 where
  pub id : ℕ
  pub flags : ℕ
  pub qdcount : ℕ
  pub ancount : ℕ
  pub nscount : ℕ
  pub arcount : ℕ

pub record DnsQuestion : Type 0 where
  pub name : Bytes
  pub qtype : ℕ
  pub qclass : ℕ

pub record DnsResourceRecord : Type 0 where
  pub name : Bytes
  pub rtype : ℕ
  pub rclass : ℕ
  pub ttl : ℕ
  pub rdata : Bytes
  pub cname_target : Option Bytes

-- The fields of a header in its twelve bytes.
unfoldable pub header_of : Bytes → DnsHeader
unfolding u16_at
header_of buf = record {
  id = u16_at buf 0;
  flags = u16_at buf 2;
  qdcount = u16_at buf 4;
  ancount = u16_at buf 6;
  nscount = u16_at buf 8;
  arcount = u16_at buf 10;
}

unfoldable pub parse_header : Reader DnsHeader
parse_header = read_exact 12 >>= λ buf. pure (header_of buf)

unfoldable pub serialize_header : DnsHeader → Bytes
unfolding be16
serialize_header h =
    be16 h.id
    ++ (be16 h.flags ++ (be16 h.qdcount ++ (be16 h.ancount ++ (be16 h.nscount ++ be16 h.arcount))))

-- `qtype` and `qclass` in the four bytes behind the name.
unfoldable pub question_of : Bytes → Bytes → DnsQuestion
unfolding u16_at
question_of name buf = record { name = name; qtype = u16_at buf 0; qclass = u16_at buf 2 }

unfoldable pub parse_question : Reader DnsQuestion
parse_question = parse_name >>= λ name. read_exact 4 >>= λ buf. pure (question_of name buf)

unfoldable pub serialize_question : DnsQuestion → Bytes
unfolding be16
serialize_question q = serialize_name q.name ++ (be16 q.qtype ++ be16 q.qclass)

-- `parse_name(reader).ok()`, with the position put back.
unfoldable pub peek_name : Reader (Option Bytes)
peek_name c = elim (parse_name c) [
  | ok (name, moved) ↦ ok (some name, c)
  | err e ↦ ok (none, c)
  | fault x ↦ fault x
]

abbrev pub cname_type : ℕ
cname_type = 5

unfoldable pub read_target : ℕ → Reader (Option Bytes)
read_target rtype c = if rtype == cname_type then peek_name c else pure none c

-- The record from its name, the ten bytes behind the name, the target and the data.
unfoldable pub record_of : Bytes → Bytes → Option Bytes → Bytes → DnsResourceRecord
unfolding u16_at u32_at
record_of name meta target rdata = record {
  name = name;
  rtype = u16_at meta 0;
  rclass = u16_at meta 2;
  ttl = u32_at meta 4;
  rdata = rdata;
  cname_target = target;
}

unfoldable pub parse_record : Reader DnsResourceRecord
parse_record = parse_name >>= λ name. read_exact 10 >>= λ meta.
    read_target (u16_at meta 0) >>= λ target.
    read_exact (u16_at meta 8) >>= λ rdata. pure (record_of name meta target rdata)

-- The ten bytes between a record's name and its data.
unfoldable pub record_meta : DnsResourceRecord → Bytes
unfolding be16 be32
record_meta r = be16 r.rtype ++ (be16 r.rclass ++ (be32 r.ttl ++ be16 (u16 (length r.rdata))))

unfoldable pub serialize_record : DnsResourceRecord → Bytes
serialize_record r = serialize_name r.name ++ (record_meta r ++ r.rdata)
