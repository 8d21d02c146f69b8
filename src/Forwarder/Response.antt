-- ===== src/Forwarder/Response.antt =====
-- The messages that the forwarder in src/upstream.rs builds, and the tests that it makes on them.
pub mod Nxdomain
pub mod Outgoing
use dns_ligase.Dns.Message.{DnsMessage, opt_type, parse, serialize, add_opt_record}
use dns_ligase.Dns.Records.{DnsHeader, DnsResourceRecord}
use dns_ligase.Io.{Result, ok, err, fault}
use dns_ligase.Prelude.{
  ℕ, ◌+◌, ◌*◌, Bool, true, false, not, ◌&&◌, List, [], ◌∷◌, bit_and, bit_or, ltb, leb, ◌==◌,
  if◌then◌else◌, Bytes, length, get_or, keep_if, u16_at,
}
use dns_ligase.Text.Search.{codes}

abbrev pub edns_buffer_size : ℕ
edns_buffer_size = 1232

-- `build_nxdomain` before it is serialized.
unfoldable pub nxdomain : DnsMessage → DnsMessage
nxdomain m = record m {
  header = record m.header { flags = 0x8183; qdcount = 1; ancount = 0; nscount = 0 };
  answers = [];
  authorities = [];
  additionals = [];
}

unfoldable pub build_nxdomain : DnsMessage → Bytes
unfolding nxdomain
build_nxdomain m = serialize (nxdomain m)

abbrev pub tc_flag : ℕ
tc_flag = 0x0200

-- Is the truncation bit set?
unfoldable pub tc_bit_set : Bytes → Bool
unfolding u16_at
tc_bit_set bytes =
    if ltb (length bytes) 4 then false else not (bit_and (u16_at bytes 2) tc_flag == 0)

-- `truncate_response` on the parsed message.
unfoldable pub truncated : DnsMessage → DnsMessage
truncated m = record m {
  header = record m.header { flags = bit_or m.header.flags tc_flag; ancount = 0; nscount = 0 };
  answers = [];
  authorities = [];
  additionals = keep_if (λ r. r.rtype == opt_type) m.additionals;
}

unfoldable pub truncate_response : Bytes → Result Bytes
unfolding truncated
truncate_response bytes = elim (parse bytes) [
  | ok m ↦ ok (serialize (truncated m))
  | err e ↦ err e
  | fault x ↦ fault x
]

-- The client's UDP payload size: the first OPT record's, if it lies in 1 to 4096, else 512.
unfoldable pub client_udp_size : List DnsResourceRecord → ℕ
client_udp_size [] = 512
client_udp_size (r ∷ rs) =
    let rest = client_udp_size rs in
    if r.rtype == opt_type
    then if ltb 0 r.rclass && leb r.rclass 4096 then r.rclass else 512
    else rest

-- The query as it goes upstream, before it is serialized.
unfoldable pub outgoing : DnsMessage → DnsMessage
unfolding add_opt_record
outgoing m = add_opt_record edns_buffer_size (record m { edns_do = true })

unfoldable pub qtype_str : ℕ → Bytes
qtype_str t =
    if t == 1
    then codes "A"
    else if t == 2
    then codes "NS"
    else if t == 5
    then codes "CNAME"
    else if t == 6
    then codes "SOA"
    else if t == 12
    then codes "PTR"
    else if t == 15
    then codes "MX"
    else if t == 16
    then codes "TXT"
    else if t == 28
    then codes "AAAA"
    else if t == 33
    then codes "SRV"
    else if t == 41
    then codes "OPT"
    else if t == 43
    then codes "DS"
    else if t == 46
    then codes "RRSIG"
    else if t == 47
    then codes "NSEC"
    else if t == 48
    then codes "DNSKEY"
    else if t == 50
    then codes "NSEC3"
    else if t == 52
    then codes "TLSA"
    else if t == 255
    then codes "ANY"
    else codes "OTHER"
