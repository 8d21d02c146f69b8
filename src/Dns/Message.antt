-- ===== src/Dns/Message.antt =====
-- `DnsMessage` of src/dns.rs and its operations.
pub mod Safety
pub mod RoundTrip
use dns_ligase.Dns.Reader.{Reader, Cursor, ◌>>=◌, pure, repeat, concat_with}
use dns_ligase.Dns.Records.{
  DnsHeader, DnsQuestion, DnsResourceRecord, parse_header, parse_question, parse_record,
  serialize_header, serialize_question, serialize_record,
}
use dns_ligase.Io.{Result, ok, err, fault}
use dns_ligase.Prelude.{
  ℕ, ◌+◌, Bool, true, false, not, ◌&&◌, List, [], ◌∷◌, ◌++◌, map, none, bit_and, bit_or, ◌==◌,
  if◌then◌else◌, Bytes, length, get_or, keep_if, u16,
}

pub record DnsMessage : Type 0 where
  pub header : DnsHeader
  pub questions : List DnsQuestion
  pub answers : List DnsResourceRecord
  pub authorities : List DnsResourceRecord
  pub additionals : List DnsResourceRecord
  pub edns_do : Bool

abbrev pub opt_type : ℕ
opt_type = 41

abbrev pub do_bit : ℕ
do_bit = 0x80000000

-- `DnsMessage::new_query`.
unfoldable pub new_query : ℕ → Bytes → ℕ → DnsMessage
new_query id name qtype = record {
  header = record { id = id; flags = 0x0100; qdcount = 1; ancount = 0; nscount = 0; arcount = 0 };
  questions = record { name = name; qtype = qtype; qclass = 1 } ∷ [];
  answers = [];
  authorities = [];
  additionals = [];
  edns_do = false;
}

-- `Ipv4Addr`, its four octets.
abbrev pub Ipv4Addr : Type 0
Ipv4Addr = ℕ × ℕ × ℕ × ℕ

is_a_record : DnsResourceRecord → Bool
is_a_record r = r.rtype == 1 && length r.rdata == 4

unfoldable pub a_records : DnsMessage → List Ipv4Addr
unfolding is_a_record
a_records m =
    map (λ r. (get_or r.rdata 0 0, get_or r.rdata 1 0, get_or r.rdata 2 0, get_or r.rdata 3 0))
      (keep_if is_a_record m.answers)

-- The loop over the additional section that looks for the DO bit.
unfoldable pub find_do : Bool → List DnsResourceRecord → Bool
find_do edns_do [] = edns_do
find_do edns_do (opt ∷ opts) =
    find_do
      (if opt.rtype == opt_type
        then if not (bit_and opt.ttl do_bit == 0) then true else edns_do
        else edns_do)
      opts

unfoldable pub parse_message : Reader DnsMessage
parse_message = parse_header >>= λ header. repeat header.qdcount parse_question >>= λ questions.
    repeat header.ancount parse_record >>= λ answers.
    repeat header.nscount parse_record >>= λ authorities.
    repeat header.arcount parse_record >>= λ additionals. pure (record {
      header = header;
      questions = questions;
      answers = answers;
      authorities = authorities;
      additionals = additionals;
      edns_do = find_do false additionals;
    })

abbrev pub result_of {ℓ} : {A : Type ℓ} → Result (A × Cursor) → Result A
result_of (ok (a, c)) = ok a
result_of (err e) = err e
result_of (fault x) = fault x

-- `DnsMessage::parse`.
unfoldable pub parse : Bytes → Result DnsMessage
unfolding parse_message
parse bytes = result_of (parse_message (record { bytes = bytes; pos = 0 }))

-- The header as it is written: only `arcount` is taken from the section.
abbrev pub written_header : DnsMessage → DnsHeader
written_header m = record m.header { arcount = u16 (length m.additionals) }

-- `DnsMessage::serialize`, which cannot fail.
unfoldable pub serialize : DnsMessage → Bytes
unfolding concat_with
serialize m =
    serialize_header (written_header m)
    ++ (concat_with serialize_question m.questions
        ++ (concat_with serialize_record m.answers
            ++ (concat_with serialize_record m.authorities
                ++ concat_with serialize_record m.additionals)))

abbrev pub new_opt : ℕ → DnsResourceRecord
new_opt buffer_size = record {
  name = [];
  rtype = opt_type;
  rclass = buffer_size;
  ttl = bit_or 0 do_bit;
  rdata = [];
  cname_target = none;
}

-- `iter_mut().find(..)` and the writes through it: the first OPT record is changed in place.
unfoldable pub set_first_opt : ℕ → List DnsResourceRecord → List DnsResourceRecord
set_first_opt buffer_size [] = []
set_first_opt buffer_size (r ∷ rs) =
    let rest = set_first_opt buffer_size rs in
    if r.rtype == opt_type
    then record r { rclass = buffer_size; ttl = bit_or r.ttl do_bit } ∷ rs
    else r ∷ rest

unfoldable pub has_opt : List DnsResourceRecord → Bool
has_opt [] = false
has_opt (r ∷ rs) = let rest = has_opt rs in if r.rtype == opt_type then true else rest

-- `DnsMessage::add_opt_record`; `arcount` is a `u16` and wraps.
unfoldable pub add_opt_record : ℕ → DnsMessage → DnsMessage
unfolding set_first_opt has_opt
add_opt_record buffer_size m =
    if has_opt m.additionals
    then record m { additionals = set_first_opt buffer_size m.additionals }
    else record m {
      additionals = m.additionals ++ new_opt buffer_size ∷ [];
      header = record m.header { arcount = u16 (m.header.arcount + 1) };
    }
