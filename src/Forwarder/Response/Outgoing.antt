-- ===== src/Forwarder/Response/Outgoing.antt =====
-- The query that src/upstream.rs forwards, as the upstream resolver reads it.
use dns_ligase.Dns.Message.RoundTrip.{IsMessage, parse-serialize}
use dns_ligase.Dns.Message.{
  DnsMessage, opt_type, do_bit, parse, serialize, find_do, new_opt, set_first_opt, has_opt,
}
use dns_ligase.Dns.Records.RoundTrip.{IsRecord}
use dns_ligase.Dns.Records.{DnsResourceRecord}
use dns_ligase.Forwarder.Response.{edns_buffer_size, client_udp_size, outgoing}
use dns_ligase.Io.{ok}
use dns_ligase.Prelude.Bits.{bit_and-bit_or, bit_or-lt}
use dns_ligase.Prelude.{
  ℕ, ◌<◌, ◌≡◌, refl, sym, ◌∙◌, inl, inr, Bool, true, false, List, [], ◌∷◌, ◌++◌, arith, All, length,
  bit_and, bit_or, ◌==◌, Bool-cases, length-append, All-append, ap, keep_if, not,
}
use dns_ligase.Text.Split.{split, join, labels_of}

do_bit_set : (ttl : ℕ) → (bit_and (bit_or ttl do_bit) do_bit == 0) ≡ false
do_bit_set ttl = ground (arith, bit_and-bit_or 31 ttl)

find_do-true : (rs : List DnsResourceRecord) → find_do true rs ≡ true
unfolding find_do
find_do-true [] = refl
find_do-true (r ∷ rs) = ground (arith, find_do-true rs)

length-set_first_opt :
    (n : ℕ) (rs : List DnsResourceRecord) → length (set_first_opt n rs) ≡ length rs
unfolding set_first_opt
length-set_first_opt n [] = refl
length-set_first_opt n (r ∷ rs) = ground (arith, length-set_first_opt n rs)

-- With an OPT record present, the DO bit is found after it was set.
find_do-set_first_opt :
    (rs : List DnsResourceRecord) (b : Bool) (n : ℕ)
    → has_opt rs ≡ true
    → find_do b (set_first_opt n rs) ≡ true
unfolding find_do set_first_opt has_opt
find_do-set_first_opt [] b n h = cc
find_do-set_first_opt (r ∷ rs) b n h =
    ground (arith, do_bit_set r.ttl, find_do-true rs, find_do-set_first_opt rs b n)

find_do-concat :
    (rs : List DnsResourceRecord) (b : Bool) (n : ℕ) → find_do b (rs ++ new_opt n ∷ []) ≡ true
unfolding find_do
find_do-concat [] b n = refl
find_do-concat (r ∷ rs) b n = find_do-concat rs _ n

-- Rewriting an OPT record's size and DO bit leaves it fit for the wire.
opt-IsRecord :
    (n : ℕ) (r : DnsResourceRecord)
    → n < 65536
    → IsRecord r
    → IsRecord (record r { rclass = n; ttl = bit_or r.ttl do_bit })
opt-IsRecord n r fits w = record {
  name_fits = w.name_fits;
  canonical = w.canonical;
  rtype_fits = w.rtype_fits;
  rclass_fits = fits;
  ttl_fits = bit_or-lt 32 r.ttl do_bit w.ttl_fits (omega arith);
  rdata_fits = w.rdata_fits;
  target = w.target;
}

set_first_opt-IsRecord :
    (n : ℕ) (rs : List DnsResourceRecord)
    → n < 65536
    → All IsRecord rs
    → All IsRecord (set_first_opt n rs)
unfolding set_first_opt
set_first_opt-IsRecord n [] fits h = tt
set_first_opt-IsRecord n (r ∷ rs) fits h = elim (Bool-cases (r.rtype == opt_type)) [
  | inl opt ↦ rw opt (opt-IsRecord n r fits h.0, h.1)
  | inr other ↦ rw other (h.0, set_first_opt-IsRecord n rs fits h.1)
]

new_opt-IsRecord : (n : ℕ) → n < 65536 → IsRecord (new_opt n)
unfolding labels_of split join
new_opt-IsRecord n fits = record {
  name_fits = tt;
  canonical = refl;
  rtype_fits = omega arith;
  rclass_fits = fits;
  ttl_fits = omega arith;
  rdata_fits = omega arith;
  target = inl ((λ e. cc), refl);
}

client_udp_size-set_first_opt :
    (n : ℕ) (rs : List DnsResourceRecord)
    → 0 < n
    → n < 4097
    → has_opt rs ≡ true
    → client_udp_size (set_first_opt n rs) ≡ n
unfolding client_udp_size set_first_opt has_opt
client_udp_size-set_first_opt n [] p q h = cc
client_udp_size-set_first_opt n (r ∷ rs) p q h = ground (arith, client_udp_size-set_first_opt n rs)

client_udp_size-concat :
    (n : ℕ) (rs : List DnsResourceRecord)
    → 0 < n
    → n < 4097
    → has_opt rs ≡ false
    → client_udp_size (rs ++ new_opt n ∷ []) ≡ n
unfolding client_udp_size has_opt
client_udp_size-concat n [] p q h = ground arith
client_udp_size-concat n (r ∷ rs) p q h = ground (arith, client_udp_size-concat n rs)

outgoing-IsMessage :
    (m : DnsMessage) → IsMessage m → length m.additionals < 65535 → IsMessage (outgoing m)
unfolding outgoing
outgoing-IsMessage m w room = elim (Bool-cases (has_opt m.additionals)) [
  | inl present ↦ rw present (record {
    header_fits = w.header_fits;
    qdcount_is = w.qdcount_is;
    ancount_is = w.ancount_is;
    nscount_is = w.nscount_is;
    arcount_is = w.arcount_is ∙ sym (length-set_first_opt edns_buffer_size m.additionals);
    questions_fit = w.questions_fit;
    answers_fit = w.answers_fit;
    authorities_fit = w.authorities_fit;
    additionals_fit =
        set_first_opt-IsRecord edns_buffer_size m.additionals (omega arith) w.additionals_fit;
    do_is = sym (find_do-set_first_opt m.additionals false edns_buffer_size present);
  })
  | inr absent ↦ rw absent (record {
    header_fits = omega (arith, w.header_fits);
    qdcount_is = w.qdcount_is;
    ancount_is = w.ancount_is;
    nscount_is = w.nscount_is;
    arcount_is =
        omega (arith, w.arcount_is, length-append m.additionals (new_opt edns_buffer_size ∷ []));
    questions_fit = w.questions_fit;
    answers_fit = w.answers_fit;
    authorities_fit = w.authorities_fit;
    additionals_fit =
        All-append IsRecord m.additionals _ w.additionals_fit
          (new_opt-IsRecord edns_buffer_size (omega arith), tt);
    do_is = sym (find_do-concat m.additionals false edns_buffer_size);
  })
]

-- The records that are not OPT records.
abbrev pub plain : List DnsResourceRecord → List DnsResourceRecord
plain rs = keep_if (λ r. not (r.rtype == opt_type)) rs

plain-set_first_opt : (n : ℕ) (rs : List DnsResourceRecord) → plain (set_first_opt n rs) ≡ plain rs
unfolding set_first_opt
plain-set_first_opt n [] = refl
plain-set_first_opt n (r ∷ rs) = ground (arith, plain-set_first_opt n rs)

plain-append : (n : ℕ) (rs : List DnsResourceRecord) → plain (rs ++ new_opt n ∷ []) ≡ plain rs
plain-append n [] = refl
plain-append n (r ∷ rs) = ground (arith, plain-append n rs)

-- The same message but for its OPT records, their number and the DO bit.
pub record Forwards (m sent : DnsMessage) : Type 0 where
  pub header : sent.header ≡ record m.header { arcount = length sent.additionals }
  pub questions : sent.questions ≡ m.questions
  pub answers : sent.answers ≡ m.answers
  pub authorities : sent.authorities ≡ m.authorities
  pub additionals : plain sent.additionals ≡ plain m.additionals

outgoing-Forwards :
    (m : DnsMessage) → IsMessage m → length m.additionals < 65535 → Forwards m (outgoing m)
unfolding outgoing
outgoing-Forwards m w room = elim (Bool-cases (has_opt m.additionals)) [
  | inl present ↦ rw present (record {
    header =
        ap (λ n. record m.header { arcount = n })
          (w.arcount_is ∙ sym (length-set_first_opt edns_buffer_size m.additionals));
    questions = refl;
    answers = refl;
    authorities = refl;
    additionals = plain-set_first_opt edns_buffer_size m.additionals;
  })
  | inr absent ↦ rw absent (record {
    header =
        ap (λ n. record m.header { arcount = n })
          (omega
            (arith, w.arcount_is, length-append m.additionals (new_opt edns_buffer_size ∷ [])));
    questions = refl;
    answers = refl;
    authorities = refl;
    additionals = plain-append edns_buffer_size m.additionals;
  })
]

-- A well-formed query with fewer than 65535 additional records goes upstream so that it is read there
-- with the same header but for the number of additional records, the same questions, answers and
-- authorities, and the same additional records in order but for OPT records, with the DO bit set and
-- with 1232 as the size that its first OPT record announces, whether or not the client had sent an
-- OPT record.
pub parse-outgoing :
    (m : DnsMessage)
    → IsMessage m
    → length m.additionals < 65535
    → (parse (serialize (outgoing m)) ≡ ok (outgoing m))
      × ((outgoing m).edns_do ≡ true)
      × (client_udp_size (outgoing m).additionals ≡ edns_buffer_size)
      × Forwards m (outgoing m)
parse-outgoing m w room = (
  parse-serialize (outgoing m) (outgoing-IsMessage m w room),
  unfold outgoing in
      elim (Bool-cases (has_opt m.additionals)) [ inl p ↦ rw p refl | inr a ↦ rw a refl ],
  unfold outgoing in
      elim (Bool-cases (has_opt m.additionals)) [
        | inl p ↦ rw p (
            client_udp_size-set_first_opt edns_buffer_size m.additionals (omega arith) (omega arith)
              p)
        | inr a ↦
            rw a
              (client_udp_size-concat edns_buffer_size m.additionals (omega arith) (omega arith) a)
      ],
  outgoing-Forwards m w room,
)
