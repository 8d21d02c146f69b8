-- ===== src/Dns/Message/Safety.antt =====
-- `DnsMessage::parse` of src/dns.rs on arbitrary bytes.
use dns_ligase.Dns.Message.{parse_message, parse, result_of}
use dns_ligase.Dns.Reader.{Cursor, Safe, bind-Safe, repeat-Safe}
use dns_ligase.Dns.Records.Safety.{parse_header-Safe, parse_question-Safe, parse_record-Safe}
use dns_ligase.Io.{Result, ok, err, fault, Returns}
use dns_ligase.Prelude.{Bytes}

parse_message-Safe : Safe parse_message
unfolding parse_message
parse_message-Safe = bind-Safe _ _ parse_header-Safe λ h.
    bind-Safe _ _ (repeat-Safe h.qdcount _ parse_question-Safe) λ qs.
      bind-Safe _ _ (repeat-Safe h.ancount _ parse_record-Safe) λ an.
        bind-Safe _ _ (repeat-Safe h.nscount _ parse_record-Safe)
          λ ns. bind-Safe _ _ (repeat-Safe h.arcount _ parse_record-Safe) λ ar c. tt

result_of-Returns {ℓ} : {A : Type ℓ} (r : Result (A × Cursor)) → Returns r → Returns (result_of r)
result_of-Returns (ok (a, c)) h = tt
result_of-Returns (err e) h = tt
result_of-Returns (fault x) h = h

-- For every sequence of bytes `parse` returns a message or an error: no index or slice is out of
-- range, and the fuel of the name loop never runs out.
pub parse-Returns : (bytes : Bytes) → Returns (parse bytes)
unfolding parse
parse-Returns bytes =
    result_of-Returns (parse_message (record { bytes = bytes; pos = 0 })) (parse_message-Safe _)
