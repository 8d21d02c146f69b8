-- ===== src/Dns/Records/Safety.antt =====
-- The readers of headers, questions and records in src/dns.rs, on arbitrary bytes.
use dns_ligase.Dns.Name.Ends.{parse_name-Safe}
use dns_ligase.Dns.Name.{parse_name}
use dns_ligase.Dns.Reader.{Cursor, Safe, bind-Safe, read_exact-Safe}
use dns_ligase.Dns.Records.{parse_header, parse_question, peek_name, read_target, parse_record}
use dns_ligase.Io.{Result, ok, err, fault, Returns}
use dns_ligase.Prelude.{ℕ, Bytes, arith, u16_at, some, none, Option}

pub parse_header-Safe : Safe parse_header
unfolding parse_header
parse_header-Safe = bind-Safe _ _ (read_exact-Safe 12) (λ buf c. tt)

pub parse_question-Safe : Safe parse_question
unfolding parse_question
parse_question-Safe =
    bind-Safe _ _ parse_name-Safe λ name. bind-Safe _ _ (read_exact-Safe 4) λ buf c. tt

peek_Returns :
    (c : Cursor) (r : Result (Bytes × Cursor))
    → Returns r
    → Returns {A = Option Bytes × Cursor}
        (elim r [ ok (name, moved) ↦ ok (some name, c) | err e ↦ ok (none, c) | fault x ↦ fault x ])
peek_Returns c (ok (name, moved)) h = tt
peek_Returns c (err e) h = tt
peek_Returns c (fault x) h = h

peek_name-Safe : Safe peek_name
unfolding peek_name
peek_name-Safe c = peek_Returns c (parse_name c) (parse_name-Safe c)

read_target-Safe : (rtype : ℕ) → Safe (read_target rtype)
unfolding read_target
read_target-Safe rtype c = ground (arith, peek_name-Safe c)

pub parse_record-Safe : Safe parse_record
unfolding parse_record
parse_record-Safe = bind-Safe _ _ parse_name-Safe λ name. bind-Safe _ _ (read_exact-Safe 10) λ meta.
    bind-Safe _ _ (read_target-Safe (u16_at meta 0))
      λ target. bind-Safe _ _ (read_exact-Safe (u16_at meta 8)) λ rdata c. tt
