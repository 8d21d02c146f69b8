-- ===== src/Forwarder/Response/Nxdomain.antt =====
-- `build_nxdomain` of src/upstream.rs, as a client reads it.
use dns_ligase.Dns.Message.RoundTrip.{IsMessage, parse-serialize}
use dns_ligase.Dns.Message.{DnsMessage, parse, serialize, find_do}
use dns_ligase.Dns.Reader.{concat_with}
use dns_ligase.Dns.Records.RoundTrip.{IsQuestion}
use dns_ligase.Dns.Records.{DnsQuestion, serialize_question}
use dns_ligase.Forwarder.Response.{nxdomain, build_nxdomain}
use dns_ligase.Io.{ok}
use dns_ligase.Prelude.{
  ℕ, ◌<◌, ◌≡◌, refl, ap, ◌∙◌, false, List, [], ◌∷◌, ◌++◌, arith, append-nil, append_assoc,
}

-- The name does not exist: one question under the query's id, response code 3, and no records.
abbrev pub nxdomain_answer : ℕ → DnsQuestion → DnsMessage
nxdomain_answer id q = record {
  header = record { id = id; flags = 0x8183; qdcount = 1; ancount = 0; nscount = 0; arcount = 0 };
  questions = q ∷ [];
  answers = [];
  authorities = [];
  additionals = [];
  edns_do = false;
}

nxdomain_answer-IsMessage :
    (id : ℕ) (q : DnsQuestion) → id < 65536 → IsQuestion q → IsMessage (nxdomain_answer id q)
unfolding find_do
nxdomain_answer-IsMessage id q id_fits w = record {
  header_fits = omega arith;
  qdcount_is = refl;
  ancount_is = refl;
  nscount_is = refl;
  arcount_is = refl;
  questions_fit = (w, tt);
  answers_fit = tt;
  authorities_fit = tt;
  additionals_fit = tt;
  do_is = refl;
}

-- The bytes sent are those of the answer to the first question, with the remaining questions of
-- the query behind them, which the count in the header does not announce.
pub build_nxdomain-append :
    (m : DnsMessage) (q : DnsQuestion) (qs : List DnsQuestion)
    → m.questions ≡ q ∷ qs
    → build_nxdomain m
      ≡ serialize (nxdomain_answer m.header.id q) ++ concat_with serialize_question qs
unfolding build_nxdomain nxdomain serialize concat_with
build_nxdomain-append m q qs e = rw e (simp (append-nil, append_assoc))

-- The answer to a blocked query with one question and an id below 65536 is read as NXDOMAIN for that
-- question under the query's id, with no records, whatever else the query held, where the question
-- is fit for the wire: its type and class are below 65536, and its name fits and has no dot at an
-- end or beside another.
pub parse-build_nxdomain :
    (m : DnsMessage) (q : DnsQuestion)
    → m.questions ≡ q ∷ []
    → m.header.id < 65536
    → IsQuestion q
    → parse (build_nxdomain m) ≡ ok (nxdomain_answer m.header.id q)
parse-build_nxdomain m q one id_fits w =
    ap parse sent
    ∙ parse-serialize (nxdomain_answer m.header.id q)
        (nxdomain_answer-IsMessage m.header.id q id_fits w)
  where
    sent : build_nxdomain m ≡ serialize (nxdomain_answer m.header.id q)
    sent = build_nxdomain-append m q [] one ∙ unfold concat_with in append-nil _
