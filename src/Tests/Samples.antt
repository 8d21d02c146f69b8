-- ===== src/Tests/Samples.antt =====
-- Test data: a resolver's surroundings with literal patterns for regexes, and a query.
use dns_ligase.Blocklist.Rules.{External, Blocklist, new}
use dns_ligase.Dns.Message.RoundTrip.{IsMessage}
use dns_ligase.Dns.Message.{DnsMessage, find_do}
use dns_ligase.Dns.Name.RoundTrip.{IsName, IsCanonical}
use dns_ligase.Dns.Records.RoundTrip.{IsQuestion}
use dns_ligase.Dns.Records.{DnsQuestion}
use dns_ligase.Forwarder.Scene.{Scene}
use dns_ligase.Io.{ok}
use dns_ligase.Prelude.{
  refl, [], ◌∷◌, map, some, true, Bytes, arith, false, ◌≡◌, if◌then◌else◌, Option, none, bytes_eq,
}
use dns_ligase.Text.Search.{codes, contains_text, to_ascii_lowercase}
use dns_ligase.Text.Split.{labels_of, join}
use dns_ligase.Text.Utf8.{is_utf8}
use dns_ligase.Cache.Store.{Disk}

pub literal_as_str : (p r : Bytes) → some p ≡ some r → r ≡ p
literal_as_str p r e = cc

-- Patterns that match the names they stand in.
abbrev pub literal_patterns : External
literal_patterns = record {
  Regex = Bytes;
  regex_new = λ p. some p;
  is_match = contains_text;
  as_str = λ r. r;
  as_str-regex_new = literal_as_str;
  to_lowercase = map to_ascii_lowercase;
  to_lowercase_ascii = λ s h. refl;
}

abbrev pub ads : Bytes
ads = codes "ads.com"

abbrev pub ads_question : DnsQuestion
ads_question = record { name = ads; qtype = 1; qclass = 1 }

abbrev pub ads_query : DnsMessage
ads_query = record {
  header = record {
    id = 0x1234;
    flags = 0x0100;
    qdcount = 1;
    ancount = 0;
    nscount = 0;
    arcount = 0;
  };
  questions = ads_question ∷ [];
  answers = [];
  authorities = [];
  additionals = [];
  edns_do = false;
}

pub ads-IsName : IsName ads
unfolding labels_of is_utf8
ads-IsName = (
  record { nonempty = omega arith; short = omega arith; text = refl },
  (record { nonempty = omega arith; short = omega arith; text = refl }, tt),
)

pub ads-IsCanonical : IsCanonical ads
unfolding labels_of join
ads-IsCanonical = refl

pub ads_question-IsQuestion : IsQuestion ads_question
ads_question-IsQuestion = record {
  name_fits = ads-IsName;
  canonical = ads-IsCanonical;
  qtype_fits = omega arith;
  qclass_fits = omega arith;
}

pub ads_query-IsMessage : IsMessage ads_query
unfolding find_do
ads_query-IsMessage = record {
  header_fits = omega arith;
  qdcount_is = refl;
  ancount_is = refl;
  nscount_is = refl;
  arcount_is = refl;
  questions_fit = (ads_question-IsQuestion, tt);
  answers_fit = tt;
  authorities_fit = tt;
  additionals_fit = tt;
  do_is = refl;
}

-- Blocks ads.com and all below it, but not safe.ads.com.
abbrev pub ads_rules : Blocklist Bytes
ads_rules = record new { block_suffixes = ads ∷ []; allow_suffixes = codes "safe.ads.com" ∷ [] }

abbrev pub ads_scene : Scene literal_patterns
ads_scene = record {
  question_rules = ads_rules;
  target_rules = λ i. ads_rules;
  logs_queries = true;
  udp_answer = λ b. ok b;
  tcp_answer = λ b. ok b;
  client_write = λ b. ok tt;
}

-- Files that can always be written.
abbrev pub files : Disk
files = record {
  Dir = Bytes → Option Bytes;
  read = λ file dir. dir file;
  write = λ file body dir. (true, λ f. if bytes_eq f file then some body else dir f);
  remove = λ file dir f. if bytes_eq f file then none else dir f;
}
