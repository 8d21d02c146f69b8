-- ===== src/Program/Serving.antt =====
-- Queries of src/upstream.rs that are handled while the tasks of src/main.rs are at work.
use dns_ligase.Blocklist.Check.{check, lowered}
use dns_ligase.Blocklist.Check.Decision.{AllowHits, BlockHits, Decides, check-Decides}
use dns_ligase.Blocklist.Rules.{External, Blocklist, MatchOutcome, blocked, allowed, forwarded}
use dns_ligase.Cache.Store.{Disk}
use dns_ligase.Dns.Message.{DnsMessage, parse, serialize}
use dns_ligase.Dns.Records.{DnsQuestion}
use dns_ligase.Forwarder.Handler.{handle_udp_query, handle_tcp_packet}
use dns_ligase.Forwarder.Handler.Tcp.{blocked_stays_here_on_tcp}
use dns_ligase.Forwarder.Handler.Udp.{blocked_stays_here}
use dns_ligase.Forwarder.Response.{outgoing, build_nxdomain}
use dns_ligase.Forwarder.Scene.{Scene, sent, asked}
use dns_ligase.Io.{ok}
use dns_ligase.Prelude.{
  ℕ, Bytes, List, [], ◌∷◌, ◌≡◌, ◌⊎◌, inl, inr, refl, sym, any, bytes_eq, true, take, arith,
}
use dns_ligase.Blocklist.Check.Suffix.{IsParent}
use dns_ligase.Blocklist.Lines.Suffix.{IsPlain, suffix_line}
use dns_ligase.Blocklist.Pieces.{lines}
use dns_ligase.Prelude.{some}
use dns_ligase.Program.Build.Listed.{list_rules-plain}
use dns_ligase.Program.Build.{body_of, list_rules, manual_rules, allowed_name, Stored}
use dns_ligase.Program.Build.Manual.{
  list_rules-manual_allow, list_rules-manual, from_manual, IsForwarded,
}
use dns_ligase.Program.Config.{Config}
use dns_ligase.Program.Service.{Service, Reach, start}
use dns_ligase.Program.Service.Whole.{Whole, WasLoaded, Reach-Whole}
use dns_ligase.Program.Service.Current.{BuiltFrom}
use mathlib.Core.Path.{subst}

module _ (x : External) (scene : Scene x) where
  allowed_goes_out :
      (packet : Bytes) (m : DnsMessage) (q : DnsQuestion) (qs : List DnsQuestion) (rule : Bytes)
      → parse packet ≡ ok m
      → m.questions ≡ q ∷ qs
      → check x scene.question_rules q.name ≡ allowed rule
      → take 1 (asked (handle_udp_query x scene packet).did) ≡ serialize (outgoing m) ∷ []
  unfolding handle_udp_query
  allowed_goes_out packet m q qs rule p one a = ground arith

  allowed_goes_out_on_tcp :
      (packet : Bytes) (m : DnsMessage) (q : DnsQuestion) (qs : List DnsQuestion) (rule : Bytes)
      → parse packet ≡ ok m
      → m.questions ≡ q ∷ qs
      → check x scene.question_rules q.name ≡ allowed rule
      → take 1 (asked (handle_tcp_packet x scene packet).did) ≡ serialize (outgoing m) ∷ []
  unfolding handle_tcp_packet
  allowed_goes_out_on_tcp packet m q qs rule p one a = ground arith

  -- Answered with NXDOMAIN alone, over either transport.
  abbrev pub AnsweredLocally : Bytes → DnsMessage → Type 0
  AnsweredLocally packet m =
      (asked (handle_udp_query x scene packet).did ≡ [])
      × (sent (handle_udp_query x scene packet).did ≡ build_nxdomain m ∷ [])
      × (asked (handle_tcp_packet x scene packet).did ≡ [])
      × (sent (handle_tcp_packet x scene packet).did ≡ build_nxdomain m ∷ [])

  by_outcome :
      (packet : Bytes) (m : DnsMessage) (q : DnsQuestion) (qs : List DnsQuestion) (o : MatchOutcome)
      → parse packet ≡ ok m
      → m.questions ≡ q ∷ qs
      → check x scene.question_rules q.name ≡ o
      → Decides x scene.question_rules (lowered x q.name) o
      → ¬ IsForwarded x o
      → AllowHits x scene.question_rules (lowered x q.name) ⊎ AnsweredLocally packet m
  by_outcome packet m q qs (blocked rule) p one c d n =
      let (nothing, nxdomain) = blocked_stays_here x scene packet m q qs rule p one c in
      let (nothing', nxdomain') = blocked_stays_here_on_tcp x scene packet m q qs rule p one c in
      inr (nothing, nxdomain, nothing', nxdomain')
  by_outcome packet m q qs (allowed rule) p one c d n = inl d
  by_outcome packet m q qs forwarded p one c d n = absurd (n tt)

module _ (x : External) (scene : Scene x) where
  -- If the rules in force are those of a configuration and bodies of lists, one list in `urls` has a
  -- body with a line `||d^`, where `d` is plain, and a query is for `d` or a name below it, then the
  -- query is answered with NXDOMAIN alone, over UDP and over TCP, unless an allow rule among the rules
  -- in force matches the name.
  pub listed_stays_here :
      (cfg : Config) (bodies : List (Bytes × Bytes)) (url body d packet : Bytes) (m : DnsMessage)
      (q : DnsQuestion) (qs : List DnsQuestion)
      → list_rules x cfg bodies ≡ ok scene.question_rules
      → any (bytes_eq url) cfg.blocklists.urls ≡ true
      → body_of url bodies ≡ some body
      → any (bytes_eq (suffix_line d)) (lines body) ≡ true
      → IsPlain d
      → parse packet ≡ ok m
      → m.questions ≡ q ∷ qs
      → IsParent d (lowered x q.name)
      → AllowHits x scene.question_rules (lowered x q.name) ⊎ AnsweredLocally x scene packet m
  listed_stays_here cfg bodies url body d packet m q qs built listed found line plain p one below =
      let blocks =
        list_rules-plain x cfg bodies scene.question_rules url body d built listed found line
          plain in
      by_outcome x scene packet m q qs (check x scene.question_rules q.name) p one refl
        (check-Decides x scene.question_rules q.name)
        (unforwarded (check x scene.question_rules q.name)
          (check-Decides x scene.question_rules q.name) (inr (inr (d, blocks, below))))
    where
      unforwarded :
          (o : MatchOutcome)
          → Decides x scene.question_rules (lowered x q.name) o
          → BlockHits x scene.question_rules (lowered x q.name)
          → ¬ IsForwarded x o
      unforwarded (blocked rule) k b f = f
      unforwarded (allowed rule) k b f = f
      unforwarded forwarded k b f = k.1 b

module _ (x : External) (disk : Disk) (Loads : Config → Type 0) where
  -- The surroundings of a query that is handled in a run from `s`: its name is checked against the rules
  -- in force at one moment, and each target in the reply against those at a later one.
  pub record Seen (s : Service x disk) (scene : Scene x) : Type 0 where
    pub checked_in : Service x disk
    pub checked_reached : Reach x disk Loads s checked_in
    pub question_rules_are : scene.question_rules ≡ checked_in.rules
    pub target_in : ℕ → Service x disk
    pub target_reached : (i : ℕ) → Reach x disk Loads checked_in (target_in i)
    pub target_rules_are : (i : ℕ) → scene.target_rules i ≡ (target_in i).rules

  -- The rules against which a query's name is checked.
  question_rules_from :
      (first : Config) (bodies : List (Bytes × Bytes)) (bl : Blocklist x.Regex)
      (stored : Stored disk) (scene : Scene x)
      → list_rules x first bodies ≡ ok bl
      → Seen (start x disk first bl stored) scene
      → (cfg : Config) × WasLoaded x disk Loads first cfg × BuiltFrom x cfg scene.question_rules
  question_rules_from first bodies bl stored scene built seen =
      let whole : Whole x disk Loads first seen.checked_in =
        Reach-Whole x disk Loads first bodies bl stored seen.checked_in built
          seen.checked_reached in
      let (cfg, loaded, (bodies', h)) = whole.rules_whole in
      (
        cfg,
        loaded,
        (bodies', subst (λ r. list_rules x cfg bodies' ≡ ok r) (sym seen.question_rules_are) h),
      )

  -- If the program starts with the rules of its configuration, and that and every configuration that
  -- can be loaded list an entry in `manual_allow`, then a query for a name that is in lower case
  -- what the entry stands for goes upstream first of all, over UDP and over TCP, whatever the
  -- refresh and the reloads have done until it is handled, and whatever else the configurations and
  -- the lists hold.
  pub hand_allowed_goes_out :
      (first : Config) (bodies : List (Bytes × Bytes)) (bl : Blocklist x.Regex)
      (stored : Stored disk) (scene : Scene x) (entry packet : Bytes) (m : DnsMessage)
      (q : DnsQuestion) (qs : List DnsQuestion)
      → list_rules x first bodies ≡ ok bl
      → ((cfg : Config)
          → WasLoaded x disk Loads first cfg
          → any (bytes_eq entry) cfg.matching.manual_allow ≡ true)
      → Seen (start x disk first bl stored) scene
      → parse packet ≡ ok m
      → m.questions ≡ q ∷ qs
      → lowered x q.name ≡ allowed_name x entry
      → (take 1 (asked (handle_udp_query x scene packet).did) ≡ serialize (outgoing m) ∷ [])
        × (take 1 (asked (handle_tcp_packet x scene packet).did) ≡ serialize (outgoing m) ∷ [])
  hand_allowed_goes_out first bodies bl stored scene entry packet m q qs built listed seen p one
        named =
      let (cfg, loaded, (bodies', h)) =
        question_rules_from first bodies bl stored scene built seen in
      let hit =
        list_rules-manual_allow x cfg bodies' scene.question_rules entry q.name h
          (listed cfg loaded) named in
      (
        allowed_goes_out x scene packet m q qs _ p one hit,
        allowed_goes_out_on_tcp x scene packet m q qs _ p one hit,
      )

  -- If the program starts with the rules of its configuration, and the hand-written rules of that and
  -- of every configuration that can be loaded block a name, then a query for it is answered with
  -- NXDOMAIN alone, over UDP and over TCP, whatever the refresh and the reloads have done until it
  -- is handled, unless an allow rule among the rules in force matches the name.
  pub hand_blocked_stays_here :
      (first : Config) (bodies : List (Bytes × Bytes)) (bl : Blocklist x.Regex)
      (stored : Stored disk) (scene : Scene x) (packet : Bytes) (m : DnsMessage) (q : DnsQuestion)
      (qs : List DnsQuestion)
      → list_rules x first bodies ≡ ok bl
      → ((cfg : Config) (manual : Blocklist x.Regex)
          → WasLoaded x disk Loads first cfg
          → manual_rules x cfg.matching ≡ ok manual
          → BlockHits x manual (lowered x q.name))
      → Seen (start x disk first bl stored) scene
      → parse packet ≡ ok m
      → m.questions ≡ q ∷ qs
      → AllowHits x scene.question_rules (lowered x q.name) ⊎ AnsweredLocally x scene packet m
  hand_blocked_stays_here first bodies bl stored scene packet m q qs built blocks seen p one =
      let (cfg, loaded, (bodies', h)) =
        question_rules_from first bodies bl stored scene built seen in
      let (manual, made) = from_manual x cfg bodies' scene.question_rules h in
      by_outcome x scene packet m q qs (check x scene.question_rules q.name) p one refl
        (check-Decides x scene.question_rules q.name)
        ((list_rules-manual x cfg bodies' manual scene.question_rules q.name made h).1
          (blocks cfg manual loaded made))
