-- ===== src/Tests/ServingRuns.antt =====
-- Queries that are handled while the program refreshes and reloads.
use dns_ligase.Blocklist.Check.{lowered}
use dns_ligase.Blocklist.Check.Decision.{AllowHits, BlockHits}
use dns_ligase.Blocklist.Lines.{parse_lines_into}
use dns_ligase.Blocklist.Pieces.{is_local_name}
use dns_ligase.Blocklist.Rules.{Blocklist, new, contains}
use dns_ligase.Dns.Message.{serialize}
use dns_ligase.Dns.Message.RoundTrip.{parse-serialize}
use dns_ligase.Forwarder.Handler.{handle_udp_query, handle_tcp_packet}
use dns_ligase.Forwarder.Response.{outgoing}
use dns_ligase.Forwarder.Scene.{Scene, asked}
use dns_ligase.Io.{ok}
use dns_ligase.Prelude.{◌≡◌, refl, sym, ◌∙◌, [], ◌∷◌, inl, inr, ◌⊎◌, true, take, any, bytes_eq}
use dns_ligase.Program.Build.{list_rules, manual_rules, allowed_name}
use dns_ligase.Program.Config.{Config}
use dns_ligase.Program.Service.{
  Service, Reach, start, here, next, refresh_wakes, refreshing, planning,
}
use dns_ligase.Program.Service.Whole.{Whole, WasLoaded, Reach-Whole}
use dns_ligase.Program.Serving.{
  Seen, AnsweredLocally, hand_allowed_goes_out, hand_blocked_stays_here, listed_stays_here,
}
use dns_ligase.Tests.ProgramRuns.{
  one_list, nothing_stored, all_rules, manual_only, lists_read, manual_read,
}
use dns_ligase.Tests.Samples.{
  literal_patterns, ads, ads_question, ads_query, ads_query-IsMessage, ads_scene, files,
}
use dns_ligase.Blocklist.Lines.Suffix.{IsPlain}
use dns_ligase.Blocklist.Pieces.{lines}
use dns_ligase.Program.Build.{body_of}
use dns_ligase.Prelude.{Bytes}
use dns_ligase.Tests.ProgramRuns.{bare}
use dns_ligase.Text.Search.{codes, trim_end_byte}
use mathlib.Core.Path.{subst}

-- The file never changes.
abbrev Unchanged : Config → Config → Type 0
Unchanged first cfg = cfg ≡ first

abbrev beginning : Service literal_patterns files
beginning = start literal_patterns files one_list all_rules nothing_stored

woken :
    Reach literal_patterns files
      (Unchanged one_list)
      beginning
      (record beginning { refresh = refreshing (planning one_list) })
unfolding start
woken = next here (refresh_wakes refl refl)

Reach-Whole_example :
    Whole literal_patterns files
      (Unchanged one_list)
      one_list
      (record beginning { refresh = refreshing (planning one_list) })
Reach-Whole_example =
    Reach-Whole literal_patterns files (Unchanged one_list) one_list
      ((codes "u", codes "b.com") ∷ []) all_rules nothing_stored
      (record beginning { refresh = refreshing (planning one_list) }) lists_read woken

abbrev blocking_scene : Scene literal_patterns
blocking_scene = record ads_scene { question_rules = all_rules; target_rules = λ i. all_rules }

-- A refresh has begun when the name is checked.
during_refresh : Seen literal_patterns files (Unchanged one_list) beginning blocking_scene
unfolding start
during_refresh = record {
  checked_in = record beginning { refresh = refreshing (planning one_list) };
  checked_reached = woken;
  question_rules_are = refl;
  target_in = λ i. record beginning { refresh = refreshing (planning one_list) };
  target_reached = λ i. here;
  target_rules_are = λ i. refl;
}

only_manual :
    (manual : Blocklist literal_patterns.Regex)
    → manual_rules literal_patterns one_list.matching ≡ ok manual
    → manual ≡ manual_only
only_manual manual h = ok-eq (sym h ∙ manual_read)
  where
    ok-eq : {a b : Blocklist literal_patterns.Regex} → ok a ≡ ok b → a ≡ b
    ok-eq e = cc

manual_blocks_ads : BlockHits literal_patterns manual_only (lowered literal_patterns ads)
unfolding lowered contains
manual_blocks_ads = inr (inr (ads, refl, inl refl))

blocks_ads :
    (cfg : Config) (manual : Blocklist literal_patterns.Regex)
    → WasLoaded literal_patterns files (Unchanged one_list) one_list cfg
    → manual_rules literal_patterns cfg.matching ≡ ok manual
    → BlockHits literal_patterns manual (lowered literal_patterns ads)
blocks_ads cfg manual loaded h =
    subst (λ b. BlockHits literal_patterns b (lowered literal_patterns ads))
      (sym (
        only_manual manual
          (subst (λ c. manual_rules literal_patterns c.matching ≡ ok manual) (same loaded) h)))
      manual_blocks_ads
  where
    same : WasLoaded literal_patterns files (Unchanged one_list) one_list cfg → cfg ≡ one_list
    same (inl e) = e
    same (inr e) = e

hand_blocked_stays_here_example :
    AllowHits literal_patterns all_rules (lowered literal_patterns ads)
    ⊎ AnsweredLocally literal_patterns blocking_scene (serialize ads_query) ads_query
hand_blocked_stays_here_example =
    hand_blocked_stays_here literal_patterns files (Unchanged one_list) one_list
      ((codes "u", codes "b.com") ∷ []) all_rules nothing_stored blocking_scene
      (serialize ads_query) ads_query ads_question [] lists_read blocks_ads during_refresh
      (parse-serialize ads_query ads_query-IsMessage) refl

-- The same list, and ads.com is allowed by hand.
abbrev lets_ads : Config
lets_ads = record one_list {
  matching = record {
    manual_block = [];
    manual_allow = codes "Ads.com." ∷ [];
    regex_block = [];
    regex_allow = [];
  };
}

abbrev ads_allowed : Blocklist literal_patterns.Regex
ads_allowed = record new { allow_domains = ads ∷ []; block_domains = codes "b.com" ∷ [] }

allows_read :
    list_rules literal_patterns lets_ads ((codes "u", codes "b.com") ∷ []) ≡ ok ads_allowed
unfolding list_rules parse_lines_into is_local_name
allows_read = refl

abbrev allowing_scene : Scene literal_patterns
allowing_scene = record ads_scene { question_rules = ads_allowed; target_rules = λ i. ads_allowed }

at_start :
    Seen literal_patterns files
      (Unchanged lets_ads)
      (start literal_patterns files lets_ads ads_allowed nothing_stored)
      allowing_scene
unfolding start
at_start = record {
  checked_in = start literal_patterns files lets_ads ads_allowed nothing_stored;
  checked_reached = here;
  question_rules_are = refl;
  target_in = λ i. start literal_patterns files lets_ads ads_allowed nothing_stored;
  target_reached = λ i. here;
  target_rules_are = λ i. refl;
}

lists_ads :
    (cfg : Config)
    → WasLoaded literal_patterns files (Unchanged lets_ads) lets_ads cfg
    → any (bytes_eq (codes "Ads.com.")) cfg.matching.manual_allow ≡ true
lists_ads cfg (inl e) = rw e refl
lists_ads cfg (inr e) = rw e refl

named_ads : lowered literal_patterns ads ≡ allowed_name literal_patterns (codes "Ads.com.")
unfolding lowered allowed_name
named_ads = refl

hand_allowed_goes_out_example :
    (take 1 (asked (handle_udp_query literal_patterns allowing_scene (serialize ads_query)).did)
      ≡ serialize (outgoing ads_query) ∷ [])
    × (take 1 (asked (handle_tcp_packet literal_patterns allowing_scene (serialize ads_query)).did)
        ≡ serialize (outgoing ads_query) ∷ [])
hand_allowed_goes_out_example =
    hand_allowed_goes_out literal_patterns files (Unchanged lets_ads) lets_ads
      ((codes "u", codes "b.com") ∷ []) ads_allowed nothing_stored allowing_scene (codes "Ads.com.")
      (serialize ads_query) ads_query ads_question [] allows_read lists_ads at_start
      (parse-serialize ads_query ads_query-IsMessage) refl named_ads

-- A list with a comment and one rule.
abbrev one_rule : Bytes
one_rule = codes "! ads\n||ads.com^\n"

abbrev rule_scene : Scene literal_patterns
rule_scene = record ads_scene {
  question_rules = record new { block_suffixes = ads ∷ [] };
  target_rules = λ i. record new { block_suffixes = ads ∷ [] };
}

rule_read :
    list_rules literal_patterns bare ((codes "u", one_rule) ∷ []) ≡ ok rule_scene.question_rules
unfolding list_rules parse_lines_into is_local_name
rule_read = refl

ads-IsPlain : IsPlain ads
unfolding trim_end_byte
ads-IsPlain = record {
  not_empty = refl;
  name_bytes = (refl, (refl, (refl, (refl, (refl, (refl, (refl, tt)))))));
  no_dot_behind = refl;
}

listed_stays_here_example :
    AllowHits literal_patterns rule_scene.question_rules (lowered literal_patterns ads)
    ⊎ AnsweredLocally literal_patterns rule_scene (serialize ads_query) ads_query
unfolding body_of lines lowered
listed_stays_here_example =
    listed_stays_here literal_patterns rule_scene bare ((codes "u", one_rule) ∷ []) (codes "u")
      one_rule ads (serialize ads_query) ads_query ads_question [] rule_read refl refl refl
      ads-IsPlain (parse-serialize ads_query ads_query-IsMessage) refl (inl refl)
