-- ===== src/Tests/ProgramRuns.antt =====
-- The start, refresh, reload and downloads on concrete inputs.
use dns_ligase.Blocklist.Rules.{Blocklist, new}
use dns_ligase.Program.Config.{Config}
use dns_ligase.Cache.Fetch.{Web, got, broken, download_one}
use dns_ligase.Cache.Fetch.Fallback.{BrokeOff, IsFailed, download_one-IsFailed}
use dns_ligase.Program.Service.Stale.{stale_rules}
use dns_ligase.Program.Service.{sleeping, waiting}
use dns_ligase.Program.Service.{upstream_addr}
use dns_ligase.Blocklist.Lines.{parse_lines_into}
use dns_ligase.Blocklist.Pieces.{is_local_name}
use dns_ligase.Prelude.{refl, arith, map, ◌↔◌, true, false, [], ◌∷◌, none, some, ◌≡◌, inl, Bytes}
use dns_ligase.Tests.Samples.{literal_patterns, ads, files}
use dns_ligase.Io.{ok}
use dns_ligase.Program.Build.{Fetching, manual_rules, create_blocklist, list_rules, Stored}
use dns_ligase.Program.Service.{Service, start, configured, Reach, next, here, reload_configures}
use dns_ligase.Program.Service.Current.{Follows, Reach-Follows}
use dns_ligase.Program.Service.Settled.{
  Settled, ReachApart, ReachApart-Settled, next_apart, here_apart,
}
use dns_ligase.Cache.Store.{fresh}
use dns_ligase.Text.Search.{codes}
use dns_ligase.Blocklist.Rules.{new}
use dns_ligase.Program.Changes.{log_changes}
use dns_ligase.Program.Changes.Complete.{SameLogged, log_changes-SameLogged}

-- Blocks ads.com by hand, allows safe.ads.com by hand, and names one list.
abbrev pub one_list : Config
one_list = record {
  server = record { listen_addr = codes "127.0.0.1"; listen_port = 53 };
  upstream = record { address = (9, 9, 9, 9); port = 53; use_tcp = false };
  blocklists = record {
    urls = codes "u" ∷ [];
    allowlist_urls = [];
    regex_block_urls = [];
    regex_allow_urls = [];
    refresh_interval_secs = 100;
    cache_ttl_secs = none;
  };
  matching = record {
    manual_block = codes "||ads.com^" ∷ [];
    manual_allow = codes "safe.ads.com" ∷ [];
    regex_block = [];
    regex_allow = [];
  };
  cache = record { path = codes "c" };
  logging = record { queries = true };
}

-- The same without rules by hand, and with another resolver.
abbrev pub bare : Config
bare = record one_list {
  upstream = record { address = (8, 8, 8, 8); port = 53; use_tcp = false };
  matching = record { manual_block = []; manual_allow = []; regex_block = []; regex_allow = [] };
}

-- Every list is fetched anew, and saving works.
abbrev pub online : Fetching
online = record {
  planned_at = 1000;
  merged_at = 1001;
  downloads = map (λ j. (j.url, fresh (codes "b.com") none));
  saved = ok tt;
}

abbrev pub nothing_stored : Stored files
nothing_stored = (record { map = []; dirty = false }, λ f. none)

abbrev pub manual_only : Blocklist Bytes
manual_only = record new { block_suffixes = ads ∷ []; allow_domains = codes "safe.ads.com" ∷ [] }

abbrev pub all_rules : Blocklist Bytes
all_rules = record manual_only { block_domains = codes "b.com" ∷ [] }

abbrev pub stored_after : Stored files
stored_after = (create_blocklist literal_patterns files one_list online nothing_stored).1

pub manual_read : manual_rules literal_patterns one_list.matching ≡ ok manual_only
unfolding manual_rules
manual_read = refl

built : (create_blocklist literal_patterns files one_list online nothing_stored).0 ≡ ok all_rules
unfolding create_blocklist parse_lines_into is_local_name
built = refl

abbrev AnyConfig : Config → Type 0
AnyConfig cfg = Unit

abbrev started : Service literal_patterns files
started = start literal_patterns files one_list all_rules nothing_stored

abbrev reloaded : Service literal_patterns files
reloaded = record started { config = bare; reload = configured }

reloads : Reach literal_patterns files AnyConfig started reloaded
unfolding start
reloads = next here (reload_configures bare refl tt refl)

Reach-Follows_example : Follows literal_patterns files reloaded
Reach-Follows_example =
    Reach-Follows literal_patterns files AnyConfig one_list all_rules nothing_stored reloaded
      reloads

reloads_apart : ReachApart literal_patterns files AnyConfig started reloaded
unfolding start
reloads_apart =
    next_apart here_apart (reload_configures bare refl tt refl) (inl λ b e. ground arith)

pub lists_read :
    list_rules literal_patterns one_list ((codes "u", codes "b.com") ∷ []) ≡ ok all_rules
unfolding list_rules parse_lines_into is_local_name
lists_read = refl

ReachApart-Settled_example : Settled literal_patterns files AnyConfig reloaded
ReachApart-Settled_example =
    ReachApart-Settled literal_patterns files AnyConfig one_list ((codes "u", codes "b.com") ∷ [])
      all_rules nothing_stored reloaded lists_read reloads_apart

-- The refresh has fetched the lists for the old configuration, the reload those for the new one.
stale_rules_example : Reach literal_patterns files AnyConfig started (record {
  config = bare;
  logs_queries = true;
  pool = upstream_addr bare;
  rules = all_rules;
  stored = (create_blocklist literal_patterns files bare online stored_after).1;
  refresh = sleeping;
  reload = waiting;
})
unfolding start create_blocklist parse_lines_into is_local_name
stale_rules_example =
    stale_rules literal_patterns files AnyConfig started bare online online all_rules
      (record new { block_domains = codes "b.com" ∷ [] }) stored_after
      (create_blocklist literal_patterns files bare online stored_after).1 refl refl tt refl refl

-- A server whose answer breaks off in its body.
abbrev flaky : Web
flaky = record {
  Client = Unit;
  url_host = λ url. some (some (codes "lists.org"));
  url_port = λ url. some 443;
  is_ip = λ host. false;
  plain = tt;
  pinned = λ host addrs. some tt;
  get = λ attempt client url etag. got (record {
    status = 200;
    status_text = codes "200 OK";
    etag = none;
    text = broken (codes "reset");
  });
}

download_one-IsFailed_example :
    IsFailed flaky (download_one flaky tt (codes "u") none (some ads))
    ↔ BrokeOff flaky (flaky.get 0 tt (codes "u") none)
download_one-IsFailed_example = download_one-IsFailed flaky tt (codes "u") none ads

log_changes-SameLogged_example : (log_changes one_list bare ≡ []) ↔ SameLogged one_list bare
log_changes-SameLogged_example = log_changes-SameLogged one_list bare

-- A new time to live, which is not logged.
abbrev longer_ttl : Config
longer_ttl = record one_list {
  blocklists = record {
    urls = codes "u" ∷ [];
    allowlist_urls = [];
    regex_block_urls = [];
    regex_allow_urls = [];
    refresh_interval_secs = 100;
    cache_ttl_secs = some 1000;
  };
}

not_logged : log_changes one_list longer_ttl ≡ []
unfolding log_changes
not_logged = refl
