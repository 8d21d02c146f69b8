-- ===== src/Program/Build.antt =====
-- `create_blocklist` of src/main.rs, in the parts between which it gives up the lock of the cache:
-- the plan, the merge of what was downloaded, the rules from the bodies, and the prune. A panic in a
-- parser is a `fault`.
pub mod Added
pub mod Manual
pub mod Loops
pub mod Each
pub mod Reuse
pub mod Listed
pub mod Unordered
use dns_ligase.Prelude.{
  Bytes, ℕ, List, some, Bool, Option, ◌++◌, none, [], true, false, ◌∷◌, if◌then◌else◌, bytes_eq,
  zero, suc, ◌≡◌, refl, arith, inl, inr,
}
use mathlib.Core.List.{reverse}
use dns_ligase.Program.Config.{Config, BlocklistConfig, MatchingConfig}
use dns_ligase.Blocklist.Rules.{External, insert, Blocklist, new}
use dns_ligase.Cache.Store.{
  Disk, CachedLists, plan_fetches, merge_downloads, prune, FetchJob, DownloadResult, save_to_disk,
}
use dns_ligase.Blocklist.Lines.{
  parse_line_mode, add_regex, parse_lines_into, parse_lines_into_allow, parse_lines_into_regex,
  parse_line, ad_block,
}
use dns_ligase.Text.Search.{trim_end_byte}
use dns_ligase.Io.{Result, ok, and_then, err, fault}

-- `bodies.get(url)`: `fresh` and then `merged` go into one map, where the last body counts.
unfoldable pub body_of : Bytes → List (Bytes × Bytes) → Option Bytes
body_of url [] = none
body_of url ((u, body) ∷ bodies) = elim (body_of url bodies) [
  | some later ↦ some later
  | none ↦ if bytes_eq u url then some body else none
]

module _ (x : External) where
  -- `matching.manual_block`: an entry whose regex is invalid is warned of and left out.
  unfoldable pub manual_block_rules : List Bytes → Blocklist x.Regex → Result (Blocklist x.Regex)
  unfolding parse_line_mode
  manual_block_rules [] bl = ok bl
  manual_block_rules (entry ∷ rest) bl = elim (parse_line x bl entry ad_block) [
    | ok (bl', compiled) ↦ manual_block_rules rest bl'
    | err e ↦ err e
    | fault f ↦ fault f
  ]

  -- The name that an entry of `matching.manual_allow` stands for.
  unfoldable pub allowed_name : Bytes → Bytes
  unfolding trim_end_byte
  allowed_name entry = trim_end_byte b'.' (x.to_lowercase entry)

  unfoldable pub manual_allow_rules : List Bytes → Blocklist x.Regex → Blocklist x.Regex
  unfolding allowed_name insert
  manual_allow_rules [] bl = bl
  manual_allow_rules (entry ∷ rest) bl =
      manual_allow_rules rest
        (record bl { allow_domains = insert (allowed_name entry) bl.allow_domains })

  -- `matching.regex_block` and `matching.regex_allow`.
  unfoldable pub regex_rules : Bool → List Bytes → Blocklist x.Regex → Blocklist x.Regex
  unfolding add_regex
  regex_rules as_allow [] bl = bl
  regex_rules as_allow (pattern ∷ rest) bl = elim (x.regex_new pattern) [
    | some re ↦ regex_rules as_allow rest (add_regex x as_allow re bl)
    | none ↦ regex_rules as_allow rest bl
  ]

  unfoldable pub manual_rules : MatchingConfig → Result (Blocklist x.Regex)
  unfolding manual_block_rules manual_allow_rules regex_rules
  manual_rules matching = and_then (manual_block_rules matching.manual_block new) λ bl. ok (
      regex_rules true matching.regex_allow
        (regex_rules false matching.regex_block (manual_allow_rules matching.manual_allow bl)))

  -- One of the four loops over the URLs of a kind of list; a URL without a body is skipped.
  unfoldable pub add_lists :
      (Blocklist x.Regex → Bytes → Result (Blocklist x.Regex))
      → List Bytes
      → List (Bytes × Bytes)
      → Blocklist x.Regex
      → Result (Blocklist x.Regex)
  unfolding body_of
  add_lists parse_body [] bodies bl = ok bl
  add_lists parse_body (url ∷ urls) bodies bl = elim (body_of url bodies) [
    | some body ↦ and_then (parse_body bl body) λ bl'. add_lists parse_body urls bodies bl'
    | none ↦ add_lists parse_body urls bodies bl
  ]

  -- The four loops.
  unfoldable pub add_all_lists :
      BlocklistConfig → List (Bytes × Bytes) → Blocklist x.Regex → Result (Blocklist x.Regex)
  unfolding add_lists
  add_all_lists lists bodies bl =
      and_then (add_lists (parse_lines_into x) lists.urls bodies bl) λ bl.
        and_then (add_lists (parse_lines_into_allow x) lists.allowlist_urls bodies bl) λ bl.
          and_then
            (add_lists (λ bl body. ok (parse_lines_into_regex x bl body false))
              lists.regex_block_urls bodies bl)
            λ bl.
              add_lists (λ bl body. ok (parse_lines_into_regex x bl body true))
                lists.regex_allow_urls bodies bl

  -- The rules from the configuration and the bodies at hand.
  unfoldable pub list_rules : Config → List (Bytes × Bytes) → Result (Blocklist x.Regex)
  unfolding manual_rules add_all_lists
  list_rules cfg bodies =
      and_then (manual_rules cfg.matching) λ bl. add_all_lists cfg.blocklists bodies bl

-- The URLs of all lists, in the order in which they are planned; also those that are kept.
unfoldable pub all_urls : BlocklistConfig → List Bytes
all_urls lists =
    lists.urls ++ (lists.allowlist_urls ++ (lists.regex_block_urls ++ lists.regex_allow_urls))

abbrev pub cache_ttl : BlocklistConfig → ℕ
cache_ttl lists = elim lists.cache_ttl_secs [
  | some secs ↦ secs
  | none ↦ lists.refresh_interval_secs
]

module _ (disk : Disk) where
  -- The metadata behind the lock, and the directory of the bodies.
  abbrev pub Stored : Type 0
  Stored = CachedLists × disk.Dir

  unfoldable pub plan_lists : Config → ℕ → Stored → List (Bytes × Bytes) × List FetchJob
  unfolding plan_fetches all_urls
  plan_lists cfg now (lists, dir) =
      plan_fetches disk now (cache_ttl cfg.blocklists) lists dir (all_urls cfg.blocklists)

  -- The bodies that a merge adds to those that were fresh, and what is stored then.
  unfoldable pub merge_lists :
      ℕ → List (Bytes × DownloadResult) → Stored → List (Bytes × Bytes) × Stored
  unfolding merge_downloads
  merge_lists now downloaded (lists, dir) =
      let (lists', dir', bodies) = merge_downloads disk now downloaded (lists, dir, []) in
      (reverse bodies, (lists', dir'))

  -- Stale entries go and the metadata is saved; a failure to save is only logged.
  unfoldable pub finish_lists : Config → Result (Unit {0}) → Stored → Stored
  unfolding prune save_to_disk all_urls
  finish_lists cfg saved (lists, dir) =
      let (kept, dir') = prune disk (all_urls cfg.blocklists) lists dir in
      ((save_to_disk saved kept).2, dir')

-- What surrounds one run of `create_blocklist`: the clock at the plan and at the merge, what the
-- downloads bring, and whether saving works.
pub record Fetching : Type 0 where
  pub planned_at : ℕ
  pub merged_at : ℕ
  pub downloads : List FetchJob → List (Bytes × DownloadResult)
  pub saved : Result (Unit {0})

module _ (disk : Disk) where
  -- The bodies at hand after the merge, and what is stored then.
  unfoldable pub fetch_lists : Config → Fetching → Stored disk → List (Bytes × Bytes) × Stored disk
  unfolding plan_lists merge_lists
  fetch_lists cfg f stored =
      let (fresh, jobs) = plan_lists disk cfg f.planned_at stored in
      let (merged, stored') = merge_lists disk f.merged_at (f.downloads jobs) stored in
      (fresh ++ merged, stored')

module _ (x : External) (disk : Disk) where
  unfoldable pub create_blocklist :
      Config → Fetching → Stored disk → Result (Blocklist x.Regex) × Stored disk
  unfolding fetch_lists list_rules finish_lists
  create_blocklist cfg f stored =
      let (bodies, stored') = fetch_lists disk cfg f stored in
      elim (list_rules x cfg bodies) [
        | ok bl ↦ (ok bl, finish_lists disk cfg f.saved stored')
        | err e ↦ (err e, stored')
        | fault e ↦ (fault e, stored')
      ]
