-- ===== src/Stats/Summary.antt =====
-- `print_summary` and `run_stats` of src/stats.rs, without the layout of what they print. The order in
-- which a `HashMap` is gone through is the argument `iter`, and `journalctl` is a function of its
-- arguments.
pub mod Counted
pub mod Sorting
pub mod Distinct
pub mod Top
use dns_ligase.Prelude.{
  ℕ, suc, ◌+◌, Bool, true, false, if◌then◌else◌, List, [], ◌∷◌, ◌++◌, Option, none, some, Bytes,
  bytes_eq, leb, length, take, ap,
}
use dns_ligase.Stats.Entries.{QueryEntry, StatsFilter, JournalEntry, parse_entries, filter_entries}
use dns_ligase.Text.Search.{codes}

-- A `HashMap<&str, usize>`, without its order.
abbrev pub Counts : Type 0
Counts = List (Bytes × ℕ)

-- `*counts.entry(key).or_default() += 1`
unfoldable pub tally : Bytes → Counts → Counts
tally key [] = (key, 1) ∷ []
tally key ((k, n) ∷ counts) =
    let rest = tally key counts in if bytes_eq key k then (k, n + 1) ∷ counts else (k, n) ∷ rest

pub record Counters : Type 0 where
  pub by_action : Counts
  pub blocked_domains : Counts
  pub by_source : Counts

abbrev pub no_counts : Counters
no_counts = record { by_action = []; blocked_domains = []; by_source = [] }

unfoldable pub count_entry : QueryEntry → Counters → Counters
unfolding tally
count_entry e c = record {
  by_action = tally e.action c.by_action;
  blocked_domains =
      if bytes_eq e.action (codes "blocked")
      then tally e.domain c.blocked_domains
      else c.blocked_domains;
  by_source = tally e.source c.by_source;
}

unfoldable pub count_entries : List QueryEntry → Counters → Counters
unfolding count_entry
count_entries [] c = c
count_entries (e ∷ es) c = count_entries es (count_entry e c)

-- `sort_by_key(|(_, c)| Reverse(*c))`, which keeps the order of equal keys.
unfoldable pub insert_by_count : Bytes × ℕ → Counts → Counts
insert_by_count p [] = p ∷ []
insert_by_count p (q ∷ qs) =
    let rest = insert_by_count p qs in if leb (q.1) (p.1) then p ∷ q ∷ qs else q ∷ rest

unfoldable pub sort_by_count : Counts → Counts
unfolding insert_by_count
sort_by_count [] = []
sort_by_count (p ∷ ps) = insert_by_count p (sort_by_count ps)

unfoldable pub top_ten : Counts → Counts
unfolding sort_by_count
top_ten counts = take 10 (sort_by_count counts)

pub record Summary : Type 0 where
  pub total : ℕ
  pub actions : Counts
  pub top_blocked : Counts
  pub top_sources : Counts

module _ (iter : Counts → Counts) where
  -- Without entries there is only a message.
  unfoldable pub print_summary : List QueryEntry → Option Summary
  unfolding count_entries top_ten
  print_summary [] = none
  print_summary (e ∷ es) =
      let c = count_entries (e ∷ es) no_counts in
      some (record {
        total = length (e ∷ es);
        actions = iter c.by_action;
        top_blocked = top_ten (iter c.blocked_domains);
        top_sources = top_ten (iter c.by_source);
      })

-- What the subcommand prints: a summary, a table of entries, or that there are none.
pub data Report : Type 0 where
  summary_report : Summary → Report
  entries_report : List QueryEntry → Report
  no_entries : Report

-- `Output` of a command that ran.
pub record Output : Type 0 where
  pub success : Bool
  pub stdout : Bytes
  pub stderr : Bytes

pub data Ran : Type 0 where
  reports : Report → Ran
  fails : Bytes → Ran

abbrev since_args : Option Bytes → List Bytes
since_args none = []
since_args (some time) = codes "--since" ∷ time ∷ []

abbrev print_entries : List QueryEntry → Report
print_entries [] = no_entries
print_entries (e ∷ es) = entries_report (e ∷ es)

abbrev summary_of : Option Summary → Report
summary_of none = no_entries
summary_of (some s) = summary_report s

-- `not_started` is the text of the error when the command does not start.
unfoldable pub run_stats :
    (parse_u64 : Bytes → Option ℕ)
    → (from_str : Bytes → Option JournalEntry) → (from_utf8_lossy : Bytes → Bytes)
    → (iter : Counts → Counts) → (journalctl : List Bytes → Option Output) → (not_started : Bytes)
    → StatsFilter
    → Ran
unfolding parse_entries filter_entries print_summary
run_stats parse_u64 from_str from_utf8_lossy iter journalctl not_started f =
    elim (journalctl (
      codes "-u"
      ∷ codes "dns-ligase"
      ∷ codes "--output=json"
      ∷ codes "--no-pager"
      ∷ since_args f.since)) [
        | none ↦ fails not_started
        | some output ↦
            let filtered =
              filter_entries (parse_entries parse_u64 from_str (from_utf8_lossy output.stdout)) f in
            if output.success
            then reports (
                if f.summary
                then summary_of (print_summary iter filtered)
                else print_entries filtered)
            else fails (codes "journalctl failed: " ++ from_utf8_lossy output.stderr)
      ]
