-- ===== src/Stats/Flags.antt =====
-- `run_stats_cmd` of src/main.rs: the flags of the `stats` subcommand.
pub mod RoundTrip
use dns_ligase.Prelude.{
  Bool, true, false, if◌then◌else◌, List, [], ◌∷◌, Option, none, some, Bytes, bytes_eq,
}
use dns_ligase.Stats.Entries.{StatsFilter}
use dns_ligase.Text.Search.{codes}

-- What the arguments ask for. The source then runs the query, prints the help, or fails.
pub data StatsCmd : Type 0 where
  query : StatsFilter → StatsCmd
  help : StatsCmd
  unknown_flag : Bytes → StatsCmd

-- `StatsFilter::default()`
abbrev pub no_filter : StatsFilter
no_filter = record {
  blocked = false;
  allowed = false;
  forwarded = false;
  domain = none;
  src = none;
  since = none;
  summary = false;
}

pub data Flag : Type 0 where
  blocked_flag allowed_flag forwarded_flag summary_flag : Flag
  domain_flag src_flag since_flag help_flag other_flag : Flag

unfoldable pub flag_of : Bytes → Flag
flag_of arg =
    if bytes_eq arg (codes "--blocked")
    then blocked_flag
    else if bytes_eq arg (codes "--allowed")
    then allowed_flag
    else if bytes_eq arg (codes "--forwarded")
    then forwarded_flag
    else if bytes_eq arg (codes "--summary")
    then summary_flag
    else if bytes_eq arg (codes "--domain")
    then domain_flag
    else if bytes_eq arg (codes "-d")
    then domain_flag
    else if bytes_eq arg (codes "--src")
    then src_flag
    else if bytes_eq arg (codes "-s")
    then src_flag
    else if bytes_eq arg (codes "--since")
    then since_flag
    else if bytes_eq arg (codes "--help")
    then help_flag
    else if bytes_eq arg (codes "-h")
    then help_flag
    else other_flag

-- A flag that takes a value takes the next argument, whatever it is; at the end it takes `None`.
unfoldable mutual
  unfolding flag_of

  pub run_stats_cmd : StatsFilter → List Bytes → StatsCmd
  run_stats_cmd f [] = query f
  run_stats_cmd f (arg ∷ args) = elim (flag_of arg) [
    | blocked_flag ↦ run_stats_cmd (record f { blocked = true }) args
    | allowed_flag ↦ run_stats_cmd (record f { allowed = true }) args
    | forwarded_flag ↦ run_stats_cmd (record f { forwarded = true }) args
    | summary_flag ↦ run_stats_cmd (record f { summary = true }) args
    | domain_flag ↦ with_value (λ v. record f { domain = v }) args
    | src_flag ↦ with_value (λ v. record f { src = v }) args
    | since_flag ↦ with_value (λ v. record f { since = v }) args
    | help_flag ↦ help
    | other_flag ↦ unknown_flag arg
  ]

  with_value : (Option Bytes → StatsFilter) → List Bytes → StatsCmd
  with_value set [] = query (set none)
  with_value set (value ∷ args) = run_stats_cmd (set (some value)) args
