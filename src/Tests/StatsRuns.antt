-- ===== src/Tests/StatsRuns.antt =====
-- The flags and the summary of the `stats` subcommand.
use dns_ligase.Prelude.{refl, true, List, [], ◌∷◌, some, ◌≡◌, Bytes}
use dns_ligase.Stats.Entries.{StatsFilter, QueryEntry}
use dns_ligase.Stats.Summary.{print_summary, Counts, Summary}
use dns_ligase.Stats.Summary.Top.{TopTen, print_summary-TopTen}
use dns_ligase.Stats.Flags.{run_stats_cmd, no_filter, query}
use dns_ligase.Stats.Flags.RoundTrip.{flags_of, run_stats_cmd-flags_of}
use mathlib.Core.List.Permᴰ
use dns_ligase.Text.Search.{codes}
use dns_ligase.Stats.Summary.Counted.{blocked_names}

-- The value of a flag may look like one.
abbrev blocked_from_host : StatsFilter
blocked_from_host = record no_filter { blocked = true; src = some (codes "--summary") }

run_stats_cmd-flags_of_example :
    run_stats_cmd no_filter (flags_of true blocked_from_host) ≡ query blocked_from_host
run_stats_cmd-flags_of_example = run_stats_cmd-flags_of true blocked_from_host

abbrev entry : Bytes → Bytes → QueryEntry
entry domain action = record {
  timestamp = [];
  source = codes "10.0.0.1";
  domain = domain;
  qtype = codes "A";
  action = action;
  rule = [];
}

-- Eleven blocked domains, of which `b` has two entries, and one that is not blocked.
abbrev entries : List QueryEntry
entries =
    entry (codes "z") (codes "forwarded")
    ∷ entry (codes "a") (codes "blocked")
    ∷ entry (codes "b") (codes "blocked")
    ∷ entry (codes "c") (codes "blocked")
    ∷ entry (codes "d") (codes "blocked")
    ∷ entry (codes "e") (codes "blocked")
    ∷ entry (codes "f") (codes "blocked")
    ∷ entry (codes "g") (codes "blocked")
    ∷ entry (codes "h") (codes "blocked")
    ∷ entry (codes "i") (codes "blocked")
    ∷ entry (codes "j") (codes "blocked")
    ∷ entry (codes "k") (codes "blocked")
    ∷ entry (codes "b") (codes "blocked")
    ∷ []

abbrev in_order : Counts → Counts
in_order counts = counts

abbrev summary : Summary
summary = record {
  total = 13;
  actions = (codes "forwarded", 1) ∷ (codes "blocked", 12) ∷ [];
  top_blocked =
      (codes "b", 2)
      ∷ (codes "a", 1)
      ∷ (codes "c", 1)
      ∷ (codes "d", 1)
      ∷ (codes "e", 1)
      ∷ (codes "f", 1)
      ∷ (codes "g", 1)
      ∷ (codes "h", 1)
      ∷ (codes "i", 1)
      ∷ (codes "j", 1)
      ∷ [];
  top_sources = (codes "10.0.0.1", 13) ∷ [];
}

summarised : print_summary in_order entries ≡ some summary
unfolding print_summary
summarised = refl

print_summary-TopTen_example : TopTen (blocked_names entries) summary.top_blocked
print_summary-TopTen_example =
    print_summary-TopTen in_order (λ counts. Permᴰ.refl counts) entries summary summarised
