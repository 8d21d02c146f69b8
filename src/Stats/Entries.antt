-- ===== src/Stats/Entries.antt =====
-- `parse_entries`, `format_timestamp` and `filter_entries` in src/stats.rs. The parser of JSON and
-- that of decimal numbers (`serde_json`, `str::parse`) are parameters.
use dns_ligase.Blocklist.Pieces.{lines}
use dns_ligase.Prelude.{
  ℕ, ◌/◌, ◌%◌, Bool, true, false, not, ◌&&◌, ◌||◌, List, [], ◌∷◌, ◌++◌, Option, none, some, ◌==◌,
  if◌then◌else◌, Bytes, bytes_eq, keep_if,
}
use dns_ligase.Stats.Calendar.{days_to_ymd, padded}
use dns_ligase.Text.Search.{codes, contains_text}
use dns_ligase.Text.Split.{is_empty}
use dns_ligase.Text.Trim.{trim}

pub record QueryEntry : Type 0 where
  pub timestamp : Bytes
  pub source : Bytes
  pub domain : Bytes
  pub qtype : Bytes
  pub action : Bytes
  pub rule : Bytes

pub record JournalEntry : Type 0 where
  pub timestamp : Option Bytes
  pub source : Option Bytes
  pub domain : Option Bytes
  pub qtype : Option Bytes
  pub action : Option Bytes
  pub rule : Option Bytes

pub record StatsFilter : Type 0 where
  pub blocked : Bool
  pub allowed : Bool
  pub forwarded : Bool
  pub domain : Option Bytes
  pub src : Option Bytes
  pub since : Option Bytes
  pub summary : Bool

abbrev pub or_empty : Option Bytes → Bytes
or_empty none = []
or_empty (some s) = s

-- A time of microseconds since the epoch.
unfoldable pub format_us : ℕ → Bytes
unfolding days_to_ymd padded
format_us us =
    let secs = us / 1000000 in
    let time_of_day = secs % 86400 in
    let (year, month, day) = days_to_ymd (secs / 86400) in
    if us == 0
    then []
    else padded 4 year
      ++ (codes "-"
          ++ (padded 2 month
              ++ (codes "-"
                  ++ (padded 2 day
                      ++ (codes " "
                          ++ (padded 2 (time_of_day / 3600)
                              ++ (codes ":"
                                  ++ (padded 2 (time_of_day % 3600 / 60)
                                      ++ (codes ":" ++ padded 2 (time_of_day % 60))))))))))

module _ (parse_u64 : Bytes → Option ℕ) (from_str : Bytes → Option JournalEntry) where
  format_timestamp : Option Bytes → Bytes
  unfolding format_us
  format_timestamp none = []
  format_timestamp (some s) = elim (parse_u64 s) [ some us ↦ format_us us | none ↦ [] ]

  entry_of : JournalEntry → QueryEntry
  unfolding format_timestamp
  entry_of raw = record {
    timestamp = format_timestamp raw.timestamp;
    source = or_empty raw.source;
    domain = or_empty raw.domain;
    qtype = or_empty raw.qtype;
    action = or_empty raw.action;
    rule = or_empty raw.rule;
  }

  is_none : Option Bytes → Bool
  is_none none = true
  is_none (some s) = false

  -- The entry of a line, before those of the other lines.
  entry_line : Bytes → List QueryEntry → List QueryEntry
  unfolding entry_of is_none trim
  entry_line line rest = if is_empty (trim line) then rest else elim (from_str line) [
    | some raw ↦ if is_none raw.action && is_none raw.domain then rest else entry_of raw ∷ rest
    | none ↦ rest
  ]

  entries_of : List Bytes → List QueryEntry
  unfolding entry_line
  entries_of [] = []
  entries_of (line ∷ ls) = entry_line line (entries_of ls)

  unfoldable pub parse_entries : Bytes → List QueryEntry
  unfolding entries_of lines
  parse_entries json_lines = entries_of (lines json_lines)

unfoldable pub action_passes : StatsFilter → Bytes → Bool
action_passes f action =
    not (f.blocked || f.allowed || f.forwarded)
    || (f.blocked && bytes_eq action (codes "blocked"))
    || (f.allowed && bytes_eq action (codes "allowed"))
    || (f.forwarded && bytes_eq action (codes "forwarded"))

unfoldable pub text_passes : Option Bytes → Bytes → Bool
unfolding contains_text
text_passes none s = true
text_passes (some part) s = contains_text part s

unfoldable pub passes : StatsFilter → QueryEntry → Bool
unfolding action_passes text_passes
passes f e =
    if action_passes f e.action
    then (if text_passes f.domain e.domain then text_passes f.src e.source else false)
    else false

unfoldable pub filter_entries : List QueryEntry → StatsFilter → List QueryEntry
unfolding passes
filter_entries entries f = keep_if (passes f) entries
