-- ===== src/Stats/Flags/RoundTrip.antt =====
-- The flags of the `stats` subcommand in src/main.rs, written out and read.
use dns_ligase.Prelude.{
  Bool, true, false, if◌then◌else◌, List, [], ◌∷◌, ◌++◌, Option, none, some, Bytes, ◌≡◌, refl, ◌∙◌,
}
use dns_ligase.Stats.Entries.{StatsFilter}
use dns_ligase.Stats.Flags.{query, no_filter, run_stats_cmd, flag_of}
use dns_ligase.Text.Search.{codes}

-- A flag that is on, and a flag with a value.
abbrev switch : Bool → Bytes → List Bytes
switch on name = if on then name ∷ [] else []

abbrev valued : Option Bytes → Bytes → List Bytes
valued none name = []
valued (some value) name = name ∷ value ∷ []

-- A filter as flags, with the short names where there are some and they are wanted.
unfoldable pub flags_of : (short : Bool) → StatsFilter → List Bytes
flags_of short f =
    switch f.blocked (codes "--blocked")
    ++ (switch f.allowed (codes "--allowed")
        ++ (switch f.forwarded (codes "--forwarded")
            ++ (switch f.summary (codes "--summary")
                ++ (valued f.domain (if short then codes "-d" else codes "--domain")
                    ++ (valued f.src (if short then codes "-s" else codes "--src")
                        ++ valued f.since (codes "--since"))))))

read_blocked :
    (f : StatsFilter) (on : Bool) (rest : List Bytes)
    → run_stats_cmd (record f { blocked = false }) (switch on (codes "--blocked") ++ rest)
      ≡ run_stats_cmd (record f { blocked = on }) rest
unfolding run_stats_cmd flag_of
read_blocked f true rest = refl
read_blocked f false rest = refl

read_allowed :
    (f : StatsFilter) (on : Bool) (rest : List Bytes)
    → run_stats_cmd (record f { allowed = false }) (switch on (codes "--allowed") ++ rest)
      ≡ run_stats_cmd (record f { allowed = on }) rest
unfolding run_stats_cmd flag_of
read_allowed f true rest = refl
read_allowed f false rest = refl

read_forwarded :
    (f : StatsFilter) (on : Bool) (rest : List Bytes)
    → run_stats_cmd (record f { forwarded = false }) (switch on (codes "--forwarded") ++ rest)
      ≡ run_stats_cmd (record f { forwarded = on }) rest
unfolding run_stats_cmd flag_of
read_forwarded f true rest = refl
read_forwarded f false rest = refl

read_summary :
    (f : StatsFilter) (on : Bool) (rest : List Bytes)
    → run_stats_cmd (record f { summary = false }) (switch on (codes "--summary") ++ rest)
      ≡ run_stats_cmd (record f { summary = on }) rest
unfolding run_stats_cmd flag_of
read_summary f true rest = refl
read_summary f false rest = refl

read_domain :
    (short : Bool) (f : StatsFilter) (v : Option Bytes) (rest : List Bytes)
    → run_stats_cmd
        (record f { domain = none })
        (valued v (if short then codes "-d" else codes "--domain") ++ rest)
      ≡ run_stats_cmd (record f { domain = v }) rest
unfolding run_stats_cmd flag_of
read_domain short f none rest = refl
read_domain true f (some value) rest = refl
read_domain false f (some value) rest = refl

read_src :
    (short : Bool) (f : StatsFilter) (v : Option Bytes) (rest : List Bytes)
    → run_stats_cmd
        (record f { src = none })
        (valued v (if short then codes "-s" else codes "--src") ++ rest)
      ≡ run_stats_cmd (record f { src = v }) rest
unfolding run_stats_cmd flag_of
read_src short f none rest = refl
read_src true f (some value) rest = refl
read_src false f (some value) rest = refl

read_since :
    (f : StatsFilter) (v : Option Bytes)
    → run_stats_cmd (record f { since = none }) (valued v (codes "--since"))
      ≡ query (record f { since = v })
unfolding run_stats_cmd flag_of
read_since f none = refl
read_since f (some value) = refl

-- Every filter can be asked for: written as flags, with the short or the long names, and read, it
-- is the same, whatever its values are.
pub run_stats_cmd-flags_of :
    (short : Bool) (f : StatsFilter) → run_stats_cmd no_filter (flags_of short f) ≡ query f
unfolding flags_of
run_stats_cmd-flags_of short f =
    read_blocked no_filter f.blocked _
    ∙ (read_allowed (record no_filter { blocked = f.blocked }) f.allowed _
        ∙ (read_forwarded
              (record f {
                forwarded = false;
                domain = none;
                src = none;
                since = none;
                summary = false;
              })
              f.forwarded _
            ∙ (read_summary (record f { domain = none; src = none; since = none }) f.summary _
                ∙ (read_domain short (record f { src = none; since = none }) f.domain _
                    ∙ (read_src short (record f { since = none }) f.src _
                        ∙ read_since f f.since)))))
