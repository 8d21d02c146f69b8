-- ===== src/Blocklist/Check.antt =====
-- `Blocklist::suffix_match`, `check` and `matches`.
pub mod Suffix
pub mod Decision
use dns_ligase.Blocklist.Rules.{
  External, HashSet, contains, Blocklist, MatchOutcome, blocked, allowed, forwarded,
}
use dns_ligase.Prelude.{
  ℕ, Bool, true, false, List, [], ◌∷◌, ◌++◌, Option, none, some, ◌==◌, if◌then◌else◌, Bytes, any,
}
use dns_ligase.Text.Search.{is_ascii_uppercase, codes}

-- `set.get(d)`: the stored text is equal to the one looked for.
abbrev get : HashSet → Bytes → Option Bytes
get set d = if contains set d then some d else none

abbrev or_else : Option Bytes → Option Bytes → Option Bytes
or_else (some hit) other = some hit
or_else none other = other

-- The loop: what stands behind each dot, the longest first.
unfoldable pub suffix_loop : HashSet → Bytes → Option Bytes
suffix_loop set [] = none
suffix_loop set (x ∷ xs) =
    let rest = suffix_loop set xs in if x == b'.' then or_else (get set xs) rest else rest

unfoldable pub suffix_match : HashSet → Bytes → Option Bytes
unfolding suffix_loop
suffix_match set d = or_else (get set d) (suffix_loop set d)

module _ (x : External) where
  -- `for re in regexes { if re.is_match(d) { .. } }`
  unfoldable pub regex_match : List x.Regex → Bytes → Option Bytes
  regex_match [] d = none
  regex_match (r ∷ rs) d =
      let rest = regex_match rs d in if x.is_match r d then some (x.as_str r) else rest

  -- The fast path leaves a name without ASCII capitals as it is.
  unfoldable pub lowered : Bytes → Bytes
  lowered d = if any is_ascii_uppercase d then x.to_lowercase d else d

  abbrev on_hit : Option Bytes → (Bytes → MatchOutcome) → MatchOutcome → MatchOutcome
  on_hit (some hit) f other = f hit
  on_hit none f other = other

  block_part : Blocklist x.Regex → Bytes → MatchOutcome
  unfolding suffix_match regex_match
  block_part bl d =
      if contains bl.block_domains d
      then blocked (codes "block:" ++ d)
      else on_hit (suffix_match bl.block_suffixes d) (λ hit. blocked (codes "block_suffix:" ++ hit))
          (on_hit (regex_match bl.block_regex d) (λ re. blocked (codes "block_regex:" ++ re))
            forwarded)

  -- `check` on the lowercase name.
  unfoldable pub check_lower : Blocklist x.Regex → Bytes → MatchOutcome
  unfolding block_part
  check_lower bl d =
      if contains bl.allow_domains d
      then allowed (codes "allow:" ++ d)
      else on_hit (regex_match bl.allow_regex d) (λ re. allowed (codes "allow_regex:" ++ re))
          (on_hit (suffix_match bl.allow_suffixes d) (λ hit. allowed (codes "allow_suffix:" ++ hit))
            (block_part bl d))

  unfoldable pub check : Blocklist x.Regex → Bytes → MatchOutcome
  unfolding lowered check_lower
  check bl d = check_lower bl (lowered d)

  abbrev pub is_blocked : MatchOutcome → Bool
  is_blocked (blocked rule) = true
  is_blocked _ = false

  unfoldable pub matches : Blocklist x.Regex → Bytes → Bool
  unfolding check
  matches bl d = is_blocked (check bl d)
