-- ===== src/Blocklist/Rules.antt =====
-- `Blocklist`, and the code that the program takes from elsewhere.
use dns_ligase.Prelude.{
  ◌<◌, ◌≡◌, inl, inr, Bool, false, ◌||◌, List, [], ◌∷◌, map, Option, some, if◌then◌else◌, Bytes,
  bytes_eq, All, Bool-cases,
}
use dns_ligase.Text.Search.{to_ascii_lowercase, bytes_eq_iff}

-- The `regex` crate, and `str::to_lowercase`, whose table of characters is Unicode's. Of the
-- first the program relies on `Regex::as_str` being the pattern that was compiled, of the second
-- on what it does to ASCII texts.
pub record External : Type 1 where
  pub Regex : Type 0
  pub regex_new : Bytes → Option Regex
  pub is_match : Regex → Bytes → Bool
  pub as_str : Regex → Bytes
  pub as_str-regex_new : (p : Bytes) (r : Regex) → regex_new p ≡ some r → as_str r ≡ p
  pub to_lowercase : Bytes → Bytes
  pub to_lowercase_ascii :
      (s : Bytes) → All (λ b. b < 128) s → to_lowercase s ≡ map to_ascii_lowercase s

-- `HashSet<String>`: the order of the elements plays no part.
abbrev pub HashSet : Type 0
HashSet = List Bytes

unfoldable pub contains : HashSet → Bytes → Bool
contains [] d = false
contains (x ∷ xs) d = bytes_eq x d || contains xs d

unfoldable pub insert : Bytes → HashSet → HashSet
unfolding contains
insert d xs = if contains xs d then xs else d ∷ xs

pub contains-insert :
    (d e : Bytes) (xs : HashSet) → contains (insert d xs) e ≡ (bytes_eq d e || contains xs e)
unfolding insert
contains-insert d e xs = elim (Bool-cases (contains xs d)) [
  | inl old ↦ elim (Bool-cases (bytes_eq d e)) [
    | inl same ↦ rw (old, same, ← (bytes_eq_iff d e).0 same) old
    | inr differs ↦ rw (old, differs)
  ]
  | inr new ↦ rw new
]

pub record Blocklist (R : Type 0) : Type 0 where
  pub allow_domains : HashSet
  pub block_domains : HashSet
  pub allow_suffixes : HashSet
  pub block_suffixes : HashSet
  pub allow_regex : List R
  pub block_regex : List R

-- `Blocklist::new`.
abbrev pub new : {R : Type 0} → Blocklist R
new = record {
  allow_domains = [];
  block_domains = [];
  allow_suffixes = [];
  block_suffixes = [];
  allow_regex = [];
  block_regex = [];
}

-- `MatchOutcome`, with the description of the rule.
pub data MatchOutcome : Type 0 where
  blocked : Bytes → MatchOutcome
  allowed : Bytes → MatchOutcome
  forwarded : MatchOutcome
