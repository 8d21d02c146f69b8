-- ===== src/Program/Build/Unordered.antt =====
-- The rules that `create_blocklist` of src/main.rs builds do not depend on any order.
use dns_ligase.Blocklist.Lines.{parse_each}
use dns_ligase.Blocklist.Check.{check}
use dns_ligase.Blocklist.Pieces.{lines}
use dns_ligase.Blocklist.Rules.{External, Blocklist}
use dns_ligase.Blocklist.Unordered.{RuleSet, reads}
use dns_ligase.Blocklist.Unordered.Loops.{alone, total, total-Perm}
use dns_ligase.Blocklist.Unordered.Verdict.{Verdict, verdict, decide}
use dns_ligase.Io.{ok, err, fault, Result}
use dns_ligase.Prelude.{true, false, List, Option, none, some, ◌≡◌, refl, sym, ap, ◌∙◌, Bytes}
use dns_ligase.Program.Build.{
  manual_block_rules, body_of, list_rules, create_blocklist, Fetching, Stored, fetch_lists,
}
use dns_ligase.Program.Build.Each.{total-ap, list_each, manual_each, lists_each, list_rules-each}
use dns_ligase.Program.Build.Loops.{Loop, allow_loop, regex_loop, regex_list_loop}
use dns_ligase.Program.Build.Manual.{create_blocklist-rules}
use dns_ligase.Cache.Store.{Disk}
use dns_ligase.Program.Config.{Config}
use mathlib.Core.List.{Permᴰ}

-- The same entries in every list, in whatever order.
pub record SameEntries (c c' : Config) : Type 0 where
  pub manual_block : ∥ Permᴰ c.matching.manual_block c'.matching.manual_block ∥₁
  pub manual_allow : ∥ Permᴰ c.matching.manual_allow c'.matching.manual_allow ∥₁
  pub regex_block : ∥ Permᴰ c.matching.regex_block c'.matching.regex_block ∥₁
  pub regex_allow : ∥ Permᴰ c.matching.regex_allow c'.matching.regex_allow ∥₁
  pub urls : ∥ Permᴰ c.blocklists.urls c'.blocklists.urls ∥₁
  pub allowlist_urls : ∥ Permᴰ c.blocklists.allowlist_urls c'.blocklists.allowlist_urls ∥₁
  pub regex_block_urls : ∥ Permᴰ c.blocklists.regex_block_urls c'.blocklists.regex_block_urls ∥₁
  pub regex_allow_urls : ∥ Permᴰ c.blocklists.regex_allow_urls c'.blocklists.regex_allow_urls ∥₁

-- The same lines, in whatever order.
abbrev pub SameLines : Option Bytes → Option Bytes → Type 0
SameLines (some a) (some b) = ∥ Permᴰ (lines a) (lines b) ∥₁
SameLines none none = Unit
SameLines _ _ = ⊥

module _ (x : External) where
  -- What the rules, if they are built, decide on a name.
  abbrev pub decided : Result (Blocklist x.Regex) → Bytes → Option Verdict
  decided (ok bl) d = some (verdict (check x bl d))
  decided (err e) d = none
  decided (fault f) d = none

  abbrev read_decided : Option (RuleSet x.Regex) → Bytes → Option Verdict
  read_decided (some s) d = some (decide x s d)
  read_decided none d = none

  decided-reads :
      (r : Result (Blocklist x.Regex)) (d : Bytes) → decided r d ≡ read_decided (reads r) d
  unfolding decide
  decided-reads (ok bl) d = refl
  decided-reads (err e) d = refl
  decided-reads (fault f) d = refl

  list_each-SameLines :
      (loop : Loop x) (a b : Option Bytes) → SameLines a b → list_each x loop a ≡ list_each x loop b
  list_each-SameLines loop (some a) (some b) h = total-Perm (alone loop) (lines a) (lines b) h
  list_each-SameLines loop none none h = refl
  list_each-SameLines loop (some a) none h = absurd h
  list_each-SameLines loop none (some b) h = absurd h

  total-SameLines :
      (loop : Loop x) (bodies bodies' : List (Bytes × Bytes)) (us vs : List Bytes)
      → ((url : Bytes) → SameLines (body_of url bodies) (body_of url bodies'))
      → ∥ Permᴰ us vs ∥₁
      → total (λ url. list_each x loop (body_of url bodies)) us
        ≡ total (λ url. list_each x loop (body_of url bodies')) vs
  total-SameLines loop bodies bodies' us vs h p =
      total-ap (λ url. list_each x loop (body_of url bodies))
        (λ url. list_each x loop (body_of url bodies')) us
        (λ url. list_each-SameLines loop (body_of url bodies) (body_of url bodies') (h url))
      ∙ total-Perm (λ url. list_each x loop (body_of url bodies')) us vs p

  list_rules-SameEntries :
      (c c' : Config) (bodies bodies' : List (Bytes × Bytes))
      → SameEntries c c'
      → ((url : Bytes) → SameLines (body_of url bodies) (body_of url bodies'))
      → reads (list_rules x c bodies) ≡ reads (list_rules x c' bodies')
  unfolding manual_each lists_each
  list_rules-SameEntries c c' bodies bodies' e h =
      list_rules-each x c bodies
      ∙ (rw
            (
              total-Perm (alone (manual_block_rules x)) _ _ e.manual_block,
              total-Perm (alone (allow_loop x)) _ _ e.manual_allow,
              total-Perm (alone (regex_loop x false)) _ _ e.regex_block,
              total-Perm (alone (regex_loop x true)) _ _ e.regex_allow,
              total-SameLines (parse_each x false) bodies bodies' _ _ h e.urls,
              total-SameLines (parse_each x true) bodies bodies' _ _ h e.allowlist_urls,
              total-SameLines (regex_list_loop x false) bodies bodies' _ _ h e.regex_block_urls,
              total-SameLines (regex_list_loop x true) bodies bodies' _ _ h e.regex_allow_urls,
            )
            refl
          ∙ sym (list_rules-each x c' bodies'))

  -- If two runs of `create_blocklist`, over disks and from caches that may differ, have configurations
  -- with the same entries in every list and come to bodies with the same lines for every URL, each
  -- in any order, then every name is decided alike under the rules of both, or both panic.
  pub create_blocklist-order :
      (disk disk' : Disk) (c c' : Config) (f f' : Fetching) (stored : Stored disk)
      (stored' : Stored disk') (d : Bytes)
      → SameEntries c c'
      → ((url : Bytes)
          → SameLines
              (body_of url (fetch_lists disk c f stored).0)
              (body_of url (fetch_lists disk' c' f' stored').0))
      → decided (create_blocklist x disk c f stored).0 d
        ≡ decided (create_blocklist x disk' c' f' stored').0 d
  create_blocklist-order disk disk' c c' f f' stored stored' d e h =
      rw (create_blocklist-rules x disk c f stored, create_blocklist-rules x disk' c' f' stored')
        (decided-reads (list_rules x c (fetch_lists disk c f stored).0) d
          ∙ (ap (λ s. read_decided s d)
                (list_rules-SameEntries c c' (fetch_lists disk c f stored).0
                  (fetch_lists disk' c' f' stored').0 e h)
              ∙ sym (decided-reads (list_rules x c' (fetch_lists disk' c' f' stored').0) d)))
