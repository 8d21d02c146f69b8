-- ===== src/Tests/OrderRuns.antt =====
-- Lists and configurations in another order.
use dns_ligase.Program.Config.{Config}
use dns_ligase.Prelude.{refl, map, [], ◌∷◌, none, ◌≡◌, inl, Bytes, Bool-cases, inr}
use dns_ligase.Tests.Samples.{literal_patterns, files}
use dns_ligase.Blocklist.Unordered.{reads, both}
use dns_ligase.Program.Build.Each.{manual_each, lists_each, list_rules-each}
use dns_ligase.Program.Build.Unordered.{SameEntries, SameLines, decided, create_blocklist-order}
use dns_ligase.Program.Build.{fetch_lists, body_of}
use dns_ligase.Blocklist.Pieces.{lines}
use dns_ligase.Prelude.{Bool-cases, bytes_eq, inr}
use mathlib.Core.List.{Permᴰ}
use dns_ligase.Program.Build.{Fetching, create_blocklist, list_rules}
use dns_ligase.Cache.Store.{fresh}
use dns_ligase.Text.Search.{codes}
use dns_ligase.Tests.ProgramRuns.{one_list, bare, online, nothing_stored}

list_rules-each_example :
    reads (list_rules literal_patterns one_list ((codes "u", codes "b.com") ∷ []))
    ≡ both
        (manual_each literal_patterns one_list.matching)
        (lists_each literal_patterns one_list.blocklists ((codes "u", codes "b.com") ∷ []))
list_rules-each_example =
    list_rules-each literal_patterns one_list ((codes "u", codes "b.com") ∷ [])

-- Two entries and two lines, in either order.
abbrev two_entries : Config
two_entries = record bare {
  matching = record {
    manual_block = codes "||ads.com^" ∷ codes "x.org" ∷ [];
    manual_allow = [];
    regex_block = [];
    regex_allow = [];
  };
}

abbrev two_swapped : Config
two_swapped = record bare {
  matching = record {
    manual_block = codes "x.org" ∷ codes "||ads.com^" ∷ [];
    manual_allow = [];
    regex_block = [];
    regex_allow = [];
  };
}

abbrev b_c : Bytes
b_c = codes "b.com\nc.com\n"

abbrev c_b : Bytes
c_b = codes "c.com\nb.com\n"

abbrev brings : Bytes → Fetching
brings body = record online { downloads = map (λ j. (j.url, fresh body none)) }

two_entries-SameEntries : SameEntries two_entries two_swapped
two_entries-SameEntries = record {
  manual_block = ∣ Permᴰ.swap refl refl ∣₁;
  manual_allow = ∣ Permᴰ.nil ∣₁;
  regex_block = ∣ Permᴰ.nil ∣₁;
  regex_allow = ∣ Permᴰ.nil ∣₁;
  urls = ∣ Permᴰ.cons refl Permᴰ.nil ∣₁;
  allowlist_urls = ∣ Permᴰ.nil ∣₁;
  regex_block_urls = ∣ Permᴰ.nil ∣₁;
  regex_allow_urls = ∣ Permᴰ.nil ∣₁;
}

either_order :
    (url : Bytes)
    → SameLines
        (body_of url (fetch_lists files two_entries (brings b_c) nothing_stored).0)
        (body_of url (fetch_lists files two_swapped (brings c_b) nothing_stored).0)
unfolding fetch_lists body_of lines
either_order url = elim (Bool-cases (bytes_eq (codes "u") url)) [
  | inl e ↦ rw e (∣ Permᴰ.swap refl refl ∣₁)
  | inr e ↦ rw e tt
]

create_blocklist-order_example :
    decided literal_patterns
      (create_blocklist literal_patterns files two_entries (brings b_c) nothing_stored).0
      (codes "c.com")
    ≡ decided literal_patterns
        (create_blocklist literal_patterns files two_swapped (brings c_b) nothing_stored).0
        (codes "c.com")
create_blocklist-order_example =
    create_blocklist-order literal_patterns files files two_entries two_swapped (brings b_c)
      (brings c_b) nothing_stored nothing_stored (codes "c.com") two_entries-SameEntries
      either_order
